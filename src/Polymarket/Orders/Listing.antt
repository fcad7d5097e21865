-- ===== src/Polymarket/Orders/Listing.antt =====
-- polymarket/orders.py: the listing of open orders is read whole or not at all.
use polymarket_tools.Prelude.{◌≡◌, ◌↔◌, List, [], ◌∷◌, arith, refl}
use polymarket_tools.Floats.{Floats}
use polymarket_tools.Python.{Json, array, object, Items, nil, cons, Texts, Builtins, ok}
use polymarket_tools.Polymarket.Orders.{OpenOrder, parse_order, parse_orders, open_orders}

module _ {F : Type 0} ⦃fl : Floats F⦄ ⦃py : Builtins F⦄ ⦃tx : Texts⦄ where
  -- One order for each entry, in the same order, and each parsed from its entry.
  abbrev pub Parses : Items F → List (OpenOrder F) → Type 0
  Parses nil [] = Unit
  Parses (cons entry entries) (o ∷ os) = (parse_order entry ≡ ok o) × Parses entries os
  Parses _ _ = ⊥

  parse_orders-Parses :
      (entries : Items F) (os : List (OpenOrder F))
      → parse_orders entries ≡ ok os
      → Parses entries os
  unfolding parse_orders
  parse_orders-Parses nil [] h = tt
  parse_orders-Parses nil (o ∷ os) h = cc
  parse_orders-Parses (cons entry entries) [] h = ground arith
  parse_orders-Parses (cons entry entries) (o ∷ os) h =
      ground (arith, parse_orders-Parses entries os)

  parse_orders_complete :
      (entries : Items F) (os : List (OpenOrder F))
      → Parses entries os
      → parse_orders entries ≡ ok os
  unfolding parse_orders
  parse_orders_complete nil [] h = refl
  parse_orders_complete nil (o ∷ os) h = absurd h
  parse_orders_complete (cons entry entries) [] h = absurd h
  parse_orders_complete (cons entry entries) (o ∷ os) h =
      ground (arith, parse_orders_complete entries os)

  abbrev pub Lists : Json F → List (OpenOrder F) → Type 0
  Lists (array entries) os = Parses entries os
  Lists _ os = ⊥

  -- The listing gives these orders exactly when it is a list and they are what its entries parse
  -- to, one for each entry in their order: an entry that does not parse gives no shorter list.
  pub open_orders-eq-ok :
      (listed : Json F) (os : List (OpenOrder F)) → (open_orders listed ≡ ok os) ↔ Lists listed os
  unfolding open_orders
  open_orders-eq-ok (array entries) os =
      (parse_orders-Parses entries os, parse_orders_complete entries os)
  open_orders-eq-ok (object fields) os = ground arith
  open_orders-eq-ok _ os = ground arith
