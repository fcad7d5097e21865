-- ===== src/Farmer/Reconcile.antt =====
-- farm/reward_farmer.py: the cancels and places that turn the resting orders into the targets.
pub mod Settling
pub mod Loop
pub mod Refine
use polymarket_tools.Prelude.{
  ℕ, String, Bool, true, false, not, ◌&&◌, ◌||◌, Option, none, some, is_some, List, [], ◌∷◌, ◌++◌,
  map, keep_if, lookup, contains, str_eq, if◌then◌else◌,
}
use polymarket_tools.Floats.{Floats, ◌<?◌, ◌≤?◌, ◌⊕◌, ◌⊖◌, ◌⊗◌, ◌⊘◌, absolute, decimal, max}
use polymarket_tools.Floats.Maths.{Maths}
use polymarket_tools.Python.{Result, ok, err, Error, attribute_error, other_error, ◌>>=◌}
use polymarket_tools.Polymarket.Orders.{Side, buy, sell}
use polymarket_tools.Screener.Scores.{tick_decimals}
use polymarket_tools.Screener.Zones.{over_max_return}
use polymarket_tools.Screener.Values.{QuoteValue, net_per_day}
use polymarket_tools.Farmer.Fills.{
  Slot, fav_bid, long_ask, fav_ask, long_bid, same_slot, Position, Intent, Action, cancel, place,
}
use polymarket_tools.Farmer.Lifecycle.{FarmConfig}
use polymarket_tools.Farmer.Pricing.{
  FarmMarket, LiveOrder, FavChoice, Target, is_buy, on_tick, order_score, capital_room, naked_room,
  ev_cap, exit_floor, long_exit_floor, free_of_budget,
}
use polymarket_tools.Farmer.Keep.{keep_failure}

-- targets.get(slot), of the dict of the intents by their slots
abbrev pub target_of : {F : Type 0} → Slot → List (Intent F) → Option (Intent F)
target_of slot [] = none
target_of slot (intent ∷ intents) = elim (target_of slot intents) [
  | some later ↦ some later
  | none ↦ if same_slot intent.slot slot then some intent else none
]

-- What a slot keeps, cancels and places.
pub record Settled (F : Type 0) : Type 0 where
  pub kept : Option (LiveOrder F)
  pub cancelled : List (LiveOrder F)
  pub placed : List (Intent F)

abbrev pub slots : List Slot
slots = fav_bid ∷ long_ask ∷ fav_ask ∷ long_bid ∷ []

module _ {F : Type 0} where
  abbrev pub in_slot : Slot → List (LiveOrder F) → List (LiveOrder F)
  in_slot slot orders = keep_if (λ o. same_slot o.slot slot) orders

  abbrev pub also_cancels : LiveOrder F → Settled F → Settled F
  also_cancels order settled = record settled { cancelled = order ∷ settled.cancelled }

  -- The first order that the test does not fail stays. With none, the intent is placed.
  unfoldable pub settle_orders :
      (LiveOrder F → Result (Option String)) → Intent F → List (LiveOrder F) → Result (Settled F)
  settle_orders failure intent [] =
      ok (record { kept = none; cancelled = []; placed = intent ∷ [] })
  settle_orders failure intent (order ∷ orders) =
      let rest = settle_orders failure intent orders in
      failure order >>= (λ reason. elim reason [
        | none ↦ ok (record { kept = some order; cancelled = orders; placed = [] })
        | some _ ↦ rest >>= (λ settled. ok (also_cancels order settled))
      ])

  abbrev pub settle_slot :
      (LiveOrder F → Intent F → Result (Option String))
      → Option (Intent F)
      → List (LiveOrder F)
      → Result (Settled F)
  settle_slot failure none orders = ok (record { kept = none; cancelled = orders; placed = [] })
  settle_slot failure (some intent) orders =
      settle_orders (λ order. failure order intent) intent orders

  -- The loop over the slots: every cancel and every place, in order.
  unfoldable pub settle :
      (LiveOrder F → Intent F → Result (Option String))
      → List (Intent F)
      → List (LiveOrder F)
      → List Slot
      → Result (List (LiveOrder F) × List (Intent F))
  unfolding settle_orders
  settle failure intents live [] = ok ([], [])
  settle failure intents live (slot ∷ rest) =
      let others = settle failure intents live rest in
      settle_slot failure (target_of slot intents) (in_slot slot live)
      >>= (λ settled. others >>= (λ r. ok (settled.cancelled ++ r.0, settled.placed ++ r.1)))

  abbrev pub actions_of : List (LiveOrder F) × List (Intent F) → List (Action F)
  actions_of ([], placed) = map place placed
  actions_of (order ∷ cancelled, placed) =
      cancel (map (λ o. o.id) (order ∷ cancelled)) ∷ map place placed

module _ {F : Type 0} ⦃fl : Floats F⦄ ⦃ma : Maths F⦄ where
  unfoldable pub reconcile :
      Target F
      → List (LiveOrder F)
      → FarmMarket F
      → Position F
      → FarmConfig F
      → Result (List (Action F))
  unfolding settle keep_failure
  reconcile target live fm position cfg =
      settle (λ order intent. keep_failure order intent target fm position cfg) target.intents live
        slots
      >>= (λ r. ok (actions_of r))
