-- ===== src/Screener/Scores.antt =====
-- farm/reward_screener.py: ticks, sizes, scores and midpoints.
use polymarket_tools.Prelude.{
  ℕ, Bool, true, false, not, ◌&&◌, ◌||◌, Option, none, some, List, [], ◌∷◌, keep_if, find_if,
  if◌then◌else◌,
}
use polymarket_tools.Floats.{Floats, ◌<?◌, ◌≤?◌, ◌⊕◌, ◌⊖◌, ◌⊗◌, ◌⊘◌, decimal, max, min}
use polymarket_tools.Floats.Maths.{Maths}

-- One token's book: (price, size), bids high to low and asks low to high.
pub record Levels (F : Type 0) : Type 0 where
  pub bids : List (F × F)
  pub asks : List (F × F)

module _ {F : Type 0} ⦃fl : Floats F⦄ where
  -- score(v, s), its square as a product
  unfoldable pub score : F → F → F
  score v s =
      let at_mid = ((decimal 0 0 ⊖ decimal 1 9) <? s) && (s <? decimal 0 0) in
      let s' = if at_mid then decimal 0 0 else s in
      if (decimal 0 0 ≤? s') && (s' <? v) then (let r = (v ⊖ s') ⊘ v in r ⊗ r) else decimal 0 0

  -- TWO_SIDED_ABOVE
  abbrev pub two_sided_above : F
  two_sided_above = decimal 90 2

  unfoldable pub q_min : F → F → F → F
  q_min q_one q_two mid =
      if (mid ≤? two_sided_above) && ((decimal 1 0 ⊖ two_sided_above) ≤? mid)
      then max (min q_one q_two) (max q_one q_two ⊘ decimal 3 0)
      else min q_one q_two

  abbrev pub best_level : List (F × F) → F → Option (F × F)
  best_level side min_size = find_if (λ level. min_size ≤? level.1) side

  -- best_price
  abbrev pub best_price : List (F × F) → F → Option F
  best_price [] min_size = none
  best_price ((p, s) ∷ side) min_size =
      let rest = best_price side min_size in if min_size ≤? s then some p else rest

  abbrev halfway : Option F → Option F → Option F
  halfway (some bid) (some ask) = some ((bid ⊕ ask) ⊘ decimal 2 0)
  halfway _ _ = none

  abbrev pub adjusted_mid : List (F × F) → List (F × F) → F → Option F
  adjusted_mid bids asks min_size = halfway (best_price bids min_size) (best_price asks min_size)

  -- The tests that fragile_mid makes of the midpoint with the best level pulled.
  abbrev fragile_without : Option F → Option F → F → F → Bool
  fragile_without mid none min_fav fragile_drop = true
  fragile_without none (some pulled) min_fav fragile_drop = pulled <? min_fav
  fragile_without (some mid) (some pulled) min_fav fragile_drop =
      (pulled <? min_fav) || ((fragile_drop ⊖ decimal 1 9) ≤? (mid ⊖ pulled))

  abbrev is_best : Option (F × F) → F × F → Bool
  is_best none level = false
  is_best (some (p, s)) (q, t) = fl.eq q p && fl.eq t s

  unfoldable pub fragile_mid : Levels F → F → F → F → Bool
  fragile_mid levels min_size min_fav fragile_drop =
      fragile_without (adjusted_mid levels.bids levels.asks min_size)
        (adjusted_mid
          (keep_if (λ level. not (is_best (best_level levels.bids min_size) level)) levels.bids)
          levels.asks min_size)
        min_fav fragile_drop

  -- sizes[price] = size, in a dict of sizes by price
  abbrev put_size : F → F → List (F × F) → List (F × F)
  put_size p s [] = (p, s) ∷ []
  put_size p s ((q, t) ∷ sizes) =
      let rest = put_size p s sizes in if fl.eq q p then (q, s) ∷ sizes else (q, t) ∷ rest

  -- dict(side)
  abbrev by_price : List (F × F) → List (F × F) → List (F × F)
  by_price sizes [] = sizes
  by_price sizes ((p, s) ∷ side) = by_price (put_size p s sizes) side

  -- sizes[price] = sizes.get(price, 0.0) + size
  abbrev add_size : F → F → List (F × F) → List (F × F)
  add_size p s [] = (p, decimal 0 0 ⊕ s) ∷ []
  add_size p s ((q, t) ∷ sizes) =
      let rest = add_size p s sizes in if fl.eq q p then (q, t ⊕ s) ∷ sizes else (q, t) ∷ rest

  abbrev add_sizes : List (F × F) → List (F × F) → List (F × F)
  add_sizes sizes [] = sizes
  add_sizes sizes ((p, s) ∷ extra) = add_sizes (add_size p s sizes) extra

  -- sorted by price; the prices of a dict are distinct
  abbrev insert_level : Bool → F × F → List (F × F) → List (F × F)
  insert_level descending x [] = x ∷ []
  insert_level descending x (y ∷ ys) =
      let rest = insert_level descending x ys in
      if if descending then y.0 <? x.0 else x.0 <? y.0 then x ∷ y ∷ ys else y ∷ rest

  abbrev sorted : Bool → List (F × F) → List (F × F)
  sorted descending [] = []
  sorted descending (x ∷ xs) = insert_level descending x (sorted descending xs)

  -- adjust_levels' merge
  abbrev pub merge : List (F × F) → List (F × F) → Bool → List (F × F)
  merge side extra descending =
      sorted descending
        (keep_if (λ level. decimal 1 9 <? level.1) (add_sizes (by_price [] side) extra))

  unfoldable pub adjust_levels : Levels F → List (F × F) → List (F × F) → Levels F
  adjust_levels levels bids asks = record {
    bids = merge levels.bids bids true;
    asks = merge levels.asks asks false;
  }

  unfoldable pub created_mid : F → F → F → F
  created_mid price best_bid best_ask = (max price best_bid ⊕ best_ask) ⊘ decimal 2 0

  abbrev pub round_size_down : F → F
  round_size_down size = fl.floor (fl.round_to (size ⊗ decimal 100 0) 6) ⊘ decimal 100 0

module _ {F : Type 0} ⦃fl : Floats F⦄ ⦃ma : Maths F⦄ where
  -- max(0, round(-log10(tick)))
  abbrev pub tick_decimals : F → ℕ
  tick_decimals tick = ma.nearest (ma.negate (ma.log10 tick))

  unfoldable pub floor_to_tick : F → F → F
  floor_to_tick price tick =
      fl.round_to (fl.floor (fl.round_to (price ⊘ tick) 6) ⊗ tick) (tick_decimals tick)

  unfoldable pub round_size_up : F → F
  round_size_up size = ma.ceil (fl.round_to (size ⊗ decimal 100 0) 6) ⊘ decimal 100 0
