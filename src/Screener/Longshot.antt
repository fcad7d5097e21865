-- ===== src/Screener/Longshot.antt =====
-- farm/reward_screener.py: the longshot bid that balances a favorite bid.
pub mod Bounds
pub mod Climb
use mathlib.Core.Option.{map as map_option}
use polymarket_tools.Prelude.{
  ℕ, zero, suc, Bool, true, false, not, ◌&&◌, ◌||◌, Option, none, some, List, [], ◌∷◌, map, keep_if,
  if◌then◌else◌,
}
use polymarket_tools.Floats.{Floats, ◌<?◌, ◌≤?◌, ◌⊕◌, ◌⊖◌, ◌⊗◌, ◌⊘◌, decimal, max, min}
use polymarket_tools.Floats.Maths.{Maths}
use polymarket_tools.Screener.Scores.{Levels, score, tick_decimals, round_size_up, round_size_down}
use polymarket_tools.Screener.Zones.{Zones, over_max_return, sized_without_budget}

pub record LongshotBid (F : Type 0) : Type 0 where
  pub price : F
  pub size : F
  pub score : F

abbrev pub with_first {ℓ} : {A : Type ℓ} → A → Option (List A) → Option (List A)
with_first x none = none
with_first x (some xs) = some (x ∷ xs)

module _ {F : Type 0} ⦃fl : Floats F⦄ where
  -- The prices under a book's favorite best bid, mirrored, and under the longshot midpoint.
  abbrev pub low_limit : List (F × F) → F → F
  low_limit [] low_mid = low_mid
  low_limit ((bid, size) ∷ bids) low_mid = min low_mid (decimal 1 0 ⊖ bid)

  -- scored[-1][1] of a list that is not empty
  abbrev pub last_score : List (F × F) → Option F
  last_score [] = none
  last_score (x ∷ []) = some x.1
  last_score (x ∷ y ∷ ys) = last_score (y ∷ ys)

  abbrev pub reaches : F → Option F → Bool
  reaches min_score none = false
  reaches min_score (some s) = not (s <? min_score)

module _ {F : Type 0} ⦃fl : Floats F⦄ ⦃ma : Maths F⦄ where
  -- round(n * tick, decimals)
  abbrev pub tick_price : F → ℕ → F
  tick_price tick n = fl.round_to (decimal n 0 ⊗ tick) (tick_decimals tick)

  -- The loop from the n-th tick up: the prices under the limit with their scores, to the first
  -- that scores min_score; none where the fuel runs out before.
  unfoldable pub ladder : (fuel : ℕ) → F → F → F → F → F → ℕ → Option (List (F × F))
  unfolding score
  ladder zero tick limit low_mid v min_score n = none
  ladder (suc fuel) tick limit low_mid v min_score n =
      let rest = ladder fuel tick limit low_mid v min_score (suc n) in
      let price = tick_price tick n in
      let s = score v (low_mid ⊖ price) in
      if not (price <? (limit ⊖ decimal 1 9))
      then some []
      else if min_score ≤? s
      then some ((price, s) ∷ [])
      else with_first (price, s) rest

  -- A price that scores and that offers no more than MAX_RETURN.
  abbrev pub allowed : Zones F → F × F → Bool
  allowed zones (price, s) = (decimal 0 0 <? s) && not (over_max_return price zones.years_left)

  abbrev pub covering : F → F → F → F
  covering min_size need s = max min_size (round_size_up (need ⊘ s))

  -- A price whose covering size may rest.
  abbrev pub fits : F → F → F → F → Zones F → F × F → Bool
  fits v min_size need room zones (price, s) =
      sized_without_budget price s v zones
      || ((covering min_size need s ⊗ price) ≤? (room ⊕ decimal 1 9))

  abbrev pub first_fitting : F → F → F → F → Zones F → List (F × F) → Option (LongshotBid F)
  first_fitting v min_size need room zones [] = none
  first_fitting v min_size need room zones ((price, s) ∷ scored) =
      let rest = first_fitting v min_size need room zones scored in
      if fits v min_size need room zones (price, s)
      then some (record { price = price; size = covering min_size need s; score = s })
      else rest

  abbrev pub whole_room : F → F × F → LongshotBid F
  whole_room room (price, s) = record {
    price = price;
    size = round_size_down (room ⊘ price);
    score = s;
  }

  -- (score * size, -price) of a over that of b
  abbrev pub scores_over : LongshotBid F → LongshotBid F → Bool
  scores_over a b =
      let of_a = a.score ⊗ a.size in
      let of_b = b.score ⊗ b.size in
      if fl.eq of_a of_b then ma.negate b.price <? ma.negate a.price else of_b <? of_a

  -- max(..., key=...), which keeps the first of equals
  abbrev pub best_of : LongshotBid F → List (LongshotBid F) → LongshotBid F
  best_of best [] = best
  best_of best (bid ∷ bids) = best_of (if scores_over bid best then bid else best) bids

  abbrev pub whole_room_bid : F → F → List (F × F) → Option (LongshotBid F)
  whole_room_bid min_size room [] = none
  whole_room_bid min_size room (x ∷ scored) =
      let bid = best_of (whole_room room x) (map (whole_room room) scored) in
      if min_size ≤? bid.size then some bid else none

  abbrev pub or_else : Option (LongshotBid F) → Option (LongshotBid F) → Option (LongshotBid F)
  or_else (some bid) other = some bid
  or_else none other = other

  -- The bid among the ladder's prices.
  abbrev pub choose : F → F → F → F → F → Zones F → List (F × F) → Option (LongshotBid F)
  choose v min_size need room min_score zones scored =
      if not (reaches min_score (last_score scored))
      then none
      else or_else (first_fitting v min_size need room zones (keep_if (allowed zones) scored))
          (whole_room_bid min_size room (keep_if (allowed zones) scored))

  -- The outer none is that the fuel ran out.
  unfoldable pub longshot_bid :
      (fuel : ℕ) → Levels F → F → F → F → F → F → F → F → Zones F → Option (Option (LongshotBid F))
  unfolding ladder over_max_return sized_without_budget round_size_up
  longshot_bid fuel levels mid v tick min_size need room min_score zones =
      let low_mid = decimal 1 0 ⊖ mid in
      if need ≤? decimal 0 0
      then some none
      else map_option (choose v min_size need room min_score zones)
          (ladder fuel tick (low_limit levels.bids low_mid) low_mid v min_score 1)
