-- ===== src/Farmer/Exits.antt =====
-- farm/reward_farmer.py: the prices that the exits of held shares rest at.
pub mod Floors
use mathlib.Core.Option.{map as map_option}
use polymarket_tools.Prelude.{
  ℕ, String, Bool, true, false, not, ◌&&◌, ◌||◌, Option, none, some, is_some, List, [], ◌∷◌, ◌++◌,
  any, if◌then◌else◌,
}
use polymarket_tools.Floats.{Floats, ◌<?◌, ◌≤?◌, ◌⊕◌, ◌⊖◌, ◌⊗◌, ◌⊘◌, absolute, decimal, max, min}
use polymarket_tools.Floats.Maths.{Maths}
use polymarket_tools.Python.{Result, ok, err, other_error, ◌>>=◌}
use polymarket_tools.Screener.Scores.{
  Levels, adjusted_mid, adjust_levels, tick_decimals, round_size_down,
}
use polymarket_tools.Screener.Longshot.{LongshotBid, longshot_bid}
use polymarket_tools.Screener.Candidates.{fav_ceiling}
use polymarket_tools.Farmer.Fills.{
  Slot, fav_bid, long_ask, fav_ask, long_bid, role, slot_side, Position, Intent, order_min_shares,
}
use polymarket_tools.Farmer.Lifecycle.{FarmConfig}
use polymarket_tools.Farmer.Pricing.{
  FarmMarket, Target, FavChoice, token, order_score, sized_score, capital_room, naked_room,
  long_zones, ceil_to_tick, exit_floor, long_exit_floor, mirror,
}

module _ {F : Type 0} ⦃fl : Floats F⦄ where
  -- The midpoint before the fill, 0 for none
  abbrev or_zero : Option F → F
  or_zero none = decimal 0 0
  or_zero (some x) = x

  abbrev pub top_price : List (F × F) → Option F
  top_price [] = none
  top_price ((p, s) ∷ side) = some p

module _ {F : Type 0} ⦃fl : Floats F⦄ ⦃ma : Maths F⦄ where
  abbrev mirrored_ask : Option F → FarmMarket F → Position F → FarmConfig F → Option F
  mirrored_ask none fm position cfg = none
  mirrored_ask (some fav_price) fm position cfg =
      some (max (mirror fav_price fm.tick) (long_exit_floor position fm cfg))

  unfoldable pub plan_long_ask_price :
      FarmMarket F → Levels F → Option F → Position F → FarmConfig F → Option F
  unfolding fav_ceiling mirror long_exit_floor
  plan_long_ask_price fm levels (some fav_price) position cfg =
      mirrored_ask (some fav_price) fm position cfg
  plan_long_ask_price fm levels none position cfg =
      mirrored_ask (fav_ceiling levels fm.tick fm.min_size cfg.max_lead) fm position cfg

  -- The price before the cap of a tick under 1.
  abbrev uncapped_ask : FarmMarket F → F → Position F → FarmConfig F → Option F → Option F → F
  uncapped_ask fm book_mid position cfg fill_mid best_bid =
      let anchor = max book_mid (or_zero fill_mid) in
      let price =
        max (ceil_to_tick (anchor ⊕ max cfg.ask_offset fm.tick) fm.tick)
          (exit_floor position fm cfg) in
      elim best_bid [ none ↦ price | some bid ↦ max price (ceil_to_tick (bid ⊕ fm.tick) fm.tick) ]

  abbrev pub highest_ask : FarmMarket F → F
  highest_ask fm = fl.round_to (decimal 1 0 ⊖ fm.tick) (tick_decimals fm.tick)

  abbrev pub crosses : Option F → F → Bool
  crosses none price = false
  crosses (some bid) price = price ≤? (bid ⊕ decimal 1 9)

  unfoldable pub plan_fav_ask_price :
      FarmMarket F → Levels F → F → Position F → FarmConfig F → Option F → Option F
  unfolding ceil_to_tick exit_floor
  plan_fav_ask_price fm levels book_mid position cfg fill_mid =
      let best_bid = top_price levels.bids in
      let price = min (uncapped_ask fm book_mid position cfg fill_mid best_bid) (highest_ask fm) in
      if crosses best_bid price then none else some price
