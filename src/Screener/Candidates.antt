-- ===== src/Screener/Candidates.antt =====
-- farm/reward_screener.py: the favorite bid prices worth valuing.
pub mod Descend
use polymarket_tools.Prelude.{
  ℕ, zero, suc, Bool, ◌&&◌, Option, none, some, List, [], ◌∷◌, if◌then◌else◌,
}
use polymarket_tools.Floats.{Floats, ◌<?◌, ◌≤?◌, ◌⊕◌, ◌⊖◌, decimal, min}
use polymarket_tools.Floats.Maths.{Maths}
use polymarket_tools.Screener.Scores.{
  Levels, score, best_price, created_mid, tick_decimals, floor_to_tick,
}
use polymarket_tools.Screener.Longshot.{with_first}

module _ {F : Type 0} ⦃fl : Floats F⦄ ⦃ma : Maths F⦄ where
  abbrev pub lead_price : F → F → F → F × F → F
  lead_price tick max_lead best_bid ask =
      min (floor_to_tick (best_bid ⊕ max_lead) tick) (floor_to_tick (ask.0 ⊖ tick) tick)

  -- With the best bid and the best ask of at least min_size, and the asks.
  abbrev pub ceiling_at : F → F → Option F → Option F → List (F × F) → Option F
  ceiling_at tick max_lead (some best_bid) (some best_ask) (ask ∷ asks) =
      let price = lead_price tick max_lead best_bid ask in
      if (tick ⊖ decimal 1 9) ≤? price then some price else none
  ceiling_at tick max_lead _ _ _ = none

  unfoldable pub fav_ceiling : Levels F → F → F → F → Option F
  unfolding floor_to_tick
  fav_ceiling levels tick min_size max_lead =
      ceiling_at tick max_lead (best_price levels.bids min_size) (best_price levels.asks min_size)
        levels.asks

  -- Whether the loop goes on at a price.
  abbrev pub scores_at : F → F → F → F → F → Bool
  scores_at v tick best_bid best_ask price =
      ((tick ⊖ decimal 1 9) ≤? price)
      && (decimal 1 9 <? score v (created_mid price best_bid best_ask ⊖ price))

  -- The loop from a price down; none where the fuel runs out before.
  unfoldable pub descend : (fuel : ℕ) → F → F → F → F → F → Option (List F)
  unfolding score created_mid
  descend zero v tick best_bid best_ask price = none
  descend (suc fuel) v tick best_bid best_ask price =
      let rest =
        descend fuel v tick best_bid best_ask (fl.round_to (price ⊖ tick) (tick_decimals tick)) in
      if scores_at v tick best_bid best_ask price then with_first price rest else some []

  abbrev pub capped : F → Option F → F
  capped price none = price
  capped price (some cap) = min price cap

  abbrev pub descend_from :
      (fuel : ℕ) → F → F → Option F → Option F → Option F → Option F → Option (List F)
  descend_from fuel v tick (some ceiling) cap (some best_bid) (some best_ask) =
      descend fuel v tick best_bid best_ask (capped ceiling cap)
  descend_from fuel v tick _ cap _ _ = some []

  unfoldable pub fav_bid_candidates :
      (fuel : ℕ) → Levels F → F → F → F → F → Option F → Option (List F)
  unfolding descend fav_ceiling
  fav_bid_candidates fuel levels v tick min_size max_lead cap =
      descend_from fuel v tick (fav_ceiling levels tick min_size max_lead) cap
        (best_price levels.bids min_size) (best_price levels.asks min_size)
