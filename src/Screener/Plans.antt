-- ===== src/Screener/Plans.antt =====
-- farm/reward_screener.py: the plan of a market's two quotes that earns the most net of its fills.
pub mod Pays
use polymarket_tools.Prelude.{
  ℕ, String, Bool, true, false, Option, none, some, List, [], ◌∷◌, if◌then◌else◌,
}
use polymarket_tools.Floats.{Floats, ◌<?◌, ◌≤?◌, ◌⊕◌, ◌⊖◌, ◌⊗◌, ◌⊘◌, decimal, max, min}
use polymarket_tools.Floats.Maths.{Maths}
use polymarket_tools.Python.{Error, other_error}
use polymarket_tools.Screener.Scores.{
  Levels, score, q_min, adjusted_mid, adjust_levels, round_size_down,
}
use polymarket_tools.Screener.Zones.{Zones, under_free_return}
use polymarket_tools.Screener.Longshot.{LongshotBid, longshot_bid}
use polymarket_tools.Screener.Candidates.{fav_bid_candidates}
use polymarket_tools.Screener.Values.{Outlook, QuoteValue, net_per_day, value_quote}

pub data Mode : Type 0 where
  floor_mode budget_mode sole_mode : Mode

pub record QuotePlan (F : Type 0) : Type 0 where
  pub mid : F
  pub fav_bid_price : F
  pub fav_bid_size : F
  pub fav_bid_score : F
  pub low_price : F
  pub low_size : F
  pub low_score : F
  pub mode : Mode

-- What planning a market gives: a plan, a Skip with its reason, or an exception; `unfinished` is
-- that the fuel of a loop over prices ran out.
pub data Plan {ℓ} (A : Type ℓ) : Type ℓ where
  planned : A → Plan A
  skipped : String → Plan A
  raised : Error → Plan A
  unfinished : Plan A

-- What plan_at and plan_quotes read of a RewardMarket.
pub record MarketTerms (F : Type 0) : Type 0 where
  pub tick : F
  pub v : F
  pub min_size : F

-- What they read of a ScreenConfig.
pub record ScreenTerms (F : Type 0) : Type 0 where
  pub capital : F
  pub max_lead : F
  pub min_low_score : F
  pub naked_budget : F

-- A plan and what it is worth.
abbrev pub Valued : Type 0 → Type 0
Valued F = QuotePlan F × QuoteValue F

module _ {F : Type 0} ⦃fl : Floats F⦄ ⦃ma : Maths F⦄ where
  -- The favorite bid shrinks to what the longshot bid balances.
  with_low : MarketTerms F → F → F → F → F → F → Option (LongshotBid F) → Plan (QuotePlan F)
  unfolding under_free_return
  with_low market fav_price years_left mid fav_score fav_size none =
      skipped "no scoring longshot bid within the naked budget"
  with_low market fav_price years_left mid fav_score fav_size (some low) =
      let size = min fav_size (round_size_down ((low.score ⊗ low.size) ⊘ fav_score)) in
      if size <? market.min_size
      then skipped "no scoring longshot bid within the naked budget"
      else planned (record {
        mid = mid;
        fav_bid_price = fav_price;
        fav_bid_size = size;
        fav_bid_score = fav_score;
        low_price = low.price;
        low_size = low.size;
        low_score = low.score;
        mode = if under_free_return low.price years_left then floor_mode else budget_mode;
      })

  abbrev finished :
      Option (Option (LongshotBid F))
      → (Option (LongshotBid F) → Plan (QuotePlan F))
      → Plan (QuotePlan F)
  finished none f = unfinished
  finished (some low) f = f low

  -- With the midpoint that the favorite bid makes.
  plan_with :
      (fuel : ℕ)
      → MarketTerms F
      → Levels F
      → ScreenTerms F
      → F
      → F
      → F
      → Option F
      → Plan (QuotePlan F)
  unfolding with_low score longshot_bid
  plan_with fuel market levels config fav_price years_left fav_size none =
      raised (other_error "TypeError")
  plan_with fuel market levels config fav_price years_left fav_size (some mid) =
      let fav_score = score market.v (mid ⊖ fav_price) in
      if fav_score ≤? decimal 0 0
      then skipped "favorite bid outside band"
      else finished
          (longshot_bid fuel levels mid market.v market.tick market.min_size (fav_score ⊗ fav_size)
            config.naked_budget config.min_low_score
            (record {
              years_left = years_left;
              steady_mid = adjusted_mid levels.bids levels.asks market.min_size;
            }))
          (with_low market fav_price years_left mid fav_score fav_size)

  unfoldable pub plan_at :
      (fuel : ℕ) → MarketTerms F → Levels F → ScreenTerms F → F → F → Plan (QuotePlan F)
  unfolding plan_with adjust_levels
  plan_at fuel market levels config fav_price years_left =
      let fav_size = max market.min_size (round_size_down (config.capital ⊘ fav_price)) in
      let quoted = adjust_levels levels ((fav_price, fav_size) ∷ []) [] in
      plan_with fuel market levels config fav_price years_left fav_size
        (adjusted_mid quoted.bids quoted.asks market.min_size)

  -- What a plan is worth.
  pub valued : MarketTerms F → Levels F → Outlook F → F → F → QuotePlan F → QuoteValue F
  unfolding value_quote q_min
  valued market levels outlook p_true price plan =
      value_quote levels plan.mid market.v market.min_size
        (q_min (plan.fav_bid_score ⊗ plan.fav_bid_size) (plan.low_score ⊗ plan.low_size) plan.mid)
        (some (price, plan.fav_bid_size))
        ((plan.fav_bid_size ⊗ plan.fav_bid_price) ⊕ (plan.low_size ⊗ plan.low_price)) p_true outlook
        (decimal 0 0) none

  abbrev better : Option (Valued F) → Valued F → Valued F
  better none new = new
  better (some best) new =
      if (net_per_day best.1 ⊖ decimal 1 12) ≤? net_per_day new.1 then new else best

  -- The end of the loop over the prices.
  abbrev decided : Option (Valued F) → String → Plan (Valued F)
  decided none reason = skipped reason
  decided (some best) reason =
      if net_per_day best.1 ≤? decimal 0 0
      then skipped "fills cost more than the rewards"
      else planned best

  -- The loop over the prices, with the best so far and the last reason.
  best_plan :
      (fuel : ℕ)
      → MarketTerms F
      → Levels F
      → ScreenTerms F
      → Outlook F
      → F
      → List F
      → Option (Valued F)
      → String
      → Plan (Valued F)
  unfolding plan_at valued
  best_plan fuel market levels config outlook p_true [] best reason = decided best reason
  best_plan fuel market levels config outlook p_true (price ∷ prices) best reason =
      elim (plan_at fuel market levels config price outlook.years_left) [
        | planned plan ↦
            best_plan fuel market levels config outlook p_true prices
              (some (better best (plan, valued market levels outlook p_true price plan))) reason
        | skipped why ↦ best_plan fuel market levels config outlook p_true prices best why
        | raised e ↦ raised e
        | unfinished ↦ unfinished
      ]

  abbrev of_candidates : Option (List F) → (List F → Plan (Valued F)) → Plan (Valued F)
  of_candidates none f = unfinished
  of_candidates (some prices) f = f prices

  unfoldable pub plan_quotes :
      (fuel : ℕ) → MarketTerms F → Levels F → ScreenTerms F → Outlook F → F → Plan (Valued F)
  unfolding best_plan fav_bid_candidates
  plan_quotes fuel market levels config outlook p_true =
      of_candidates
        (fav_bid_candidates fuel levels market.v market.tick market.min_size config.max_lead none)
        (λ prices.
          best_plan fuel market levels config outlook p_true prices none
            "favorite bid outside band")
