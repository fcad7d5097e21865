-- ===== src/Screener/Candidates/Descend.antt =====
-- farm/reward_screener.py: the loop over a favorite bid's prices ends.
use polymarket_tools.Prelude.{
  ℕ, zero, suc, ◌≤◌, true, false, ◌≡◌, refl, ◌∙◌, inl, inr, is_some, arith, Bool-cases,
}
use polymarket_tools.Floats.{Floats, ◌⊖◌}
use polymarket_tools.Floats.Maths.{Maths}
use polymarket_tools.Screener.Scores.{tick_decimals}
use polymarket_tools.Screener.Longshot.Climb.{is_some-with_first}
use polymarket_tools.Screener.Candidates.{scores_at, descend}

module _ {F : Type 0} ⦃fl : Floats F⦄ ⦃ma : Maths F⦄ where
  -- The price that is some ticks down.
  abbrev pub below : ℕ → F → F → F
  below zero tick price = price
  below (suc k) tick price = below k tick (fl.round_to (price ⊖ tick) (tick_decimals tick))

  -- Where the price k ticks down scores nothing or is under a tick, a fuel of k + 1 is enough for
  -- the loop over the candidates, and any more gives the same prices.
  pub descend-enough :
      (k fuel : ℕ) (v tick best_bid best_ask price : F)
      → k ≤ fuel
      → scores_at v tick best_bid best_ask (below k tick price) ≡ false
      → (descend (suc fuel) v tick best_bid best_ask price
          ≡ descend (suc k) v tick best_bid best_ask price)
        × (is_some (descend (suc k) v tick best_bid best_ask price) ≡ true)
  unfolding descend
  descend-enough zero fuel v tick best_bid best_ask price enough last = (rw last refl, rw last refl)
  descend-enough (suc k) zero v tick best_bid best_ask price enough last =
      absurd (omega (arith, enough))
  descend-enough (suc k) (suc fuel) v tick best_bid best_ask price enough last =
      let (same, gives) =
        descend-enough k fuel v tick best_bid best_ask
          (fl.round_to (price ⊖ tick) (tick_decimals tick)) (omega (arith, enough)) last in
      elim (Bool-cases (scores_at v tick best_bid best_ask price)) [
        | inl scores ↦ (rw (scores, same) refl, rw scores (is_some-with_first price _ ∙ gives))
        | inr done ↦ (rw done refl, rw done refl)
      ]
