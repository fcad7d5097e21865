-- ===== src/Farmer/MidWatch/Lowest.antt =====
-- farm/reward_farmer.py: what steady_mid is.
use mathlib.Core.Path.{subst}
use mathlib.Core.Option.{some-injective}
use polymarket_tools.Prelude.{
  ℕ, ◌≡◌, true, false, Option, none, some, List, [], ◌∷◌, All, Bool-cases, inl, inr, arith,
}
use polymarket_tools.Floats.{Floats, ◌≤?◌, ◌<?◌, elapsed}
use polymarket_tools.Floats.Order.{OrderLaws}
use polymarket_tools.Farmer.Fills.{least}
use polymarket_tools.Farmer.Fills.Baselines.{least-le}
use polymarket_tools.Farmer.MidWatch.{
  MidWatch, watch_mid, steady_mid, min_from, lowest, in_dwell, free_dwell_s,
}

module _ {F : Type 0} ⦃fl : Floats F⦄ where
  -- The watch after these cycles, the newest first: their times and midpoints.
  unfoldable pub watched : List (ℕ × Option F) → Option (MidWatch F)
  watched [] = none
  watched ((at, book_mid) ∷ earlier) = watch_mid (watched earlier) book_mid at

  module _ (laws : OrderLaws fl) where
    min_from-le :
        (best : F) (mids : List (ℕ × F))
        → ((min_from best mids ≤? best) ≡ true)
          × All (λ (e : ℕ × F). (min_from best mids ≤? e.1) ≡ true) mids
    min_from-le best [] = (laws.le_refl best, tt)
    min_from-le best ((t, mid) ∷ rest) =
        let c = least best mid in
        let (low, lows) = min_from-le c rest in
        let (old, new) = least-le laws best mid in
        (
          laws.le_trans (min_from c rest) c best low old,
          (laws.le_trans (min_from c rest) c mid low new, lows),
        )

    lowest-le :
        (mids : List (ℕ × F)) (m : F)
        → lowest mids ≡ some m
        → All (λ (e : ℕ × F). (m ≤? e.1) ≡ true) mids
    lowest-le [] m e = tt
    lowest-le ((t, mid) ∷ rest) m e =
        subst (λ x. All (λ (e : ℕ × F). (x ≤? e.1) ≡ true) ((t, mid) ∷ rest))
          (some-injective (min_from mid rest) m e) (min_from-le mid rest)

    pub steady_mid-dwell :
        (watch : MidWatch F) (now : ℕ) (m : F)
        → steady_mid (some watch) now ≡ some m
        → ((elapsed now watch.since <? free_dwell_s {F = F}) ≡ false)
          × All (λ (e : ℕ × F). (m ≤? e.1) ≡ true) (in_dwell now watch.mids)
    unfolding steady_mid
    steady_mid-dwell watch now m e =
        elim (Bool-cases (elapsed now watch.since <? free_dwell_s {F = F})) [
          | inl young ↦ absurd (ground arith)
          | inr old ↦ (old, lowest-le (in_dwell now watch.mids) m (rw old at e))
        ]
