-- ===== src/Screener/Longshot/Climb.antt =====
-- farm/reward_screener.py: the loop over a longshot bid's prices ends.
use mathlib.Core.Path.{subst}
use mathlib.Core.Option.{map as map_option}
use polymarket_tools.Prelude.{
  ℕ, zero, suc, ◌+◌, true, false, ◌≡◌, refl, ◌∙◌, inl, inr, Option, none, some, is_some, List,
  Bool-cases, arith, ◌≤◌,
}
use polymarket_tools.Floats.{Floats, ◌<?◌, ◌≤?◌, ◌⊖◌, decimal}
use polymarket_tools.Floats.Maths.{Maths}
use polymarket_tools.Screener.Scores.{Levels, score}
use polymarket_tools.Screener.Zones.{Zones}
use polymarket_tools.Screener.Longshot.{
  with_first, low_limit, tick_price, ladder, choose, longshot_bid,
}

pub is_some-with_first :
    {A : Type 0} (x : A) (o : Option (List A)) → is_some (with_first x o) ≡ is_some o
is_some-with_first x none = refl
is_some-with_first x (some xs) = refl

is_some-map : {A B : Type 0} (f : A → B) (o : Option A) → is_some (map_option f o) ≡ is_some o
is_some-map f none = refl
is_some-map f (some x) = refl

module _ {F : Type 0} ⦃fl : Floats F⦄ ⦃ma : Maths F⦄ where
  -- A tick price at the limit or over it, k ticks on, ends the loop within k + 1 rounds.
  ladder-enough :
      (k fuel : ℕ) (tick limit low_mid v min_score : F) (n m : ℕ)
      → k ≤ fuel
      → m ≡ k + n
      → (tick_price tick m <? (limit ⊖ decimal 1 9)) ≡ false
      → (ladder (suc fuel) tick limit low_mid v min_score n
          ≡ ladder (suc k) tick limit low_mid v min_score n)
        × (is_some (ladder (suc k) tick limit low_mid v min_score n) ≡ true)
  unfolding ladder
  ladder-enough zero fuel tick limit low_mid v min_score n m enough at over =
      let here : (tick_price tick n <? (limit ⊖ decimal 1 9)) ≡ false =
        subst (λ i. (tick_price tick i <? (limit ⊖ decimal 1 9)) ≡ false) (omega (arith, at))
          over in
      (rw here refl, rw here refl)
  ladder-enough (suc k) zero tick limit low_mid v min_score n m enough at over =
      absurd (omega (arith, enough))
  ladder-enough (suc k) (suc fuel) tick limit low_mid v min_score n m enough at over =
      let (same, gives) =
        ladder-enough k fuel tick limit low_mid v min_score (suc n) m (omega (arith, enough))
          (omega (arith, at)) over in
      elim (Bool-cases (tick_price tick n <? (limit ⊖ decimal 1 9))) [
        | inl under ↦ elim (Bool-cases (min_score ≤? score v (low_mid ⊖ tick_price tick n))) [
          | inl last ↦ (rw (under, last) refl, rw (under, last) refl)
          | inr not_yet ↦
              (rw (under, not_yet, same) refl, rw (under, not_yet) (is_some-with_first _ _ ∙ gives))
        ]
        | inr done ↦ (rw done refl, rw done refl)
      ]

  -- Where the price that is k + 1 ticks up is at the limit or over it, a fuel of k + 1 is enough
  -- for longshot_bid to answer, and any more gives the same answer.
  pub longshot_bid-enough :
      (k fuel : ℕ) (levels : Levels F) (mid v tick min_size need room min_score : F)
      (zones : Zones F)
      → k ≤ fuel
      → (tick_price tick (suc k) <? (low_limit levels.bids (decimal 1 0 ⊖ mid) ⊖ decimal 1 9))
        ≡ false
      → (longshot_bid (suc fuel) levels mid v tick min_size need room min_score zones
          ≡ longshot_bid (suc k) levels mid v tick min_size need room min_score zones)
        × (is_some (longshot_bid (suc k) levels mid v tick min_size need room min_score zones)
            ≡ true)
  unfolding longshot_bid
  longshot_bid-enough k fuel levels mid v tick min_size need room min_score zones enough over =
      let low_mid = decimal 1 0 ⊖ mid in
      let (same, gives) =
        ladder-enough k fuel tick (low_limit levels.bids low_mid) low_mid v min_score 1 (suc k)
          enough (omega arith) over in
      elim (Bool-cases (need ≤? decimal 0 0)) [
        | inl nothing ↦ (rw nothing refl, rw nothing refl)
        | inr needed ↦ (
          rw (needed, same) refl,
          rw needed (is_some-map (choose v min_size need room min_score zones) _ ∙ gives),
        )
      ]
