-- ===== src/Farmer/MidWatch/Cycles.antt =====
-- farm/reward_farmer.py: steady_mid over a run of cycles.
use mathlib.Core.Path.{subst}
use polymarket_tools.Prelude.{
  ℕ, ◌≤◌, ◌<◌, ◌≡◌, true, false, Option, none, some, List, [], ◌∷◌, ◌++◌, All, Bool-cases, inl, inr,
  arith,
}
use polymarket_tools.Floats.{Floats, ◌≤?◌, ◌<?◌, elapsed}
use polymarket_tools.Floats.Order.{OrderLaws}
use polymarket_tools.Farmer.MidWatch.{MidWatch, watch_mid, steady_mid, in_dwell, free_dwell_s}
use polymarket_tools.Farmer.MidWatch.Lowest.{watched, steady_mid-dwell}

-- The cycles, the newest first, are in the order of their times, all until `now`.
abbrev pub InOrder : {F : Type 0} → ℕ → List (ℕ × Option F) → Type 0
InOrder now [] = Unit
InOrder now ((t, o) ∷ earlier) = (t ≤ now) × InOrder t earlier

-- The time since an earlier moment grows.
abbrev pub Grows : {F : Type 0} → Floats F → Type 0
Grows fl = (s t u : ℕ) → t ≤ u → fl.le (fl.elapsed t s) (fl.elapsed u s) ≡ true

module _ {F : Type 0} ⦃fl : Floats F⦄ where
  abbrev pub AtLeast : F → Option F → Type 0
  AtLeast m none = ⊥
  AtLeast m (some mid) = (m ≤? mid) ≡ true

  -- A cycle after `since` and within the dwell had a midpoint, of at least m.
  abbrev pub Above : F → ℕ → ℕ → ℕ × Option F → Type 0
  Above m now since (t, o) =
      since < t → (elapsed now t ≤? free_dwell_s {F = F}) ≡ true → AtLeast m o

  module _ (laws : OrderLaws fl) (grows : Grows fl) (m : F) (now : ℕ) where
    abbrev Low : List (ℕ × F) → Type 0
    Low = All (λ (e : ℕ × F). (elapsed now e.0 ≤? free_dwell_s {F = F}) ≡ true → (m ≤? e.1) ≡ true)

    Low-in_dwell :
        (mids : List (ℕ × F))
        → All (λ (e : ℕ × F). (m ≤? e.1) ≡ true) (in_dwell now mids)
        → Low mids
    Low-in_dwell [] h = tt
    Low-in_dwell ((t, mid) ∷ rest) h = elim (Bool-cases (elapsed now t ≤? free_dwell_s {F = F})) [
      | inl recent ↦ let k = (rw recent at h) in ((λ r. k.0), Low-in_dwell rest k.1)
      | inr old ↦ ((λ r. absurd (cc (old, r))), Low-in_dwell rest (rw old at h))
    ]

    -- What the watch dropped before is out of the dwell now too.
    Low-kept :
        (at : ℕ) (mids : List (ℕ × F)) (mid : F)
        → at ≤ now
        → Low (in_dwell at mids ++ ((at, mid) ∷ []))
        → Low mids × Low ((at, mid) ∷ [])
    Low-kept at [] mid order h = (tt, h)
    Low-kept at ((t, x) ∷ rest) mid order h =
        elim (Bool-cases (elapsed at t ≤? free_dwell_s {F = F})) [
          | inl recent ↦
              let k = (rw recent at h) in
              let (low, new) = Low-kept at rest mid order k.1 in ((k.0, low), new)
          | inr old ↦
              let (low, new) = Low-kept at rest mid order (rw old at h) in
              (
                (
                  (λ r. absurd (
                      cc (
                        old,
                        laws.le_trans (elapsed at t) (elapsed now t) (free_dwell_s {F = F})
                            (grows t at now order) r,
                      ))),
                  low,
                ),
                new,
              )
        ]

    none_after :
        (bound since : ℕ) (cycles : List (ℕ × Option F))
        → InOrder bound cycles
        → bound ≤ since
        → All (Above m now since) cycles
    none_after bound since [] order le = tt
    none_after bound since ((t, o) ∷ rest) order le = (
      (λ after. absurd (omega (arith, order.0))),
      none_after t since rest order.1 (omega (arith, order.0)),
    )

    abbrev Covers : Option (MidWatch F) → List (ℕ × Option F) → Type 0
    Covers none cycles = Unit
    Covers (some watch) cycles = Low watch.mids → All (Above m now watch.since) cycles

    watch_mid-Covers :
        (watch : Option (MidWatch F)) (book_mid : Option F) (at : ℕ) (cycles : List (ℕ × Option F))
        → InOrder at cycles
        → at ≤ now
        → Covers watch cycles
        → Covers (watch_mid watch book_mid at) ((at, book_mid) ∷ cycles)
    unfolding watch_mid
    watch_mid-Covers watch none at cycles order le h = tt
    watch_mid-Covers none (some mid) at cycles order le h =
        λ low. ((λ after. absurd (omega arith)), none_after at at cycles order (omega arith))
    watch_mid-Covers (some watch) (some mid) at cycles order le h = λ low.
        let (older, newer) = Low-kept at watch.mids mid le low in
        ((λ after recent. newer.0 recent), h older)

    watched-Covers :
        (bound : ℕ) (cycles : List (ℕ × Option F))
        → InOrder bound cycles
        → bound ≤ now
        → Covers (watched cycles) cycles
    unfolding watched
    watched-Covers bound [] order le = tt
    watched-Covers bound ((at, book_mid) ∷ earlier) order le =
        watch_mid-Covers (watched earlier) book_mid at earlier order.1 (omega (arith, order.0))
          (watched-Covers at earlier order.1 (omega (arith, order.0)))

    -- Over cycles in the order of their times, where floats are in a total order and the time since
    -- a moment grows: steady_mid gives a midpoint only of a market watched for FREE_DWELL_S, and then
    -- every cycle since that watch began that is within FREE_DWELL_S had a midpoint, and none a
    -- lower one.
    pub steady_mid-AtLeast :
        (cycles : List (ℕ × Option F)) (watch : MidWatch F)
        → InOrder now cycles
        → watched cycles ≡ some watch
        → steady_mid (some watch) now ≡ some m
        → ((elapsed now watch.since <? free_dwell_s {F = F}) ≡ false)
          × All (Above m now watch.since) cycles
    steady_mid-AtLeast cycles watch order is_watch steady =
        let (old, low) = steady_mid-dwell laws watch now m steady in
        let covers =
          subst (λ w. Covers w cycles) is_watch (watched-Covers now cycles order (omega arith)) in
        (old, covers (Low-in_dwell watch.mids low))
