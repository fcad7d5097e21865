-- ===== src/Sniper/Lanes/Slow/Ends.antt =====
-- tools/sniper.py: every retry ends.
use polymarket_tools.Prelude.{
  ℕ, suc, ◌+◌, ◌≡◌, refl, inl, inr, arith, Bool, true, false, ◌||◌, none, some, List, [], ◌∷◌, ◌++◌,
  get_elem?, count_if, count_if-append, length, All, Bool-cases, if◌then◌else◌,
}
use polymarket_tools.Floats.{Floats, ◌≤?◌}
use polymarket_tools.Python.{Builtins, Texts}
use polymarket_tools.Polymarket.Orders.{rejected}
use polymarket_tools.Sniper.{Outcome, cut, by_disarm, by_stop, attempted, answered}
use polymarket_tools.Sniper.Lanes.{Watch, Fire, Event, resolved, Sniper}
use polymarket_tools.Sniper.Lanes.Slow.{
  Retry, Pass, end_fire, retry, retry_one, retry_each, retry_due,
}

module _ {F : Type 0} where
  abbrev is_resolved : Event F → Bool
  is_resolved (resolved id outcome trigger attempts send_ms post_ms) = true
  is_resolved _ = false

  -- How many outcomes wait to be drained.
  abbrev pub outcomes : Sniper F → ℕ
  outcomes s = count_if is_resolved s.inbox

module _ {F : Type 0} ⦃fl : Floats F⦄ ⦃py : Builtins F⦄ ⦃tx : Texts⦄ where
  -- A fire of a watch that is there, due for its retry and past its deadline.
  abbrev pub IsOver : F → List (Watch F) → Fire F → Type 0
  IsOver now heap fire =
      ((fire.next_at ≤? now) ≡ true)
      × ((fire.shot.deadline ≤? now) ≡ true)
      × ((watch : Watch F) × (get_elem? heap fire.shot.watch ≡ some watch))

  retry_one-end_fire :
      (fire : Fire F) (now : F) (out : Retry F) (s : Sniper F)
      → IsOver now s.heap fire
      → (id : ℕ) × (outcome : Outcome) × (retry_one fire now out s
          ≡ (none, end_fire fire id outcome s))
  unfolding retry_one retry
  retry_one-end_fire fire now out s (due, over, (watch, here)) =
      elim (Bool-cases (watch.abort || s.stop)) [
        | inl cut_off ↦ (
          watch.id,
          cut (if watch.abort then by_disarm else by_stop) fire.last,
          rw (retry_one, due, here, retry, cut_off) refl,
        )
        | inr going ↦ (
          watch.id,
          attempted (answered (rejected fire.last)),
          rw (retry_one, due, here, retry, going, over) refl,
        )
      ]

  retry_each-ends :
      (outs : ℕ → Retry F) (now : F) (n : ℕ) (fires : List (Fire F)) (s : Sniper F)
      → All (IsOver now s.heap) fires
      → ((retry_each outs now n fires s).0 ≡ [])
        × ((retry_each outs now n fires s).1.retries ≡ s.retries)
        × (outcomes (retry_each outs now n fires s).1 ≡ length fires + outcomes s)
  unfolding retry_each
  retry_each-ends outs now n [] s over = (refl, refl, omega arith)
  retry_each-ends outs now n (fire ∷ rest) s (over, others) =
      let (id, outcome, one) = retry_one-end_fire fire now (outs n) s over in
      let (none_left, retries, count) =
        retry_each-ends outs now (suc n) rest (end_fire fire id outcome s) others in
      rw one (
        none_left,
        retries,
        omega (
          arith,
          count,
          count_if-append is_resolved s.inbox (
              resolved id outcome (some fire.shot.trigger) fire.shot.attempts
                (some fire.shot.send_ms) none
              ∷ []),
        ),
      )

  -- A pass that comes once every waiting fire is due and past its deadline, while their watches are
  -- there, ends them all: none waits any more, and an outcome is handed over for each.
  pub retry_due-ends :
      (out : Pass F) (s : Sniper F)
      → All (IsOver out.now s.heap) (s.fires ++ s.retries)
      → ((retry_due out s).fires ≡ [])
        × ((retry_due out s).retries ≡ [])
        × (outcomes (retry_due out s) ≡ length (s.fires ++ s.retries) + outcomes s)
  unfolding retry_due
  retry_due-ends out s over =
      retry_each-ends out.retry_at out.now 0 (s.fires ++ s.retries)
        (record s { fires = []; retries = [] }) over
