-- ===== src/Sniper/Lanes/Slow/Stop.antt =====
-- tools/sniper.py: what the slow lane does once stop is set.
use polymarket_tools.Prelude.{
  ℕ, suc, ◌≡◌, refl, ◌∙◌, inl, inr, arith, String, true, List, [], ◌∷◌, ◌++◌, get_elem?, Bool-cases,
  Option-cases,
}
use polymarket_tools.Floats.{Floats, ◌≤?◌}
use polymarket_tools.Python.{Called, Builtins, Texts}
use polymarket_tools.Sniper.{feed}
use polymarket_tools.Sniper.Lanes.{Watch, Fire, Sniper, Moment, Top, on_top, poll_once}
use polymarket_tools.Sniper.Lanes.Slow.{
  Retry, Pass, retry, retry_one, retry_each, retry_due, go_on, work_once,
}
use polymarket_tools.Sniper.Lanes.Stop.{IsIdle, on_top-IsIdle, poll_once-IsIdle}

module _ {F : Type 0} ⦃fl : Floats F⦄ ⦃py : Builtins F⦄ ⦃tx : Texts⦄ where
  retry-IsIdle :
      (fire : Fire F) (watch : Watch F) (now : F) (out : Retry F) (s : Sniper F)
      → s.stop ≡ true
      → IsIdle s (retry fire watch now out s).1
  unfolding retry
  retry-IsIdle fire watch now out s stop = (ground arith, ground arith)

  retry_one-IsIdle :
      (fire : Fire F) (now : F) (out : Retry F) (s : Sniper F)
      → s.stop ≡ true
      → IsIdle s (retry_one fire now out s).1
  unfolding retry_one
  retry_one-IsIdle fire now out s stop = elim (Bool-cases (fire.next_at ≤? now)) [
    | inr early ↦ rw early (stop, refl)
    | inl due ↦ elim (Option-cases (get_elem? s.heap fire.shot.watch)) [
      | inl absent ↦ rw (retry_one, due, absent) (stop, refl)
      | inr (watch, here) ↦ rw (retry_one, due, here) (retry-IsIdle fire watch now out s stop)
    ]
  ]

  retry_each-IsIdle :
      (outs : ℕ → Retry F) (now : F) (n : ℕ) (fires : List (Fire F)) (s : Sniper F)
      → s.stop ≡ true
      → IsIdle s (retry_each outs now n fires s).1
  unfolding retry_each
  retry_each-IsIdle outs now n [] s stop = (stop, refl)
  retry_each-IsIdle outs now n (fire ∷ rest) s stop =
      let s' = (retry_one fire now (outs n) s).1 in
      let one = retry_one-IsIdle fire now (outs n) s stop in
      let more = retry_each-IsIdle outs now (suc n) rest s' one.0 in (more.0, more.1 ∙ one.1)

  retry_due-IsIdle : (out : Pass F) (s : Sniper F) → s.stop ≡ true → IsIdle s (retry_due out s)
  unfolding retry_due
  retry_due-IsIdle out s stop =
      let idle =
        retry_each-IsIdle out.retry_at out.now 0 (s.fires ++ s.retries)
          (record s { fires = []; retries = [] }) stop in
      (idle.0, idle.1)

  work_once-IsIdle : (out : Pass F) (s : Sniper F) → s.stop ≡ true → IsIdle s (work_once out s)
  unfolding work_once go_on
  work_once-IsIdle out s stop =
      let idle = retry_due-IsIdle out s stop in
      (ground (arith, idle.0), ground (arith, idle.0, idle.1))

  -- Once stop is set, no lane attempts an order: not on a tick that the feed or a poll sees, and not
  -- in a retry that is due.
  pub lanes-IsIdle :
      (s : Sniper F) (token_id : String) (top : Top F) (at : Moment F)
      (fetch : List String → Called F (List (String × (Top F × Moment F)))) (out : Pass F)
      → s.stop ≡ true
      → IsIdle s (on_top token_id top feed at s)
        × IsIdle s (poll_once fetch s)
        × IsIdle s (work_once out s)
  lanes-IsIdle s token_id top at fetch out stop = (
    on_top-IsIdle token_id top feed at s stop,
    poll_once-IsIdle fetch s stop,
    work_once-IsIdle out s stop,
  )
