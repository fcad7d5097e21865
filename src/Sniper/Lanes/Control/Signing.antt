-- ===== src/Sniper/Lanes/Control/Signing.antt =====
-- tools/sniper.py: the control lane presigns nothing.
use polymarket_tools.Prelude.{
  ℕ, inl, inr, Bool, not, ◌&&◌, ◌||◌, Option, none, some, is_some, List, [], ◌∷◌, map, any,
  get_elem?, read_at, Bool-cases, Option-cases, All-append, true,
}
use polymarket_tools.Floats.{Floats, decimal}
use polymarket_tools.Python.{Json, Builtins, Texts}
use polymarket_tools.ToolsDb.Types.{Db, WatchRow, is_armed}
use polymarket_tools.Sniper.{was_disarmed, settle}
use polymarket_tools.Sniper.Lanes.{Sniper, is_claimed, take_claim, is_id}
use polymarket_tools.Sniper.Lanes.Events.{Station, Clocks, log_line, forget, route, drain, then_do}
use polymarket_tools.Sniper.Lanes.Slow.{Pass, work_once}
use polymarket_tools.Sniper.Lanes.Control.{
  disarm, adopt, asked_disarm, not_asked, reconcile_row, reconcile_each, claim_any, forget_closed,
  forget_each, is_due, reconcile, publish, reconcile_if_due, publish_if_due, tick, claim_each,
  close_down,
}
use polymarket_tools.ToolsDb.Watches.{close_watch, open_watches}
use polymarket_tools.Sniper.Lanes.Signing.{StaysSigned, write-IsSigned}
use polymarket_tools.Sniper.Lanes.Slow.Signing.{work_once-IsSigned}
use polymarket_tools.Sniper.Lanes.Events.Signing.{
  StaysIf, StaysIf-then_do, StaysIf-after, drain-IsSigned,
}

module _ {F : Type 0} ⦃fl : Floats F⦄ ⦃py : Builtins F⦄ ⦃tx : Texts⦄ where
  disarm-IsSigned : (id now : ℕ) (t : Station F) → StaysIf t.sniper (disarm id now t)
  unfolding disarm
  disarm-IsSigned id now t = go (close_watch t.db id (settle was_disarmed none) now none none)
    where
      go :
          (o : Option (Bool × Db F))
          → StaysIf t.sniper (
              then_do o (λ (done : Bool × Db F).
                some (log_line now (some id) "disarmed" (record t { db = done.1 }))))
      go none = tt
      go (some done) = λ v. v

  asked_disarm-IsSigned :
      (row : WatchRow F) (b : Option ℕ) (now : ℕ) (t : Station F)
      → StaysIf t.sniper (asked_disarm row b now t)
  unfolding asked_disarm forget
  asked_disarm-IsSigned row none now t = elim (Bool-cases (is_armed row.state)) [
    | inl armed ↦ rw armed (disarm-IsSigned row.id now t)
    | inr firing ↦ rw firing (λ v. v)
  ]
  asked_disarm-IsSigned row (some b) now t = elim (Bool-cases (is_claimed b t.sniper)) [
    | inl shut ↦ rw shut (write-IsSigned b (λ w. record w { abort = true }) t.sniper (λ w h. h))
    | inr free ↦ rw free (
        StaysIf-after t.sniper (take_claim b t.sniper) _ (λ v. v)
          (StaysIf-then_do (take_claim b t.sniper)
            (disarm row.id now (record t { sniper = take_claim b t.sniper }))
            (λ t'. some (record t' { sniper = forget b row.id row.order.token_id t'.sniper }))
            (disarm-IsSigned row.id now (record t { sniper = take_claim b t.sniper }))
            (λ t'. λ v. v)))
  ]

  not_asked-IsSigned :
      (row : WatchRow F) (b : Option ℕ) (t : Station F) → StaysIf t.sniper (not_asked row b t)
  unfolding not_asked adopt
  not_asked-IsSigned row (some b) t = λ v. v
  not_asked-IsSigned row none t =
      elim (Bool-cases (is_armed row.state && (row.dry_run || t.sniper.keyed))) [
        | inl ours ↦ elim (Option-cases (py.float (Json.text row.target_tick))) [
          | inl bad ↦ rw (not_asked, ours, bad) tt
          | inr (target, good) ↦
              rw (not_asked, ours, good) (λ v. All-append _ t.sniper.heap _ v (tt, tt))
        ]
        | inr not_ours ↦ rw not_ours (λ v. v)
      ]

  reconcile_row-IsSigned :
      (row : WatchRow F) (now : ℕ) (t : Station F) → StaysIf t.sniper (reconcile_row row now t)
  unfolding reconcile_row
  reconcile_row-IsSigned row now t = elim (Bool-cases (is_some row.disarm_requested_at)) [
    | inl asked ↦
        rw (reconcile_row, asked)
          (asked_disarm-IsSigned row (read_at (is_id row.id) t.sniper.adopted) now t)
    | inr not ↦
        rw (reconcile_row, not) (not_asked-IsSigned row (read_at (is_id row.id) t.sniper.adopted) t)
  ]

  reconcile_each-IsSigned :
      (rows : List (WatchRow F)) (now : ℕ) (t : Station F)
      → StaysIf t.sniper (reconcile_each rows now t)
  unfolding reconcile_each
  reconcile_each-IsSigned [] now t = λ v. v
  reconcile_each-IsSigned (row ∷ rest) now t =
      StaysIf-then_do t.sniper (reconcile_row row now t) (reconcile_each rest now)
        (reconcile_row-IsSigned row now t) (λ t'. reconcile_each-IsSigned rest now t')

  claim_any-IsSigned : (b : ℕ) (s : Sniper F) → StaysSigned s (claim_any b s)
  claim_any-IsSigned b s = elim (Bool-cases (is_claimed b s)) [
    | inl shut ↦ rw shut (λ v. v)
    | inr free ↦ rw free (λ v. v)
  ]

  forget_closed-IsSigned :
      (ids : List ℕ) (id b : ℕ) (s : Sniper F) → StaysSigned s (forget_closed ids id b s)
  unfolding forget_closed forget
  forget_closed-IsSigned ids id b s = elim (Bool-cases (any (is_id id) ids)) [
    | inl still ↦ rw (forget_closed, still) (λ v. v)
    | inr closed ↦ elim (Option-cases (get_elem? s.heap b)) [
      | inl absent ↦ rw (forget_closed, closed, absent) (λ v. v)
      | inr (watch, here) ↦ rw (forget_closed, closed, here) (claim_any-IsSigned b s)
    ]
  ]

  forget_each-IsSigned :
      (ids : List ℕ) (adopted : List (ℕ × ℕ)) (s : Sniper F)
      → StaysSigned s (forget_each ids adopted s)
  unfolding forget_each
  forget_each-IsSigned ids [] s = λ v. v
  forget_each-IsSigned ids ((id, b) ∷ rest) s = λ v.
      forget_each-IsSigned ids rest (forget_closed ids id b s) (forget_closed-IsSigned ids id b s v)

  reconcile-IsSigned : (now : ℕ) (t : Station F) → StaysIf t.sniper (reconcile now t)
  unfolding reconcile route
  reconcile-IsSigned now t =
      StaysIf-then_do t.sniper (reconcile_each (open_watches t.db) now t) _
        (reconcile_each-IsSigned (open_watches t.db) now t)
        (λ t'.
          forget_each-IsSigned (map (λ (row : WatchRow F). row.id) (open_watches t.db))
            t'.sniper.adopted t'.sniper)

  reconcile_if_due-IsSigned :
      (c : Clocks F) (t : Station F) → StaysIf t.sniper (reconcile_if_due c t)
  unfolding reconcile_if_due
  reconcile_if_due-IsSigned c t =
      elim (Bool-cases (is_due t.sniper.reconciled c.monotonic (decimal 25 2))) [
        | inl due ↦ rw due (
            reconcile-IsSigned c.wall
              (record t { sniper = record t.sniper { reconciled = some c.monotonic } }))
        | inr early ↦ rw early (λ v. v)
      ]

  publish_if_due-IsSigned :
      (c : Clocks F) (t : Station F) → StaysSigned t.sniper (publish_if_due c t).sniper
  unfolding publish_if_due publish
  publish_if_due-IsSigned c t =
      elim (Bool-cases (is_due t.sniper.published c.monotonic (decimal 1 0))) [
        | inl due ↦ rw due (λ v. v)
        | inr early ↦ rw early (λ v. v)
      ]

  pub tick-IsSigned :
      (at : ℕ → Clocks F) (c : Clocks F) (t : Station F) → StaysIf t.sniper (tick at c t)
  unfolding tick
  tick-IsSigned at c t = StaysIf-then_do t.sniper (drain at t) _ (drain-IsSigned at t) (λ drained.
      StaysIf-then_do drained.sniper (reconcile_if_due c drained)
        (λ done. some (publish_if_due c done)) (reconcile_if_due-IsSigned c drained)
        (λ done. publish_if_due-IsSigned c done))

  claim_each-IsSigned :
      (adopted : List (ℕ × ℕ)) (s : Sniper F) → StaysSigned s (claim_each adopted s)
  unfolding claim_each
  claim_each-IsSigned [] s = λ v. v
  claim_each-IsSigned ((id, b) ∷ rest) s =
      λ v. claim_each-IsSigned rest (claim_any b s) (claim_any-IsSigned b s v)

  pub close_down-IsSigned :
      (out : Pass F) (at : ℕ → Clocks F) (t : Station F) → StaysIf t.sniper (close_down out at t)
  unfolding close_down
  close_down-IsSigned out at t =
      let held = claim_each t.sniper.adopted t.sniper in
      let last = work_once out held in
      StaysIf-after t.sniper last (drain at (record t { sniper = last }))
        (λ v. work_once-IsSigned out held (claim_each-IsSigned t.sniper.adopted t.sniper v))
        (drain-IsSigned at (record t { sniper = last }))
