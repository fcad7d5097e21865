-- ===== src/Sniper/Lanes/Control/Once.antt =====
-- tools/sniper.py: the control lane takes locks, and attempts nothing.
use polymarket_tools.Prelude.{
  ℕ, inl, inr, arith, Bool, not, ◌&&◌, ◌||◌, Option, none, some, is_some, List, [], ◌∷◌, map, any,
  get_elem?, read_at, Bool-cases, Option-cases,
}
use polymarket_tools.Floats.{Floats, decimal}
use polymarket_tools.Python.{Json, Builtins, Texts}
use polymarket_tools.ToolsDb.Types.{Db, WatchRow, is_armed}
use polymarket_tools.Sniper.{was_disarmed, settle}
use polymarket_tools.Sniper.Lanes.{Sniper, is_claimed, take_claim, is_id}
use polymarket_tools.Sniper.Lanes.Events.{Station, Clocks, log_line, forget, route, drain, then_do}
use polymarket_tools.Sniper.Lanes.Slow.{Pass, work_once}
use polymarket_tools.Sniper.Lanes.Control.{
  disarm, adopt, asked_disarm, not_asked, reconcile_row, reconcile_each, claim_any, forget_closed,
  forget_each, is_due, reconcile, publish, reconcile_if_due, publish_if_due, tick, claim_each,
  close_down,
}
use polymarket_tools.ToolsDb.Watches.{close_watch, open_watches}
use polymarket_tools.Sniper.Lanes.Once.{Keeps}
use polymarket_tools.Sniper.Lanes.Slow.Once.{work_once-Keeps}
use polymarket_tools.Sniper.Lanes.Events.Once.{KeepsIf, KeepsIf-then_do, KeepsIf-after, drain-Keeps}

module _ {F : Type 0} ⦃fl : Floats F⦄ ⦃py : Builtins F⦄ ⦃tx : Texts⦄ (a : ℕ) where
  disarm-Keeps : (id now : ℕ) (t : Station F) → KeepsIf a t.sniper (disarm id now t)
  unfolding disarm
  disarm-Keeps id now t = go (close_watch t.db id (settle was_disarmed none) now none none)
    where
      go :
          (o : Option (Bool × Db F))
          → KeepsIf a t.sniper (
              then_do o (λ (done : Bool × Db F).
                some (log_line now (some id) "disarmed" (record t { db = done.1 }))))
      go none = tt
      go (some done) = omega arith

  asked_disarm-Keeps :
      (row : WatchRow F) (b : Option ℕ) (now : ℕ) (t : Station F)
      → KeepsIf a t.sniper (asked_disarm row b now t)
  unfolding asked_disarm forget
  asked_disarm-Keeps row none now t = elim (Bool-cases (is_armed row.state)) [
    | inl armed ↦ rw armed (disarm-Keeps row.id now t)
    | inr firing ↦ rw firing (omega arith)
  ]
  asked_disarm-Keeps row (some b) now t = elim (Bool-cases (is_claimed b t.sniper)) [
    | inl shut ↦ rw shut (omega arith)
    | inr free ↦ rw free (
        KeepsIf-after a t.sniper (take_claim b t.sniper) _ (ground arith) (
          KeepsIf-then_do a (take_claim b t.sniper)
            (disarm row.id now (record t { sniper = take_claim b t.sniper }))
            (λ t'. some (record t' { sniper = forget b row.id row.order.token_id t'.sniper }))
            (disarm-Keeps row.id now (record t { sniper = take_claim b t.sniper }))
            (λ t'. omega arith)))
  ]

  not_asked-Keeps :
      (row : WatchRow F) (b : Option ℕ) (t : Station F) → KeepsIf a t.sniper (not_asked row b t)
  unfolding not_asked adopt
  not_asked-Keeps row (some b) t = omega arith
  not_asked-Keeps row none t =
      elim (Bool-cases (is_armed row.state && (row.dry_run || t.sniper.keyed))) [
        | inl ours ↦ elim (Option-cases (py.float (Json.text row.target_tick))) [
          | inl bad ↦ rw (not_asked, ours, bad) tt
          | inr (target, good) ↦ rw (not_asked, ours, good) (omega arith)
        ]
        | inr not_ours ↦ rw not_ours (omega arith)
      ]

  reconcile_row-Keeps :
      (row : WatchRow F) (now : ℕ) (t : Station F) → KeepsIf a t.sniper (reconcile_row row now t)
  unfolding reconcile_row
  reconcile_row-Keeps row now t = elim (Bool-cases (is_some row.disarm_requested_at)) [
    | inl asked ↦
        rw (reconcile_row, asked)
          (asked_disarm-Keeps row (read_at (is_id row.id) t.sniper.adopted) now t)
    | inr not ↦
        rw (reconcile_row, not) (not_asked-Keeps row (read_at (is_id row.id) t.sniper.adopted) t)
  ]

  reconcile_each-Keeps :
      (rows : List (WatchRow F)) (now : ℕ) (t : Station F)
      → KeepsIf a t.sniper (reconcile_each rows now t)
  unfolding reconcile_each
  reconcile_each-Keeps [] now t = omega arith
  reconcile_each-Keeps (row ∷ rest) now t =
      KeepsIf-then_do a t.sniper (reconcile_row row now t) (reconcile_each rest now)
        (reconcile_row-Keeps row now t) (λ t'. reconcile_each-Keeps rest now t')

  claim_any-Keeps : (b : ℕ) (s : Sniper F) → Keeps a s (claim_any b s)
  claim_any-Keeps b s = elim (Bool-cases (is_claimed b s)) [
    | inl shut ↦ rw shut (omega arith)
    | inr free ↦ rw free (ground arith)
  ]

  forget_closed-Keeps :
      (ids : List ℕ) (id b : ℕ) (s : Sniper F) → Keeps a s (forget_closed ids id b s)
  unfolding forget_closed forget
  forget_closed-Keeps ids id b s = elim (Bool-cases (any (is_id id) ids)) [
    | inl still ↦ rw (forget_closed, still) (omega arith)
    | inr closed ↦ elim (Option-cases (get_elem? s.heap b)) [
      | inl absent ↦ rw (forget_closed, closed, absent) (omega arith)
      | inr (watch, here) ↦ rw (forget_closed, closed, here) (claim_any-Keeps b s)
    ]
  ]

  forget_each-Keeps :
      (ids : List ℕ) (adopted : List (ℕ × ℕ)) (s : Sniper F) → Keeps a s (forget_each ids adopted s)
  unfolding forget_each
  forget_each-Keeps ids [] s = omega arith
  forget_each-Keeps ids ((id, b) ∷ rest) s =
      omega (
        arith,
        forget_closed-Keeps ids id b s,
        forget_each-Keeps ids rest (forget_closed ids id b s),
      )

  reconcile-Keeps : (now : ℕ) (t : Station F) → KeepsIf a t.sniper (reconcile now t)
  unfolding reconcile route
  reconcile-Keeps now t =
      KeepsIf-then_do a t.sniper (reconcile_each (open_watches t.db) now t) _
        (reconcile_each-Keeps (open_watches t.db) now t)
        (λ t'.
          forget_each-Keeps (map (λ (row : WatchRow F). row.id) (open_watches t.db))
            t'.sniper.adopted t'.sniper)

  reconcile_if_due-Keeps :
      (c : Clocks F) (t : Station F) → KeepsIf a t.sniper (reconcile_if_due c t)
  unfolding reconcile_if_due
  reconcile_if_due-Keeps c t =
      elim (Bool-cases (is_due t.sniper.reconciled c.monotonic (decimal 25 2))) [
        | inl due ↦ rw due (
            reconcile-Keeps c.wall
              (record t { sniper = record t.sniper { reconciled = some c.monotonic } }))
        | inr early ↦ rw early (omega arith)
      ]

  publish_if_due-Keeps :
      (c : Clocks F) (t : Station F) → Keeps a t.sniper (publish_if_due c t).sniper
  unfolding publish_if_due publish
  publish_if_due-Keeps c t =
      elim (Bool-cases (is_due t.sniper.published c.monotonic (decimal 1 0))) [
        | inl due ↦ rw due (omega arith)
        | inr early ↦ rw early (omega arith)
      ]

  pub tick-Keeps :
      (at : ℕ → Clocks F) (c : Clocks F) (t : Station F) → KeepsIf a t.sniper (tick at c t)
  unfolding tick
  tick-Keeps at c t = KeepsIf-then_do a t.sniper (drain at t) _ (drain-Keeps a at t) (λ drained.
      KeepsIf-then_do a drained.sniper (reconcile_if_due c drained)
        (λ done. some (publish_if_due c done)) (reconcile_if_due-Keeps c drained)
        (λ done. publish_if_due-Keeps c done))

  claim_each-Keeps : (adopted : List (ℕ × ℕ)) (s : Sniper F) → Keeps a s (claim_each adopted s)
  unfolding claim_each
  claim_each-Keeps [] s = omega arith
  claim_each-Keeps ((id, b) ∷ rest) s =
      omega (arith, claim_any-Keeps b s, claim_each-Keeps rest (claim_any b s))

  pub close_down-Keeps :
      (out : Pass F) (at : ℕ → Clocks F) (t : Station F) → KeepsIf a t.sniper (close_down out at t)
  unfolding close_down
  close_down-Keeps out at t =
      let held = claim_each t.sniper.adopted t.sniper in
      let last = work_once out held in
      KeepsIf-after a t.sniper last (drain at (record t { sniper = last }))
        (omega (arith, claim_each-Keeps t.sniper.adopted t.sniper, work_once-Keeps a out held))
        (drain-Keeps a at (record t { sniper = last }))
