-- ===== src/Sniper/Lanes/Control.antt =====
-- tools/sniper.py: the control lane's own work: reconciling with the rows, publishing, and close.
pub mod Once
pub mod Signing
use polymarket_tools.Prelude.{
  ℕ, zero, suc, ◌+◌, ◌-◌, ◌≤◌, ◌≡◌, refl, ◌⊎◌, inl, inr, arith, String, Bool, true, false, not,
  ◌&&◌, ◌||◌, Option, none, some, is_some, List, [], ◌∷◌, ◌++◌, map, any, count_if, keep_if, All,
  get_elem?, leb, ltb, ◌==◌, str_eq, contains, read_at, drop_at, put_at, modify, if◌then◌else◌, ◌&◌,
  Bool-cases, Option-cases, length, count_if-append,
}
use polymarket_tools.Floats.{
  Floats, ◌<?◌, ◌≤?◌, ◌⊕◌, ◌⊖◌, ◌⊗◌, decimal, elapsed, micros, general, fixed1,
}
use polymarket_tools.Python.{Json, Raised, Called, gave, failed, Builtins, Texts, Result, ok, err}
use polymarket_tools.Polymarket.Orders.{
  Side, buy, sell, Answer, posted, rejected, unanswered, Call, post, terminal, LimitOrder,
  tick_text,
}
use polymarket_tools.ToolsDb.Types.{
  Db, Guard, Reason, Settlement, WatchRow, WatchState, Sample, is_open, is_armed,
}
use polymarket_tools.Sniper.{
  Quote, Trigger, Source, feed, poll, baseline, Signed, Presigned, Attempt, answered,
  rehearsed_with, unsigned, attempted, Outcome, missed_at, guard_refused, cut, was_disarmed,
  was_interrupted, CutBy, by_disarm, by_stop, Poster, live, dry, Venue, attempt, fresh, judge,
  newest, reached, retryable, settle, cents, side_name, reference, last_tick,
}
use polymarket_tools.ToolsDb.Log.{append_log}
use polymarket_tools.ToolsDb.Watches.{close_watch, close_firing, open_watches, publish_samples}
use polymarket_tools.Sniper.Lanes.{Watch, Sniper, is_claimed, take_claim, write, is_text, is_id}
use polymarket_tools.Sniper.Lanes.Slow.{Pass, work_once}
use polymarket_tools.Sniper.Lanes.Events.{
  Station, Clocks, log_line, forget, route, keys, wall_of, drain, then_do,
}

-- INTERRUPTED_LINE
abbrev interrupted_line : String
interrupted_line = "found firing when the worker started: the order may rest"

-- _poster
abbrev poster_of : Bool → Bool → Poster
poster_of keyed dry_run = if dry_run then dry keyed else live

module _ {F : Type 0} ⦃fl : Floats F⦄ ⦃py : Builtins F⦄ ⦃tx : Texts⦄ where
  -- _disarm
  disarm : ℕ → ℕ → Station F → Option (Station F)
  unfolding close_watch append_log
  disarm id now t =
      then_do (close_watch t.db id (settle was_disarmed none) now none none)
        (λ (done : Bool × Db F).
          some (log_line now (some id) "disarmed" (record t { db = done.1 })))

  -- Watch(row, self._poster(row)), put where the slow lane adopts it
  adopt : WatchRow F → F → Sniper F → Sniper F
  adopt row target s =
      let a = length s.heap in
      record s {
        heap =
            s.heap
            ++ (record {
              id = row.id;
              order = row.order;
              target = target;
              target_text = row.target_tick;
              guard = row.guard;
              poster = poster_of s.keyed row.dry_run;
              abort = false;
              not_before = decimal 0 0;
              base_quote = none;
              feed_quote = none;
              poll_quote = none;
              presigned = none;
              presign_error = none;
            }
                ∷ []);
        adopted = put_at (is_id row.id) row.id a s.adopted;
        adoptions = s.adoptions ++ (a ∷ []);
      }

  -- A row whose disarm was asked for, of a watch that is adopted or not.
  asked_disarm : WatchRow F → Option ℕ → ℕ → Station F → Option (Station F)
  unfolding disarm forget
  asked_disarm row none now t = if is_armed row.state then disarm row.id now t else some t
  asked_disarm row (some a) now t =
      if is_claimed a t.sniper
      then some (record t { sniper = write a (λ w. record w { abort = true }) t.sniper })
      else then_do (disarm row.id now (record t { sniper = take_claim a t.sniper }))
          (λ t'. some (record t' { sniper = forget a row.id row.order.token_id t'.sniper }))

  not_asked : WatchRow F → Option ℕ → Station F → Option (Station F)
  unfolding adopt
  not_asked row (some a) t = some t
  not_asked row none t =
      if is_armed row.state && (row.dry_run || t.sniper.keyed)
      then then_do (py.float (Json.text row.target_tick))
          (λ target. some (record t { sniper = adopt row target t.sniper }))
      else some t

  reconcile_row : WatchRow F → ℕ → Station F → Option (Station F)
  unfolding asked_disarm not_asked
  reconcile_row row now t =
      let a = read_at (is_id row.id) t.sniper.adopted in
      if is_some row.disarm_requested_at then asked_disarm row a now t else not_asked row a t

  reconcile_each : List (WatchRow F) → ℕ → Station F → Option (Station F)
  unfolding reconcile_row
  reconcile_each [] now t = some t
  reconcile_each (row ∷ rest) now t = then_do (reconcile_row row now t) (reconcile_each rest now)

  -- watch.claim(), whoever wins
  abbrev claim_any : ℕ → Sniper F → Sniper F
  claim_any a s = if is_claimed a s then s else take_claim a s

  -- An adopted watch, if its row is open no more.
  forget_closed : List ℕ → ℕ → ℕ → Sniper F → Sniper F
  unfolding forget
  forget_closed open_ids id a s = if any (is_id id) open_ids then s else elim (get_elem? s.heap a) [
    | none ↦ s
    | some watch ↦ forget a id watch.order.token_id (claim_any a s)
  ]

  forget_each : List ℕ → List (ℕ × ℕ) → Sniper F → Sniper F
  unfolding forget_closed
  forget_each open_ids [] s = s
  forget_each open_ids ((id, a) ∷ rest) s =
      forget_each open_ids rest (forget_closed open_ids id a s)

  -- _reconcile
  unfoldable pub reconcile : ℕ → Station F → Option (Station F)
  unfolding reconcile_each forget_each route
  reconcile now t =
      let rows = open_watches t.db in
      then_do (reconcile_each rows now t) (λ t'. some (record t' {
        sniper =
            route (keys t.sniper.armed)
              (forget_each (map (λ (row : WatchRow F). row.id) rows) t'.sniper.adopted t'.sniper);
      }))

  sample_of : Clocks F → Watch F → Option (Quote F) → List (Sample F)
  sample_of c watch none = []
  sample_of c watch (some quote) =
      record {
        watch_id = watch.id;
        tick = last_tick watch.base_quote watch.feed_quote watch.poll_quote;
        bid = quote.bid;
        ask = quote.ask;
        seen_at = wall_of c quote.at;
      }
      ∷ []

  samples_of : Clocks F → List (Watch F) → List (String × ℕ) → List (Sample F)
  unfolding sample_of newest
  samples_of c heap [] = []
  samples_of c heap ((_, a) ∷ rest) =
      elim (get_elem? heap a) [
        | none ↦ []
        | some watch ↦ sample_of c watch (newest watch.base_quote watch.feed_quote watch.poll_quote)
      ]
      ++ samples_of c heap rest

  -- _publish
  unfoldable pub publish : Clocks F → Station F → Station F
  unfolding samples_of publish_samples
  publish c t = record t { db = publish_samples t.db (samples_of c t.sniper.heap t.sniper.armed) }

  -- RECONCILE_S and PUBLISH_S; none is float("-inf")
  abbrev is_due : Option F → F → F → Bool
  is_due none now period = true
  is_due (some last) now period = period ≤? now ⊖ last

  reconcile_if_due : Clocks F → Station F → Option (Station F)
  unfolding reconcile
  reconcile_if_due c t =
      if is_due t.sniper.reconciled c.monotonic (decimal 25 2)
      then reconcile c.wall
          (record t { sniper = record t.sniper { reconciled = some c.monotonic } })
      else some t

  publish_if_due : Clocks F → Station F → Station F
  unfolding publish
  publish_if_due c t =
      if is_due t.sniper.published c.monotonic (decimal 1 0)
      then publish c (record t { sniper = record t.sniper { published = some c.monotonic } })
      else t

  -- tick
  unfoldable pub tick : (ℕ → Clocks F) → Clocks F → Station F → Option (Station F)
  unfolding drain reconcile_if_due publish_if_due
  tick at c t =
      then_do (drain at t)
        (λ drained. then_do (reconcile_if_due c drained) (λ done. some (publish_if_due c done)))

  claim_each : List (ℕ × ℕ) → Sniper F → Sniper F
  claim_each [] s = s
  claim_each ((_, a) ∷ rest) s = claim_each rest (claim_any a s)

  -- close, once stop is set and the lanes are joined
  unfoldable pub close_down : Pass F → (ℕ → Clocks F) → Station F → Option (Station F)
  unfolding claim_each drain
  close_down out at t =
      drain at (record t { sniper = work_once out (claim_each t.sniper.adopted t.sniper) })

  -- open
  unfoldable pub open_up : ℕ → Station F → Option (Station F)
  open_up now t = elim (close_firing t.db (settle was_interrupted none) interrupted_line now) [
    | none ↦ none
    | some (_, db) ↦ some (record t { db = db })
  ]
