-- ===== src/Sniper/Lanes/Events.antt =====
-- tools/sniper.py: the control lane's events, which it writes to the database. A result is none
-- where SQLite or float raises, which ends the sniper.
pub mod Once
pub mod Signing
use polymarket_tools.Prelude.{
  ℕ, zero, suc, ◌+◌, ◌-◌, ◌≤◌, ◌≡◌, refl, ◌⊎◌, inl, inr, arith, String, Bool, true, false, not,
  ◌&&◌, ◌||◌, Option, none, some, is_some, List, [], ◌∷◌, ◌++◌, map, any, count_if, keep_if, All,
  get_elem?, leb, ltb, ◌==◌, str_eq, contains, read_at, drop_at, put_at, modify, if◌then◌else◌, ◌&◌,
  Bool-cases, Option-cases, length, count_if-append, every,
}
use polymarket_tools.Floats.{
  Floats, ◌<?◌, ◌≤?◌, ◌⊕◌, ◌⊖◌, ◌⊗◌, decimal, elapsed, micros, general, fixed1,
}
use polymarket_tools.Python.{Json, Raised, Called, gave, failed, Builtins, Texts, Result, ok, err}
use polymarket_tools.Polymarket.Orders.{
  Side, buy, sell, Answer, posted, rejected, unanswered, Call, post, terminal, LimitOrder,
  tick_text,
}
use polymarket_tools.ToolsDb.Types.{
  Db, Guard, Reason, Settlement, WatchRow, WatchState, Sample, is_open, is_armed,
}
use polymarket_tools.Sniper.{
  Quote, Trigger, Source, feed, poll, baseline, Signed, Presigned, Attempt, answered,
  rehearsed_with, unsigned, attempted, Outcome, missed_at, guard_refused, cut, was_disarmed,
  was_interrupted, CutBy, by_disarm, by_stop, Poster, live, dry, Venue, attempt, fresh, judge,
  newest, reached, retryable, settle, cents, side_name, reference, last_tick,
}
use polymarket_tools.ToolsDb.Log.{append_log}
use polymarket_tools.ToolsDb.Watches.{
  Freeze, mark_firing, close_watch, close_firing, open_watches, publish_samples,
}
use polymarket_tools.Sniper.Lanes.{
  Watch, Event, prepared, claimed_by, resolved, note, Sniper, is_claimed, take_claim, write,
  is_text, is_id,
}
use polymarket_tools.Sniper.Lanes.Words.{describe, source_value}

-- The sniper with its database.
pub record Station (F : Type 0) : Type 0 where
  pub sniper : Sniper F
  pub db : Db F

-- A reading of both clocks.
pub record Clocks (F : Type 0) : Type 0 where
  pub wall : ℕ
  pub monotonic : F

abbrev pub then_do {ℓ} : {A B : Type ℓ} → Option A → (A → Option B) → Option B
then_do none f = none
then_do (some a) f = f a

abbrev pub is_address : ℕ → Option ℕ → Bool
is_address a none = false
is_address a (some b) = b == a

abbrev pub keys : List (String × ℕ) → List String
keys = map (λ (e : String × ℕ). e.0)

abbrev same_set : List String → List String → Bool
same_set xs ys = every (λ x. contains x ys) xs && every (λ y. contains y xs) ys

module _ {F : Type 0} where
  abbrev pub log_line : ℕ → Option ℕ → String → Station F → Station F
  log_line now id message t = record t { db = append_log t.db now message none id }

  -- A note with no watch goes to every routed watch.
  note_each : ℕ → String → List (String × ℕ) → Station F → Station F
  unfolding append_log
  note_each now message [] t = t
  note_each now message ((_, a) ∷ rest) t =
      note_each now message rest (elim (get_elem? t.sniper.heap a) [
        | none ↦ t
        | some watch ↦ log_line now (some watch.id) message t
      ])

  -- _forget of the watch of this id and token at this address
  unfoldable pub forget : ℕ → ℕ → String → Sniper F → Sniper F
  forget a id token_id s = record s {
    adopted = drop_at (is_id id) s.adopted;
    armed =
        if is_address a (read_at (is_text token_id) s.armed)
        then drop_at (is_text token_id) s.armed
        else s.armed;
  }

  -- _route, of the tokens that were routed before
  unfoldable pub route : List String → Sniper F → Sniper F
  route before s = record s {
    feed_tokens = if same_set (keys s.armed) before then s.feed_tokens else keys s.armed;
  }

module _ {F : Type 0} ⦃fl : Floats F⦄ ⦃py : Builtins F⦄ ⦃tx : Texts⦄ where
  -- _wall_of
  abbrev pub wall_of : Clocks F → F → ℕ
  wall_of c at = c.wall - micros (c.monotonic ⊖ at)

  freeze : Clocks F → Trigger F → Freeze F
  freeze c trigger = record {
    triggered_at = wall_of c trigger.at;
    source = source_value trigger.source;
    tick = trigger.tick;
    bid = elim trigger.quote [ none ↦ none | some quote ↦ quote.bid ];
    ask = elim trigger.quote [ none ↦ none | some quote ↦ quote.ask ];
    seen_at = elim trigger.quote [ none ↦ none | some quote ↦ some (wall_of c quote.at) ];
  }

  -- An event of a watch that is adopted, at its address. Prepared routes it only if it brings this
  -- very object.
  on_event : Event F → Clocks F → ℕ → Watch F → Station F → Option (Station F)
  unfolding describe mark_firing close_watch forget freeze
  on_event (note id message) c a watch t = some t
  on_event (prepared b) c a watch t =
      if b == a && not (is_claimed a t.sniper)
      then some (
          log_line c.wall (some watch.id) (describe (prepared b) watch) (record t {
            sniper = record t.sniper {
              armed = put_at (is_text watch.order.token_id) watch.order.token_id a t.sniper.armed;
            };
          }))
      else some t
  on_event (claimed_by id trigger) c a watch t = some (
      log_line c.wall (some watch.id) (describe (claimed_by id trigger) watch)
        (record t { db = mark_firing t.db id (freeze c trigger) }))
  on_event (resolved id outcome trigger n send_ms post_ms) c a watch t =
      elim (close_watch t.db id (settle outcome (some n)) c.wall send_ms post_ms) [
        | none ↦ none
        | some (closed, db) ↦
            let t' = record t {
              sniper = forget a watch.id watch.order.token_id t.sniper;
              db = db;
            } in
            some (
              if closed
              then log_line c.wall (some watch.id)
                  (describe (resolved id outcome trigger n send_ms post_ms) watch) t'
              else t')
      ]

  -- The id of an event's watch.
  id_of : Sniper F → Event F → Option ℕ
  id_of s (note id message) = id
  id_of s (prepared a) = elim (get_elem? s.heap a) [ none ↦ none | some watch ↦ some watch.id ]
  id_of s (claimed_by id trigger) = some id
  id_of s (resolved id outcome trigger n send_ms post_ms) = some id

  on_address : Event F → Clocks F → Option ℕ → Station F → Option (Station F)
  unfolding on_event
  on_address event c none t = some t
  on_address event c (some a) t = elim (get_elem? t.sniper.heap a) [
    | none ↦ some t
    | some watch ↦ on_event event c a watch t
  ]

  on_id : Event F → Clocks F → Option ℕ → Station F → Option (Station F)
  unfolding on_address
  on_id event c none t = some t
  on_id event c (some id) t = on_address event c (read_at (is_id id) t.sniper.adopted) t

  handle : Event F → Clocks F → Station F → Option (Station F)
  unfolding note_each on_id id_of append_log
  handle (note none message) c t = some (note_each c.wall message t.sniper.armed t)
  handle (note (some id) message) c t =
      if id == 0
      then some (note_each c.wall message t.sniper.armed t)
      else some (log_line c.wall (some id) message t)
  handle event c t = on_id event c (id_of t.sniper event) t

  handle_each : (ℕ → Clocks F) → ℕ → List (Event F) → Station F → Option (Station F)
  unfolding handle
  handle_each at n [] t = some t
  handle_each at n (event ∷ rest) t = then_do (handle event (at n) t) (handle_each at (suc n) rest)

  -- _drain, with the clocks read at each event
  unfoldable pub drain : (ℕ → Clocks F) → Station F → Option (Station F)
  unfolding handle_each route
  drain at t =
      let before = keys t.sniper.armed in
      let taken = record t { sniper = record t.sniper { inbox = [] } } in
      then_do (handle_each at 0 t.sniper.inbox taken)
        (λ t'. some (record t' { sniper = route before t'.sniper }))
