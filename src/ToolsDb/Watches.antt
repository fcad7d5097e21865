-- ===== src/ToolsDb/Watches.antt =====
-- tools/db.py: the table `watches` with its index, its CHECKs and its trigger.
pub mod Rows
pub mod Final
use polymarket_tools.Prelude.{
  ℕ, suc, ◌+◌, String, Bool, true, false, not, ◌&&◌, Option, none, some, List, [], ◌∷◌, ◌++◌, ◌==◌,
  str_eq, is_some, any, keep_if, update, checked_update, if◌then◌else◌, map,
}
use polymarket_tools.Floats.{Floats, ◌≤?◌, ◌⊕◌, ◌⊖◌, absolute, decimal}
use polymarket_tools.ToolsDb.Types.{
  Db, WatchRow, NewWatch, Settlement, Sample, Guard, armed, firing, is_open, is_armed, is_firing,
  is_fired, is_rehearsed, stamp, stamp?,
}
use polymarket_tools.ToolsDb.Log.{append_log}

-- Guard.admits(quoted)
unfoldable pub admits : {F : Type 0} ⦃fl : Floats F⦄ → Guard F → F → Bool
admits guard quoted = absolute (quoted ⊖ guard.price) ≤? guard.tolerance ⊕ decimal 1 9

abbrev same : Bool → Bool → Bool
same true b = b
same false b = not b

-- What mark_firing writes.
pub record Freeze (F : Type 0) : Type 0 where
  pub triggered_at : ℕ
  pub source : String
  pub tick : String
  pub bid : Option F
  pub ask : Option F
  pub seen_at : Option ℕ

module _ {F : Type 0} where
  -- The CHECKs on the outcome: (state = 'fired') = (order_id IS NOT NULL), no dry run fired, no
  -- live watch rehearsed.
  pub checks : WatchRow F → Bool
  checks row =
      same (is_fired row.state) (is_some row.order_id)
      && not (row.dry_run && is_fired row.state)
      && not (not row.dry_run && is_rehearsed row.state)

  -- The rows of the index watches_one_open_per_token for one token.
  abbrev pub open_on : String → WatchRow F → Bool
  open_on token row = is_open row.state && str_eq row.order.token_id token

  -- The trigger watches_version counts each update of a row.
  abbrev pub bumped : WatchRow F → WatchRow F
  bumped row = record row { version = suc row.version }

  abbrev new_row : ℕ → NewWatch F → ℕ → WatchRow F
  new_row id new now = record {
    id = id;
    created_at = stamp now;
    order = new.order;
    market = new.market;
    label = new.label;
    target_tick = new.target_tick;
    guard = new.guard;
    dry_run = new.dry_run;
    disarm_requested_at = none;
    state = armed;
    reason = none;
    detail = none;
    tick = none;
    bid = none;
    ask = none;
    seen_at = none;
    triggered_at = none;
    source = none;
    send_ms = none;
    post_ms = none;
    attempts = none;
    order_id = none;
    resolved_at = none;
    version = 1;
  }

  -- arm_watch: none where the unique index refuses the insert
  unfoldable pub arm_watch : Db F → NewWatch F → ℕ → Option ℕ × Db F
  arm_watch db new now = if any (open_on new.order.token_id) db.watches then (none, db) else (
    some db.next_watch,
    record db {
      watches = db.watches ++ (new_row db.next_watch new now ∷ []);
      next_watch = suc db.next_watch;
    },
  )

  abbrev pub to_disarm : ℕ → WatchRow F → Bool
  to_disarm id row = row.id == id && is_open row.state && not (is_some row.disarm_requested_at)

  abbrev disarming : ℕ → WatchRow F → WatchRow F
  disarming now row = bumped (record row { disarm_requested_at = some (stamp now) })

  -- request_disarm: whether a row was updated
  unfoldable pub request_disarm : Db F → ℕ → ℕ → Bool × Db F
  request_disarm db id now = (
    any (to_disarm id) db.watches,
    record db { watches = update (to_disarm id) (disarming now) db.watches },
  )

  abbrev pub armed_with_id : ℕ → WatchRow F → Bool
  armed_with_id id row = row.id == id && is_armed row.state

  abbrev pub open_with_id : ℕ → WatchRow F → Bool
  open_with_id id row = row.id == id && is_open row.state

  abbrev frozen : Freeze F → WatchRow F → WatchRow F
  frozen at row = bumped (record row {
    state = firing;
    triggered_at = some (stamp at.triggered_at);
    source = some at.source;
    tick = some at.tick;
    bid = at.bid;
    ask = at.ask;
    seen_at = stamp? at.seen_at;
  })

  unfoldable pub mark_firing : Db F → ℕ → Freeze F → Db F
  mark_firing db id at = record db { watches = update (armed_with_id id) (frozen at) db.watches }

  abbrev settled : Settlement → ℕ → Option F → Option F → WatchRow F → WatchRow F
  settled by now send_ms post_ms row = bumped (record row {
    state = by.state;
    reason = by.reason;
    detail = some by.detail;
    order_id = by.order_id;
    attempts = by.attempts;
    send_ms = send_ms;
    post_ms = post_ms;
    resolved_at = some (stamp now);
  })

  -- _close: none where a CHECK fails, and then nothing is written; else whether a row was updated.
  pub close :
      List (WatchRow F)
      → ℕ
      → Settlement
      → ℕ
      → Option F
      → Option F
      → Option (Bool × List (WatchRow F))
  unfolding checks
  close rows id by now send_ms post_ms =
      elim (checked_update checks (open_with_id id) (settled by now send_ms post_ms) rows) [
        | none ↦ none
        | some rows' ↦ some (any (open_with_id id) rows, rows')
      ]

  -- close_watch
  unfoldable pub close_watch :
      Db F → ℕ → Settlement → ℕ → Option F → Option F → Option (Bool × Db F)
  unfolding close
  close_watch db id by now send_ms post_ms = elim (close db.watches id by now send_ms post_ms) [
    | none ↦ none
    | some (closed, rows) ↦ some (closed, record db { watches = rows })
  ]

  -- open_watches: oldest first
  abbrev pub open_watches : Db F → List (WatchRow F)
  open_watches db = keep_if (λ row. is_open row.state) db.watches

  pub close_each : List (WatchRow F) → Db F → Settlement → String → ℕ → Option (Db F)
  unfolding close append_log
  close_each [] db by line now = some db
  close_each (row ∷ rest) db by line now = elim (close db.watches row.id by now none none) [
    | none ↦ none
    | some (closed, rows) ↦
        close_each rest (append_log (record db { watches = rows }) now line none (some row.id)) by
          line now
  ]

  -- close_firing: the ids closed
  unfoldable pub close_firing : Db F → Settlement → String → ℕ → Option (List ℕ × Db F)
  unfolding close_each
  close_firing db by line now =
      let left = keep_if (λ row. is_firing row.state) db.watches in
      elim (close_each left db by line now) [
        | none ↦ none
        | some db' ↦ some (map (λ row. row.id) left, db')
      ]

  abbrev sampled : Sample F → WatchRow F → WatchRow F
  sampled sample row = bumped (record row {
    tick = sample.tick;
    bid = sample.bid;
    ask = sample.ask;
    seen_at = some (stamp sample.seen_at);
  })

  pub publish_rows : List (Sample F) → List (WatchRow F) → List (WatchRow F)
  publish_rows [] rows = rows
  publish_rows (sample ∷ rest) rows =
      publish_rows rest (update (armed_with_id sample.watch_id) (sampled sample) rows)

  unfoldable pub publish_samples : Db F → List (Sample F) → Db F
  unfolding publish_rows
  publish_samples db samples = record db { watches = publish_rows samples db.watches }

  -- The sum over the rows that watch_version reads, beside the newest ids.
  abbrev pub version_sum : List (WatchRow F) → ℕ
  version_sum [] = 0
  version_sum (row ∷ rows) = row.version + version_sum rows
