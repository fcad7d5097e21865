-- ===== src/ToolsDb/Watches/Final.antt =====
-- tools/db.py: every sequence of statements on `watches`.
use polymarket_tools.ToolsDb.Watches.Rows.{
  DbIsValid, close_watch-eq-some, close-IsValid, close-final, publish-IsValid, publish-final,
  request_disarm-IsValid, mark_firing-IsValid, arm_watch-IsValid, close_each-IsValid,
  close_each-final, close_firing-eq-some, update-final, disarming-Writes, frozen-Writes,
}
use polymarket_tools.Prelude.{
  ℕ, String, Bool, false, ◌≡◌, Option, some, List, get_elem?, inl, Bool-cases, any, inr,
  get_elem?-append,
}
use polymarket_tools.ToolsDb.Types.{Db, WatchRow, Settlement, Sample, is_open, NewWatch}
use polymarket_tools.ToolsDb.Watches.{
  open_on, to_disarm, armed_with_id, Freeze, frozen, disarming, close_watch, arm_watch,
  request_disarm, mark_firing, publish_samples, close_firing,
}

-- The statements on `watches`, in any order: the console arms and asks to disarm, the worker does
-- the rest. A statement that the CHECKs refuse writes nothing and is no step.
pub data WatchStep {F : Type 0} (db : Db F) : Db F → Type 0 where
  arm : (new : NewWatch F) (now : ℕ) → WatchStep db (arm_watch db new now).1
  ask_disarm : (id now : ℕ) → WatchStep db (request_disarm db id now).1
  mark : (id : ℕ) (at : Freeze F) → WatchStep db (mark_firing db id at)
  close_one :
      (id : ℕ) (by : Settlement) (now : ℕ) (send_ms post_ms : Option F) (closed : Bool) (db' : Db F)
      → close_watch db id by now send_ms post_ms ≡ some (closed, db')
      → WatchStep db db'
  close_all_firing :
      (by : Settlement) (line : String) (now : ℕ) (ids : List ℕ) (db' : Db F)
      → close_firing db by line now ≡ some (ids, db')
      → WatchStep db db'
  publish : (samples : List (Sample F)) → WatchStep db (publish_samples db samples)

pub data WatchReach {F : Type 0} (db : Db F) : Db F → Type 0 where
  here : WatchReach db db
  next : {d d' : Db F} → WatchReach db d → WatchStep d d' → WatchReach db d'

WatchStep-IsValid : {F : Type 0} (db d : Db F) → WatchStep db d → DbIsValid db → DbIsValid d
unfolding publish_samples
WatchStep-IsValid db _ (arm new now) v = arm_watch-IsValid db new now v
WatchStep-IsValid db _ (ask_disarm id now) v = request_disarm-IsValid db id now v
WatchStep-IsValid db _ (mark id at) v = mark_firing-IsValid db id at v
WatchStep-IsValid db _ (close_one id by now send_ms post_ms closed db' e) v =
    let (found, same_next) = close_watch-eq-some db db' id by now send_ms post_ms e in
    rw same_next (close-IsValid db.watches db.next_watch id by now send_ms post_ms found v)
WatchStep-IsValid db _ (close_all_firing by line now ids db' e) v =
    close_each-IsValid _ db db' by line now (close_firing-eq-some db db' by line now e) v
WatchStep-IsValid db _ (publish samples) v = publish-IsValid samples db.watches db.next_watch v

-- However the console and the worker interleave their statements on `watches`, no token ever has
-- two open watches, no id is used twice, and every row is within the CHECKs: it is fired exactly
-- when it has an order id, no dry run is fired, and no live watch is rehearsed.
pub WatchReach-IsValid : {F : Type 0} {db d : Db F} → DbIsValid db → WatchReach db d → DbIsValid d
WatchReach-IsValid v here = v
WatchReach-IsValid v (next r step) = WatchStep-IsValid _ _ step (WatchReach-IsValid v r)

-- A closed watch is final: no statement on `watches` changes any column of it, its version included,
-- so the trigger that guards closed rows has nothing to refuse.
pub WatchStep-final :
    {F : Type 0} (db : Db F) {d : Db F} (n : ℕ) (row : WatchRow F)
    → is_open row.state ≡ false
    → WatchStep db d
    → get_elem? db.watches n ≡ some row
    → get_elem? d.watches n ≡ some row
unfolding publish_samples arm_watch request_disarm mark_firing
WatchStep-final db n row ended (arm new now) at =
    elim (Bool-cases (any (open_on new.order.token_id) db.watches)) [
      | inl taken ↦ rw taken at
      | inr free ↦ rw free (get_elem?-append db.watches _ n row at)
    ]
WatchStep-final db n row ended (ask_disarm id now) at =
    update-final (to_disarm id) (disarming now) db.watches n row (disarming-Writes id now) ended at
WatchStep-final db n row ended (mark id frozen_at) at =
    update-final (armed_with_id id) (frozen frozen_at) db.watches n row (frozen-Writes id frozen_at)
      ended at
WatchStep-final db n row ended (close_one id by now send_ms post_ms closed db' e) at =
    close-final db.watches id by now send_ms post_ms n row
      (close_watch-eq-some db db' id by now send_ms post_ms e).0 ended at
WatchStep-final db n row ended (close_all_firing by line now ids db' e) at =
    close_each-final _ db db' by line now n row (close_firing-eq-some db db' by line now e) ended at
WatchStep-final db n row ended (publish samples) at =
    publish-final samples db.watches n row ended at
