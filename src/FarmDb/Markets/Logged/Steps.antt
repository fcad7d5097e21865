-- ===== src/FarmDb/Markets/Logged/Steps.antt =====
-- farm/farm_db.py: the screener, the farmer and the console interleaved.
use polymarket_tools.Prelude.{ℕ, String, Bool, true, not, refl, Option, none, some, List, arith}
use polymarket_tools.FarmDb.Types.{
  candidate, approved, rejected, RejectReason, is_candidate, is_approved, is_rejected, ScanRow,
  FarmDb, as_approved, as_rejected, as_unrejected,
}
use polymarket_tools.FarmDb.Markets.{
  has_id, flagged, upsert_each, store_scan, approve_market, set_approval, reject_market,
  rejected_with_id, unreject_market, retire_market, approved_with_id, mark_retired, save_baseline,
  set_paused, set_naked_paused, set_sole_bid, write_capital, set_rewards_active,
  set_candidates_rewards_active, runs, cancel_all,
}
use polymarket_tools.FarmDb.Markets.Logged.{IsLogged}
use polymarket_tools.FarmDb.Markets.Logged.Writes.{
  approve-Moves, reject-Moves, unrejected, unreject-Moves, write-IsLogged, log_decision-IsLogged,
  upsert_each-IsLogged,
}

-- What the screener and the farmer write by themselves.
pub data AutoStep {F : Type 0} (db : FarmDb F) : FarmDb F → Type 0 where
  scans :
      (rows : List (ScanRow F)) (ids : List String) (now : ℕ)
      → AutoStep db (store_scan db rows ids now)
  marks_retired : (id reason : String) → AutoStep db (mark_retired db id reason)
  saves_baseline : (id : String) (fav long : F) → AutoStep db (save_baseline db id fav long)

-- What a human writes, at the console or the command line.
pub data HumanStep {F : Type 0} (db : FarmDb F) : FarmDb F → Type 0 where
  approves :
      (id : String) (p_true : Option F) (budget : F) (capital_usd : Option F) (now : ℕ)
      → HumanStep db (approve_market db id p_true budget capital_usd now)
  sets_approval :
      (id : String) (p_true : Option F) (budget : F) (capital_usd : Option F) (paused : Bool)
      (now : ℕ)
      → HumanStep db (set_approval db id p_true budget capital_usd paused now)
  rejects :
      (id : String) (note : Option String) (reason : Option RejectReason) (now : ℕ)
      → HumanStep db (reject_market db id note reason now)
  unrejects : (id : String) (now : ℕ) → HumanStep db (unreject_market db id now).1
  retires : (id : String) (note : Option String) → HumanStep db (retire_market db id note)
  pauses : (id : String) (on : Bool) → HumanStep db (set_paused db id on)
  pauses_naked : (id : String) (on : Bool) → HumanStep db (set_naked_paused db id on)
  sets_sole_bid : (id : String) (on : Bool) → HumanStep db (set_sole_bid db id on)
  sets_capital :
      (id : String) (capital_usd : Option F) → HumanStep db (write_capital db id capital_usd)
  sets_rewards : (id : String) (on : Bool) → HumanStep db (set_rewards_active db id on)
  sets_candidates : (ids : List String) → HumanStep db (set_candidates_rewards_active db ids)
  cancels_all : HumanStep db (cancel_all db).1

pub data FarmReach {F : Type 0} (db : FarmDb F) : FarmDb F → Type 0 where
  here : FarmReach db db
  auto : {d d' : FarmDb F} → FarmReach db d → AutoStep d d' → FarmReach db d'
  human : {d d' : FarmDb F} → FarmReach db d → HumanStep d d' → FarmReach db d'

module _ {F : Type 0} (db : FarmDb F) where
  AutoStep-IsLogged : {d : FarmDb F} → AutoStep db d → IsLogged db → IsLogged d
  unfolding store_scan mark_retired save_baseline
  AutoStep-IsLogged (scans rows ids now) v =
      write-IsLogged (λ row. true) (flagged _) (λ row. refl)
        (record db { markets = upsert_each rows _ db.markets }) (λ row l hit h. h)
        (upsert_each-IsLogged rows _ db v)
  AutoStep-IsLogged (marks_retired id reason) v =
      write-IsLogged (approved_with_id id) _ (λ row. refl) db (λ row l hit h. refl) v
  AutoStep-IsLogged (saves_baseline id fav long) v =
      write-IsLogged (has_id id) _ (λ row. refl) db (λ row l hit h. h) v

  HumanStep-IsLogged : {d : FarmDb F} → HumanStep db d → IsLogged db → IsLogged d
  unfolding approve_market set_approval reject_market unreject_market retire_market set_paused
      set_naked_paused set_sole_bid write_capital set_rewards_active set_candidates_rewards_active
      cancel_all
  HumanStep-IsLogged (approves id p_true budget capital_usd now) v =
      log_decision-IsLogged (has_id id) _ (λ row. refl) id as_approved now
        (λ s. not (is_approved s)) none none (some p_true) (λ s. approved) approve-Moves
        (λ row hit. rw hit refl) (λ row miss. miss) db v
  HumanStep-IsLogged (sets_approval id p_true budget capital_usd paused now) v =
      log_decision-IsLogged (has_id id) _ (λ row. refl) id as_approved now
        (λ s. not (is_approved s)) none none (some p_true) (λ s. approved) approve-Moves
        (λ row hit. rw hit refl) (λ row miss. miss) db v
  HumanStep-IsLogged (rejects id remark reason now) v =
      log_decision-IsLogged (has_id id) _ (λ row. refl) id as_rejected now (λ s. true) reason remark
        none (λ s. rejected) reject-Moves (λ row hit. rw hit refl) (λ row miss. miss) db v
  HumanStep-IsLogged (unrejects id now) v =
      log_decision-IsLogged (rejected_with_id id) (λ row. record row { status = candidate })
        (λ row. refl) id as_unrejected now is_rejected none none none unrejected unreject-Moves
        (λ row hit. ground arith) (λ row miss. ground arith) db v
  HumanStep-IsLogged (retires id remark) v =
      write-IsLogged (has_id id) _ (λ row. refl) db (λ row l hit h. refl) v
  HumanStep-IsLogged (pauses id on) v =
      write-IsLogged (has_id id) _ (λ row. refl) db (λ row l hit h. h) v
  HumanStep-IsLogged (pauses_naked id on) v =
      write-IsLogged (has_id id) _ (λ row. refl) db (λ row l hit h. h) v
  HumanStep-IsLogged (sets_sole_bid id on) v =
      write-IsLogged (has_id id) _ (λ row. refl) db (λ row l hit h. h) v
  HumanStep-IsLogged (sets_capital id capital_usd) v =
      write-IsLogged (has_id id) _ (λ row. refl) db (λ row l hit h. h) v
  HumanStep-IsLogged (sets_rewards id on) v =
      write-IsLogged (has_id id) _ (λ row. refl) db (λ row l hit h. h) v
  HumanStep-IsLogged (sets_candidates ids) v =
      write-IsLogged (λ row. is_candidate row.status) (flagged ids) (λ row. refl) db
        (λ row l hit h. h) v
  HumanStep-IsLogged cancels_all v = write-IsLogged runs _ (λ row. refl) db (λ row l hit h. h) v

-- However the screener, the farmer and humans interleave, the log explains every market's status: an
-- approved market's last decision is its approval, a rejected one's its rejection, and a
-- candidate has none or was unrejected last; and no decision is on a market that is not there.
pub FarmReach-IsLogged : {F : Type 0} {db d : FarmDb F} → IsLogged db → FarmReach db d → IsLogged d
FarmReach-IsLogged v here = v
FarmReach-IsLogged v (auto r step) = AutoStep-IsLogged _ step (FarmReach-IsLogged v r)
FarmReach-IsLogged v (human r step) = HumanStep-IsLogged _ step (FarmReach-IsLogged v r)
