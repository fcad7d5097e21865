-- ===== src/ToolsDb/Workers.antt =====
-- tools/db.py: the table `worker_status`, which lets one worker run at a time.
pub mod Lease
use polymarket_tools.Prelude.{
  ℕ, String, Bool, true, false, not, ◌&&◌, Option, none, some, is_some, str_eq, if◌then◌else◌,
}
use polymarket_tools.Floats.{Floats, ◌<?◌, decimal, elapsed}
use polymarket_tools.ToolsDb.Types.{Db, WorkerStatus, stamp}

module _ {F : Type 0} ⦃fl : Floats F⦄ where
  -- STALE_AFTER_S
  abbrev pub stale_after_s : F
  stale_after_s = decimal 10 0

  -- is_running(status, now)
  pub is_running : Db F → ℕ → Bool
  is_running db now = elim db.worker_status [
    | none ↦ false
    | some status ↦
        not (is_some status.stopped_at) && (elapsed now status.last_beat_at <? stale_after_s)
  ]

  -- start_worker, with the instance that uuid4 drew; none is WorkerRunning.
  unfoldable pub start_worker : Db F → String → ℕ → ℕ → Bool → Option (Db F)
  unfolding is_running
  start_worker db instance_id now pid keyed =
      if is_running db now
      then none
      else some (record db {
        worker_status = some (record {
          instance_id = instance_id;
          pid = pid;
          keyed = keyed;
          started_at = stamp now;
          last_beat_at = stamp now;
          stopped_at = none;
        });
      })

-- WHERE instance = ? AND stopped_at IS NULL
abbrev pub holds : String → Option WorkerStatus → Bool
holds instance_id none = false
holds instance_id (some status) =
    str_eq status.instance_id instance_id && not (is_some status.stopped_at)

abbrev beaten : ℕ → Option WorkerStatus → Option WorkerStatus
beaten now none = none
beaten now (some status) = some (record status { last_beat_at = stamp now })

abbrev stopped_if : String → ℕ → Option WorkerStatus → Option WorkerStatus
stopped_if instance_id now none = none
stopped_if instance_id now (some status) =
    if str_eq status.instance_id instance_id
    then some (record status { stopped_at = some (stamp now) })
    else some status

module _ {F : Type 0} where
  -- beat: whether a row was updated
  unfoldable pub beat : Db F → String → ℕ → Bool × Db F
  beat db instance_id now =
      if holds instance_id db.worker_status
      then (true, record db { worker_status = beaten now db.worker_status })
      else (false, db)

  unfoldable pub stop_worker : Db F → String → ℕ → Db F
  stop_worker db instance_id now = record db {
    worker_status = stopped_if instance_id now db.worker_status;
  }
