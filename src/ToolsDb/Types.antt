-- ===== src/ToolsDb/Types.antt =====
-- tools/db.py: the rows. A time is in microseconds since the epoch; a stored one is cut to the
-- second, as its ISO text is.
use Prim.Native.Nat.{◌/◌}
use polymarket_tools.Prelude.{ℕ, ◌*◌, String, Bool, true, false, ◌||◌, Option, none, some, List}
use polymarket_tools.Polymarket.Orders.{LimitOrder, OpenOrder}

-- stamp(t), read back
abbrev pub stamp : ℕ → ℕ
stamp t = t / 1000000 * 1000000

abbrev pub stamp? : Option ℕ → Option ℕ
stamp? none = none
stamp? (some t) = some (stamp t)

pub data JobKind : Type 0 where
  snapshot preview restore : JobKind

pub data JobState : Type 0 where
  queued running done failed : JobState

abbrev pub is_restore_kind : JobKind → Bool
is_restore_kind snapshot = false
is_restore_kind _ = true

abbrev pub same_kind : JobKind → JobKind → Bool
same_kind snapshot snapshot = true
same_kind preview preview = true
same_kind restore restore = true
same_kind _ _ = false

abbrev pub is_queued : JobState → Bool
is_queued queued = true
is_queued _ = false

abbrev pub is_running_state : JobState → Bool
is_running_state running = true
is_running_state _ = false

-- state IN ('queued', 'running')
abbrev pub is_open_job : JobState → Bool
is_open_job state = is_queued state || is_running_state state

pub data RestoreAction : Type 0 where
  would_place placed skip_live skip_expired skip_farmer skip_filled rejected error : RestoreAction

pub data WatchState : Type 0 where
  armed firing fired rehearsed rejected missed failed disarmed : WatchState

abbrev pub is_armed : WatchState → Bool
is_armed armed = true
is_armed _ = false

abbrev pub is_firing : WatchState → Bool
is_firing firing = true
is_firing _ = false

abbrev pub is_fired : WatchState → Bool
is_fired fired = true
is_fired _ = false

abbrev pub is_rehearsed : WatchState → Bool
is_rehearsed rehearsed = true
is_rehearsed _ = false

-- state IN OPEN_STATES
abbrev pub is_open : WatchState → Bool
is_open state = is_armed state || is_firing state

pub data Reason : Type 0 where
  at_target guard_no_quote guard_stale guard_price venue sign stopped unanswered interrupted :
      Reason

abbrev pub may_rest : Reason → Bool
may_rest unanswered = true
may_rest interrupted = true
may_rest _ = false

pub record WorkerStatus : Type 0 where
  pub instance_id : String
  pub pid : ℕ
  pub keyed : Bool
  pub started_at : ℕ
  pub last_beat_at : ℕ
  pub stopped_at : Option ℕ

-- The keys of a job's JSON parameters that the console writes and the worker reads.
pub record JobParams : Type 0 where
  pub note : String
  pub snapshot_id : ℕ
  pub managed_markets : List String
  pub retired_markets : List String

pub record Job : Type 0 where
  pub id : ℕ
  pub kind : JobKind
  pub params : JobParams
  pub state : JobState
  pub error : Option String
  pub created_at : ℕ
  pub started_at : Option ℕ
  pub finished_at : Option ℕ

pub record LogLine : Type 0 where
  pub id : ℕ
  pub at : ℕ
  pub job_id : Option ℕ
  pub watch_id : Option ℕ
  pub message : String

pub record Guard (F : Type 0) : Type 0 where
  pub price : F
  pub tolerance : F
  pub max_age_s : F

-- One row of the table `watches`, the column `version` included.
pub record WatchRow (F : Type 0) : Type 0 where
  pub id : ℕ
  pub created_at : ℕ
  pub order : LimitOrder F
  pub market : String
  pub label : String
  pub target_tick : String
  pub guard : Option (Guard F)
  pub dry_run : Bool
  pub disarm_requested_at : Option ℕ
  pub state : WatchState
  pub reason : Option Reason
  pub detail : Option String
  pub tick : Option String
  pub bid : Option F
  pub ask : Option F
  pub seen_at : Option ℕ
  pub triggered_at : Option ℕ
  pub source : Option String
  pub send_ms : Option F
  pub post_ms : Option F
  pub attempts : Option ℕ
  pub order_id : Option String
  pub resolved_at : Option ℕ
  pub version : ℕ

pub record NewWatch (F : Type 0) : Type 0 where
  pub order : LimitOrder F
  pub market : String
  pub label : String
  pub target_tick : String
  pub guard : Option (Guard F)
  pub dry_run : Bool

pub record Settlement : Type 0 where
  pub state : WatchState
  pub reason : Option Reason
  pub detail : String
  pub order_id : Option String
  pub attempts : Option ℕ

pub record Sample (F : Type 0) : Type 0 where
  pub watch_id : ℕ
  pub tick : Option String
  pub bid : Option F
  pub ask : Option F
  pub seen_at : ℕ

pub record SnapshotOrder (F : Type 0) : Type 0 where
  pub id : ℕ
  pub snapshot_id : ℕ
  pub market_name : Option String
  pub order : OpenOrder F
  pub farmer : Option Bool

pub record RestoreLine (F : Type 0) : Type 0 where
  pub job_id : ℕ
  pub order : SnapshotOrder F
  pub action : RestoreAction
  pub size : F
  pub order_id : Option String
  pub detail : String

-- The file. A table keeps its rows in the order of their ids, and AUTOINCREMENT its next id.
pub record Db (F : Type 0) : Type 0 where
  pub worker_status : Option WorkerStatus
  pub jobs : List Job
  pub next_job : ℕ
  pub watches : List (WatchRow F)
  pub next_watch : ℕ
  pub log : List LogLine
  pub next_log : ℕ
  pub restore_lines : List (RestoreLine F)
  pub snapshot_orders : List (SnapshotOrder F)
  pub snapshot_ids : List ℕ
