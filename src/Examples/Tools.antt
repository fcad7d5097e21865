-- ===== src/Examples/Tools.antt =====
-- The theorems on tools/db.py and tools/restore.py at concrete inputs.
use polymarket_tools.Python.{gave}
use polymarket_tools.Prelude.{
  ℕ, ◌-◌, ◌≡◌, refl, true, false, none, some, List, [], ◌∷◌, All, map, arith, count_if, get_elem?,
  ◌++◌, ◌*◌, update, ◌*◌,
}
use polymarket_tools.Floats.Nano.{ℤ, pos, nano}
use polymarket_tools.Polymarket.Orders.{remaining, OpenOrder}
use polymarket_tools.ToolsDb.Types.{Db, Job, JobParams, WatchRow, restore}
use polymarket_tools.ToolsDb.Workers.{start_worker, beat}
use polymarket_tools.ToolsDb.Workers.Lease.{beat-excludes, Ends, WorkerStep, WorkerReach, beat-lost}
use polymarket_tools.ToolsDb.Jobs.{enqueue_job, claim_job, fail_running_jobs}
use polymarket_tools.ToolsDb.Watches.{arm_watch, request_disarm}
use polymarket_tools.ToolsDb.Types.{JobState, WatchState}
use polymarket_tools.ToolsDb.Jobs.Rows as Jobs
use polymarket_tools.ToolsDb.Jobs.Rows.{
  is_running_job, enqueued_db, interrupted, jobs-fail_running_jobs,
}
use polymarket_tools.ToolsDb.Jobs.Open.{JobStep, JobReach, JobReach-IsValid, JobStep-final}
use polymarket_tools.ToolsDb.Watches.Rows.{DbIsValid}
use polymarket_tools.ToolsDb.Watches.Final.{
  WatchStep, WatchReach, WatchReach-IsValid, WatchStep-final,
}
use polymarket_tools.Restore.{PlanLine, context, plan, is_would_place, key, copies_of, same_key}
use polymarket_tools.Restore.Keys.{nano-EqLaws}
use polymarket_tools.Restore.Copies.{
  IsSafeLine, places, wants, plan-IsSafe, places-plan, plan-none_placed,
}
use polymarket_tools.Restore.Rerun.{plan_again-places_none}
use polymarket_tools.Restore.Place.{Turn, place, progress, max_unanswered}
use polymarket_tools.Restore.Place.Streak.{
  NeverMoreThan, IsStorable, Covers, planned_orders, place-IsSound,
}
use polymarket_tools.Examples.World.{
  builtins, texts, empty_db, limit_order, new_watch, stored_orders, open_order, accepting_call,
}

abbrev second : ℕ
second = 1000000

abbrev worker_db : Db ℤ
worker_db = record empty_db {
  worker_status = some (record {
    instance_id = "first";
    pid = 7;
    keyed = true;
    started_at = second;
    last_beat_at = second;
    stopped_at = none;
  });
}

beat-excludes_example : start_worker worker_db "second" (5 * second) 8 true ≡ none
unfolding beat
beat-excludes_example =
    beat-excludes worker_db worker_db "first" "second" second (5 * second) 8 true refl refl

abbrev other_db : Db ℤ
other_db = record empty_db {
  worker_status = some (record {
    instance_id = "second";
    pid = 8;
    keyed = true;
    started_at = 20 * second;
    last_beat_at = 21 * second;
    stopped_at = none;
  });
}

beat-lost_example : beat other_db "first" (22 * second) ≡ (false, other_db)
unfolding start_worker beat
beat-lost_example =
    beat-lost "first" worker_db
      (record other_db {
        worker_status = some (record {
          instance_id = "second";
          pid = 8;
          keyed = true;
          started_at = 20 * second;
          last_beat_at = 20 * second;
          stopped_at = none;
        });
      })
      other_db (22 * second) (Ends.replaced "second" (20 * second) 8 true _ refl refl)
      (WorkerReach.next WorkerReach.here (WorkerStep.beats "second" (21 * second)))

abbrev params : JobParams
params = record { note = "note"; snapshot_id = 1; managed_markets = []; retired_markets = [] }

abbrev queued_db : Db ℤ
queued_db = enqueued_db empty_db restore params second (enqueue_job empty_db restore params second)

abbrev claimed_db : Db ℤ
claimed_db = (claim_job queued_db (2 * second)).1

empty-JobsIsValid : Jobs.IsValid empty_db
empty-JobsIsValid = record {
  one_kind = λ kind. omega arith;
  one_restore = omega arith;
  distinct = tt;
  below = tt;
}

JobReach-IsValid_example : Jobs.IsValid claimed_db
JobReach-IsValid_example = JobReach-IsValid empty-JobsIsValid (
    JobReach.next (JobReach.next JobReach.here (JobStep.enqueue restore params second))
      (JobStep.claim (2 * second)))

abbrev done_job : Job
done_job = record {
  id = 1;
  kind = restore;
  params = params;
  state = JobState.done;
  error = none;
  created_at = second;
  started_at = some second;
  finished_at = some second;
}

abbrev done_db : Db ℤ
done_db = record empty_db { jobs = done_job ∷ []; next_job = 2 }

done-JobsIsValid : Jobs.IsValid done_db
done-JobsIsValid = record {
  one_kind = λ kind. omega arith;
  one_restore = omega arith;
  distinct = (tt, tt);
  below = (omega arith, tt);
}

JobStep-final_example : get_elem? (claim_job done_db (2 * second)).1.jobs 0 ≡ some done_job
JobStep-final_example =
    JobStep-final done_db 0 done_job refl done-JobsIsValid (JobStep.claim (2 * second)) refl

jobs-fail_running_jobs_example :
    (fail_running_jobs done_db (2 * second) "stopped").1.jobs
    ≡ update is_running_job (interrupted "stopped" (2 * second)) done_db.jobs
jobs-fail_running_jobs_example =
    jobs-fail_running_jobs done_db (2 * second) "stopped" done-JobsIsValid

abbrev armed_db : Db ℤ
armed_db = (arm_watch empty_db new_watch second).1

empty-WatchesIsValid : DbIsValid empty_db
empty-WatchesIsValid = record {
  one_open = λ token. omega arith;
  checked = tt;
  distinct = tt;
  below = tt;
}

WatchReach-IsValid_example : DbIsValid (request_disarm armed_db 1 (2 * second)).1
WatchReach-IsValid_example = WatchReach-IsValid empty-WatchesIsValid (
    WatchReach.next (WatchReach.next WatchReach.here (WatchStep.arm new_watch second))
      (WatchStep.ask_disarm 1 (2 * second)))

abbrev closed_row : WatchRow ℤ
closed_row = record {
  id = 1;
  created_at = second;
  order = limit_order;
  market = "market";
  label = "label";
  target_tick = "0.001";
  guard = none;
  dry_run = false;
  disarm_requested_at = none;
  state = WatchState.fired;
  reason = none;
  detail = some "";
  tick = some "0.001";
  bid = none;
  ask = none;
  seen_at = none;
  triggered_at = some second;
  source = some "feed";
  send_ms = none;
  post_ms = none;
  attempts = some 1;
  order_id = some "new";
  resolved_at = some second;
  version = 3;
}

abbrev closed_db : Db ℤ
closed_db = record empty_db { watches = closed_row ∷ []; next_watch = 2 }

WatchStep-final_example :
    get_elem? (request_disarm closed_db 1 (2 * second)).1.watches 0 ≡ some closed_row
WatchStep-final_example =
    WatchStep-final closed_db 0 closed_row refl (WatchStep.ask_disarm 1 (2 * second)) refl

-- One of the two stored orders has a copy open, so the plan is a skip and a place.
abbrev copy : List (OpenOrder ℤ)
copy = open_order "x" ∷ []

plan-IsSafe_example :
    All (IsSafeLine (context copy [] second [])) (plan stored_orders copy [] second [])
    × (map (λ (line : PlanLine ℤ). line.order) (plan stored_orders copy [] second [])
        ≡ stored_orders)
plan-IsSafe_example = plan-IsSafe stored_orders copy [] [] second

places-plan_example :
    count_if (places (key (open_order "a"))) (plan stored_orders copy [] second [])
    ≡ count_if (wants (context copy [] second []) (key (open_order "a"))) stored_orders
      - count_if (same_key (key (open_order "a"))) (copies_of stored_orders copy)
places-plan_example = places-plan stored_orders copy [] [] second nano-EqLaws (key (open_order "a"))

plan_again-places_none_example :
    All
      (λ line. is_would_place line.action ≡ false)
      (plan stored_orders (copy ++ (open_order "y" ∷ [])) [] (2 * second) [])
unfolding plan remaining
plan_again-places_none_example =
    plan_again-places_none nano-EqLaws stored_orders copy (open_order "y" ∷ []) [] [] second
      (2 * second) (omega arith) (refl, tt) refl

abbrev turn : ℕ → Turn ℤ
turn n = record {
  stopping = false;
  refreshed = gave (pos 10000000);
  signed = gave tt;
  call = accepting_call;
}

place-IsSound_example :
    NeverMoreThan max_unanswered
      (progress (place 1 second (2 * second) turn (plan stored_orders copy [] second []))).answers
    × All IsStorable
        (progress (place 1 second (2 * second) turn (plan stored_orders copy [] second []))).lines
    × Covers
        (place 1 second (2 * second) turn (plan stored_orders copy [] second []))
        (planned_orders (plan stored_orders copy [] second []))
place-IsSound_example =
    place-IsSound 1 second (2 * second) turn (plan stored_orders copy [] second [])
      (plan-none_placed stored_orders copy [] [] second)
