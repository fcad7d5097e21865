-- ===== src/ToolsDb/Jobs.antt =====
-- tools/db.py: the table `jobs` and its two unique indexes.
pub mod Rows
pub mod Open
use polymarket_tools.Prelude.{
  str_eq, ℕ, suc, String, Bool, ◌&&◌, ◌||◌, Option, none, some, List, [], ◌∷◌, ◌++◌, ◌==◌, any,
  find_if, keep_if, update, length, if◌then◌else◌, ◌&◌,
}
use polymarket_tools.ToolsDb.Types.{
  Db, Job, JobKind, JobState, JobParams, queued, running, done, failed, same_kind, is_restore_kind,
  is_queued, is_running_state, is_open_job, stamp,
}
use polymarket_tools.ToolsDb.Log.{append_log}

-- The rows of the index jobs_open_kind for one kind, and of jobs_open_restore.
abbrev pub open_of_kind : JobKind → Job → Bool
open_of_kind kind job = is_open_job job.state && same_kind kind job.kind

abbrev pub open_restore : Job → Bool
open_restore job = is_open_job job.state && is_restore_kind job.kind

-- The rows that a new queued job of this kind would clash with, as the indexes see them.
abbrev pub clashes : JobKind → Job → Bool
clashes kind job = open_of_kind kind job || (is_restore_kind kind && open_restore job)

-- The rows that the message of JobOpen is about.
abbrev pub named_open : JobKind → Job → Bool
named_open kind job =
    is_open_job job.state
    && (if is_restore_kind kind then is_restore_kind job.kind else same_kind kind job.kind)

pub data Enqueued (F : Type 0) : Type 0 where
  new_job : ℕ → Db F → Enqueued F
  -- JobOpen, about this job; none where no row is found to name
  job_open : Option Job → Enqueued F

abbrev pub has_id : ℕ → Job → Bool
has_id id job = job.id == id

abbrev pub started : ℕ → Job → Job
started now job = record job { state = running; started_at = some (stamp now) }

abbrev pub closed_as : JobState → Option String → ℕ → Job → Job
closed_as state error now job = record job {
  state = state;
  error = error;
  finished_at = some (stamp now);
}

abbrev pub end_state : Option String → JobState
end_state none = done
end_state (some error) = if str_eq error "" then done else failed

abbrev end_line : Option String → String
end_line none = "done"
end_line (some error) = if str_eq error "" then "done" else "failed: " & error

abbrev pub running_with_id : ℕ → Job → Bool
running_with_id id job = job.id == id && is_running_state job.state

module _ {F : Type 0} where
  unfoldable pub enqueue_job : Db F → JobKind → JobParams → ℕ → Enqueued F
  enqueue_job db kind params now =
      if any (clashes kind) db.jobs
      then job_open (find_if (named_open kind) db.jobs)
      else new_job db.next_job (record db {
        jobs =
            db.jobs
            ++ (record {
              id = db.next_job;
              kind = kind;
              params = params;
              state = queued;
              error = none;
              created_at = stamp now;
              started_at = none;
              finished_at = none;
            }
                ∷ []);
        next_job = suc db.next_job;
      })

  pub read_job : Db F → ℕ → Option Job
  read_job db id = find_if (has_id id) db.jobs

  claim_found : Db F → ℕ → Option Job → Option Job × Db F
  unfolding read_job append_log
  claim_found db now none = (none, db)
  claim_found db now (some job) =
      let db' =
        append_log (record db { jobs = update (has_id job.id) (started now) db.jobs }) now "started"
          (some job.id) none in
      (read_job db' job.id, db')

  unfoldable pub claim_job : Db F → ℕ → Option Job × Db F
  unfolding claim_found
  claim_job db now = claim_found db now (find_if (λ job. is_queued job.state) db.jobs)

  unfoldable pub finish_job : Db F → ℕ → ℕ → Option String → Db F
  unfolding append_log
  finish_job db id now error =
      let db' = record db {
        jobs = update (running_with_id id) (closed_as (end_state error) error now) db.jobs;
      } in
      if any (running_with_id id) db.jobs
      then append_log db' now (end_line error) (some id) none
      else db'

  fail_jobs : List Job → Db F → ℕ → String → Db F
  unfolding append_log
  fail_jobs [] db now reason = db
  fail_jobs (job ∷ rest) db now reason =
      fail_jobs rest
        (append_log
          (record db { jobs = update (has_id job.id) (closed_as failed (some reason) now) db.jobs })
          now ("failed: " & reason) (some job.id) none)
        now reason

  -- fail_running_jobs: the number of jobs closed
  unfoldable pub fail_running_jobs : Db F → ℕ → String → ℕ × Db F
  unfolding fail_jobs
  fail_running_jobs db now reason =
      let left = keep_if (λ job. is_running_state job.state) db.jobs in
      (length left, fail_jobs left db now reason)
