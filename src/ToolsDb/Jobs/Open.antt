-- ===== src/ToolsDb/Jobs/Open.antt =====
-- tools/db.py: every sequence of statements on `jobs`.
use polymarket_tools.ToolsDb.Jobs.Rows.{
  IsValid, is_queued_job, is_running_job, enqueued_db, finish_job-IsValid, claim_job-IsValid,
  enqueue_job-IsValid, fail_running_jobs-IsValid, interrupted, jobs-fail_running_jobs,
}
use polymarket_tools.Prelude.{
  ℕ, String, true, false, ◌≡◌, refl, arith, inl, inr, Option, none, some, All, All-of,
  find_if-Distinct, update, get_elem?, get_elem?-append, get_elem?-update, All-get_elem?, find_if,
  any, Bool-cases, All-imp, Bool,
}
use polymarket_tools.ToolsDb.Types.{Db, Job, JobKind, JobParams, is_open_job}
use polymarket_tools.ToolsDb.Jobs.{
  clashes, enqueue_job, has_id, started, claim_job, claim_found, closed_as, end_state,
  running_with_id, finish_job, fail_running_jobs,
}

-- The statements on `jobs`, in any order: the console enqueues, the worker does the rest.
pub data JobStep {F : Type 0} (db : Db F) : Db F → Type 0 where
  enqueue :
      (kind : JobKind) (params : JobParams) (now : ℕ)
      → JobStep db (enqueued_db db kind params now (enqueue_job db kind params now))
  claim : (now : ℕ) → JobStep db (claim_job db now).1
  finish : (id now : ℕ) (error : Option String) → JobStep db (finish_job db id now error)
  fail_running : (now : ℕ) (reason : String) → JobStep db (fail_running_jobs db now reason).1

pub data JobReach {F : Type 0} (db : Db F) : Db F → Type 0 where
  here : JobReach db db
  next : {d d' : Db F} → JobReach db d → JobStep d d' → JobReach db d'

JobStep-IsValid : {F : Type 0} (d d' : Db F) → JobStep d d' → IsValid d → IsValid d'
JobStep-IsValid d _ (enqueue kind params now) v = enqueue_job-IsValid d kind params now v
JobStep-IsValid d _ (claim now) v = claim_job-IsValid d now v
JobStep-IsValid d _ (finish id now error) v = finish_job-IsValid d id now error v
JobStep-IsValid d _ (fail_running now reason) v = fail_running_jobs-IsValid d now reason v

-- However the console and the worker interleave their statements on `jobs`, no kind ever has two
-- jobs queued or running, no two of a preview and a restore are, and no id is used twice.
pub JobReach-IsValid : {F : Type 0} {db d : Db F} → IsValid db → JobReach db d → IsValid d
JobReach-IsValid v here = v
JobReach-IsValid v (next r step) = JobStep-IsValid _ _ step (JobReach-IsValid v r)

module _ {F : Type 0} (db : Db F) (n : ℕ) (job : Job) (ended : is_open_job job.state ≡ false) where
  ended-update :
      (p : Job → Bool) (f : Job → Job)
      → All (λ j. p j ≡ true → is_open_job j.state ≡ true) db.jobs
      → get_elem? db.jobs n ≡ some job
      → get_elem? (update p f db.jobs) n ≡ some job
  ended-update p f imp at = get_elem?-update p f db.jobs n job at (
      ground
        (arith, All-get_elem? (λ j. p j ≡ true → is_open_job j.state ≡ true) db.jobs n job imp at))

  ended-claim :
      (now : ℕ)
      → IsValid db
      → get_elem? db.jobs n ≡ some job
      → get_elem? (claim_job db now).1.jobs n ≡ some job
  unfolding claim_job
  ended-claim now v at = go (find_if is_queued_job db.jobs) refl
    where
      go :
          (found : Option Job)
          → find_if is_queued_job db.jobs ≡ found
          → get_elem? (claim_found db now found).1.jobs n ≡ some job
      go none e = at
      go (some other) e =
          ended-update (has_id other.id) (started now)
            (All-imp _ _ (λ j h p. ground (arith, h p)) db.jobs
              (find_if-Distinct (λ (j : Job). j.id) is_queued_job db.jobs other v.distinct e))
            at

  ended-finish :
      (id now : ℕ) (error : Option String)
      → get_elem? db.jobs n ≡ some job
      → get_elem? (finish_job db id now error).jobs n ≡ some job
  unfolding finish_job
  ended-finish id now error at = elim (Bool-cases (any (running_with_id id) db.jobs)) [
    | inl e ↦ rw e (
        ended-update (running_with_id id) (closed_as (end_state error) error now)
          (All-of _ (λ j a. ground arith) db.jobs) at)
    | inr e ↦ rw e (
        ended-update (running_with_id id) (closed_as (end_state error) error now)
          (All-of _ (λ j a. ground arith) db.jobs) at)
  ]

  -- A job that is done or failed is final: no statement on `jobs` changes any column of it.
  pub JobStep-final :
      {d : Db F}
      → IsValid db
      → JobStep db d
      → get_elem? db.jobs n ≡ some job
      → get_elem? d.jobs n ≡ some job
  unfolding enqueue_job
  JobStep-final v (enqueue kind params now) at = elim (Bool-cases (any (clashes kind) db.jobs)) [
    | inl taken ↦ rw taken at
    | inr free ↦ rw free (get_elem?-append db.jobs _ n job at)
  ]
  JobStep-final v (claim now) at = ended-claim now v at
  JobStep-final v (finish id now error) at = ended-finish id now error at
  JobStep-final v (fail_running now reason) at = rw (jobs-fail_running_jobs db now reason v) (
      ended-update is_running_job (interrupted reason now) (All-of _ (λ j a. ground arith) db.jobs)
        at)
