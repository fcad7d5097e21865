-- ===== src/ToolsDb/Jobs/Rows.antt =====
-- tools/db.py: the invariant of the table `jobs`, and that each statement keeps it.
use polymarket_tools.Prelude.{
  if◌then◌else◌, ℕ, ◌+◌, ◌≤◌, String, true, false, ◌≡◌, refl, arith, inl, inr, Option, none, some,
  List, [], ◌∷◌, All, All-of, Distinct, Below, Distinct-append, Distinct-update, Below-suc,
  Below-update, find_if-Distinct, update, update_each, update_each-keep_if, count_if,
  count_if-append, count_if-update, count_if-of_not_any, find_if, keep_if, any, Bool-cases, All-imp,
  Bool, ◌∙◌, All-append,
}
use polymarket_tools.ToolsDb.Types.{
  Db, Job, JobKind, JobParams, snapshot, preview, restore, failed, is_queued, is_running_state,
  is_open_job, is_restore_kind,
}
use polymarket_tools.ToolsDb.Jobs.{
  open_of_kind, open_restore, clashes, new_job, job_open, enqueue_job, has_id, started, claim_job,
  claim_found, closed_as, end_state, running_with_id, finish_job, fail_jobs, fail_running_jobs,
  same_kind, Enqueued,
}

pub record IsValid {F : Type 0} (db : Db F) : Type 0 where
  -- the two unique indexes
  pub one_kind : (kind : JobKind) → count_if (open_of_kind kind) db.jobs ≤ 1
  pub one_restore : count_if open_restore db.jobs ≤ 1
  -- the primary key and AUTOINCREMENT
  pub distinct : Distinct (λ (j : Job). j.id) db.jobs
  pub below : Below (λ (j : Job). j.id) db.next_job db.jobs

abbrev pub is_queued_job : Job → Bool
is_queued_job job = is_queued job.state

abbrev pub is_running_job : Job → Bool
is_running_job job = is_running_state job.state

-- An update that keeps each kind opens no row of an index that was closed.
module _ (p : Job → Bool) (f : Job → Job) (same_kind : (j : Job) → (f j).kind ≡ j.kind) where
  abbrev OpensNone : Job → Type 0
  OpensNone j = p j ≡ true → is_open_job (f j).state ≡ true → is_open_job j.state ≡ true

  one_kind-update :
      (kind : JobKind) (js : List Job)
      → All OpensNone js
      → count_if (open_of_kind kind) (update p f js) ≤ count_if (open_of_kind kind) js
  one_kind-update kind js h =
      count_if-update (open_of_kind kind) p f js
        (All-imp OpensNone _ (λ j o pj q. ground (arith, same_kind j, o pj)) js h)

  one_restore-update :
      (js : List Job)
      → All OpensNone js
      → count_if open_restore (update p f js) ≤ count_if open_restore js
  one_restore-update js h =
      count_if-update open_restore p f js
        (All-imp OpensNone _ (λ j o pj q. ground (arith, same_kind j, o pj)) js h)

module _ {F : Type 0} (db : Db F) where
  -- A statement that only changes rows keeps the invariant, if it opens none.
  update-IsValid :
      (p : Job → Bool) (f : Job → Job) (db' : Db F)
      → ((j : Job) → (f j).id ≡ j.id)
      → ((j : Job) → (f j).kind ≡ j.kind)
      → All (λ j. p j ≡ true → is_open_job (f j).state ≡ true → is_open_job j.state ≡ true) db.jobs
      → db'.jobs ≡ update p f db.jobs
      → db'.next_job ≡ db.next_job
      → IsValid db
      → IsValid db'
  update-IsValid p f db' same_id same_kind keeps e n v = record {
    one_kind = λ kind.
        rw e (omega (arith, one_kind-update p f same_kind kind db.jobs keeps, v.one_kind kind));
    one_restore =
        rw e (omega (arith, one_restore-update p f same_kind db.jobs keeps, v.one_restore));
    distinct = rw e (Distinct-update (λ (j : Job). j.id) f same_id p db.jobs v.distinct);
    below = rw (e, n) (Below-update (λ (j : Job). j.id) f same_id p db.next_job db.jobs v.below);
  }

  pub finish_job-IsValid :
      (id now : ℕ) (error : Option String) → IsValid db → IsValid (finish_job db id now error)
  unfolding finish_job
  finish_job-IsValid id now error v = elim (Bool-cases (any (running_with_id id) db.jobs)) [
    | inl e ↦ rw e (
        update-IsValid (running_with_id id) (closed_as (end_state error) error now) _ (λ j. refl)
          (λ j. refl) closes refl refl v)
    | inr e ↦ rw e (
        update-IsValid (running_with_id id) (closed_as (end_state error) error now) _ (λ j. refl)
          (λ j. refl) closes refl refl v)
  ]
    where
      closes :
          All
            (λ j.
              running_with_id id j ≡ true
              → is_open_job (end_state error) ≡ true
              → is_open_job j.state ≡ true)
            db.jobs
      closes = All-of _ (λ j a b. ground arith) db.jobs

  pub claim_job-IsValid : (now : ℕ) → IsValid db → IsValid (claim_job db now).1
  unfolding claim_job
  claim_job-IsValid now v = go (find_if is_queued_job db.jobs) refl
    where
      go :
          (found : Option Job)
          → find_if is_queued_job db.jobs ≡ found
          → IsValid (claim_found db now found).1
      go none e = v
      go (some job) e =
          update-IsValid (has_id job.id) (started now) _ (λ j. refl) (λ j. refl)
            (All-imp _ _ (λ j h p q. ground (arith, h p)) db.jobs
              (find_if-Distinct (λ (j : Job). j.id) is_queued_job db.jobs job v.distinct e))
            refl refl v

-- The indexes refuse an insert that would give a kind a second open job.
clashes-open_of_kind :
    (kind other : JobKind) (j : Job)
    → same_kind other kind ≡ true
    → clashes kind j ≡ false
    → open_of_kind other j ≡ false
clashes-open_of_kind snapshot snapshot j e c = ground arith
clashes-open_of_kind preview preview j e c = ground arith
clashes-open_of_kind restore restore j e c = ground arith
clashes-open_of_kind _ _ j e c = cc

module _ {F : Type 0} (db : Db F) (kind : JobKind) (params : JobParams) (now : ℕ) where
  abbrev pub enqueued_db : Enqueued F → Db F
  enqueued_db (new_job _ d) = d
  enqueued_db (job_open _) = db

  one_kind-enqueue :
      (other : JobKind)
      → any (clashes kind) db.jobs ≡ false
      → IsValid db
      → count_if (open_of_kind other) db.jobs + (if same_kind other kind then 1 else 0) ≤ 1
  one_kind-enqueue other free v = elim (Bool-cases (same_kind other kind)) [
    | inl e ↦ rw e (
        omega (
          arith,
          count_if-of_not_any (clashes kind) (open_of_kind other) db.jobs free
              (λ j. clashes-open_of_kind kind other j e),
        ))
    | inr e ↦ rw e (omega (arith, v.one_kind other))
  ]

  one_restore-enqueue :
      any (clashes kind) db.jobs ≡ false
      → IsValid db
      → count_if open_restore db.jobs + (if is_restore_kind kind then 1 else 0) ≤ 1
  one_restore-enqueue free v = elim (Bool-cases (is_restore_kind kind)) [
    | inl e ↦ rw e (
        omega (
          arith,
          count_if-of_not_any (clashes kind) open_restore db.jobs free (λ j c. ground arith),
        ))
    | inr e ↦ rw e (omega (arith, v.one_restore))
  ]

  pub enqueue_job-IsValid : IsValid db → IsValid (enqueued_db (enqueue_job db kind params now))
  unfolding enqueue_job
  enqueue_job-IsValid v = elim (Bool-cases (any (clashes kind) db.jobs)) [
    | inl taken ↦ rw taken v
    | inr free ↦ rw free (record {
      one_kind = λ other. rw count_if-append (omega (arith, one_kind-enqueue other free v));
      one_restore = rw count_if-append (omega (arith, one_restore-enqueue free v));
      distinct = Distinct-append (λ (j : Job). j.id) db.jobs _ v.distinct v.below;
      below =
          All-append _ db.jobs _ (Below-suc (λ (j : Job). j.id) db.next_job db.jobs v.below)
            (omega arith, tt);
    })
  ]

-- What fail_running_jobs writes to a job.
abbrev pub interrupted : String → ℕ → Job → Job
interrupted reason now = closed_as failed (some reason) now

jobs-fail_jobs :
    {F : Type 0} (left : List Job) (db : Db F) (now : ℕ) (reason : String)
    → (fail_jobs left db now reason).jobs
      ≡ update_each (λ (j : Job). j.id) (interrupted reason now) (λ j. refl) left db.jobs
unfolding fail_jobs
jobs-fail_jobs [] db now reason = refl
jobs-fail_jobs (job ∷ rest) db now reason = jobs-fail_jobs rest _ now reason

next_job-fail_jobs :
    {F : Type 0} (left : List Job) (db : Db F) (now : ℕ) (reason : String)
    → (fail_jobs left db now reason).next_job ≡ db.next_job
unfolding fail_jobs
next_job-fail_jobs [] db now reason = refl
next_job-fail_jobs (job ∷ rest) db now reason = next_job-fail_jobs rest _ now reason

module _ {F : Type 0} (db : Db F) (now : ℕ) (reason : String) where
  -- The loop that closes the running jobs one by one writes what one UPDATE of them all would.
  pub jobs-fail_running_jobs :
      IsValid db
      → (fail_running_jobs db now reason).1.jobs
        ≡ update is_running_job (interrupted reason now) db.jobs
  unfolding fail_running_jobs
  jobs-fail_running_jobs v =
      jobs-fail_jobs (keep_if is_running_job db.jobs) db now reason
      ∙ update_each-keep_if (λ (j : Job). j.id) (interrupted reason now) (λ j. refl) is_running_job
          db.jobs v.distinct

  pub fail_running_jobs-IsValid : IsValid db → IsValid (fail_running_jobs db now reason).1
  fail_running_jobs-IsValid v =
      update-IsValid db is_running_job (interrupted reason now) _ (λ j. refl) (λ j. refl)
        (All-of _ (λ j a b. cc) db.jobs) (jobs-fail_running_jobs v)
        (unfold fail_running_jobs in
          next_job-fail_jobs (keep_if is_running_job db.jobs) db now reason)
        v
