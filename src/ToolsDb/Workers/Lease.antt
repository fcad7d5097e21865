-- ===== src/ToolsDb/Workers/Lease.antt =====
-- tools/db.py: which worker holds tools.db.
use polymarket_tools.Prelude.{
  refl, Option-cases, inl, inr, ℕ, String, Bool, true, false, ◌≡◌, arith, none, some, str_eq,
  Option-cases, inl, inr,
}
use polymarket_tools.Floats.{Floats, ◌<?◌, elapsed}
use polymarket_tools.ToolsDb.Types.{Db, stamp}
use polymarket_tools.ToolsDb.Workers.{stale_after_s, start_worker, beat, stop_worker, holds}

module _ {F : Type 0} ⦃fl : Floats F⦄ (db db' : Db F) where
  -- While the time since a worker started, stored cut down to the second, is less than
  -- STALE_AFTER_S, no worker starts.
  pub start_worker-excludes :
      (mine other : String) (now later pid pid' : ℕ) (keyed keyed' : Bool)
      → start_worker db mine now pid keyed ≡ some db'
      → (elapsed later (stamp now) <? stale_after_s {F = F}) ≡ true
      → start_worker db' other later pid' keyed' ≡ none
  unfolding start_worker
  start_worker-excludes mine other now later pid pid' keyed keyed' started recent = ground arith

  -- While the time since a beat that was recorded, which is stored cut down to the second, is less
  -- than STALE_AFTER_S, no worker starts.
  pub beat-excludes :
      (mine other : String) (now later pid' : ℕ) (keyed' : Bool)
      → beat db mine now ≡ (true, db')
      → (elapsed later (stamp now) <? stale_after_s {F = F}) ≡ true
      → start_worker db' other later pid' keyed' ≡ none
  unfolding beat start_worker
  beat-excludes mine other now later pid' keyed' beaten recent = ground arith

-- What ends a worker's hold on tools.db: it stops, another starts in its place, or a beat of it
-- finds that it holds no more.
pub data Ends {F : Type 0} ⦃fl : Floats F⦄ (mine : String) (db : Db F) : Db F → Type 0 where
  stopping : (now : ℕ) → Ends mine db (stop_worker db mine now)
  replaced :
      (other : String) (now pid : ℕ) (keyed : Bool) (d : Db F)
      → str_eq other mine ≡ false
      → start_worker db other now pid keyed ≡ some d
      → Ends mine db d
  missing : (now : ℕ) → (beat db mine now).0 ≡ false → Ends mine db (beat db mine now).1

-- One statement of any worker on `worker_status`; no worker that starts draws the id `mine`.
pub data WorkerStep {F : Type 0} ⦃fl : Floats F⦄ (mine : String) (db : Db F) : Db F → Type 0 where
  starts :
      (other : String) (now pid : ℕ) (keyed : Bool) (d : Db F)
      → str_eq other mine ≡ false
      → start_worker db other now pid keyed ≡ some d
      → WorkerStep mine db d
  beats : (id : String) (now : ℕ) → WorkerStep mine db (beat db id now).1
  stops : (id : String) (now : ℕ) → WorkerStep mine db (stop_worker db id now)

pub data WorkerReach {F : Type 0} ⦃fl : Floats F⦄ (mine : String) (db : Db F) : Db F → Type 0 where
  here : WorkerReach mine db db
  next : {d d' : Db F} → WorkerReach mine db d → WorkerStep mine d d' → WorkerReach mine db d'

module _ {F : Type 0} ⦃fl : Floats F⦄ (mine : String) where
  holds-start_worker :
      (db d : Db F) (other : String) (now pid : ℕ) (keyed : Bool)
      → str_eq other mine ≡ false
      → start_worker db other now pid keyed ≡ some d
      → holds mine d.worker_status ≡ false
  unfolding start_worker
  holds-start_worker db d other now pid keyed differ started = ground arith

  holds-stopped : (db : Db F) (now : ℕ) → holds mine (stop_worker db mine now).worker_status ≡ false
  unfolding stop_worker
  holds-stopped db now = elim (Option-cases db.worker_status) [
    | inl empty ↦ rw empty refl
    | inr (status, there) ↦ rw there (ground arith)
  ]

  Ends-holds : {db d : Db F} → Ends mine db d → holds mine d.worker_status ≡ false
  unfolding beat
  Ends-holds {db} (stopping now) = holds-stopped db now
  Ends-holds {db} (replaced other now pid keyed d differ started) =
      holds-start_worker db d other now pid keyed differ started
  Ends-holds {db} (missing now missed) = ground arith

  WorkerStep-holds :
      {d d' : Db F}
      → WorkerStep mine d d'
      → holds mine d.worker_status ≡ false
      → holds mine d'.worker_status ≡ false
  unfolding beat stop_worker
  WorkerStep-holds {d} (starts other now pid keyed d' differ started) lost =
      holds-start_worker d d' other now pid keyed differ started
  WorkerStep-holds {d} (beats id now) lost = elim (Option-cases d.worker_status) [
    | inl empty ↦ rw empty refl
    | inr (status, there) ↦ rw there (ground (arith, rw there at lost))
  ]
  WorkerStep-holds {d} (stops id now) lost = elim (Option-cases d.worker_status) [
    | inl empty ↦ rw empty refl
    | inr (status, there) ↦ rw there (ground (arith, rw there at lost))
  ]

  WorkerReach-holds :
      {d d' : Db F}
      → holds mine d.worker_status ≡ false
      → WorkerReach mine d d'
      → holds mine d'.worker_status ≡ false
  WorkerReach-holds lost here = lost
  WorkerReach-holds lost (next r step) = WorkerStep-holds step (WorkerReach-holds lost r)

  -- Once a worker stopped, another started in its place, or a beat of it missed, no later beat of it
  -- writes anything, and each says so, whatever workers do in between, at whatever times, as long as
  -- no worker that starts draws its id again.
  pub beat-lost :
      (db d d' : Db F) (later : ℕ)
      → Ends mine db d
      → WorkerReach mine d d'
      → beat d' mine later ≡ (false, d')
  unfolding beat
  beat-lost db d d' later ended r = rw (WorkerReach-holds (Ends-holds ended) r) refl
