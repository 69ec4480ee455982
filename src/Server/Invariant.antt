-- ===== src/Server/Invariant.antt =====
-- What holds of the server between two messages, and which jobs it knows.
use remus.Prelude.{ℕ, ◌≡◌, Bool, true, ◌||◌, none, arith}
use remus.Std.Map
use remus.Common.PollingMonitor.{PollingMonitor}
use remus.Server.JobQueue
use remus.Server.JobQueue.{JobQueue, empty}
use remus.Server.JobQueue.Ids.{is_some}
use remus.Server.JobQueue.Invariant.{
  find_job, IsWellFormed, empty-IsWellFormed, queued_job_requirements-IsWellFormed,
}
use remus.Server.JobQueue.Wanted.{
  IsCacheSound, empty-IsCacheSound, queued_job_requirements-IsCacheSound,
}
use remus.Server.ActiveJobs.{ActiveJobs}
use remus.Server.Factory.{WorkerFactory}
use remus.Server.State.{Server, make}

-- The job is in the queue, or a worker was given it.
abbrev pub known : JobQueue → ActiveJobs → ℕ → Bool
known q info id = is_some (find_job q id) || is_some (Map.lookup id info)

-- The queue is well formed, its cache sound, and no job is both queued and active.
pub record IsGood (q : JobQueue) (info : ActiveJobs) : Type 0 where
  pub queue : IsWellFormed q
  pub cache : IsCacheSound q
  pub apart : (id : ℕ) → is_some (find_job q id) ≡ true → Map.lookup id info ≡ none

module _ {f : WorkerFactory} where
  abbrev pub knows : Server f → ℕ → Bool
  knows s id = known s.queued_jobs s.active_jobs id

  abbrev pub Inv : Server f → Type 0
  Inv s = IsGood s.queued_jobs s.active_jobs

pub make-Inv :
    (f : WorkerFactory) (p : PollingMonitor) (factory : f.State) → Inv (make {f = f} p factory)
unfolding make empty
make-Inv f p factory = record {
  queue = empty-IsWellFormed;
  cache = empty-IsCacheSound;
  apart = λ id h. absurd (ground (arith, h));
}

pub find_job-lists :
    (q : JobQueue) (id : ℕ) → find_job (JobQueue.queued_job_requirements q).0 id ≡ find_job q id
unfolding JobQueue.queued_job_requirements
find_job-lists q id = ground arith

pub listed-IsGood :
    (q : JobQueue) (info : ActiveJobs)
    → IsGood q info
    → IsGood (JobQueue.queued_job_requirements q).0 info
listed-IsGood q info v = record {
  queue = queued_job_requirements-IsWellFormed q v.queue;
  cache = queued_job_requirements-IsCacheSound q v.cache;
  apart = λ id h. v.apart id (rw (find_job-lists q id) at h);
}
