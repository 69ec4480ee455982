-- ===== src/Server/JobQueue/Clear.antt =====
-- `clear` and the jobs that wait for a worker.
use remus.Prelude.{ℕ, ◌≡◌, refl, false, some, find_if}
use remus.Std.Order.{nat_ord}
use remus.Std.Set
use remus.Proto.JobRequirements.{JobRequirements}
use remus.Proto.WorkerJob.{make_job}
use remus.Server.JobQueue.{
  QueuedJob, JobQueue, job_type_matches, take_job, have_uuid, clear, num_jobs_waiting_for_workers,
}

-- If a waiting job fits, then after `clear` no id is known to the queue, but the queue still
-- counts every waiting job, and `take_job` still hands out the one that it would have handed out
-- before.
pub clear_keeps_waiting :
    (q : JobQueue) (reqs : JobRequirements) (n : QueuedJob)
    → find_if (job_type_matches reqs) q.jobs_waiting_for_worker ≡ some n
    → ((k : ℕ) → have_uuid (clear q) k ≡ false)
      × (num_jobs_waiting_for_workers (clear q) ≡ num_jobs_waiting_for_workers q)
      × ((take_job (clear q) reqs).1 ≡ make_job n.id n.submission)
      × ((take_job q reqs).1 ≡ make_job n.id n.submission)
unfolding clear take_job have_uuid num_jobs_waiting_for_workers Set.contains
clear_keeps_waiting q reqs n e = ((λ k. refl), refl, rw e, rw e)
