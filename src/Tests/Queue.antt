-- ===== src/Tests/Queue.antt =====
-- The server's queue at concrete inputs.
use remus.Prelude.{
  ℕ, ◌≡◌, ◌≤◌, refl, ◌⊎◌, true, false, none, some, List, [], ◌∷◌, ◌==◌, if◌then◌else◌, find_if,
}
use remus.Std.Order.{nat_ord}
use remus.Std.Set
use remus.Common.MeshIoType
use remus.Proto.JobRequirements
use remus.Proto.JobRequirements.{JobRequirements, requirements_ord}
use remus.Proto.WorkerJob.{JobSubmission, make_job}
use remus.Server.JobQueue.{
  QueuedJob, JobQueue, empty, add_job, take_job, queued_job_requirements,
  num_jobs_waiting_for_workers, insert_at_lower_bound, have_uuid, remove, clear,
}
use remus.Server.JobQueue.Ids.{find_id, is_some}
use remus.Server.JobQueue.Invariant.{find_job, IsWellFormed}
use remus.Server.JobQueue.Refinement.{
  Taken, NothingFits, take_job_lem, find_job-remove, Call, add, dispatch, step, run,
  run-IsWellFormed,
}
use remus.Server.JobQueue.Order.{take_job_least}
use remus.Server.JobQueue.Cache.{wanted, add_job_hides}
use remus.Server.JobQueue.Clear.{clear_keeps_waiting}
use remus.Tests.{red, blue, red_job, blue_job}

-- Two red jobs and a blue one are added, and a worker is dispatched for a red one.
abbrev calls : List Call
calls = add 3 red_job ∷ add 1 red_job ∷ add 2 blue_job ∷ dispatch red ∷ []

abbrev queue : JobQueue
queue = record {
  queued_jobs =
      record { id = 2; submission = blue_job } ∷ record { id = 3; submission = red_job } ∷ [];
  jobs_waiting_for_worker = record { id = 1; submission = red_job } ∷ [];
  queued_ids = 1 ∷ 2 ∷ 3 ∷ [];
  cached_queued_job_requirements = [];
}

abbrev waiting : QueuedJob
waiting = record { id = 1; submission = red_job }

run-IsWellFormed_example : IsWellFormed (run empty calls)
run-IsWellFormed_example = run-IsWellFormed calls

take_job_lem_example :
    NothingFits (run empty calls) red (take_job (run empty calls) red)
    ⊎ ((n : QueuedJob) × Taken (run empty calls) red n (take_job (run empty calls) red))
take_job_lem_example = take_job_lem (run empty calls) (run-IsWellFormed calls) red

find_job-remove_example :
    ((k : ℕ)
      → find_job (remove (run empty calls) 2).0 k
        ≡ (if 2 == k then none else find_job (run empty calls) k))
    × ((remove (run empty calls) 2).1 ≡ is_some (find_job (run empty calls) 2))
find_job-remove_example = find_job-remove (run empty calls) (run-IsWellFormed calls) 2

-- Without a worker dispatched, the red job 1 goes before the red job 3.
abbrev two_red : List Call
two_red = add 3 red_job ∷ add 1 red_job ∷ []

take_job_least_example :
    (n : QueuedJob) × ((take_job (run empty two_red) red).1 ≡ make_job n.id n.submission)
    × (find_id n.id (run empty two_red).queued_jobs ≡ some n.submission)
    × (JobRequirements.eq red n.submission.requirements ≡ true)
    × ((k : ℕ) (other : JobSubmission)
        → find_id k (run empty two_red).queued_jobs ≡ some other
        → JobRequirements.eq red other.requirements ≡ true
        → n.id ≤ k)
unfolding run step empty add_job find_if Set.contains Set.insert insert_at_lower_bound
    JobRequirements.eq MeshIoType.eq
take_job_least_example =
    take_job_least (run empty two_red) red 3 red_job (run-IsWellFormed two_red) refl refl refl

-- The blue job is queued; a red one is added; blue is listed no more.
add_job_hides_example :
    (Set.contains blue (queued_job_requirements (add_job queue 4 red_job).0).1 ≡ false)
    × (wanted blue (add_job queue 4 red_job).0.queued_jobs ≡ true)
unfolding Set.contains JobRequirements.eq MeshIoType.eq
add_job_hides_example = add_job_hides queue 4 red_job blue refl refl refl refl

clear_keeps_waiting_example :
    ((k : ℕ) → have_uuid (clear queue) k ≡ false)
    × (num_jobs_waiting_for_workers (clear queue) ≡ num_jobs_waiting_for_workers queue)
    × ((take_job (clear queue) red).1 ≡ make_job 1 red_job)
    × ((take_job queue red).1 ≡ make_job 1 red_job)
unfolding find_if JobRequirements.eq MeshIoType.eq
clear_keeps_waiting_example = clear_keeps_waiting queue red waiting refl
