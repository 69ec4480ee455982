-- ===== src/Server/JobQueue/Order.antt =====
-- Which job `take_job` picks: waiting jobs first, in the order in which they were dispatched, then
-- the queued job with the least id.
use remus.Prelude.{
  ℕ, ◌≤◌, ◌≡◌, refl, Bool, true, none, some, List, [], ◌∷◌, ◌++◌, arith, find_if, find_if-passes,
  Option-cases, inl, inr,
}
use remus.Proto.JobRequirements
use remus.Proto.JobRequirements.{JobRequirements}
use remus.Proto.WorkerJob.{JobSubmission, make_job}
use remus.Server.JobQueue.{
  QueuedJob, JobQueue, job_type_matches, take_job, take_waiting, take_queued, worker_dispatched,
}
use remus.Server.JobQueue.Ids.{find_id, Above, IsSorted, find_if-find_id, IsSorted-Distinct}
use remus.Server.JobQueue.Invariant.{IsWellFormed}
use remus.Server.JobQueue.Refinement.{no_match}

Above-found :
    (k j : ℕ) (js : List QueuedJob) (s : JobSubmission) → Above k js → find_id j js ≡ some s → k ≤ j
Above-found k j [] s v e = absurd (cc)
Above-found k j (x ∷ xs) s v e = ground (arith, Above-found k j xs s v.1)

find_if_least :
    (p : QueuedJob → Bool) (js : List QueuedJob) (n : QueuedJob) (j : ℕ) (s : JobSubmission)
    → IsSorted js
    → find_if p js ≡ some n
    → find_id j js ≡ some s
    → p (record { id = j; submission = s }) ≡ true
    → n.id ≤ j
unfolding find_if
find_if_least p [] n j s v e f h = absurd (cc)
find_if_least p (x ∷ xs) n j s v e f h =
    ground (arith, find_if_least p xs n j s v.1, Above-found x.id j xs s v.0)

-- In a well-formed queue with no waiting job that fits but a queued one, `j`, that does, the job taken is
-- one of the queued jobs that fit, with its own submission, and it has the least id of all of them.
pub take_job_least :
    (q : JobQueue) (reqs : JobRequirements) (j : ℕ) (s : JobSubmission)
    → IsWellFormed q
    → find_if (job_type_matches reqs) q.jobs_waiting_for_worker ≡ none
    → find_id j q.queued_jobs ≡ some s
    → JobRequirements.eq reqs s.requirements ≡ true
    → (n : QueuedJob) × ((take_job q reqs).1 ≡ make_job n.id n.submission)
      × (find_id n.id q.queued_jobs ≡ some n.submission)
      × (JobRequirements.eq reqs n.submission.requirements ≡ true)
      × ((k : ℕ) (other : JobSubmission)
          → find_id k q.queued_jobs ≡ some other
          → JobRequirements.eq reqs other.requirements ≡ true
          → n.id ≤ k)
unfolding take_job take_waiting take_queued
take_job_least q reqs j s v e f h =
    let p = job_type_matches reqs in
    elim (Option-cases (find_if p q.queued_jobs)) [
      | inl none_fits ↦ absurd (cc (no_match reqs q.queued_jobs j s none_fits f))
      | inr (n, found) ↦ (
        n,
        rw (e, found) refl,
        find_if-find_id p q.queued_jobs n (IsSorted-Distinct q.queued_jobs v.sorted) found,
        find_if-passes p q.queued_jobs found,
        λ k other f' h'. find_if_least p q.queued_jobs n k other v.sorted found f' h',
      )
    ]

find_if-append :
    (p : QueuedJob → Bool) (js : List QueuedJob) (n : QueuedJob)
    → find_if p js ≡ none
    → p n ≡ true
    → find_if p (js ++ (n ∷ [])) ≡ some n
unfolding find_if
find_if-append p [] n e h = ground arith
find_if-append p (x ∷ xs) n e h = ground (arith, find_if-append p xs n)

-- To dispatch a worker for some requirements does not change which job it will get: with no
-- waiting job that fits, `take_job` returns the same job before and after `worker_dispatched`.
pub take_job-worker_dispatched :
    (q : JobQueue) (reqs : JobRequirements)
    → find_if (job_type_matches reqs) q.jobs_waiting_for_worker ≡ none
    → (take_job (worker_dispatched q reqs).0 reqs).1 ≡ (take_job q reqs).1
unfolding take_job worker_dispatched
take_job-worker_dispatched q reqs e =
    elim (Option-cases (find_if (job_type_matches reqs) q.queued_jobs)) [
      | inl f ↦ rw (f, e, f)
      | inr (n, f) ↦ rw (
        f,
        find_if-append (job_type_matches reqs) q.jobs_waiting_for_worker n e
            (find_if-passes (job_type_matches reqs) q.queued_jobs f),
        e,
        f,
      )
    ]
