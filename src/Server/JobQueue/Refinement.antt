-- ===== src/Server/JobQueue/Refinement.antt =====
-- The queue refines a finite map from ids to submissions: what each call does to `find_job`, and
-- the invariant after any history of calls.
use remus.Prelude.{
  ℕ, ◌≡◌, refl, ◌⊎◌, inl, inr, true, false, none, some, List, [], ◌∷◌, arith, ◌==◌, if◌then◌else◌,
  find_if, find_if-passes,
}
use remus.Std.Order.{nat_ord}
use remus.Proto.JobRequirements
use remus.Proto.JobRequirements.{JobRequirements}
use remus.Proto.WorkerJob.{JobSubmission, WorkerJob, no_job, make_job}
use remus.Server.JobQueue.{
  QueuedJob, JobQueue, job_type_matches, empty, add_job, take_job, take_waiting, take_queued,
  worker_dispatched, dispatch_found, remove, queued_job_requirements,
}
use remus.Server.JobQueue.Ids.{
  find_id, is_some, has_id-find_id, find_id-remove, find_id-append, find_id-erase_first,
  find_if-find_id, IsSorted-Distinct,
}
use remus.Server.JobQueue.Invariant.{
  find_job, IsWellFormed, empty-IsWellFormed, add_job-IsWellFormed, take_job-IsWellFormed,
  worker_dispatched-IsWellFormed, remove-IsWellFormed, queued_job_requirements-IsWellFormed,
  take_job_cases, dispatch_cases,
}

-- No job with matching requirements is among these.
pub no_match :
    (reqs : JobRequirements) (js : List QueuedJob) (k : ℕ) (s : JobSubmission)
    → find_if (job_type_matches reqs) js ≡ none
    → find_id k js ≡ some s
    → JobRequirements.eq reqs s.requirements ≡ false
unfolding find_if
no_match reqs [] k s e f = cc
no_match reqs (x ∷ xs) k s e f = ground (arith, no_match reqs xs k s)

-- What a taken job is, and what is left.
pub record Taken (q : JobQueue) (reqs : JobRequirements) (n : QueuedJob) (r : JobQueue × WorkerJob)
    : Type 0 where
  pub job : r.1 ≡ make_job n.id n.submission
  pub was_there : find_job q n.id ≡ some n.submission
  pub fits : JobRequirements.eq reqs n.submission.requirements ≡ true
  pub rest : (k : ℕ) → find_job r.0 k ≡ (if n.id == k then none else find_job q k)

-- Nothing fits, and nothing is taken.
pub record NothingFits (q : JobQueue) (reqs : JobRequirements) (r : JobQueue × WorkerJob)
    : Type 0 where
  pub job : r.1 ≡ no_job
  pub unchanged : r.0 ≡ q
  pub no_fit :
      (k : ℕ) (s : JobSubmission)
      → find_job q k ≡ some s
      → JobRequirements.eq reqs s.requirements ≡ false

module _ (q : JobQueue) (v : IsWellFormed q) where
  pub Taken-waiting :
      (reqs : JobRequirements) (n : QueuedJob)
      → find_if (job_type_matches reqs) q.jobs_waiting_for_worker ≡ some n
      → Taken q reqs n (take_waiting q reqs (some n))
  unfolding take_waiting
  Taken-waiting reqs n e =
      let p = job_type_matches reqs in
      let found = find_if-find_id p q.jobs_waiting_for_worker n v.distinct e in
      record {
        job = refl;
        was_there = ground (arith, found, v.apart n.id);
        fits = find_if-passes p q.jobs_waiting_for_worker e;
        rest = λ k.
            ground (arith, found, v.apart n.id, find_id-remove k n.id q.jobs_waiting_for_worker);
      }

  pub Taken-queued :
      (reqs : JobRequirements) (n : QueuedJob)
      → find_if (job_type_matches reqs) q.queued_jobs ≡ some n
      → Taken q reqs n (take_queued q (some n))
  unfolding take_queued
  Taken-queued reqs n e =
      let p = job_type_matches reqs in
      let found = find_if-find_id p q.queued_jobs n (IsSorted-Distinct q.queued_jobs v.sorted) e in
      record {
        job = refl;
        was_there = ground (arith, found);
        fits = find_if-passes p q.queued_jobs e;
        rest = λ k. ground (arith, found, v.apart n.id, find_id-remove k n.id q.queued_jobs);
      }

  -- On a well-formed queue `take_job` either finds no job that fits, returns the invalid job and
  -- changes nothing, or takes one that fits out of the map from ids to submissions and leaves
  -- every other job as it is.
  pub take_job_lem :
      (reqs : JobRequirements)
      → NothingFits q reqs (take_job q reqs) ⊎ ((n : QueuedJob) × Taken q reqs n (take_job q reqs))
  take_job_lem reqs =
      take_job_cases (λ r. NothingFits q reqs r ⊎ ((n : QueuedJob) × Taken q reqs n r)) q reqs
        (λ n e. inr (n, Taken-waiting reqs n e)) (λ n _ e. inr (n, Taken-queued reqs n e))
        λ e f. inl (record {
          job = refl;
          unchanged = refl;
          no_fit = λ k s h. ground (
            arith,
            no_match reqs q.queued_jobs k s f,
            no_match reqs q.jobs_waiting_for_worker k s e,
          );
        })

  find_job-dispatch_found :
      (reqs : JobRequirements) (n : QueuedJob) (k : ℕ)
      → find_if (job_type_matches reqs) q.queued_jobs ≡ some n
      → find_job (dispatch_found q reqs (some n)).0 k ≡ find_job q k
  unfolding dispatch_found
  find_job-dispatch_found reqs n k e =
      let p = job_type_matches reqs in
      let d = IsSorted-Distinct q.queued_jobs v.sorted in
      ground (
        arith,
        find_if-find_id p q.queued_jobs n d e,
        v.apart k,
        v.apart n.id,
        find_id-erase_first k p q.queued_jobs n d e,
        find_id-append k q.jobs_waiting_for_worker n,
      )

  -- On a well-formed queue `worker_dispatched` moves a job between the vectors at most: the map
  -- from ids to submissions stays the same.
  pub find_job-worker_dispatched :
      (reqs : JobRequirements) (k : ℕ) → find_job (worker_dispatched q reqs).0 k ≡ find_job q k
  find_job-worker_dispatched reqs k =
      dispatch_cases (λ r. find_job r.0 k ≡ find_job q k) q reqs
        (λ n e. find_job-dispatch_found reqs n k e) (λ _. refl)

  -- On a well-formed queue `remove` deletes the id from the map from ids to submissions, changes
  -- no other, and says whether the id was there.
  pub find_job-remove :
      (id : ℕ)
      → ((k : ℕ) → find_job (remove q id).0 k ≡ (if id == k then none else find_job q k))
        × ((remove q id).1 ≡ is_some (find_job q id))
  unfolding remove
  find_job-remove id =
      let qs = q.queued_jobs in
      let ws = q.jobs_waiting_for_worker in
      (
        (λ k. ground (
          arith,
          v.apart id,
          has_id-find_id id qs,
          find_id-remove k id qs,
          find_id-remove k id ws,
        )),
        v.ids id,
      )

-- The calls that change a queue, but for `clear`.
pub data Call : Type 0 where
  add : ℕ → JobSubmission → Call
  take dispatch : JobRequirements → Call
  removes : ℕ → Call
  lists : Call

unfoldable pub step : JobQueue → Call → JobQueue
step q (add id s) = (add_job q id s).0
step q (take reqs) = (take_job q reqs).0
step q (dispatch reqs) = (worker_dispatched q reqs).0
step q (removes id) = (remove q id).0
step q lists = (queued_job_requirements q).0

unfoldable pub run : JobQueue → List Call → JobQueue
unfolding step
run q [] = q
run q (c ∷ cs) = run (step q c) cs

step-IsWellFormed : (q : JobQueue) (c : Call) → IsWellFormed q → IsWellFormed (step q c)
unfolding step
step-IsWellFormed q (add id s) v = add_job-IsWellFormed q v id s
step-IsWellFormed q (take reqs) v = take_job-IsWellFormed q v reqs
step-IsWellFormed q (dispatch reqs) v = worker_dispatched-IsWellFormed q v reqs
step-IsWellFormed q (removes id) v = remove-IsWellFormed q v id
step-IsWellFormed q lists v = queued_job_requirements-IsWellFormed q v

run_from-IsWellFormed : (q : JobQueue) (cs : List Call) → IsWellFormed q → IsWellFormed (run q cs)
unfolding run
run_from-IsWellFormed q [] v = v
run_from-IsWellFormed q (c ∷ cs) v = run_from-IsWellFormed (step q c) cs (step-IsWellFormed q c v)

-- Every queue reached from the empty one by any list of calls other than `clear` is well formed:
-- its queued jobs rise strictly by id, no id stands twice, and `queued_ids` holds exactly the ids
-- of the two vectors.
pub run-IsWellFormed : (cs : List Call) → IsWellFormed (run empty cs)
run-IsWellFormed cs = run_from-IsWellFormed empty cs empty-IsWellFormed
