-- ===== src/Server/JobQueue/Invariant.antt =====
-- What holds of the queue between two calls, and the queue as a map from ids to submissions.
use remus.Prelude.{
  ℕ, ◌≡◌, refl, inl, inr, Bool, true, false, Option, none, some, arith, ◌==◌, if◌then◌else◌,
  Option-cases, find_if,
}
use remus.Std.Order.{nat_ord}
use remus.Std.Set
use remus.Proto.JobRequirements.{JobRequirements}
use remus.Proto.WorkerJob.{JobSubmission, WorkerJob, no_job}
use remus.Server.JobQueue.{
  QueuedJob, JobQueue, job_id_matches, job_type_matches, empty, add_job, take_job, take_waiting,
  take_queued, worker_dispatched, dispatch_found, have_uuid, remove, queued_job_requirements,
}
use remus.Server.JobQueue.Ids.{
  find_id, is_some, or_else, Distinct, IsSorted, has_id-find_id, find_id-insert, find_id-remove,
  find_id-append, find_id-erase_first, find_if-find_id, IsSorted-Distinct, insert-IsSorted,
  remove-IsSorted, erase-IsSorted, remove-Distinct, append-Distinct,
}

-- The submission under an id, wherever the job stands.
abbrev pub find_job : JobQueue → ℕ → Option JobSubmission
find_job q k = or_else (find_id k q.queued_jobs) (find_id k q.jobs_waiting_for_worker)

-- `queued_jobs` rises by id, no id stands twice in a vector or in both, and `queued_ids` holds the
-- ids of both.
pub record IsWellFormed (q : JobQueue) : Type 0 where
  pub sorted : IsSorted q.queued_jobs
  pub distinct : Distinct q.jobs_waiting_for_worker
  pub apart :
      (k : ℕ)
      → is_some (find_id k q.queued_jobs) ≡ true
      → find_id k q.jobs_waiting_for_worker ≡ none
  pub ids : (k : ℕ) → Set.contains k q.queued_ids ≡ is_some (find_job q k)

pub empty-IsWellFormed : IsWellFormed empty
unfolding empty Set.contains
empty-IsWellFormed = record { sorted = tt; distinct = tt; apart = λ k h. refl; ids = λ k. refl }

module _ (q : JobQueue) (v : IsWellFormed q) where
  pub have_uuid-find_job : (k : ℕ) → have_uuid q k ≡ is_some (find_job q k)
  unfolding have_uuid
  have_uuid-find_job k = v.ids k

  pub find_job-add_job :
      (id k : ℕ) (s : JobSubmission)
      → find_job (add_job q id s).0 k
        ≡ (if have_uuid q id then find_job q k else if id == k then some s else find_job q k)
  unfolding add_job have_uuid
  find_job-add_job id k s =
      ground (arith, find_id-insert k (record { id = id; submission = s }) q.queued_jobs)

  pub add_job-IsWellFormed : (id : ℕ) (s : JobSubmission) → IsWellFormed (add_job q id s).0
  unfolding add_job
  add_job-IsWellFormed id s = record {
    sorted = ground (
      arith,
      v.sorted,
      v.ids id,
      insert-IsSorted (record { id = id; submission = s }) q.queued_jobs,
    );
    distinct = ground (arith, v.distinct);
    apart = λ k h. ground (
      arith,
      v.apart k,
      v.ids id,
      v.ids k,
      find_id-insert k (record { id = id; submission = s }) q.queued_jobs,
    );
    ids = λ k. ground (
      arith,
      v.ids k,
      v.ids id,
      Set.contains-insert id k q.queued_ids,
      find_id-insert k (record { id = id; submission = s }) q.queued_jobs,
    );
  }

-- The three ways through `take_job`.
pub take_job_cases {ℓ} :
    (P : JobQueue × WorkerJob → Type ℓ) (q : JobQueue) (reqs : JobRequirements)
    → ((n : QueuedJob)
        → find_if (job_type_matches reqs) q.jobs_waiting_for_worker ≡ some n
        → P (take_waiting q reqs (some n)))
    → ((n : QueuedJob)
        → find_if (job_type_matches reqs) q.jobs_waiting_for_worker ≡ none
        → find_if (job_type_matches reqs) q.queued_jobs ≡ some n
        → P (take_queued q (some n)))
    → (find_if (job_type_matches reqs) q.jobs_waiting_for_worker ≡ none
        → find_if (job_type_matches reqs) q.queued_jobs ≡ none
        → P (q, no_job))
    → P (take_job q reqs)
unfolding take_job
take_job_cases P q reqs waiting queued neither =
    elim (Option-cases (find_if (job_type_matches reqs) q.jobs_waiting_for_worker)) [
      | inr (n, e) ↦ rw e (waiting n e)
      | inl e ↦ elim (Option-cases (find_if (job_type_matches reqs) q.queued_jobs)) [
        | inr (n, f) ↦ rw (e, f) (queued n e f)
        | inl f ↦ rw (e, f) (neither e f)
      ]
    ]

pub dispatch_cases {ℓ} :
    (P : JobQueue × Bool → Type ℓ) (q : JobQueue) (reqs : JobRequirements)
    → ((n : QueuedJob)
        → find_if (job_type_matches reqs) q.queued_jobs ≡ some n
        → P (dispatch_found q reqs (some n)))
    → (find_if (job_type_matches reqs) q.queued_jobs ≡ none → P (q, false))
    → P (worker_dispatched q reqs)
unfolding worker_dispatched
dispatch_cases P q reqs found missing =
    elim (Option-cases (find_if (job_type_matches reqs) q.queued_jobs)) [
      | inr (n, e) ↦ rw e (found n e)
      | inl e ↦ rw e (missing e)
    ]

module _ (q : JobQueue) (v : IsWellFormed q) where
  waiting-IsWellFormed :
      (reqs : JobRequirements) (n : QueuedJob)
      → find_if (job_type_matches reqs) q.jobs_waiting_for_worker ≡ some n
      → IsWellFormed (take_waiting q reqs (some n)).0
  unfolding take_waiting
  waiting-IsWellFormed reqs n e =
      let found =
        find_if-find_id (job_type_matches reqs) q.jobs_waiting_for_worker n v.distinct e in
      record {
        sorted = v.sorted;
        distinct = remove-Distinct n.id q.jobs_waiting_for_worker v.distinct;
        apart = λ k h. ground (arith, v.apart k h, find_id-remove k n.id q.jobs_waiting_for_worker);
        ids = λ k. ground (
          arith,
          v.ids k,
          v.ids n.id,
          v.apart k,
          v.apart n.id,
          found,
          Set.contains-erase n.id k q.queued_ids,
          find_id-remove k n.id q.jobs_waiting_for_worker,
        );
      }

  queued-IsWellFormed :
      (reqs : JobRequirements) (n : QueuedJob)
      → find_if (job_type_matches reqs) q.queued_jobs ≡ some n
      → IsWellFormed (take_queued q (some n)).0
  unfolding take_queued
  queued-IsWellFormed reqs n e =
      let found =
        find_if-find_id (job_type_matches reqs) q.queued_jobs n
          (IsSorted-Distinct q.queued_jobs v.sorted) e in
      record {
        sorted = remove-IsSorted (job_id_matches n.id) q.queued_jobs v.sorted;
        distinct = v.distinct;
        apart = λ k h. ground (arith, v.apart k, find_id-remove k n.id q.queued_jobs);
        ids = λ k. ground (
          arith,
          v.ids k,
          v.ids n.id,
          v.apart k,
          v.apart n.id,
          found,
          Set.contains-erase n.id k q.queued_ids,
          find_id-remove k n.id q.queued_jobs,
        );
      }

  pub take_job-IsWellFormed : (reqs : JobRequirements) → IsWellFormed (take_job q reqs).0
  take_job-IsWellFormed reqs =
      take_job_cases (λ r. IsWellFormed r.0) q reqs (waiting-IsWellFormed reqs)
        (λ n _ e. queued-IsWellFormed reqs n e) (λ _ _. v)

  dispatch_found-IsWellFormed :
      (reqs : JobRequirements) (n : QueuedJob)
      → find_if (job_type_matches reqs) q.queued_jobs ≡ some n
      → IsWellFormed (dispatch_found q reqs (some n)).0
  unfolding dispatch_found
  dispatch_found-IsWellFormed reqs n e =
      let p = job_type_matches reqs in
      let d = IsSorted-Distinct q.queued_jobs v.sorted in
      let found = find_if-find_id p q.queued_jobs n d e in
      let ws = q.jobs_waiting_for_worker in
      record {
        sorted = erase-IsSorted p q.queued_jobs v.sorted;
        distinct = append-Distinct n ws (v.apart n.id (rw found)) v.distinct;
        apart = λ k h.
            ground (
              arith,
              v.apart k,
              find_id-erase_first k p q.queued_jobs n d e,
              find_id-append k ws n,
            );
        ids = λ k. ground (
          arith,
          v.ids k,
          v.apart k,
          v.apart n.id,
          found,
          find_id-erase_first k p q.queued_jobs n d e,
          find_id-append k ws n,
        );
      }

  pub worker_dispatched-IsWellFormed :
      (reqs : JobRequirements) → IsWellFormed (worker_dispatched q reqs).0
  worker_dispatched-IsWellFormed reqs =
      dispatch_cases (λ r. IsWellFormed r.0) q reqs (dispatch_found-IsWellFormed reqs) (λ _. v)

  pub remove-IsWellFormed : (id : ℕ) → IsWellFormed (remove q id).0
  unfolding remove
  remove-IsWellFormed id =
      let qs = q.queued_jobs in
      let ws = q.jobs_waiting_for_worker in
      record {
        sorted = ground (arith, v.sorted, remove-IsSorted (job_id_matches id) qs v.sorted);
        distinct = ground (arith, v.distinct, remove-Distinct id ws v.distinct);
        apart = λ k h. ground (arith, v.apart k, find_id-remove k id qs, find_id-remove k id ws);
        ids = λ k. ground (
          arith,
          v.ids k,
          v.ids id,
          v.apart id,
          v.apart k,
          find_id-remove k id qs,
          find_id-remove k id ws,
          has_id-find_id id qs,
          Set.contains-erase id k q.queued_ids,
        );
      }

  pub queued_job_requirements-IsWellFormed : IsWellFormed (queued_job_requirements q).0
  unfolding queued_job_requirements
  queued_job_requirements-IsWellFormed = record {
    sorted = ground (arith, v.sorted);
    distinct = ground (arith, v.distinct);
    apart = λ k h. ground (arith, v.apart k);
    ids = λ k. ground (arith, v.ids k);
  }
