-- ===== src/Server/JobQueue/Cache.antt =====
-- The cached set of the queued jobs' requirements: what keeps it exact, and what `add_job` does to
-- it after it was cleared.
use remus.Prelude.{
  ℕ, ◌≡◌, refl, ◌⊎◌, inl, inr, Bool, true, false, ◌||◌, List, [], ◌∷◌, arith, ◌==◌, length, ap, ◌∙◌,
  ◌≢◌, Bool-cases,
}
use remus.Std.Order.{nat_ord}
use remus.Std.Set
use remus.Proto.JobRequirements
use remus.Proto.JobRequirements.{JobRequirements, requirements_ord}
use remus.Proto.WorkerJob.{JobSubmission}
use remus.Server.JobQueue.{
  QueuedJob, JobQueue, insert_at_lower_bound, collect, add_job, take_job, take_waiting,
  worker_dispatched, dispatch_found, remove, has_id, queued_job_requirements,
}
use remus.Server.JobQueue.Invariant.{take_job_cases, dispatch_cases}
use remus.Server.JobQueue.Refinement.{Call, add, take, dispatch, removes, lists, step}

-- Some job of the list has these requirements.
abbrev pub wanted : JobRequirements → List QueuedJob → Bool
wanted r [] = false
wanted r (x ∷ xs) = JobRequirements.eq x.submission.requirements r || wanted r xs

pub contains-collect :
    (r : JobRequirements) (s : List JobRequirements) (js : List QueuedJob)
    → Set.contains r (collect s js) ≡ (Set.contains r s || wanted r js)
unfolding collect
contains-collect r s [] = ground arith
contains-collect r s (x ∷ xs) = ground (
  arith,
  contains-collect r (Set.insert x.submission.requirements s) xs,
  Set.contains-insert x.submission.requirements r s,
)

pub wanted-insert :
    (r : JobRequirements) (n : QueuedJob) (js : List QueuedJob)
    → wanted r (insert_at_lower_bound n js)
      ≡ (JobRequirements.eq n.submission.requirements r || wanted r js)
unfolding insert_at_lower_bound
wanted-insert r n [] = refl
wanted-insert r n (x ∷ xs) = ground (arith, wanted-insert r n xs)

-- The cache is empty, or answers as the queued jobs do.
abbrev pub IsExact : JobQueue → Type 0
IsExact q =
    (q.cached_queued_job_requirements ≡ [])
    ⊎ ((r : JobRequirements)
        → Set.contains r q.cached_queued_job_requirements ≡ wanted r q.queued_jobs)

-- The cache names only requirements that some queued job has.
abbrev pub IsSound : JobQueue → Type 0
IsSound q =
    (r : JobRequirements)
    → Set.contains r q.cached_queued_job_requirements ≡ true
    → wanted r q.queued_jobs ≡ true

pub contains_nil : (r : JobRequirements) → Set.contains r [] ≡ false
unfolding Set.contains
contains_nil r = refl

-- With an exact cache, `queued_job_requirements` answers exactly the requirements of the queued jobs.
pub queued_job_requirements_lem :
    (q : JobQueue) (r : JobRequirements)
    → IsExact q
    → Set.contains r (queued_job_requirements q).1 ≡ wanted r q.queued_jobs
unfolding queued_job_requirements
queued_job_requirements_lem q r (inl e) =
    rw e
      (contains-collect r [] q.queued_jobs ∙ ap (λ b. b || wanted r q.queued_jobs) (contains_nil r))
queued_job_requirements_lem q r (inr h) =
    ground (arith, h r, contains-collect r q.cached_queued_job_requirements q.queued_jobs)

-- Every call but `add_job` keeps an exact cache exact.
take_job-IsExact : (q : JobQueue) (reqs : JobRequirements) → IsExact q → IsExact (take_job q reqs).0
unfolding take_waiting
take_job-IsExact q reqs h =
    take_job_cases (λ r. IsExact r.0) q reqs (λ n e. h) (λ n _ e. inl refl) (λ _ _. h)

dispatched-IsExact :
    (q : JobQueue) (reqs : JobRequirements) → IsExact q → IsExact (worker_dispatched q reqs).0
unfolding dispatch_found
dispatched-IsExact q reqs h = dispatch_cases (λ r. IsExact r.0) q reqs (λ n e. inl refl) (λ _. h)

remove-IsExact : (q : JobQueue) (id : ℕ) → IsExact q → IsExact (remove q id).0
unfolding remove
remove-IsExact q id h = elim (Bool-cases (has_id id q.queued_jobs)) [
  | inl e ↦ rw e (inl refl)
  | inr e ↦ rw e h
]

lists-IsExact : (q : JobQueue) → IsExact q → IsExact (queued_job_requirements q).0
unfolding queued_job_requirements
lists-IsExact q h = elim (Bool-cases (length q.cached_queued_job_requirements == 0)) [
  | inl e ↦ rw e (inr (λ r. queued_job_requirements_lem_at q r h e))
  | inr e ↦ rw e h
]
  where
    queued_job_requirements_lem_at :
        (p : JobQueue) (r : JobRequirements)
        → IsExact p
        → (length p.cached_queued_job_requirements == 0) ≡ true
        → Set.contains r (collect p.cached_queued_job_requirements p.queued_jobs)
          ≡ wanted r p.queued_jobs
    queued_job_requirements_lem_at p r k e = rw e at (queued_job_requirements_lem p r k)

-- An exact cache stays exact through every call of the queue other than `add_job` and `clear`.
pub step-IsExact :
    (q : JobQueue) (c : Call)
    → ((id : ℕ) (s : JobSubmission) → c ≢ add id s)
    → IsExact q
    → IsExact (step q c)
unfolding step
step-IsExact q (add id s) other h = absurd (other id s refl)
step-IsExact q (take reqs) other h = take_job-IsExact q reqs h
step-IsExact q (dispatch reqs) other h = dispatched-IsExact q reqs h
step-IsExact q (removes id) other h = remove-IsExact q id h
step-IsExact q lists other h = lists-IsExact q h

-- `add_job` keeps the cache exact as long as the cache is filled or nothing is queued.
pub add_job-IsExact :
    (q : JobQueue) (id : ℕ) (s : JobSubmission)
    → ((r : JobRequirements)
        → Set.contains r q.cached_queued_job_requirements ≡ wanted r q.queued_jobs)
    → IsExact (add_job q id s).0
unfolding add_job
add_job-IsExact q id s h = elim (Bool-cases (Set.contains id q.queued_ids)) [
  | inl e ↦ rw e (inr h)
  | inr e ↦ rw e (
      inr (λ r. ground (
        arith,
        h r,
        Set.contains-insert s.requirements r q.cached_queued_job_requirements,
        wanted-insert r (record { id = id; submission = s }) q.queued_jobs,
      )))
]

-- Where the cache was cleared while a job with requirements `r` was still queued, adding a job
-- with a new id and other requirements hides `r`: `queued_job_requirements` no longer names it,
-- though its job is still queued.
pub add_job_hides :
    (q : JobQueue) (id : ℕ) (s : JobSubmission) (r : JobRequirements)
    → q.cached_queued_job_requirements ≡ []
    → Set.contains id q.queued_ids ≡ false
    → wanted r q.queued_jobs ≡ true
    → JobRequirements.eq s.requirements r ≡ false
    → (Set.contains r (queued_job_requirements (add_job q id s).0).1 ≡ false)
      × (wanted r (add_job q id s).0.queued_jobs ≡ true)
unfolding add_job queued_job_requirements Set.contains Set.insert
add_job_hides q id s r e fresh w other =
    rw (e, fresh)
      (
        ground arith,
        ground (arith, wanted-insert r (record { id = id; submission = s }) q.queued_jobs),
      )
