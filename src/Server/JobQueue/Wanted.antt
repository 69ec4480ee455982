-- ===== src/Server/JobQueue/Wanted.antt =====
-- The sets of requirements that the server loops over: every one of them has a job in the queue, also
-- after the jobs of the others were taken.
use remus.Prelude.{
  ℕ, ◌≡◌, refl, inl, inr, Bool, true, false, ◌||◌, none, some, List, [], ◌∷◌, arith, ◌==◌, length,
  Bool-cases, find_if, find_if-passes, remove_if, ap, ◌∙◌,
}
use remus.Std.Order.{eq_comm}
use remus.Std.Set
use remus.Proto.JobRequirements
use remus.Proto.JobRequirements.{JobRequirements, requirements_ord, eq_refl, eq_cong, lt_ne}
use remus.Proto.WorkerJob.{JobSubmission}
use remus.Server.JobQueue.{
  QueuedJob, JobQueue, job_id_matches, job_type_matches, take_job, take_waiting, take_queued,
  collect, queued_job_requirements, waiting_job_requirements, add_job, worker_dispatched,
  dispatch_found, remove, has_id, empty,
}
use remus.Server.JobQueue.Ids.{find_id, Distinct, IsSorted-Distinct, find_if-find_id}
use remus.Server.JobQueue.Invariant.{IsWellFormed, take_job_cases, dispatch_cases}
use remus.Server.JobQueue.Refinement.{Taken, Taken-waiting, Taken-queued}
use remus.Server.JobQueue.Cache.{wanted, contains-collect, wanted-insert, IsSound, contains_nil}

-- Some job of the queue, waiting or not, has these requirements.
abbrev pub has_job : JobQueue → JobRequirements → Bool
has_job q r = wanted r q.jobs_waiting_for_worker || wanted r q.queued_jobs

find_if-none-wanted :
    (r : JobRequirements) (js : List QueuedJob)
    → find_if (job_type_matches r) js ≡ none
    → wanted r js ≡ false
unfolding find_if
find_if-none-wanted r [] e = refl
find_if-none-wanted r (x ∷ xs) e =
    ground (arith, find_if-none-wanted r xs, eq_comm x.submission.requirements r)

pub take_job-Taken :
    (q : JobQueue) (r : JobRequirements)
    → IsWellFormed q
    → has_job q r ≡ true
    → (n : QueuedJob) × Taken q r n (take_job q r)
take_job-Taken q r v h =
    take_job_cases (λ p. (n : QueuedJob) × Taken q r n p) q r (λ n e. (n, Taken-waiting q v r n e))
      (λ n _ e. (n, Taken-queued q v r n e))
      λ e f. absurd (
        ground (
          arith,
          h,
          find_if-none-wanted r q.jobs_waiting_for_worker e,
          find_if-none-wanted r q.queued_jobs f,
        ))

wanted-remove_missing :
    (r : JobRequirements) (k : ℕ) (js : List QueuedJob)
    → find_id k js ≡ none
    → wanted r (remove_if (job_id_matches k) js) ≡ wanted r js
unfolding remove_if
wanted-remove_missing r k [] e = refl
wanted-remove_missing r k (x ∷ xs) e = ground (arith, wanted-remove_missing r k xs)

wanted-remove :
    (r : JobRequirements) (k : ℕ) (s : JobSubmission) (js : List QueuedJob)
    → Distinct js
    → find_id k js ≡ some s
    → JobRequirements.eq s.requirements r ≡ false
    → wanted r (remove_if (job_id_matches k) js) ≡ wanted r js
unfolding remove_if
wanted-remove r k s [] v e h = refl
wanted-remove r k s (x ∷ xs) v e h = elim (Bool-cases (x.id == k)) [
  | inr ne ↦ rw ne (
      ap (λ b. JobRequirements.eq x.submission.requirements r || b)
        (wanted-remove r k s xs v.1 (rw ne at e) h))
  | inl eq ↦ rw eq (
      ground (
        arith,
        v.0,
        ap (λ i. find_id i xs) {x = x.id} {y = k},
        wanted-remove_missing r k xs,
        ap (λ (t : JobSubmission). JobRequirements.eq t.requirements r) {x = x.submission} {y = s},
      ))
]

-- Taking a job for some requirements leaves the jobs for all others in the queue.
pub has_job-take_job :
    (q : JobQueue) (r t : JobRequirements)
    → IsWellFormed q
    → JobRequirements.eq r t ≡ false
    → has_job (take_job q r).0 t ≡ has_job q t
unfolding take_waiting take_queued
has_job-take_job q r t v ne =
    take_job_cases (λ p. has_job p.0 t ≡ has_job q t) q r
      (λ n e.
        ap (λ b. b || wanted t q.queued_jobs)
          (wanted-remove t n.id n.submission q.jobs_waiting_for_worker v.distinct
            (find_if-find_id (job_type_matches r) q.jobs_waiting_for_worker n v.distinct e)
            (differs n (find_if-passes (job_type_matches r) q.jobs_waiting_for_worker e))))
      (λ n _ e.
        ap (λ b. wanted t q.jobs_waiting_for_worker || b)
          (wanted-remove t n.id n.submission q.queued_jobs
            (IsSorted-Distinct q.queued_jobs v.sorted)
            (find_if-find_id (job_type_matches r) q.queued_jobs n
              (IsSorted-Distinct q.queued_jobs v.sorted) e)
            (differs n (find_if-passes (job_type_matches r) q.queued_jobs e))))
      (λ _ _. refl)
  where
    differs :
        (n : QueuedJob)
        → JobRequirements.eq r n.submission.requirements ≡ true
        → JobRequirements.eq n.submission.requirements t ≡ false
    differs n h = ground (arith, eq_cong r n.submission.requirements t h)

-- Each of the requirements has a job in the queue.
abbrev pub AllHave : JobQueue → List JobRequirements → Type 0
AllHave q [] = Unit {0}
AllHave q (r ∷ rs) = (has_job q r ≡ true) × AllHave q rs

pub AllHave-take_job :
    (q : JobQueue) (r : JobRequirements) (rs : List JobRequirements)
    → IsWellFormed q
    → Set.Above r rs
    → AllHave q rs
    → AllHave (take_job q r).0 rs
AllHave-take_job q r [] v a h = tt
AllHave-take_job q r (t ∷ ts) v a h = (
  has_job-take_job q r t v (ground (arith, a.0, lt_ne r t)) ∙ h.0,
  AllHave-take_job q r ts v a.1 h.1,
)

all_have :
    (q : JobQueue) (rs : List JobRequirements)
    → ((r : JobRequirements) → Set.contains r rs ≡ true → has_job q r ≡ true)
    → AllHave q rs
unfolding Set.contains
all_have q [] h = tt
all_have q (r ∷ rs) h =
    (h r (ground (arith, eq_refl r)), all_have q rs (λ t e. h t (ground (arith, e))))

collect-IsSorted :
    (s : List JobRequirements) (js : List QueuedJob) → Set.IsSorted s → Set.IsSorted (collect s js)
unfolding collect
collect-IsSorted s [] v = v
collect-IsSorted s (x ∷ xs) v =
    collect-IsSorted (Set.insert x.submission.requirements s) xs
      (Set.insert-IsSorted x.submission.requirements s v)

-- What holds of the cache after every call: it is a sorted set, and names only requirements of
-- queued jobs.
pub record IsCacheSound (q : JobQueue) : Type 0 where
  pub sorted : Set.IsSorted q.cached_queued_job_requirements
  pub sound : IsSound q

nil_sound : (q : JobQueue) → q.cached_queued_job_requirements ≡ [] → IsCacheSound q
unfolding Set.contains
nil_sound q e = record { sorted = rw e tt; sound = λ r h. absurd (ground (arith, rw e at h)) }

pub empty-IsCacheSound : IsCacheSound empty
unfolding empty
empty-IsCacheSound = nil_sound empty refl

pub add_job-IsCacheSound :
    (q : JobQueue) (id : ℕ) (s : JobSubmission) → IsCacheSound q → IsCacheSound (add_job q id s).0
unfolding add_job
add_job-IsCacheSound q id s v = record {
  sorted = ground (
    arith,
    v.sorted,
    Set.insert-IsSorted s.requirements q.cached_queued_job_requirements v.sorted,
  );
  sound = λ r. ground (
    arith,
    v.sound r,
    Set.contains-insert s.requirements r q.cached_queued_job_requirements,
    wanted-insert r (record { id = id; submission = s }) q.queued_jobs,
  );
}

pub take_job-IsCacheSound :
    (q : JobQueue) (r : JobRequirements) → IsCacheSound q → IsCacheSound (take_job q r).0
unfolding take_waiting take_queued
take_job-IsCacheSound q r v =
    take_job_cases (λ p. IsCacheSound p.0) q r
      (λ n e. record { sorted = v.sorted; sound = v.sound }) (λ n _ e. nil_sound _ refl) (λ _ _. v)

pub worker_dispatched-IsCacheSound :
    (q : JobQueue) (r : JobRequirements) → IsCacheSound q → IsCacheSound (worker_dispatched q r).0
unfolding dispatch_found
worker_dispatched-IsCacheSound q r v =
    dispatch_cases (λ p. IsCacheSound p.0) q r (λ n e. nil_sound _ refl) (λ _. v)

pub remove-IsCacheSound : (q : JobQueue) (id : ℕ) → IsCacheSound q → IsCacheSound (remove q id).0
unfolding remove
remove-IsCacheSound q id v = elim (Bool-cases (has_id id q.queued_jobs)) [
  | inl e ↦ rw e (nil_sound _ refl)
  | inr e ↦ rw e (record { sorted = v.sorted; sound = v.sound })
]

collected :
    (q : JobQueue)
    → IsCacheSound q
    → (r : JobRequirements)
    → Set.contains r (collect q.cached_queued_job_requirements q.queued_jobs) ≡ true
    → wanted r q.queued_jobs ≡ true
collected q v r h =
    ground (arith, h, v.sound r, contains-collect r q.cached_queued_job_requirements q.queued_jobs)

pub queued_job_requirements-IsCacheSound :
    (q : JobQueue) → IsCacheSound q → IsCacheSound (queued_job_requirements q).0
unfolding queued_job_requirements
queued_job_requirements-IsCacheSound q v =
    elim (Bool-cases (length q.cached_queued_job_requirements == 0)) [
      | inl e ↦
          rw e
            (record { sorted = collect-IsSorted _ q.queued_jobs v.sorted; sound = collected q v })
      | inr e ↦ rw e v
    ]

-- The two sets that `FindWorkerForQueuedJob` loops over.
pub waiting_job_requirements_lem :
    (q : JobQueue)
    → Set.IsSorted (waiting_job_requirements q) × AllHave q (waiting_job_requirements q)
unfolding waiting_job_requirements Set.contains
waiting_job_requirements_lem q = (
  collect-IsSorted [] q.jobs_waiting_for_worker tt,
  all_have q _
      (λ r h. ground (arith, h, contains-collect r [] q.jobs_waiting_for_worker, contains_nil r)),
)

pub queued_job_requirements_all :
    (q : JobQueue)
    → IsCacheSound q
    → Set.IsSorted (queued_job_requirements q).1
      × AllHave (queued_job_requirements q).0 (queued_job_requirements q).1
unfolding queued_job_requirements
queued_job_requirements_all q v =
    let all = collect q.cached_queued_job_requirements q.queued_jobs in
    elim (Bool-cases (length q.cached_queued_job_requirements == 0)) [
      | inl e ↦ rw e (
        collect-IsSorted _ q.queued_jobs v.sorted,
        all_have (record q { cached_queued_job_requirements = all }) all
            (λ r (h : Set.contains r all ≡ true). ground (arith, collected q v r h)),
      )
      | inr e ↦ rw e (
        v.sorted,
        all_have q q.cached_queued_job_requirements
            (λ r (h : Set.contains r q.cached_queued_job_requirements ≡ true).
              ground (arith, v.sound r h)),
      )
    ]
