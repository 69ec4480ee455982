-- ===== src/Server/Assignment/Moves.antt =====
-- One job moves from the queue to a worker, and the loop that does this for a set of requirements.
use mathlib.Core.Path.{ap₂, subst₂}
use remus.Prelude.{
  ℕ, suc, not, ◌&&◌, ◌≡◌, refl, sym, ap, ◌∙◌, Bool, true, false, none, some, List, [], ◌∷◌, arith,
  ◌==◌, if◌then◌else◌, Bool-cases, inl, inr, subst,
}
use remus.Std.Map
use remus.Std.Set
use remus.Common.StatusTypes.{queued}
use remus.Proto.JobRequirements.{JobRequirements, requirements_ord}
use remus.Proto.WorkerJob.{WorkerJob, make_job}
use remus.Server.JobQueue.{JobQueue, QueuedJob, take_job}
use remus.Server.JobQueue.Ids.{is_some}
use remus.Server.JobQueue.Invariant.{find_job, take_job-IsWellFormed}
use remus.Server.JobQueue.Refinement.{Taken}
use remus.Server.JobQueue.Wanted.{
  has_job, AllHave, AllHave-take_job, take_job-Taken, take_job-IsCacheSound,
}
use remus.Server.ActiveJobs
use remus.Server.ActiveJobs.{ActiveJobs, make_state}
use remus.Server.ActiveJobs.History.{add_new}
use remus.Server.WorkerPool
use remus.Server.Factory.{WorkerFactory}
use remus.Common.ServiceTypes.{ServiceType, make_mesh}
use remus.Server.Message.{Output, to_worker, carry_out}
use remus.Server.State.{Server}
use remus.Server.Invariant.{known, knows, IsGood, Inv}
use remus.Server.Assignment.{assign_job_to_worker, assign_type, assign_types}

-- One job moves from the queue to the record of active jobs.
module _ (q : JobQueue) (info : ActiveJobs) (v : IsGood q info) (r : JobRequirements) (w : ℕ)
    (have : has_job q r ≡ true) where
  abbrev moved : ActiveJobs
  moved = (ActiveJobs.add info w (take_job q r).1.id).0

  lookup-moved :
      (n : QueuedJob)
      → Taken q r n (take_job q r)
      → (id : ℕ)
      → Map.lookup id moved
        ≡ (if n.id == id then some (make_state w n.id queued) else Map.lookup id info)
  unfolding make_job
  lookup-moved n t id =
      let h : (take_job q r).1.id ≡ n.id = ap (λ (j : WorkerJob). j.id) t.job in
      let free : Map.lookup n.id info ≡ none = v.apart n.id (rw t.was_there refl) in
      ap (λ k. Map.lookup id (ActiveJobs.add info w k).0) h
      ∙ ap (Map.lookup id) (add_new info w n.id free)
      ∙ Map.lookup-insert n.id id (make_state w n.id queued) info free

  known-moved : (id : ℕ) → known (take_job q r).0 moved id ≡ known q info id
  known-moved id =
      let (n, t) = take_job-Taken q r v.queue have in
      ground (
        arith,
        lookup-moved n t id,
        t.rest id,
        t.was_there,
        ap (λ k. is_some (find_job q k)) {x = n.id} {y = id},
      )

  moved-IsGood : IsGood (take_job q r).0 moved
  moved-IsGood =
      let (n, t) = take_job-Taken q r v.queue have in
      record {
        queue = take_job-IsWellFormed q v.queue r;
        cache = take_job-IsCacheSound q r v.cache;
        apart = λ id h. ground (arith, h, lookup-moved n t id, t.rest id, v.apart id);
      }

abbrev pub is_make_mesh : ServiceType → Bool
is_make_mesh make_mesh = true
is_make_mesh _ = false

-- How often a job was sent to a worker.
abbrev pub num_given : ℕ → List Output → ℕ
num_given id [] = 0
num_given id (to_worker worker service (carry_out job) ∷ sent) =
    if is_make_mesh service && job.id == id then suc (num_given id sent) else num_given id sent
num_given id (_ ∷ sent) = num_given id sent

abbrev pub is_active : ActiveJobs → ℕ → Bool
is_active info id = is_some (Map.lookup id info)

module _ {f : WorkerFactory} where
  -- From `s` to `t` each job that becomes active is sent to a worker once, no other job is sent, and no job
  -- ceases to be active.
  abbrev pub Gives : Server f → Server f → Type 0
  Gives s t =
      (id : ℕ)
      → (num_given id t.sent ≡ (
          if is_active t.active_jobs id && not (is_active s.active_jobs id)
          then suc (num_given id s.sent)
          else num_given id s.sent))
        × (is_active s.active_jobs id ≡ true → is_active t.active_jobs id ≡ true)

  pub Gives-refl : (s t : Server f) → t.active_jobs ≡ s.active_jobs → t.sent ≡ s.sent → Gives s t
  Gives-refl s t a o id = ground (arith, a, o)

  pub Gives-trans : (s t u : Server f) → Gives s t → Gives t u → Gives s u
  Gives-trans s t u v w id = ground (arith, v id, w id)

module _ {f : WorkerFactory} (delivers : ℕ → Bool) (now : ℕ → ℕ) where
  assign_type_queue :
      (s : Server f) (i : ℕ) (r : JobRequirements)
      → (assign_type delivers now s i r).queued_jobs ≡ (take_job s.queued_jobs r).0
  unfolding assign_type
  assign_type_queue s i r = ground arith

  assign_type_active :
      (s : Server f) (i : ℕ) (r : JobRequirements)
      → (assign_type delivers now s i r).active_jobs
        ≡ (ActiveJobs.add s.active_jobs
            (WorkerPool.take_worker s.worker_pool r).1
            (take_job s.queued_jobs r).1.id).0
  unfolding assign_type
  assign_type_active s i r = ground arith

  assign_type-num_given :
      (s : Server f) (i id : ℕ) (r : JobRequirements)
      → num_given id (assign_type delivers now s i r).sent ≡ (
          if (take_job s.queued_jobs r).1.id == id
          then suc (num_given id s.sent)
          else num_given id s.sent)
  unfolding assign_type assign_job_to_worker
  assign_type-num_given s i id r = ground arith

  -- The job that is assigned was not active before.
  assign_type-Gives :
      (s : Server f) (i : ℕ) (r : JobRequirements)
      → Inv s
      → has_job s.queued_jobs r ≡ true
      → Gives s (assign_type delivers now s i r)
  unfolding make_job
  assign_type-Gives s i r v have id =
      let (n, t) = take_job-Taken s.queued_jobs r v.queue have in
      let w = (WorkerPool.take_worker s.worker_pool r).1 in
      let job_is : (take_job s.queued_jobs r).1.id ≡ n.id = ap (λ (j : WorkerJob). j.id) t.job in
      let free : Map.lookup n.id s.active_jobs ≡ none = v.apart n.id (rw t.was_there refl) in
      let active : Map.lookup id (assign_type delivers now s i r).active_jobs
          ≡ Map.lookup id (moved s.queued_jobs s.active_jobs v r w have) =
        ap (λ info. Map.lookup id info) (assign_type_active s i r) in
      ground (
        arith,
        assign_type-num_given s i id r,
        job_is,
        active,
        lookup-moved s.queued_jobs s.active_jobs v r w have n t id,
        free,
        ap (λ k. Map.lookup k s.active_jobs) {x = n.id} {y = id},
      )

  -- The loop over a sorted set of requirements that all have a job keeps the invariant and the jobs
  -- that the server knows, and gives the jobs that become active to workers.
  pub assign_types_lem :
      (s : Server f) (i : ℕ) (rs : List JobRequirements)
      → Inv s
      → Set.IsSorted rs
      → AllHave s.queued_jobs rs
      → Inv (assign_types delivers now s i rs).0
        × ((id : ℕ) → knows (assign_types delivers now s i rs).0 id ≡ knows s id)
        × Gives s (assign_types delivers now s i rs).0
  unfolding assign_types
  assign_types_lem s i [] v sorted have = (v, λ id. refl, Gives-refl s s refl refl)
  assign_types_lem s i (r ∷ rs) v sorted have =
      elim (Bool-cases (WorkerPool.have_waiting_worker s.worker_pool r)) [
        | inr e ↦ rw e (assign_types_lem s (suc i) rs v sorted.1 have.1)
        | inl e ↦
            let s' = assign_type delivers now s i r in
            let w = (WorkerPool.take_worker s.worker_pool r).1 in
            let jobs = assign_type_queue s i r in
            let info = assign_type_active s i r in
            let good =
              subst₂ IsGood (sym jobs) (sym info)
                (moved-IsGood s.queued_jobs s.active_jobs v r w have.0) in
            let rest = assign_types_lem s' (suc i) rs good sorted.1 (
              subst (λ q. AllHave q rs) (sym jobs)
                (AllHave-take_job s.queued_jobs r rs v.queue sorted.0 have.1)) in
            rw e (
              rest.0,
              λ id.
                  rest.1 id
                  ∙ ap₂ (λ q a. known q a id) jobs info
                  ∙ known-moved s.queued_jobs s.active_jobs v r w have.0 id,
              Gives-trans s s' (assign_types delivers now s' (suc i) rs).0
                  (assign_type-Gives s i r v have.0) rest.2,
            )
      ]
