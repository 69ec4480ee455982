-- ===== src/Server/Assignment/Conservation.antt =====
-- No job is lost, duplicated or made up when the server hands jobs to workers.
use remus.Prelude.{
  ℕ, ◌≡◌, refl, ap, ◌∙◌, Bool, true, false, ◌&&◌, ◌||◌, List, [], ◌∷◌, ltb, ◌==◌, if◌then◌else◌,
  length, Bool-cases, inl, inr,
}
use remus.Std.Map
use remus.Proto.JobRequirements.{JobRequirements, requirements_ord}
use remus.Server.JobQueue
use remus.Server.JobQueue.{JobQueue, QueuedJob, take_job, worker_dispatched}
use remus.Server.JobQueue.Ids.{is_some}
use remus.Server.JobQueue.Invariant.{worker_dispatched-IsWellFormed}
use remus.Server.JobQueue.Refinement.{find_job-worker_dispatched}
use remus.Server.JobQueue.Wanted.{
  worker_dispatched-IsCacheSound, waiting_job_requirements_lem, queued_job_requirements_all,
}
use remus.Server.Factory.{WorkerFactory}
use remus.Server.State.{Server}
use remus.Server.Invariant.{knows, Inv, find_job-lists, listed-IsGood}
use remus.Server.Assignment.Moves.{assign_types_lem, Gives, Gives-refl, Gives-trans}
use remus.Server.Assignment.{
  assign_types, launch_type, launch_types, launch_phase, queued_phase, find_worker_for_queued_job,
}

module _ {f : WorkerFactory} (delivers : ℕ → Bool) (now : ℕ → ℕ) where
  launch_type_lem :
      (s : Server f) (r : JobRequirements)
      → Inv s
      → Inv (launch_type delivers now s r)
        × ((id : ℕ) → knows (launch_type delivers now s r) id ≡ knows s id)
        × Gives s (launch_type delivers now s r)
  unfolding launch_type
  launch_type_lem s r v = elim (Bool-cases (f.create_worker s.worker_factory r).1) [
    | inr e ↦ rw e (v, λ id. refl, Gives-refl s s refl refl)
    | inl e ↦ rw e (
      record {
        queue = worker_dispatched-IsWellFormed s.queued_jobs v.queue r;
        cache = worker_dispatched-IsCacheSound s.queued_jobs r v.cache;
        apart =
            λ id h. v.apart id (rw (find_job-worker_dispatched s.queued_jobs v.queue r id) at h);
      },
      λ id.
          ap (λ o. is_some o || is_some (Map.lookup id s.active_jobs))
            (find_job-worker_dispatched s.queued_jobs v.queue r id),
      Gives-refl s s refl refl,
    )
  ]

  launch_types_lem :
      (s : Server f) (rs : List JobRequirements)
      → Inv s
      → Inv (launch_types delivers now s rs)
        × ((id : ℕ) → knows (launch_types delivers now s rs) id ≡ knows s id)
        × Gives s (launch_types delivers now s rs)
  unfolding launch_types
  launch_types_lem s [] v = (v, λ id. refl, Gives-refl s s refl refl)
  launch_types_lem s (r ∷ rs) v =
      let one = launch_type_lem s r v in
      let rest = launch_types_lem (launch_type delivers now s r) rs one.0 in
      (
        rest.0,
        λ id. rest.1 id ∙ one.1 id,
        Gives-trans s (launch_type delivers now s r)
            (launch_types delivers now (launch_type delivers now s r) rs) one.2 rest.2,
      )

  launch_phase_lem :
      (s : Server f) (assigned : Bool) (rs : List JobRequirements)
      → Inv s
      → Inv (launch_phase delivers now s assigned rs)
        × ((id : ℕ) → knows (launch_phase delivers now s assigned rs) id ≡ knows s id)
        × Gives s (launch_phase delivers now s assigned rs)
  unfolding launch_phase
  launch_phase_lem s assigned rs v =
      elim (Bool-cases
        (ltb (f.current_worker_count s.worker_factory) (f.max_worker_count s.worker_factory))) [
          | inr e ↦ rw e (v, λ id. refl, Gives-refl s s refl refl)
          | inl e ↦ rw e (phase assigned)
        ]
    where
      listed : Server f
      listed = record s { queued_jobs = (JobQueue.queued_job_requirements s.queued_jobs).0 }

      relisted :
          Inv (launch_types delivers now listed (JobQueue.queued_job_requirements s.queued_jobs).1)
          × ((id : ℕ)
              → knows
                  (launch_types delivers now listed
                    (JobQueue.queued_job_requirements s.queued_jobs).1)
                  id
                ≡ knows s id)
          × Gives s
              (launch_types delivers now listed (JobQueue.queued_job_requirements s.queued_jobs).1)
      relisted =
          let rest =
            launch_types_lem listed (JobQueue.queued_job_requirements s.queued_jobs).1
              (listed-IsGood s.queued_jobs s.active_jobs v) in
          (
            rest.0,
            λ id.
                rest.1 id
                ∙ ap (λ o. is_some o || is_some (Map.lookup id s.active_jobs))
                    (find_job-lists s.queued_jobs id),
            rest.2,
          )

      phase :
          (b : Bool)
          → let t =
              if b
              then launch_types delivers now listed
                  (JobQueue.queued_job_requirements s.queued_jobs).1
              else launch_types delivers now s rs in
            Inv t × ((id : ℕ) → knows t id ≡ knows s id) × Gives s t
      phase true = relisted
      phase false = launch_types_lem s rs v

  queued_phase_lem :
      (s : Server f) (i : ℕ)
      → Inv s
      → Inv (queued_phase delivers now s i)
        × ((id : ℕ) → knows (queued_phase delivers now s i) id ≡ knows s id)
        × Gives s (queued_phase delivers now s i)
  unfolding queued_phase
  queued_phase_lem s i v =
      let q' = (JobQueue.queued_job_requirements s.queued_jobs).0 in
      let types = (JobQueue.queued_job_requirements s.queued_jobs).1 in
      let s' : Server f = record s { queued_jobs = q' } in
      let ready = queued_job_requirements_all s.queued_jobs v.cache in
      let one =
        assign_types_lem delivers now s' i types (listed-IsGood s.queued_jobs s.active_jobs v)
          ready.0 ready.1 in
      let two =
        launch_phase_lem (assign_types delivers now s' i types).0
          (assign_types delivers now s' i types).1 types one.0 in
      (
        two.0,
        λ id.
            two.1 id
            ∙ one.1 id
            ∙ ap (λ o. is_some o || is_some (Map.lookup id s.active_jobs))
                (find_job-lists s.queued_jobs id),
        Gives-trans s (assign_types delivers now s' i types).0
            (launch_phase delivers now (assign_types delivers now s' i types).0
              (assign_types delivers now s' i types).1 types)
            one.2 two.2,
      )

  -- If the server's queue is well formed, its cache sound and no job both queued and active, then
  -- this still holds after `find_worker_for_queued_job`, and the server knows the same jobs before
  -- and after it. Each job that becomes active is sent to a worker with MAKE_MESH exactly once, whether
  -- or not the socket takes the message, no other job is sent, and no job ceases to be active.
  pub find_worker-knows :
      (s : Server f)
      → Inv s
      → Inv (find_worker_for_queued_job delivers now s)
        × ((id : ℕ) → knows (find_worker_for_queued_job delivers now s) id ≡ knows s id)
        × Gives s (find_worker_for_queued_job delivers now s)
  unfolding find_worker_for_queued_job
  find_worker-knows s v =
      elim (Bool-cases (
        JobQueue.num_jobs_waiting_for_workers s.queued_jobs == 0
        && JobQueue.num_jobs_just_queued s.queued_jobs == 0)) [
          | inl e ↦ rw e (v, λ id. refl, Gives-refl s s refl refl)
          | inr e ↦
              let types = JobQueue.waiting_job_requirements s.queued_jobs in
              let ready = waiting_job_requirements_lem s.queued_jobs in
              let one = assign_types_lem delivers now s 0 types v ready.0 ready.1 in
              let two =
                queued_phase_lem (assign_types delivers now s 0 types).0 (length types) one.0 in
              rw e (
                two.0,
                λ id. two.1 id ∙ one.1 id,
                Gives-trans s (assign_types delivers now s 0 types).0
                    (queued_phase delivers now (assign_types delivers now s 0 types).0
                      (length types))
                    one.2 two.2,
              )
        ]
