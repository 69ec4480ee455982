-- ===== src/Server/Assignment.antt =====
-- remus/server/Server.cxx: `assignJobToWorker`, `FindWorkerForQueuedJob` and
-- `CheckForChangeInWorkersAndJobs`. Whether the socket takes a message for a worker is a parameter.
pub mod Moves
pub mod Conservation
use remus.Prelude.{
  ℕ, suc, ◌+◌, ◌≡◌, Bool, true, false, not, ◌&&◌, ◌||◌, Option, none, some, List, [], ◌∷◌, arith,
  ltb, ◌==◌, if◌then◌else◌, length,
}
use remus.Common.ServiceTypes.{make_mesh}
use remus.Proto.JobRequirements.{JobRequirements}
use remus.Proto.WorkerJob.{WorkerJob}
use remus.Server.JobQueue
use remus.Server.SocketMonitor
use remus.Server.WorkerPool
use remus.Server.ActiveJobs
use remus.Server.Factory.{WorkerFactory}
use remus.Server.Message.{Output, to_worker, carry_out, job_sent_to_worker, jobs_expired}
use remus.Server.State.{Server, send}

module _ {f : WorkerFactory} (delivers : ℕ → Bool) (now : ℕ → ℕ) where
  -- `i` counts the readings of the clock.
  unfoldable pub assign_job_to_worker : Server f → ℕ → ℕ → WorkerJob → Server f
  assign_job_to_worker s i worker job =
      let s' =
        send (record s { active_jobs = (ActiveJobs.add s.active_jobs worker job.id).0 })
          (to_worker worker make_mesh (carry_out job)) in
      if delivers worker
      then send
          (record s' { socket_monitor = SocketMonitor.refresh s.socket_monitor (now i) worker })
          (job_sent_to_worker job worker)
      else s'

  -- The body of the two loops that give queued jobs to workers of the pool.
  unfoldable pub assign_type : Server f → ℕ → JobRequirements → Server f
  unfolding assign_job_to_worker
  assign_type s i type =
      let (pool, worker) = WorkerPool.take_worker s.worker_pool type in
      let (queue, job) = JobQueue.take_job s.queued_jobs type in
      assign_job_to_worker (record s { worker_pool = pool; queued_jobs = queue }) i worker job

  -- The loop over a set of types; the second result is `assignedJob`.
  unfoldable pub assign_types : Server f → ℕ → List JobRequirements → Server f × Bool
  assign_types s i [] = (s, false)
  assign_types s i (type ∷ types) =
      let found = WorkerPool.have_waiting_worker s.worker_pool type in
      let s' = if found then assign_type s i type else s in
      let (s'', assigned) = assign_types s' (suc i) types in (s'', found || assigned)

  -- The body of the loop that asks the factory.
  unfoldable pub launch_type : Server f → JobRequirements → Server f
  launch_type s type =
      let (factory, created) = f.create_worker s.worker_factory type in
      let s' = record s { worker_factory = factory } in
      if created
      then record s' { queued_jobs = (JobQueue.worker_dispatched s.queued_jobs type).0 }
      else s'

  unfoldable pub launch_types : Server f → List JobRequirements → Server f
  launch_types s [] = s
  launch_types s (type ∷ types) = launch_types (launch_type s type) types

  -- `queued_types` is computed again if the second loop assigned a job.
  unfoldable pub launch_phase : Server f → Bool → List JobRequirements → Server f
  unfolding launch_types
  launch_phase s assigned queued_types =
      let (queue, again) = JobQueue.queued_job_requirements s.queued_jobs in
      let space =
        ltb (f.current_worker_count s.worker_factory) (f.max_worker_count s.worker_factory) in
      if not space
      then s
      else if assigned
      then launch_types (record s { queued_jobs = queue }) again
      else launch_types s queued_types

  unfoldable pub queued_phase : Server f → ℕ → Server f
  unfolding launch_phase
  queued_phase s i =
      let (queue, queued_types) = JobQueue.queued_job_requirements s.queued_jobs in
      let (s', assigned) = assign_types (record s { queued_jobs = queue }) i queued_types in
      launch_phase s' assigned queued_types

  unfoldable pub find_worker_for_queued_job : Server f → Server f
  unfolding queued_phase
  find_worker_for_queued_job s =
      let waiting_types = JobQueue.waiting_job_requirements s.queued_jobs in
      let s' = (assign_types s 0 waiting_types).0 in
      if JobQueue.num_jobs_waiting_for_workers s.queued_jobs == 0
        && JobQueue.num_jobs_just_queued s.queued_jobs == 0
      then s
      else queued_phase s' (length waiting_types)

  unfoldable pub check_for_change_in_workers_and_jobs : Server f → (ℕ → ℕ) → Server f
  check_for_change_in_workers_and_jobs s later =
      let (jobs, expired) = ActiveJobs.mark_expired_jobs s.active_jobs s.socket_monitor now in
      send
        (record s {
          active_jobs = jobs;
          worker_pool = WorkerPool.purge_dead_workers s.worker_pool s.socket_monitor later;
          worker_factory = f.update_worker_count s.worker_factory;
        })
        (jobs_expired expired)
