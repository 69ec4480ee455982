-- ===== src/Server/ClientRequests.antt =====
-- remus/server/Server.cxx: `DetermineClientResponse` and the handlers that it calls.
pub mod Outcome
pub mod Jobs
pub mod Replies
pub mod Known
pub mod Discovery
use remus.Prelude.{
  ℕ, ◌<◌, ◌≡◌, Bool, true, false, not, ◌&&◌, ◌||◌, Option, none, some, List, [], ◌∷◌, arith, ltb,
  if◌then◌else◌, length,
}
use remus.Std.Set
use remus.Common.ServiceTypes.{
  ServiceType, invalid_service, supported_io_types, mesh_requirements_for_io_type,
  can_mesh_requirements, can_mesh_io_type, make_mesh, mesh_status, retrieve_result, terminate_job,
}
use remus.Common.StatusTypes
use remus.Common.MeshIoType.{MeshIoType, mesh_io_type_ord}
use remus.Proto.JobRequirements.{JobRequirements, requirements_ord}
use remus.Proto.JobStatus
use remus.Proto.JobStatus.{JobStatus}
use remus.Proto.JobResult.{JobResult, no_result}
use remus.Proto.WorkerJob.{no_submission, make_job}
use remus.Server.JobQueue
use remus.Server.WorkerPool
use remus.Server.ActiveJobs
use remus.Server.Factory.{WorkerFactory}
use remus.Server.Message.{
  Message, Reply, invalid_msg, io_types, answer, requirements_set, job, job_status, job_result,
  Output, to_client, to_worker, carry_out, job_queued, queued_job_terminated, active_job_terminated,
}
use remus.Server.State.{Server, send}

-- `insert(begin, end)`.
unfoldable pub insert_all {ℓ} : {A : Type ℓ} ⦃o : remus.Std.Order.Ord A⦄ → List A → List A → List A
insert_all s [] = s
insert_all s (x ∷ xs) = insert_all (Set.insert x s) xs

-- Whether a handler decodes the payload, and the decoder throws.
unfoldable pub throws : Message → ServiceType → Bool
throws msg can_mesh_requirements = not msg.decodes
throws msg make_mesh = not msg.decodes
throws msg mesh_status = not msg.decodes
throws msg retrieve_result = not msg.decodes
throws msg terminate_job = not msg.decodes
throws msg _ = false

module _ {f : WorkerFactory} where
  unfoldable pub all_supported_mesh_io_types : Server f → Reply
  all_supported_mesh_io_types s = io_types (
      insert_all (f.supported_io_types s.worker_factory)
        (WorkerPool.supported_io_types s.worker_pool))

  unfoldable pub can_mesh : Server f → Message → Reply
  can_mesh s msg =
      let worker_support =
        ltb 0 (length (f.worker_requirements s.worker_factory msg.mesh_io_type))
        && ltb 0 (f.max_worker_count s.worker_factory) in
      let pool_support =
        ltb 0 (length (WorkerPool.waiting_worker_requirements s.worker_pool msg.mesh_io_type)) in
      answer (worker_support || pool_support)

  unfoldable pub can_mesh_reqs : Server f → Message → Reply
  can_mesh_reqs s msg =
      let worker_support =
        f.have_support s.worker_factory msg.to_requirements
        && ltb 0 (f.max_worker_count s.worker_factory) in
      let pool_support = WorkerPool.have_waiting_worker s.worker_pool msg.to_requirements in
      answer (worker_support || pool_support)

  unfoldable pub mesh_requirements : Server f → Message → Reply
  mesh_requirements s msg = requirements_set (
      insert_all (f.worker_requirements s.worker_factory msg.mesh_io_type)
        (WorkerPool.waiting_worker_requirements s.worker_pool msg.mesh_io_type))

  -- `status` is read only of a job that is there, and then cleared of its message.
  unfoldable pub report_status : Server f → ℕ → Option JobStatus → Server f × Reply
  report_status s id none = (s, job_status (JobStatus.of_status id StatusTypes.invalid_status))
  report_status s id (some js) =
      (record s { active_jobs = ActiveJobs.clear_status s.active_jobs id }, job_status js)

  unfoldable pub status_of : Server f → Message → Server f × Reply
  unfolding report_status
  status_of s msg =
      if JobQueue.have_uuid s.queued_jobs msg.to_job
      then (s, job_status (JobStatus.of_status msg.to_job StatusTypes.queued))
      else report_status s msg.to_job (ActiveJobs.status s.active_jobs msg.to_job)

  -- `uuid` is what the generator returns.
  unfoldable pub queue_job : Server f → ℕ → Message → Server f × Reply
  queue_job s uuid msg = (
    send (record s { queued_jobs = (JobQueue.add_job s.queued_jobs uuid msg.to_submission).0 })
        (job_queued uuid msg.to_submission.requirements),
    job uuid msg.mesh_io_type,
  )

  unfoldable pub take_result : Server f → ℕ → Option JobResult → Server f × Reply
  take_result s id none = (s, job_result (no_result id))
  take_result s id (some r) =
      (record s { active_jobs = (ActiveJobs.remove s.active_jobs id).0 }, job_result r)

  unfoldable pub result_of : Server f → Message → Server f × Reply
  unfolding take_result
  result_of s msg =
      if ActiveJobs.have_uuid s.active_jobs msg.to_job
        && ActiveJobs.have_result s.active_jobs msg.to_job
      then take_result s msg.to_job (ActiveJobs.result s.active_jobs msg.to_job)
      else (s, job_result (no_result msg.to_job))

  -- `send_terminateJob` and the event, with the status that was found.
  unfoldable pub ask_to_terminate : Server f → ℕ → Option JobStatus → Server f
  ask_to_terminate s id none = s
  ask_to_terminate s id (some last_status) =
      let worker = ActiveJobs.worker_address s.active_jobs id in
      send (send s (to_worker worker terminate_job (carry_out (make_job id no_submission))))
        (active_job_terminated last_status worker)

  unfoldable pub terminate : Server f → Message → Server f × Reply
  unfolding ask_to_terminate
  terminate s msg =
      let id = msg.to_job in
      let currently_in_queue = JobQueue.have_uuid s.queued_jobs id in
      let currently_active = ActiveJobs.have_uuid s.active_jobs id in
      if not (currently_in_queue || currently_active)
      then (s, job_status (JobStatus.of_status id StatusTypes.invalid_status))
      else (
        if currently_in_queue
            then send (record s { queued_jobs = (JobQueue.remove s.queued_jobs id).0 })
                (queued_job_terminated (JobStatus.of_status id StatusTypes.queued))
            else ask_to_terminate s id (ActiveJobs.status s.active_jobs id),
        job_status (JobStatus.of_status id StatusTypes.failed),
      )

  abbrev respond : ℕ → ServiceType → Server f × Reply → Server f
  respond client service (s, data') = send s (to_client client service data')

  -- The `switch`; the last clause is its `default`.
  unfoldable pub dispatch : Server f → ℕ → ℕ → Message → ServiceType → Server f
  dispatch s client uuid msg supported_io_types =
      respond client supported_io_types (s, all_supported_mesh_io_types s)
  dispatch s client uuid msg can_mesh_io_type = respond client can_mesh_io_type (s, can_mesh s msg)
  dispatch s client uuid msg can_mesh_requirements =
      respond client can_mesh_requirements (s, can_mesh_reqs s msg)
  dispatch s client uuid msg mesh_requirements_for_io_type =
      respond client mesh_requirements_for_io_type (s, mesh_requirements s msg)
  dispatch s client uuid msg make_mesh = respond client make_mesh (queue_job s uuid msg)
  dispatch s client uuid msg mesh_status = respond client mesh_status (status_of s msg)
  dispatch s client uuid msg retrieve_result = respond client retrieve_result (result_of s msg)
  dispatch s client uuid msg terminate_job = respond client terminate_job (terminate s msg)
  dispatch s client uuid msg _ = respond client invalid_service (s, invalid_msg)

  -- `none` is an exception, which nothing in the loop of `Brokering` catches. The handlers decode before
  -- they change the state.
  unfoldable pub determine_client_response : Server f → ℕ → ℕ → Message → Option (Server f)
  unfolding dispatch throws
  determine_client_response s client uuid msg =
      if not msg.is_received
      then none
      else if not msg.is_valid
      then some (send s (to_client client invalid_service invalid_msg))
      else if throws msg msg.service_type
      then none
      else some (dispatch s client uuid msg msg.service_type)
