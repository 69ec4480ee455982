-- ===== src/Server/WorkerMessages.antt =====
-- remus/server/Server.cxx: `DetermineWorkerResponse` and the handlers that it calls. `none` is an
-- exception of `lexical_cast` or of a decoder, which no function of the server catches; what the handler
-- has done before it is lost with the loop.
pub mod Jobs
use remus.Prelude.{
  ℕ, ℤ, ◌≡◌, Bool, true, false, not, ◌&&◌, ◌||◌, Option, none, some, List, [], ◌∷◌, arith, ◌==◌,
  if◌then◌else◌,
}
use remus.Common.ServiceTypes.{
  ServiceType, can_mesh_requirements, make_mesh, mesh_status, retrieve_result, heartbeat,
  terminate_worker,
}
use remus.Server.SocketMonitor
use remus.Server.WorkerPool
use remus.Server.ActiveJobs
use remus.Server.Factory.{WorkerFactory}
use remus.Server.Message.{
  Message, Output, to_worker, acknowledge, worker_registered, worker_ready, status_published,
  job_finished, worker_heartbeat, worker_terminated,
}
use remus.Server.State.{Server, send}

abbrev pub is_terminate_worker : ServiceType → Bool
is_terminate_worker terminate_worker = true
is_terminate_worker _ = false

abbrev pub is_heartbeat : ServiceType → Bool
is_heartbeat heartbeat = true
is_heartbeat _ = false

-- Whether a handler decodes the payload, and the decoder throws.
unfoldable pub throws : Message → ServiceType → Bool
throws msg can_mesh_requirements = not msg.decodes
throws msg make_mesh = not msg.decodes
throws msg mesh_status = not msg.decodes
throws msg retrieve_result = not msg.decodes
throws msg _ = false

module _ {f : WorkerFactory} where
  unfoldable pub register_worker : Server f → ℕ → Message → Server f
  register_worker s worker msg =
      send
        (record s { worker_pool = WorkerPool.add_worker s.worker_pool worker msg.to_requirements })
        (worker_registered worker msg.to_requirements)

  unfoldable pub ready_worker : Server f → ℕ → Message → Server f
  ready_worker s worker msg =
      send
        (record s {
          worker_pool = (WorkerPool.ready_for_work s.worker_pool worker msg.to_requirements).0;
        })
        (worker_ready worker msg.to_requirements)

  unfoldable pub store_mesh_status : Server f → ℕ → Message → Server f
  store_mesh_status s worker msg =
      send (record s { active_jobs = ActiveJobs.update_status s.active_jobs msg.to_status })
        (status_published msg.to_status worker)

  unfoldable pub store_mesh : Server f → ℕ → Message → Server f
  store_mesh s worker msg =
      send (record s { active_jobs = ActiveJobs.update_result s.active_jobs msg.to_result })
        (job_finished msg.to_result worker)

  unfoldable pub beat : Server f → ℕ → ℕ → Option ℤ → Option (Server f)
  beat s now worker none = none
  beat s now worker (some dur) = some (
      send (record s { socket_monitor = SocketMonitor.heartbeat s.socket_monitor now worker dur })
        (worker_heartbeat worker))

  unfoldable pub bury : Server f → ℕ → Server f
  bury s worker =
      send (record s { socket_monitor = SocketMonitor.mark_as_dead s.socket_monitor worker })
        (worker_terminated worker)

  -- The `switch`, with `workerTerminated` as the second result.
  unfoldable pub dispatch : Server f → ℕ → ℕ → Message → ServiceType → Option (Server f × Bool)
  unfolding register_worker ready_worker store_mesh_status store_mesh beat bury
  dispatch s now worker msg can_mesh_requirements = some (register_worker s worker msg, false)
  dispatch s now worker msg make_mesh = some (ready_worker s worker msg, false)
  dispatch s now worker msg mesh_status = some (store_mesh_status s worker msg, false)
  dispatch s now worker msg retrieve_result =
      some (store_mesh (send s (to_worker worker retrieve_result acknowledge)) worker msg, false)
  dispatch s now worker msg heartbeat = elim (beat s now worker msg.to_duration) [
    | none ↦ none
    | some s' ↦ some (s', false)
  ]
  dispatch s now worker msg terminate_worker = some (bury s worker, true)
  dispatch s now worker msg _ = some (s, false)

  -- The refresh at the end of the handler.
  unfoldable pub refreshed : ℕ → ℕ → ServiceType → Server f × Bool → Server f × Bool
  refreshed now worker service (s, terminated) = (
    if not (is_heartbeat service) && not (is_terminate_worker service)
        then record s { socket_monitor = SocketMonitor.refresh s.socket_monitor now worker }
        else s,
    terminated,
  )

  unfoldable pub determine_worker_response : Server f → ℕ → ℕ → Message → Option (Server f × Bool)
  unfolding dispatch refreshed throws
  determine_worker_response s now worker msg =
      if not msg.is_received
      then none
      else if not msg.is_valid
      then some (s, false)
      else if not (is_terminate_worker msg.service_type) && msg.data_size == 0
      then some (s, false)
      else if throws msg msg.service_type
      then none
      else elim (dispatch s now worker msg msg.service_type) [
        | none ↦ none
        | some r ↦ some (refreshed now worker msg.service_type r)
      ]
