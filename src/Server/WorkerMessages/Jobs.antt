-- ===== src/Server/WorkerMessages/Jobs.antt =====
-- What a worker's message does to the jobs of the server.
use remus.Prelude.{
  ℕ, ℤ, ◌≡◌, refl, inl, inr, Bool, false, not, ◌&&◌, Option, none, some, ◌==◌, Bool-cases,
}
use remus.Common.ServiceTypes.{
  ServiceType, can_mesh_requirements, make_mesh, mesh_status, retrieve_result, heartbeat,
  terminate_worker,
}
use remus.Server.JobQueue.{JobQueue}
use remus.Server.ActiveJobs
use remus.Server.ActiveJobs.{ActiveJobs}
use remus.Server.Factory.{WorkerFactory}
use remus.Server.Message.{Message}
use remus.Server.State.{Server}
use remus.Server.Invariant.{IsGood, Inv}
use remus.Server.ClientRequests.Jobs.{fewer-IsGood, adjust-none}
use remus.Server.WorkerMessages.{
  is_heartbeat, is_terminate_worker, beat, dispatch, refreshed, determine_worker_response, throws,
}

-- A handler that returns keeps the property of the server.
abbrev pub Keeps : {f : WorkerFactory} → Option (Server f × Bool) → Type 0
Keeps none = Unit
Keeps (some (s, terminated)) = Inv s

update_status-IsGood :
    (q : JobQueue) (info : ActiveJobs) (js : remus.Proto.JobStatus.JobStatus)
    → IsGood q info
    → IsGood q (ActiveJobs.update_status info js)
unfolding ActiveJobs.update_status
update_status-IsGood q info js v = fewer-IsGood q info _ (λ k e. adjust-none js.id k _ info e) v

update_result-IsGood :
    (q : JobQueue) (info : ActiveJobs) (r : remus.Proto.JobResult.JobResult)
    → IsGood q info
    → IsGood q (ActiveJobs.update_result info r)
unfolding ActiveJobs.update_result
update_result-IsGood q info r v = fewer-IsGood q info _ (λ k e. adjust-none r.id k _ info e) v

module _ {f : WorkerFactory} where
  beat-Keeps :
      (s : Server f) (now worker : ℕ) (msg : Message) (d : Option ℤ)
      → msg.to_duration ≡ d
      → Inv s
      → Keeps (dispatch s now worker msg heartbeat)
  unfolding dispatch beat
  beat-Keeps s now worker msg none e v = rw e tt
  beat-Keeps s now worker msg (some d) e v = rw e v

  dispatch-Keeps :
      (s : Server f) (now worker : ℕ) (msg : Message) (service : ServiceType)
      → Inv s
      → Keeps (dispatch s now worker msg service)
  unfolding dispatch
  dispatch-Keeps s now worker msg can_mesh_requirements v = v
  dispatch-Keeps s now worker msg make_mesh v = v
  dispatch-Keeps s now worker msg mesh_status v =
      update_status-IsGood s.queued_jobs s.active_jobs msg.to_status v
  dispatch-Keeps s now worker msg retrieve_result v =
      update_result-IsGood s.queued_jobs s.active_jobs msg.to_result v
  dispatch-Keeps s now worker msg heartbeat v = beat-Keeps s now worker msg msg.to_duration refl v
  dispatch-Keeps s now worker msg terminate_worker v = v
  dispatch-Keeps s now worker msg _ v = v

  refreshed-Inv :
      (now worker : ℕ) (service : ServiceType) (s : Server f) (t : Bool)
      → Inv s
      → Inv (refreshed now worker service (s, t)).0
  unfolding refreshed
  refreshed-Inv now worker service s t v =
      elim (Bool-cases (not (is_heartbeat service) && not (is_terminate_worker service))) [
        | inl e ↦ rw e v
        | inr e ↦ rw e v
      ]

  refreshed-Keeps :
      (now worker : ℕ) (service : ServiceType) (r : Option (Server f × Bool))
      → Keeps r
      → Keeps (elim r [ none ↦ none | some t ↦ some (refreshed now worker service t) ])
  refreshed-Keeps now worker service none v = tt
  refreshed-Keeps now worker service (some (s, t)) v = refreshed-Inv now worker service s t v

  -- The handler throws, leaves the server as it is, or ends with the refresh.
  pub determine_worker_response-cases :
      (P : Option (Server f × Bool) → Type 0) (s : Server f) (now worker : ℕ) (msg : Message)
      → P none
      → P (some (s, false))
      → P (elim (dispatch s now worker msg msg.service_type) [
        | none ↦ none
        | some r ↦ some (refreshed now worker msg.service_type r)
      ])
      → P (determine_worker_response s now worker msg)
  unfolding determine_worker_response
  determine_worker_response-cases P s now worker msg v w h = elim (Bool-cases msg.is_received) [
    | inr r ↦ simp r v
    | inl r ↦ elim (Bool-cases msg.is_valid) [
      | inr e ↦ simp (r, e) w
      | inl e ↦
          elim (Bool-cases (not (is_terminate_worker msg.service_type) && msg.data_size == 0)) [
            | inl z ↦ simp (r, e, z) w
            | inr z ↦ elim (Bool-cases (throws msg msg.service_type)) [
              | inl t ↦ simp (r, e, z, t) v
              | inr t ↦ simp (r, e, z, t) h
            ]
          ]
    ]
  ]

  -- Whatever a worker sends, if the handler returns, it keeps the invariant of the server.
  pub determine_worker_response-Keeps :
      (s : Server f) (now worker : ℕ) (msg : Message)
      → Inv s
      → Keeps (determine_worker_response s now worker msg)
  determine_worker_response-Keeps s now worker msg v =
      determine_worker_response-cases Keeps s now worker msg tt v (
        refreshed-Keeps now worker msg.service_type (dispatch s now worker msg msg.service_type)
          (dispatch-Keeps s now worker msg msg.service_type v))
