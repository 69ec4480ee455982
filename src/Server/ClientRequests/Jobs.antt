-- ===== src/Server/ClientRequests/Jobs.antt =====
-- What a client's request does to the jobs of the server.
use remus.Prelude.{
  ℕ, ◌≡◌, ap, inl, inr, false, ◌&&◌, Option, none, some, arith, Bool-cases, Option-cases,
}
use remus.Std.Map
use remus.Common.ServiceTypes.{ServiceType, make_mesh, mesh_status, retrieve_result, terminate_job}
use remus.Proto.JobStatus.{JobStatus}
use remus.Proto.JobResult.{JobResult}
use remus.Proto.WorkerJob.{JobSubmission}
use remus.Server.JobQueue
use remus.Server.JobQueue.{JobQueue, add_job, remove}
use remus.Server.JobQueue.Invariant.{add_job-IsWellFormed, find_job-add_job, remove-IsWellFormed}
use remus.Server.JobQueue.Refinement.{find_job-remove}
use remus.Server.JobQueue.Wanted.{add_job-IsCacheSound, remove-IsCacheSound}
use remus.Server.ActiveJobs
use remus.Server.ActiveJobs.{ActiveJobs}
use remus.Server.ActiveJobs.History.{remove_missing, remove_found}
use remus.Server.Factory.{WorkerFactory}
use remus.Server.Message.{Message}
use remus.Server.State.{Server}
use remus.Server.Invariant.{known, knows, IsGood, Inv}
use remus.Server.ClientRequests.{
  queue_job, status_of, report_status, result_of, take_result, terminate, ask_to_terminate,
  dispatch, determine_client_response,
}
use remus.Server.ClientRequests.Outcome.{Returns, determine_client_response-Returns}

-- Fewer active jobs keep the invariant.
pub fewer-IsGood :
    (q : JobQueue) (info rest : ActiveJobs)
    → ((id : ℕ) → Map.lookup id info ≡ none → Map.lookup id rest ≡ none)
    → IsGood q info
    → IsGood q rest
fewer-IsGood q info rest h v = record {
  queue = v.queue;
  cache = v.cache;
  apart = λ id e. h id (v.apart id e);
}

pub adjust-none :
    (k id : ℕ) (g : ActiveJobs.JobState → ActiveJobs.JobState) (info : ActiveJobs)
    → Map.lookup id info ≡ none
    → Map.lookup id (Map.adjust k g info) ≡ none
adjust-none k id g info e = ground (arith, Map.lookup-adjust k id g info)

module _ (q : JobQueue) (info : ActiveJobs) (v : IsGood q info) where
  add-IsGood :
      (id : ℕ) (s : JobSubmission) → known q info id ≡ false → IsGood (add_job q id s).0 info
  add-IsGood id s fresh = record {
    queue = add_job-IsWellFormed q v.queue id s;
    cache = add_job-IsCacheSound q id s v.cache;
    apart = λ k h. ground (
      arith,
      h,
      fresh,
      find_job-add_job q v.queue id k s,
      v.apart k,
      ap (λ i. Map.lookup i info) {x = id} {y = k},
    );
  }

  remove-IsGood : (id : ℕ) → IsGood (remove q id).0 info
  remove-IsGood id = record {
    queue = remove-IsWellFormed q v.queue id;
    cache = remove-IsCacheSound q id v.cache;
    apart = λ k h. ground (arith, h, (find_job-remove q v.queue id).0 k, v.apart k);
  }

  forget-IsGood : (id : ℕ) → IsGood q (ActiveJobs.remove info id).0
  forget-IsGood id =
      fewer-IsGood q info _
        (λ k e. elim (Option-cases (Map.lookup id info)) [
          | inl m ↦ rw (remove_missing info id m) e
          | inr (a, m) ↦ rw (remove_found info id m) (ground (arith, e, Map.lookup-erase id k info))
        ])
        v

module _ {f : WorkerFactory} where
  report-Inv : (s : Server f) (id : ℕ) (o : Option JobStatus) → Inv s → Inv (report_status s id o).0
  unfolding report_status ActiveJobs.clear_status
  report-Inv s id none v = v
  report-Inv s id (some js) v =
      fewer-IsGood s.queued_jobs s.active_jobs _ (λ k e. adjust-none id k _ s.active_jobs e) v

  status-Inv : (s : Server f) (msg : Message) → Inv s → Inv (status_of s msg).0
  unfolding status_of
  status-Inv s msg v = elim (Bool-cases (JobQueue.have_uuid s.queued_jobs msg.to_job)) [
    | inl e ↦ rw e v
    | inr e ↦ rw e (report-Inv s msg.to_job (ActiveJobs.status s.active_jobs msg.to_job) v)
  ]

  take-Inv : (s : Server f) (id : ℕ) (o : Option JobResult) → Inv s → Inv (take_result s id o).0
  unfolding take_result
  take-Inv s id none v = v
  take-Inv s id (some r) v = forget-IsGood s.queued_jobs s.active_jobs v id

  result-Inv : (s : Server f) (msg : Message) → Inv s → Inv (result_of s msg).0
  unfolding result_of
  result-Inv s msg v =
      elim (Bool-cases (
        ActiveJobs.have_uuid s.active_jobs msg.to_job
        && ActiveJobs.have_result s.active_jobs msg.to_job)) [
          | inl e ↦ rw e (take-Inv s msg.to_job (ActiveJobs.result s.active_jobs msg.to_job) v)
          | inr e ↦ rw e v
        ]

  ask-Inv : (s : Server f) (id : ℕ) (o : Option JobStatus) → Inv s → Inv (ask_to_terminate s id o)
  unfolding ask_to_terminate
  ask-Inv s id none v = v
  ask-Inv s id (some js) v = v

  terminate-Inv : (s : Server f) (msg : Message) → Inv s → Inv (terminate s msg).0
  unfolding terminate
  terminate-Inv s msg v = elim (Bool-cases (JobQueue.have_uuid s.queued_jobs msg.to_job)) [
    | inl e ↦ rw e (remove-IsGood s.queued_jobs s.active_jobs v msg.to_job)
    | inr e ↦ elim (Bool-cases (ActiveJobs.have_uuid s.active_jobs msg.to_job)) [
      | inl a ↦ rw (e, a) (ask-Inv s msg.to_job (ActiveJobs.status s.active_jobs msg.to_job) v)
      | inr a ↦ rw (e, a) v
    ]
  ]

  dispatch-Inv :
      (s : Server f) (client uuid : ℕ) (msg : Message) (service : ServiceType)
      → knows s uuid ≡ false
      → Inv s
      → Inv (dispatch s client uuid msg service)
  unfolding dispatch queue_job
  dispatch-Inv s client uuid msg make_mesh fresh v =
      add-IsGood s.queued_jobs s.active_jobs v uuid msg.to_submission fresh
  dispatch-Inv s client uuid msg mesh_status fresh v = status-Inv s msg v
  dispatch-Inv s client uuid msg retrieve_result fresh v = result-Inv s msg v
  dispatch-Inv s client uuid msg terminate_job fresh v = terminate-Inv s msg v
  dispatch-Inv s client uuid msg _ fresh v = v

  -- Whatever a client sends, if the handler returns, the invariant of the server is kept, if the
  -- generated uuid is new.
  pub determine_client_response-Inv :
      (s : Server f) (client uuid : ℕ) (msg : Message)
      → knows s uuid ≡ false
      → Inv s
      → Returns Inv (determine_client_response s client uuid msg)
  determine_client_response-Inv s client uuid msg fresh v =
      determine_client_response-Returns Inv s client uuid msg (λ e. v)
        (λ e. dispatch-Inv s client uuid msg msg.service_type fresh v)
