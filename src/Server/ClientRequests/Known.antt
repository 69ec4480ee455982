-- ===== src/Server/ClientRequests/Known.antt =====
-- Which jobs the server knows after it has answered a client.
use remus.Prelude.{
  ℕ, ◌≡◌, refl, ap, inl, inr, Bool, true, false, not, ◌&&◌, ◌||◌, Option, none, some, arith, ◌==◌,
  if◌then◌else◌, Bool-cases, Option-cases,
}
use remus.Std.Map
use remus.Common.ServiceTypes.{ServiceType, make_mesh, mesh_status, retrieve_result, terminate_job}
use remus.Proto.JobStatus.{JobStatus}
use remus.Proto.JobResult.{JobResult}
use remus.Server.JobQueue
use remus.Server.JobQueue.{JobQueue, add_job}
use remus.Server.JobQueue.Ids.{is_some}
use remus.Server.JobQueue.Invariant.{find_job, find_job-add_job, have_uuid-find_job}
use remus.Server.ActiveJobs
use remus.Server.ActiveJobs.{ActiveJobs}
use remus.Server.ActiveJobs.History.{remove_missing, remove_found}
use remus.Server.Factory.{WorkerFactory}
use remus.Server.Message.{Message}
use remus.Server.State.{Server}
use remus.Server.Invariant.{knows, Inv}
use remus.Server.ClientRequests.Replies.{terminate-knows}
use remus.Server.ClientRequests.{
  queue_job, status_of, report_status, result_of, take_result, dispatch, determine_client_response,
}
use remus.Server.ClientRequests.Outcome.{Returns-some, determine_client_response-Returns}

pub adjust_known :
    (k id : ℕ) (g : ActiveJobs.JobState → ActiveJobs.JobState) (info : ActiveJobs)
    → is_some (Map.lookup id (Map.adjust k g info)) ≡ is_some (Map.lookup id info)
adjust_known k id g info = ground (arith, Map.lookup-adjust k id g info)

remove_known :
    (k id : ℕ) (info : ActiveJobs)
    → is_some (Map.lookup id (ActiveJobs.remove info k).0)
      ≡ (is_some (Map.lookup id info) && not (k == id))
remove_known k id info = elim (Option-cases (Map.lookup k info)) [
  | inl m ↦
      rw (remove_missing info k m) (ground (arith, m, ap (λ i. Map.lookup i info) {x = k} {y = id}))
  | inr (a, m) ↦ rw (remove_found info k m) (ground (arith, Map.lookup-erase k id info))
]

has_no_result :
    (info : ActiveJobs) (job id : ℕ)
    → (ActiveJobs.have_uuid info job && ActiveJobs.have_result info job) ≡ false
    → (job == id && ActiveJobs.have_result info id) ≡ false
unfolding ActiveJobs.have_uuid ActiveJobs.have_result Map.has_key
has_no_result info job id h = ground (arith, h, ap (λ k. Map.lookup k info) {x = job} {y = id})

module _ {f : WorkerFactory} where
  -- What a service does to the knowledge of one job: MAKE_MESH adds the new uuid, RETRIEVE_RESULT
  -- takes away the job of the message if it has a result, TERMINATE_JOB takes it away if it is queued.
  abbrev pub known_after : Server f → ℕ → Message → ServiceType → ℕ → Bool
  known_after s uuid msg make_mesh id = knows s id || uuid == id
  known_after s uuid msg retrieve_result id =
      knows s id && not (msg.to_job == id && ActiveJobs.have_result s.active_jobs id)
  known_after s uuid msg terminate_job id =
      knows s id && not (msg.to_job == id && JobQueue.have_uuid s.queued_jobs msg.to_job)
  known_after s uuid msg _ id = knows s id

  queue_job-knows :
      (s : Server f) (uuid : ℕ) (msg : Message) (id : ℕ)
      → Inv s
      → knows (queue_job s uuid msg).0 id ≡ (knows s id || uuid == id)
  unfolding queue_job
  queue_job-knows s uuid msg id v = ground (
    arith,
    find_job-add_job s.queued_jobs v.queue uuid id msg.to_submission,
    have_uuid-find_job s.queued_jobs v.queue uuid,
    ap (λ k. is_some (find_job s.queued_jobs k)) {x = uuid} {y = id},
  )

  report_status-knows :
      (s : Server f) (job : ℕ) (o : Option JobStatus) (id : ℕ)
      → knows (report_status s job o).0 id ≡ knows s id
  unfolding report_status ActiveJobs.clear_status
  report_status-knows s job none id = refl
  report_status-knows s job (some js) id =
      ap (λ b. is_some (find_job s.queued_jobs id) || b) (adjust_known job id _ s.active_jobs)

  status_of-knows :
      (s : Server f) (msg : Message) (id : ℕ) → knows (status_of s msg).0 id ≡ knows s id
  unfolding status_of
  status_of-knows s msg id = elim (Bool-cases (JobQueue.have_uuid s.queued_jobs msg.to_job)) [
    | inl e ↦ rw e refl
    | inr e ↦
        rw e (report_status-knows s msg.to_job (ActiveJobs.status s.active_jobs msg.to_job) id)
  ]

  take_result-knows :
      (s : Server f) (job id : ℕ) (o : Option JobResult)
      → Inv s
      → ActiveJobs.have_result s.active_jobs job ≡ true
      → ActiveJobs.result s.active_jobs job ≡ o
      → knows (take_result s job o).0 id ≡ (knows s id && not (job == id))
  unfolding take_result ActiveJobs.have_result ActiveJobs.result
  take_result-knows s job id none v h e = absurd (ground (arith, h, e))
  take_result-knows s job id (some r) v h e = ground (
    arith,
    h,
    remove_known job id s.active_jobs,
    v.apart id,
    ap (λ k. Map.lookup k s.active_jobs) {x = job} {y = id},
  )

  result_of-knows :
      (s : Server f) (msg : Message) (id : ℕ)
      → Inv s
      → knows (result_of s msg).0 id
        ≡ (knows s id && not (msg.to_job == id && ActiveJobs.have_result s.active_jobs id))
  unfolding result_of
  result_of-knows s msg id v =
      elim (Bool-cases (
        ActiveJobs.have_uuid s.active_jobs msg.to_job
        && ActiveJobs.have_result s.active_jobs msg.to_job)) [
          | inl e ↦ rw e (
              ground (
                arith,
                e,
                take_result-knows s msg.to_job id (ActiveJobs.result s.active_jobs msg.to_job) v
                    (ground (arith, e)) refl,
                ap (ActiveJobs.have_result s.active_jobs) {x = msg.to_job} {y = id},
              ))
          | inr e ↦ rw (e, has_no_result s.active_jobs msg.to_job id e) (ground arith)
        ]

  dispatch-knows :
      (s : Server f) (client uuid : ℕ) (msg : Message) (service : ServiceType) (id : ℕ)
      → Inv s
      → knows (dispatch s client uuid msg service) id ≡ known_after s uuid msg service id
  unfolding dispatch
  dispatch-knows s client uuid msg make_mesh id v = queue_job-knows s uuid msg id v
  dispatch-knows s client uuid msg mesh_status id v = status_of-knows s msg id
  dispatch-knows s client uuid msg retrieve_result id v = result_of-knows s msg id v
  dispatch-knows s client uuid msg terminate_job id v = (terminate-knows s msg v).1 id
  dispatch-knows s client uuid msg _ id v = refl

  -- If the server's queue is well formed, its cache sound and no job both queued and active, these
  -- are the jobs that it knows after a client's message, if the handler returns: a valid MAKE_MESH adds the generated
  -- uuid, a valid RETRIEVE_RESULT takes away the job of the message if that is active with a
  -- result, a valid TERMINATE_JOB takes it away if it is queued, and no other message adds or
  -- takes away a job.
  pub determine_client_response-knows :
      (s : Server f) (client uuid : ℕ) (msg : Message) (t : Server f) (id : ℕ)
      → Inv s
      → determine_client_response s client uuid msg ≡ some t
      → knows t id
        ≡ (if msg.is_valid then known_after s uuid msg msg.service_type id else knows s id)
  determine_client_response-knows s client uuid msg t id v =
      let P : Server f → Type 0 = λ u.
        knows u id
        ≡ (if msg.is_valid then known_after s uuid msg msg.service_type id else knows s id) in
      Returns-some P (determine_client_response s client uuid msg) t (
        determine_client_response-Returns P s client uuid msg (λ e. simp e refl)
          (λ e. simp e (dispatch-knows s client uuid msg msg.service_type id v)))
