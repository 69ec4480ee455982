-- ===== src/Server/ClientRequests/Replies.antt =====
-- What a client is answered, and which of its requests makes the server forget a job.
use remus.Prelude.{
  ℕ, suc, ◌≡◌, refl, ap, true, none, some, if◌then◌else◌, Option-cases, not, ◌&&◌, List, [], ◌∷◌,
  arith, ◌==◌,
}
use remus.Std.Map
use remus.Common.ServiceTypes.{ServiceType, mesh_status, retrieve_result, terminate_job}
use remus.Common.StatusTypes.{queued}
use remus.Proto.JobProgress.{no_progress}
use remus.Proto.JobStatus
use remus.Proto.JobResult.{no_result}
use remus.Proto.WorkerJob.{make_job, no_submission}
use remus.Server.JobQueue
use remus.Server.JobQueue.{JobQueue}
use remus.Server.JobQueue.Invariant.{have_uuid-find_job}
use remus.Server.JobQueue.Refinement.{find_job-remove}
use remus.Server.ActiveJobs
use remus.Server.ActiveJobs.{ActiveJobs}
use remus.Server.Factory.{WorkerFactory}
use remus.Server.Message.{
  Message, Output, to_client, to_worker, carry_out, job_result, active_job_terminated,
  queued_job_terminated,
}
use remus.Server.State.{Server}
use remus.Server.Invariant.{knows, known, Inv}
use remus.Server.ClientRequests.{
  queue_job, status_of, report_status, result_of, take_result, terminate, ask_to_terminate,
  dispatch, determine_client_response,
}
use remus.Server.ClientRequests.Outcome.{
  Returns-some, determine_client_response-Returns, determine_client_response-returns,
}

-- How many responses to clients have been sent.
abbrev pub num_replies : List Output → ℕ
num_replies [] = 0
num_replies (to_client _ _ _ ∷ sent) = suc (num_replies sent)
num_replies (_ ∷ sent) = num_replies sent

-- The last thing sent is a response to this client.
abbrev pub LastRepliesTo : ℕ → List Output → Type 0
LastRepliesTo client [] = ⊥
LastRepliesTo client (to_client c _ _ ∷ sent) = c ≡ client
LastRepliesTo client (_ ∷ sent) = ⊥

abbrev pub AnsweredOnce : ℕ → List Output → List Output → Type 0
AnsweredOnce client before after =
    (num_replies after ≡ suc (num_replies before)) × LastRepliesTo client after

module _ {f : WorkerFactory} where
  status_replies :
      (s : Server f) (msg : Message) → num_replies (status_of s msg).0.sent ≡ num_replies s.sent
  unfolding status_of report_status
  status_replies s msg = ground arith

  result_replies :
      (s : Server f) (msg : Message) → num_replies (result_of s msg).0.sent ≡ num_replies s.sent
  unfolding result_of take_result
  result_replies s msg = ground arith

  terminate_replies :
      (s : Server f) (msg : Message) → num_replies (terminate s msg).0.sent ≡ num_replies s.sent
  unfolding terminate ask_to_terminate
  terminate_replies s msg = ground arith

  dispatch_answers :
      (s : Server f) (client uuid : ℕ) (msg : Message) (service : ServiceType)
      → AnsweredOnce client s.sent (dispatch s client uuid msg service).sent
  unfolding dispatch queue_job
  dispatch_answers s client uuid msg mesh_status = (ap suc (status_replies s msg), refl)
  dispatch_answers s client uuid msg retrieve_result = (ap suc (result_replies s msg), refl)
  dispatch_answers s client uuid msg terminate_job = (ap suc (terminate_replies s msg), refl)
  dispatch_answers s client uuid msg _ = (refl, refl)

  -- Each message of a client, valid or not and of any service, that is received and whose payload the
  -- decoders read without an exception is answered: the handler returns, it has sent exactly one response
  -- to a client, that one to the client that sent the message, and the response is the last thing sent.
  pub client-AnsweredOnce :
      (s : Server f) (client uuid : ℕ) (msg : Message)
      → msg.is_received ≡ true
      → msg.decodes ≡ true
      → (t : Server f) × (determine_client_response s client uuid msg ≡ some t)
        × AnsweredOnce client s.sent t.sent
  client-AnsweredOnce s client uuid msg r d =
      let P : Server f → Type 0 = λ t. AnsweredOnce client s.sent t.sent in
      let (t, e) = determine_client_response-returns s client uuid msg r d in
      (
        t,
        e,
        Returns-some P (determine_client_response s client uuid msg) t
            (determine_client_response-Returns P s client uuid msg (λ e. (refl, refl))
              (λ e. dispatch_answers s client uuid msg msg.service_type))
            e,
      )

  -- If the server's queue is well formed, its cache sound and no job both queued and active, then
  -- after `terminate` it knows the jobs that it knew before, less the job of the message if that
  -- was in the queue, and the active jobs are as before. If the job of the message is active, the worker
  -- that has it is sent the order to terminate that job, and the end of the job with its last status is
  -- published; if it is in the queue, only its end is published; else nothing is sent.
  pub terminate-knows :
      (s : Server f) (msg : Message)
      → Inv s
      → ((terminate s msg).0.active_jobs ≡ s.active_jobs)
        × ((id : ℕ)
            → knows (terminate s msg).0 id ≡ (
                knows s id
                && not (msg.to_job == id && JobQueue.have_uuid s.queued_jobs msg.to_job)))
        × ((terminate s msg).0.sent ≡ (elim (Map.lookup msg.to_job s.active_jobs) [
          | some item ↦
              active_job_terminated item.jstatus item.worker_address
              ∷ to_worker item.worker_address terminate_job
                  (carry_out (make_job msg.to_job no_submission))
              ∷ s.sent
          | none ↦
              if known s.queued_jobs [] msg.to_job
              then queued_job_terminated
                  (record { id = msg.to_job; status = queued; progress = no_progress })
                ∷ s.sent
              else s.sent
        ]))
  unfolding terminate ask_to_terminate ActiveJobs.have_uuid ActiveJobs.status
      ActiveJobs.worker_address JobStatus.of_status remus.Proto.JobProgress.of_status Map.has_key
  terminate-knows s msg v = (
    ground arith,
    λ id. ground (
      arith,
      have_uuid-find_job s.queued_jobs v.queue msg.to_job,
      have_uuid-find_job s.queued_jobs v.queue id,
      (find_job-remove s.queued_jobs v.queue msg.to_job).0 id,
      v.apart id,
      v.apart msg.to_job,
    ),
    ground (
      arith,
      have_uuid-find_job s.queued_jobs v.queue msg.to_job,
      v.apart msg.to_job,
      Option-cases (Map.lookup msg.to_job s.active_jobs),
    ),
  )

  -- A result is given out once: whatever the first request for it was answered, a second one for the
  -- same job that follows it is answered with no result.
  pub result_of_again :
      (s : Server f) (msg : Message)
      → (result_of (result_of s msg).0 msg).1 ≡ job_result (no_result msg.to_job)
  unfolding result_of take_result ActiveJobs.have_uuid ActiveJobs.have_result ActiveJobs.result
      ActiveJobs.remove
  result_of_again s msg = ground (arith, Map.lookup-erase msg.to_job msg.to_job s.active_jobs)
