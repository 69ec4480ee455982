-- ===== src/Client/Delivery.antt =====
-- remus/client/Client.cxx and the other end: what the server makes of a client's message, and the
-- client of the server's answer.
use remus.Prelude.{
  ℕ, ◌<◌, ◌≡◌, ap, ◌∙◌, ◌^◌, true, Option, some, List, [], ◌∷◌, ◌++◌, arith, length,
}
use remus.Common.ServiceTypes.{to_int, make_mesh}
use remus.Common.MeshIoType.{MeshIoType}
use remus.Proto.JobProgress.{IsProgressValue}
use remus.Proto.JobSubmission.{JobSubmission}
use remus.Proto.JobStatus.{JobStatus}
use remus.Proto.Job.{Job}
use remus.Proto.Socket.{Socket, Frame}
use remus.Proto.Socket.Tries.{IsPatient, header}
use remus.Proto.Message.{receive_message, data_of}
use remus.Proto.Message.Delivery.{body, receive-send_message}
use remus.Proto.Response.{Response}
use remus.Proto.Wire.{max_int, put_status, get_status}
use remus.Proto.Wire.RoundTrip.{get-put_status}
use remus.Proto.Wire.Append.{put_submission-append, put_status-append}
use remus.Proto.Wire.Submission.{put_submission, get_submission, to_submission}
use remus.Proto.Wire.Submission.RoundTrip.{IsSendable, get-put_submission}
use remus.Proto.Wire.Submission.Sets.{gap}
use remus.Client.{request, submit_job, job_status, terminate, first, to_status}

to_submission-put :
    (s : JobSubmission)
    → IsSendable s
    → to_submission (put_submission s []) ≡ some (s, gap s.content (10 ∷ []))
unfolding to_submission
to_submission-put s v =
    ap get_submission (put_submission-append s [] (10 ∷ [])) ∙ get-put_submission s (10 ∷ []) v

-- A client submits a job whose strings are short enough on a socket of which no five calls in a row
-- fail: the frames of one message go out, behind what went out before. Where these frames come in at
-- the server, whose calls do not fail five times in a row either, the server receives a valid message
-- that asks for a mesh of the client's type, and decodes the very submission.
pub submit_job-received :
    (text : ℕ → List ℕ) (parse : List ℕ → ℕ) (get_uuid : List ℕ → Option (ℕ × List ℕ))
    (garbled : List ℕ → MeshIoType) (beyond : ℕ → ℕ) (s : JobSubmission) (client server : Socket)
    (answer : Response) (rest : List Frame)
    → IsSendable s
    → IsPatient client
    → IsPatient server
    → server.incoming
      ≡ header server.is_req_or_rep ++ (body s.mesh_type 5 (put_submission s []) ++ rest)
    → ((submit_job text parse get_uuid s client answer).0.outgoing
        ≡ client.outgoing
          ++ (header client.is_req_or_rep ++ body s.mesh_type 5 (put_submission s [])))
      × ((receive_message garbled beyond server).0.is_valid ≡ true)
      × ((receive_message garbled beyond server).0.stype ≡ to_int make_mesh)
      × ((receive_message garbled beyond server).0.mtype ≡ s.mesh_type)
      × (to_submission (data_of (receive_message garbled beyond server).0.storage)
          ≡ some (s, gap s.content (10 ∷ [])))
unfolding submit_job request data_of
submit_job-received text parse get_uuid garbled beyond s client server answer rest v p q e =
    let r =
      receive-send_message garbled beyond s.mesh_type 5 (some (put_submission s [])) client server
        rest v.types.0 v.types.1 (omega arith) p q e in
    (
      r.1,
      ap (λ m. m.is_valid) r.3,
      ap (λ m. m.stype) r.3,
      ap (λ m. m.mtype) r.3,
      ap (λ m. to_submission (data_of m.storage)) r.3 ∙ to_submission-put s v,
    )

-- A client asks for the status of a job, or terminates it. If the library reads an uuid back from its
-- text before a newline, and the answer's data is the text of a status with a valid progress and any
-- message shorter than 2 ^ 31 bytes, then the client's result is that status.
pub job_status-answered :
    (text : ℕ → List ℕ) (parse : List ℕ → ℕ) (get_uuid : List ℕ → Option (ℕ × List ℕ))
    → ((u : ℕ) (rest : List ℕ) → u < 2 ^ 128 → get_uuid (text u ++ 10 ∷ rest) ≡ some (u, 10 ∷ rest))
    → (job : Job) (socket : Socket) (answer : Response) (js : JobStatus)
    → answer.storage ≡ put_status (λ u cs. text u ++ cs) js []
    → js.id < 2 ^ 128
    → IsProgressValue js.progress.value
    → length js.progress.message < max_int
    → ((job_status text parse get_uuid job socket answer).1 ≡ some js)
      × ((terminate text parse get_uuid job socket answer).1 ≡ some js)
unfolding job_status terminate to_status
job_status-answered text parse get_uuid reads job socket answer js e id v h =
    let read =
      ap (λ d. first (get_status get_uuid (d ++ 10 ∷ []))) e
      ∙ ap (λ d. first (get_status get_uuid d)) (put_status-append text js [] (10 ∷ []))
      ∙ ap first (get-put_status (λ u cs. text u ++ cs) get_uuid reads js (10 ∷ []) id v h) in
    (read, read)
