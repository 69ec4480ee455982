-- ===== src/Worker/Worker/Messages.antt =====
-- remus/worker/Worker.cxx and the other end: what the server makes of a worker's messages.
use remus.Prelude.{
  ℕ, zero, suc, ◌<◌, ◌≡◌, refl, ap, ◌∙◌, ◌^◌, true, Option, some, List, [], ◌∷◌, ◌++◌, arith,
  length, if◌then◌else◌,
}
use remus.Common.ServiceTypes.{make_mesh, mesh_status}
use remus.Common.StatusTypes
use remus.Proto.JobRequirements
use remus.Proto.JobRequirements.{JobRequirements}
use remus.Proto.JobProgress
use remus.Proto.JobProgress.{of_message}
use remus.Proto.JobStatus
use remus.Proto.JobStatus.{JobStatus}
use remus.Proto.WorkerJob.{WorkerJob}
use remus.Proto.Wire.{
  max_int, put_requirements, get_requirements, to_requirements, put_status, get_status,
}
use remus.Proto.Wire.RoundTrip.{IsShort, get-put_requirements, get-put_status}
use remus.Proto.Wire.Append.{put_requirements-append, put_status-append}
use remus.Worker.Worker.{
  Worker, Sent, light_reqs, ask, ask_for_jobs, update_status, send_job_failure,
}

-- `n` times the same message.
unfoldable pub repeat : ℕ → Sent → List Sent → List Sent
repeat zero m sent = sent
repeat (suc n) m sent = repeat n m (m ∷ sent)

ask-repeat :
    (n : ℕ) (buffer : List ℕ) (w : Worker)
    → (ask n buffer w).sent
      ≡ repeat n
          (record { mtype = w.mesh_requirements.mesh_types; service = make_mesh; data' = buffer })
          w.sent
unfolding ask repeat
ask-repeat zero buffer w = refl
ask-repeat (suc n) buffer w = ask-repeat n buffer _

light-eq : (r : JobRequirements) → JobRequirements.eq (light_reqs r) r ≡ true
unfolding JobRequirements.eq light_reqs
light-eq r = JobRequirements.eq_refl r

light_reqs-IsShort : (r : JobRequirements) → IsShort r → IsShort (light_reqs r)
unfolding light_reqs
light_reqs-IsShort r v = ground (arith, v)

-- A worker whose strings are short enough asks for `n` jobs while its router forwards: it sends the same
-- message `n` times, whose data the server decodes as requirements that are equal, to the code, to the
-- worker's own, though their contents are left out.
pub ask_for_jobs-decoded :
    (w : Worker) (n : ℕ)
    → w.message_router.continue_forwarding_to_server ≡ true
    → IsShort w.mesh_requirements
    → (buffer : List ℕ) × (light : JobRequirements) × ((ask_for_jobs w n).sent
        ≡ repeat n
            (record { mtype = w.mesh_requirements.mesh_types; service = make_mesh; data' = buffer })
            w.sent)
      × (to_requirements buffer ≡ some (light, 10 ∷ 10 ∷ []))
      × (JobRequirements.eq light w.mesh_requirements ≡ true)
unfolding ask_for_jobs to_requirements
ask_for_jobs-decoded w n h v =
    let light = light_reqs w.mesh_requirements in
    let buffer = put_requirements light [] in
    (
      buffer,
      light,
      ap (λ b. (if b then ask n buffer w else w).sent) h ∙ ask-repeat n buffer w,
      ap get_requirements (put_requirements-append light [] (10 ∷ []))
          ∙ get-put_requirements light (10 ∷ []) (light_reqs-IsShort w.mesh_requirements v),
      light-eq w.mesh_requirements,
    )

-- A worker whose router polls reports a failure: one message goes out, whose data the server decodes as
-- the status of that job, failed for that reason. The uuid is one that the library reads back from its
-- text before a newline, and the reason is shorter than 2 ^ 31 bytes. If the router does not poll,
-- nothing is sent.
pub send_job_failure-decoded :
    (text : ℕ → List ℕ) (get_uuid : List ℕ → Option (ℕ × List ℕ))
    → ((u : ℕ) (rest : List ℕ) → u < 2 ^ 128 → get_uuid (text u ++ 10 ∷ rest) ≡ some (u, 10 ∷ rest))
    → (w : Worker) (j : WorkerJob) (reason : List ℕ) → j.id < 2 ^ 128
    → length reason < max_int
    → (data' : List ℕ) × ((send_job_failure (λ u cs. text u ++ cs) w j reason).sent ≡ (
        if w.message_router.continue_polling
        then record { mtype = w.mesh_requirements.mesh_types; service = mesh_status; data' = data' }
          ∷ w.sent
        else w.sent))
      × (get_status get_uuid (data' ++ 10 ∷ [])
          ≡ some (
            record { id = j.id; status = StatusTypes.failed; progress = of_message reason },
            10 ∷ 10 ∷ 10 ∷ [],
          ))
unfolding send_job_failure update_status JobStatus.make_failed_job_status JobStatus.of_progress
    JobStatus.mark_as_failed JobProgress.of_message
send_job_failure-decoded text get_uuid reads w j reason h k =
    let js : JobStatus = record {
      id = j.id;
      status = StatusTypes.failed;
      progress = of_message reason;
    } in
    (
      put_status (λ u cs. text u ++ cs) js [],
      ground arith,
      ap (get_status get_uuid) (put_status-append text js [] (10 ∷ []))
          ∙ get-put_status (λ u cs. text u ++ cs) get_uuid reads js (10 ∷ []) h (ground arith) k,
    )
