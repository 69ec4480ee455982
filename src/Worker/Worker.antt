-- ===== src/Worker/Worker.antt =====
-- remus/worker/Worker.h and Worker.cxx: what a worker sends to its router. The router and the queue are
-- those of the sibling modules; `put_uuid` is the text of an uuid. Polling rates, sockets and threads
-- are not modelled here.
pub mod Messages
use remus.Prelude.{
  ℕ, ℤ, zero, suc, Bool, true, false, Option, none, some, List, [], ◌∷◌, ◌==◌, if◌then◌else◌,
}
use remus.Common.ServiceTypes.{
  ServiceType, can_mesh_requirements, make_mesh, mesh_status, retrieve_result, terminate_worker,
}
use remus.Common.MeshIoType.{MeshIoType}
use remus.Proto.JobRequirements.{JobRequirements, memory, user}
use remus.Proto.JobProgress
use remus.Proto.JobStatus
use remus.Proto.JobStatus.{JobStatus}
use remus.Proto.JobResult.{JobResult}
use remus.Proto.WorkerJob.{WorkerJob}
use remus.Proto.Wire.{put_requirements, put_status}
use remus.Proto.Wire.Submission.{put_result}
use remus.Worker.JobQueue
use remus.Worker.JobQueue.{JobQueue}
use remus.Worker.MessageRouter.{Router}

-- A message on the socket to the router; the data is empty where the source sends none.
pub record Sent : Type 0 where
  pub mtype : MeshIoType
  pub service : ServiceType
  pub data' : List ℕ

-- `sent` holds the messages, last first.
pub record Worker : Type 0 where
  pub mesh_requirements : JobRequirements
  pub message_router : Router
  pub job_queue : JobQueue
  pub sent : List Sent

abbrev send : Worker → ServiceType → List ℕ → Worker
send w service data' = record w {
  sent =
      record { mtype = w.mesh_requirements.mesh_types; service = service; data' = data' } ∷ w.sent;
}

-- The constructor with requirements, once the router and the queue are started.
unfoldable pub make : JobRequirements → Router → JobQueue → Worker
unfolding put_requirements
make requirements router queue =
    send
      (record {
        mesh_requirements = requirements;
        message_router = router;
        job_queue = queue;
        sent = [];
      })
      can_mesh_requirements (put_requirements requirements [])

-- `make_JobRequirements(mtype, "", "")`, of the constructor with a mesh type.
unfoldable pub requirements_of_type : MeshIoType → JobRequirements
requirements_of_type mtype = record {
  source_type = memory;
  format_type = user;
  mesh_types = mtype;
  worker_name = [];
  tag = [];
  requirements = [];
}

-- `MessageRouter::valid`.
abbrev pub is_valid : Worker → Bool
is_valid w = w.message_router.continue_polling

-- The destructor.
unfoldable pub shut_down : Worker → Worker
shut_down w = if is_valid w then send w terminate_worker [] else w

-- The requirements without their contents.
unfoldable pub light_reqs : JobRequirements → JobRequirements
light_reqs r = record r { requirements = [] }

-- The loop of `askForJobs`.
unfoldable pub ask : ℕ → List ℕ → Worker → Worker
ask zero buffer w = w
ask (suc n) buffer w = ask n buffer (send w make_mesh buffer)

unfoldable pub ask_for_jobs : Worker → ℕ → Worker
unfolding ask light_reqs put_requirements
ask_for_jobs w number_of_jobs =
    if w.message_router.continue_forwarding_to_server
    then ask number_of_jobs (put_requirements (light_reqs w.mesh_requirements) []) w
    else w

unfoldable pub pending_job_count : Worker → ℕ
unfolding JobQueue.size
pending_job_count w = JobQueue.size w.job_queue

unfoldable pub take_pending_job : Worker → Worker × WorkerJob
unfolding JobQueue.take
take_pending_job w = let r = JobQueue.take w.job_queue in (record w { job_queue = r.0 }, r.1)

-- `getJob` up to the wait; `arrived` is the queue when the wait ends.
unfoldable pub get_job : Worker → JobQueue → Worker × Option WorkerJob
unfolding ask_for_jobs pending_job_count JobQueue.wait_and_take_job
get_job w arrived =
    let asked = if pending_job_count w == 0 then ask_for_jobs w 1 else w in
    elim (JobQueue.wait_and_take_job arrived) [
      | none ↦ (record asked { job_queue = arrived }, none)
      | some r ↦ (record asked { job_queue = r.0 }, some r.1)
    ]

module _ (put_uuid : ℕ → List ℕ → List ℕ) where
  unfoldable pub update_status : Worker → JobStatus → Worker
  unfolding put_status
  update_status w info = if is_valid w then send w mesh_status (put_status put_uuid info []) else w

  unfoldable pub send_progress : Worker → WorkerJob → ℤ → List ℕ → Worker
  unfolding update_status JobStatus.of_progress JobProgress.of_both
  send_progress w j progress message =
      update_status w (JobStatus.of_progress j.id (JobProgress.of_both progress message))

  unfoldable pub send_job_failure : Worker → WorkerJob → List ℕ → Worker
  unfolding update_status JobStatus.make_failed_job_status
  send_job_failure w j reason = update_status w (JobStatus.make_failed_job_status j.id reason)

  -- `returnResult` up to the wait for the router's answer.
  unfoldable pub return_result : Worker → JobResult → Worker
  unfolding put_result
  return_result w result =
      if is_valid w then send w retrieve_result (put_result put_uuid result []) else w

unfoldable pub worker_should_terminate : Worker → Bool
unfolding JobQueue.is_shutdown
worker_should_terminate w = JobQueue.is_shutdown w.job_queue

unfoldable pub job_should_be_terminated : Worker → WorkerJob → Bool
unfolding JobQueue.is_a_terminated_job
job_should_be_terminated w job = JobQueue.is_a_terminated_job w.job_queue job.id
