-- ===== src/Server/EventPublisher.antt =====
-- remus/server/detail/EventPublisher.cxx: what subscribers are sent of the events of the server. A
-- message is its key and a JSON object; its text is the library cJSON's. `text` is that of an uuid, and
-- `name` the name of a socket's identity.
mod Words
pub mod Keys
use Words.{
  field_job_id, field_msg_type, field_worker_id, field_source_type, field_format_type,
  field_mesh_type, field_worker_name, field_tag, field_requirements, field_status_type,
  field_progress, field_last_status_type, field_last_progress, field_state, unresponsive,
  responsive, error_key, stop_key, end_value, job_prefix, worker_prefix, queued_event,
  job_status_event, terminated_event, expired_event, completed_event, assigned_to_worker, register,
  asking_for_job, heartbeat_event, worker_state, terminate_worker_service, stat_type,
}
use remus.Prelude.{ℕ, pos, Bool, List, [], ◌∷◌, ◌++◌}
use remus.Std.Stream.{put_int, c_string}
use remus.Proto.JobRequirements.{JobRequirements, source_to_int, format_to_int}
use remus.Proto.JobStatus.{JobStatus}
use remus.Proto.JobResult.{JobResult}
use remus.Proto.WorkerJob.{WorkerJob}
use remus.Proto.Wire.{put_mesh_type, put_progress}
use remus.Server.Message.{
  Output, to_client, to_worker, job_queued, queued_job_terminated, active_job_terminated,
  worker_registered, worker_ready, status_published, job_finished, worker_heartbeat,
  worker_terminated, job_sent_to_worker, jobs_expired,
}

-- The values that are made: strings, and objects of strings.
pub data Value : Type 0 where
  string : List ℕ → Value
  object : List (List ℕ × List ℕ) → Value

abbrev pub Root : Type 0
Root = List (List ℕ × Value)

-- A key, with the root whose text `cJSON_PrintUnformatted` prints, or with plain text.
pub data Published : Type 0 where
  event : List ℕ → Root → Published
  plain : List ℕ → List ℕ → Published

-- `cJSON_CreateString(s.c_str())`.
unfoldable pub create_string : List ℕ → Value
unfolding c_string
create_string s = string (c_string s)

unfoldable pub pub_job : List ℕ → List ℕ → Root → Published
pub_job st suid root = event (job_prefix ++ st ++ 58 ∷ suid) root

unfoldable pub pub_worker : List ℕ → List ℕ → Root → Published
pub_worker st suid root = event (worker_prefix ++ st ++ 58 ∷ suid) root

-- The object with the fields that the code writes of requirements.
unfoldable pub requirements_value : JobRequirements → Value
unfolding c_string put_int put_mesh_type
requirements_value reqs = object (
    (field_source_type, c_string (put_int (pos (source_to_int reqs.source_type)) []))
    ∷ (field_format_type, c_string (put_int (pos (format_to_int reqs.format_type)) []))
    ∷ (field_mesh_type, c_string (put_mesh_type reqs.mesh_types []))
    ∷ (field_worker_name, c_string reqs.worker_name)
    ∷ (field_tag, c_string reqs.tag)
    ∷ [])

-- The fields with which the events of a job start, and those of a worker.
abbrev pub job_root : List ℕ → List ℕ → List ℕ → Root → Root
job_root suid serv_t work_t rest =
    (field_job_id, create_string suid)
    ∷ (field_msg_type, create_string serv_t)
    ∷ (field_worker_id, create_string work_t)
    ∷ rest

abbrev pub worker_root : List ℕ → List ℕ → Root → Root
worker_root work_t serv_t rest =
    (field_worker_id, create_string work_t) ∷ (field_msg_type, create_string serv_t) ∷ rest

abbrev pub progress_text : JobStatus → List ℕ
progress_text s = put_progress s.progress []

-- Each function yields what it sends, in order.
module _ (text : ℕ → List ℕ) (name : ℕ → List ℕ) where
  unfoldable pub job_queued_event : ℕ → JobRequirements → List Published
  unfolding pub_job create_string requirements_value
  job_queued_event j reqs =
      pub_job queued_event (text j)
        (job_root (text j) queued_event [] ((field_requirements, requirements_value reqs) ∷ []))
      ∷ []

  unfoldable pub job_status : JobStatus → ℕ → List Published
  unfolding pub_job pub_worker create_string put_progress
  job_status s si =
      let root = job_root (text s.id) job_status_event (name si) (
        (field_status_type, create_string (stat_type s.status))
        ∷ (field_progress, create_string (progress_text s))
        ∷ []) in
      pub_job job_status_event (text s.id) root ∷ pub_worker job_status_event (name si) root ∷ []

  unfoldable pub job_terminated : JobStatus → ℕ → List Published
  unfolding pub_job pub_worker create_string put_progress
  job_terminated s si =
      let root = job_root (text s.id) terminated_event (name si) (
        (field_last_status_type, create_string (stat_type s.status))
        ∷ (field_last_progress, create_string (progress_text s))
        ∷ []) in
      pub_job terminated_event (text s.id) root ∷ pub_worker terminated_event (name si) root ∷ []

  unfoldable pub queued_terminated : JobStatus → List Published
  unfolding pub_job create_string put_progress
  queued_terminated s =
      pub_job terminated_event (text s.id) (
        job_root (text s.id) terminated_event [] (
          (field_last_status_type, create_string (stat_type s.status))
          ∷ (field_last_progress, create_string (progress_text s))
          ∷ []))
      ∷ []

  -- The second message has the fields of the first, its type included, and two more.
  unfoldable pub job_expired : JobStatus → List Published
  unfolding pub_job create_string put_progress
  job_expired s =
      pub_job expired_event (text s.id) (job_root (text s.id) expired_event [] [])
      ∷ pub_job job_status_event (text s.id) (
          job_root (text s.id) expired_event [] (
            (field_status_type, create_string (stat_type s.status))
            ∷ (field_progress, create_string (progress_text s))
            ∷ []))
      ∷ []

  unfoldable pub jobs_expired_events : List JobStatus → List Published
  unfolding job_expired
  jobs_expired_events [] = []
  jobs_expired_events (s ∷ ss) = job_expired s ++ jobs_expired_events ss

  unfoldable pub job_finished_event : JobResult → ℕ → List Published
  unfolding pub_job pub_worker create_string
  job_finished_event r si =
      let root = job_root (text r.id) completed_event (name si) [] in
      pub_job completed_event (text r.id) root ∷ pub_worker completed_event (name si) root ∷ []

  unfoldable pub job_sent : WorkerJob → ℕ → List Published
  unfolding pub_job pub_worker create_string
  job_sent j si =
      let root = job_root (text j.id) assigned_to_worker (name si) [] in
      pub_job assigned_to_worker (text j.id) root
      ∷ pub_worker assigned_to_worker (name si) root
      ∷ []

  -- `workerReady` and `workerRegistered`, with the events that the source gives them.
  unfoldable pub worker_ready_event : ℕ → JobRequirements → List Published
  unfolding pub_worker create_string requirements_value
  worker_ready_event si reqs =
      pub_worker register (name si)
        (worker_root (name si) register ((field_requirements, requirements_value reqs) ∷ []))
      ∷ []

  unfoldable pub worker_registered_event : ℕ → JobRequirements → List Published
  unfolding pub_worker create_string requirements_value
  worker_registered_event si reqs =
      pub_worker asking_for_job (name si)
        (worker_root (name si) asking_for_job ((field_requirements, requirements_value reqs) ∷ []))
      ∷ []

  unfoldable pub worker_heartbeat_event : ℕ → List Published
  unfolding pub_worker create_string
  worker_heartbeat_event si =
      pub_worker heartbeat_event (name si) (worker_root (name si) heartbeat_event []) ∷ []

  -- `workerResponsive` and `workerUnresponsive`.
  unfoldable pub worker_state_event : ℕ → List ℕ → List Published
  unfolding pub_worker create_string
  worker_state_event si state_t =
      pub_worker worker_state (name si)
        (worker_root (name si) worker_state ((field_state, create_string state_t) ∷ []))
      ∷ []

  unfoldable pub worker_responsive : ℕ → List Published
  unfolding worker_state_event
  worker_responsive si = worker_state_event si responsive

  unfoldable pub unresponsive_workers : List ℕ → List Published
  unfolding worker_state_event
  unresponsive_workers [] = []
  unresponsive_workers (si ∷ sis) = worker_state_event si unresponsive ++ unresponsive_workers sis

  unfoldable pub worker_terminated_event : ℕ → List Published
  unfolding pub_worker create_string worker_state_event
  worker_terminated_event si =
      pub_worker terminate_worker_service (name si)
        (worker_root (name si) terminate_worker_service [])
      ∷ worker_state_event si unresponsive

  -- What is published of an output of the server; responses are not events.
  unfoldable pub publish : Output → List Published
  unfolding job_queued_event job_status job_terminated queued_terminated jobs_expired_events
      job_finished_event job_sent worker_ready_event worker_registered_event worker_heartbeat_event
      worker_terminated_event
  publish (to_client client service data') = []
  publish (to_worker worker service data') = []
  publish (job_queued j reqs) = job_queued_event j reqs
  publish (queued_job_terminated s) = queued_terminated s
  publish (active_job_terminated s si) = job_terminated s si
  publish (worker_registered si reqs) = worker_registered_event si reqs
  publish (worker_ready si reqs) = worker_ready_event si reqs
  publish (status_published s si) = job_status s si
  publish (job_finished r si) = job_finished_event r si
  publish (worker_heartbeat si) = worker_heartbeat_event si
  publish (worker_terminated si) = worker_terminated_event si
  publish (job_sent_to_worker j si) = job_sent j si
  publish (jobs_expired ss) = jobs_expired_events ss

unfoldable pub error : List ℕ → List Published
error msg = plain error_key msg ∷ []

unfoldable pub stop : List Published
unfolding error
stop = error end_value ++ plain stop_key end_value ∷ []
