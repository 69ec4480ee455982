-- ===== src/Client.antt =====
-- remus/client/Client.cxx: each call sends a message and makes a value of the response that comes in. The
-- socket is a requesting one. Streams are `none` where they fail. `text` and `parse` are the library's
-- conversions of an uuid, and `beyond` is what stands in memory behind the data of a response.
pub mod Delivery
use remus.Prelude.{
  ℕ, zero, suc, Bool, true, false, not, Option, none, some, List, [], ◌∷◌, ◌++◌, ◌==◌,
  if◌then◌else◌,
}
use remus.Std.Stream.{get_nat, and_then, c_string}
use remus.Common.ServiceTypes.{
  ServiceType, to_int, supported_io_types, mesh_requirements_for_io_type, can_mesh_requirements,
  can_mesh_io_type, make_mesh, mesh_status, retrieve_result, terminate_job,
}
use remus.Common.MeshIoType.{MeshIoType, no_mesh_io_type, mesh_io_type_ord}
use remus.Proto.JobRequirements.{JobRequirements, requirements_ord}
use remus.Proto.JobSubmission.{JobSubmission}
use remus.Proto.JobStatus.{JobStatus}
use remus.Proto.JobResult.{JobResult}
use remus.Proto.Job
use remus.Proto.Job.{Job}
use remus.Proto.Socket.{Socket}
use remus.Proto.Message.{send_message}
use remus.Proto.Response.{Response}
use remus.Proto.Wire.{max_size, get_mesh_type, put_requirements, get_requirements, get_status}
use remus.Proto.Wire.Submission.{put_submission, get_set, get_result}

-- `send_Message`, whose result no call looks at.
unfoldable pub request : MeshIoType → ServiceType → Option (List ℕ) → Socket → Socket
unfolding send_message
request type service data' socket = (send_message type (to_int service) data' socket).1

-- `>>` into a `bool`; where the stream fails the value is false.
unfoldable pub get_bool : List ℕ → Bool
unfolding get_nat
get_bool cs = elim (get_nat max_size cs) [ none ↦ false | some r ↦ not (r.0 == 0) ]

abbrev pub first {ℓ} : {A B : Type ℓ} → Option (A × B) → Option A
first none = none
first (some r) = some r.0

module _ (beyond : List ℕ) where
  -- `std::istringstream buffer(response.data())`: a C string, which ends at the first zero byte, in the
  -- data or behind it.
  unfoldable pub text_of : Response → List ℕ
  unfolding c_string
  text_of response = c_string (response.storage ++ beyond)

  unfoldable pub supported_types : Socket → Response → Socket × Option (List MeshIoType)
  unfolding request text_of get_set mesh_io_type_ord
  supported_types socket response = (
    request no_mesh_io_type supported_io_types none socket,
    first (get_set get_mesh_type (text_of response)),
  )

  unfoldable pub can_mesh_type : MeshIoType → Socket → Response → Socket × Bool
  unfolding request text_of get_bool
  can_mesh_type type socket response =
      (request type can_mesh_io_type none socket, get_bool (text_of response))

  unfoldable pub can_mesh : JobRequirements → Socket → Response → Socket × Bool
  unfolding request text_of get_bool put_requirements
  can_mesh reqs socket response = (
    request reqs.mesh_types can_mesh_requirements (some (put_requirements reqs [])) socket,
    get_bool (text_of response),
  )

  unfoldable pub retrieve_requirements :
      MeshIoType → Socket → Response → Socket × Option (List JobRequirements)
  unfolding request text_of get_set get_requirements
  retrieve_requirements type socket response = (
    request type mesh_requirements_for_io_type none socket,
    first (get_set get_requirements (text_of response)),
  )

module _ (text : ℕ → List ℕ) (parse : List ℕ → ℕ) (get_uuid : List ℕ → Option (ℕ × List ℕ)) where
  unfoldable pub submit_job : JobSubmission → Socket → Response → Socket × Option Job
  unfolding request put_submission Job.of_string
  submit_job submission socket response = (
    request submission.mesh_type make_mesh (some (put_submission submission [])) socket,
    Job.of_string text parse response.storage,
  )

  -- `to_JobStatus` adds a newline to what it reads, and so does `to_JobResult`.
  unfoldable pub to_status : List ℕ → Option JobStatus
  unfolding get_status
  to_status data' = first (get_status get_uuid (data' ++ 10 ∷ []))

  unfoldable pub job_status : Job → Socket → Response → Socket × Option JobStatus
  unfolding request Job.serialize to_status
  job_status job socket response = (
    request job.type mesh_status (some (Job.serialize text parse job)) socket,
    to_status response.storage,
  )

  unfoldable pub retrieve_results : Job → Socket → Response → Socket × Option JobResult
  unfolding request Job.serialize get_result
  retrieve_results job socket response = (
    request job.type retrieve_result (some (Job.serialize text parse job)) socket,
    first (get_result get_uuid (response.storage ++ 10 ∷ [])),
  )

  unfoldable pub terminate : Job → Socket → Response → Socket × Option JobStatus
  unfolding request Job.serialize to_status
  terminate job socket response = (
    request job.type terminate_job (some (Job.serialize text parse job)) socket,
    to_status response.storage,
  )
