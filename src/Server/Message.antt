-- ===== src/Server/Message.antt =====
-- What comes in and goes out of the server. In place of the bytes of its payload a message carries
-- what the decoders `to_JobRequirements`, `to_JobSubmission` and so on make of them.
use remus.Prelude.{ℕ, ℤ, Bool, Option, List}
use remus.Common.ServiceTypes.{ServiceType}
use remus.Common.MeshIoType.{MeshIoType}
use remus.Proto.JobRequirements.{JobRequirements}
use remus.Proto.JobStatus.{JobStatus}
use remus.Proto.JobResult.{JobResult}
use remus.Proto.WorkerJob.{JobSubmission, WorkerJob}

-- remus/proto/Message.h. `is_received` says whether `receive_Message` returns: it throws where the text of
-- the mesh type has a size that no array can have. `decodes` says whether the decoder returns that the service's handler calls. Else
-- it throws, as `string_generator` does on what is no uuid and the constructors of strings and arrays on
-- a size that cannot be, and the decoded values stand for nothing. `to_duration` is `none` where
-- `lexical_cast` throws.
pub record Message : Type 0 where
  pub is_received : Bool
  pub is_valid : Bool
  pub service_type : ServiceType
  pub mesh_io_type : MeshIoType
  pub data_size : ℕ
  pub decodes : Bool
  pub to_requirements : JobRequirements
  pub to_submission : JobSubmission
  pub to_job : ℕ
  pub to_status : JobStatus
  pub to_result : JobResult
  pub to_duration : Option ℤ

-- The data of a response to a client.
pub data Reply : Type 0 where
  invalid_msg : Reply
  io_types : List MeshIoType → Reply
  answer : Bool → Reply
  requirements_set : List JobRequirements → Reply
  job : ℕ → MeshIoType → Reply
  job_status : JobStatus → Reply
  job_result : JobResult → Reply

-- The data of a response to a worker.
pub data Order : Type 0 where
  acknowledge : Order
  carry_out : WorkerJob → Order

-- Responses sent, and the events given to the publisher.
pub data Output : Type 0 where
  to_client : ℕ → ServiceType → Reply → Output
  to_worker : ℕ → ServiceType → Order → Output
  job_queued : ℕ → JobRequirements → Output
  queued_job_terminated : JobStatus → Output
  active_job_terminated : JobStatus → ℕ → Output
  worker_registered : ℕ → JobRequirements → Output
  worker_ready : ℕ → JobRequirements → Output
  status_published : JobStatus → ℕ → Output
  job_finished : JobResult → ℕ → Output
  worker_heartbeat : ℕ → Output
  worker_terminated : ℕ → Output
  job_sent_to_worker : WorkerJob → ℕ → Output
  jobs_expired : List JobStatus → Output
