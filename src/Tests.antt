-- ===== src/Tests.antt =====
-- Concrete data, and the theorems at concrete inputs.
pub mod Queue
pub mod Jobs
pub mod Workers
pub mod Handlers
pub mod Router
pub mod Delivery
pub mod Factories
use remus.Prelude.{ℕ, ℤ, pos, Bool, true, false, Option, none, some, List, [], ◌∷◌}
use remus.Common.StatusTypes.{StatusType, in_progress}
use remus.Common.ServiceTypes.{
  ServiceType, make_mesh, mesh_status, retrieve_result, terminate_job, heartbeat, terminate_worker,
}
use remus.Common.MeshIoType.{MeshIoType}
use remus.Common.PollingMonitor
use remus.Common.PollingMonitor.{PollingMonitor}
use remus.Proto.JobRequirements.{JobRequirements, no_requirements, user}
use remus.Proto.JobStatus
use remus.Proto.JobStatus.{JobStatus}
use remus.Proto.JobContent.{no_content}
use remus.Proto.JobResult.{JobResult}
use remus.Proto.WorkerJob.{JobSubmission, WorkerJob, make_job}
use remus.Server.SocketMonitor
use remus.Server.SocketMonitor.{SocketMonitor}
use remus.Server.Factory.{WorkerFactory}
use remus.Server.Message.{Message}

abbrev pub red : JobRequirements
red = record no_requirements {
  tag = 1 ∷ [];
  mesh_types = record { input_type = 2 ∷ []; output_type = 3 ∷ [] };
}

abbrev pub blue : JobRequirements
blue = record red { tag = 2 ∷ [] }

abbrev pub red_job : JobSubmission
red_job = record {
  mesh_type = red.mesh_types;
  requirements = red;
  content = (1 ∷ [], record no_content { contents = 7 ∷ [] }) ∷ [];
}

abbrev pub blue_job : JobSubmission
blue_job = record {
  mesh_type = blue.mesh_types;
  requirements = blue;
  content = (1 ∷ [], record no_content { contents = 8 ∷ [] }) ∷ [];
}

abbrev pub polling : PollingMonitor
polling = record {
  min_time_out = 5000;
  max_time_out = 60000;
  average_poll_rate = pos 5000;
  current_poll_rate = 5000;
  last_poll_time = 0;
  polling_frequency = pos 5000 ∷ [];
}

-- The sockets 10 and 11 have beaten.
abbrev pub sockets : SocketMonitor
sockets = record {
  poll_monitor = polling;
  heart_beats =
      (10, record { duration = 60; last_occurrence = 100 })
      ∷ (11, record { duration = 60; last_occurrence = 100 })
      ∷ [];
}

abbrev pub clock : ℕ → ℕ
clock i = 200

abbrev pub done : JobResult
done = record { id = 1; format_type = user; contents = 9 ∷ [] }

-- A factory that launches up to two workers, for any requirements.
abbrev pub two_workers : WorkerFactory
two_workers = record {
  State = ℕ;
  supported_io_types = λ n. [];
  worker_requirements = λ n type. [];
  have_support = λ n reqs. true;
  create_worker = λ n reqs. (remus.Prelude.suc n, true);
  update_worker_count = λ n. n;
  set_max_worker_count = λ n count. n;
  max_worker_count = λ n. 2;
  current_worker_count = λ n. n;
}

abbrev pub message : ServiceType → ℕ → Message
message service id = record {
  is_received = true;
  is_valid = true;
  service_type = service;
  mesh_io_type = red.mesh_types;
  data_size = 4;
  decodes = true;
  to_requirements = red;
  to_submission = red_job;
  to_job = id;
  to_status = record {
    id = id;
    status = in_progress;
    progress = record { value = pos 20; message = [] };
  };
  to_result = record done { id = id };
  to_duration = none;
}
