-- ===== src/Common/ServiceTypes.antt =====
-- remus/common/ServiceTypes.h: the services that a message may ask for.
use remus.Prelude.{ℕ}

pub data ServiceType : Type 0 where
  invalid_service supported_io_types mesh_requirements_for_io_type can_mesh_requirements
        can_mesh_io_type make_mesh mesh_status retrieve_result heartbeat terminate_job
        terminate_worker :
      ServiceType

-- The numbers of the enumeration.
abbrev pub to_int : ServiceType → ℕ
to_int invalid_service = 0
to_int supported_io_types = 1
to_int mesh_requirements_for_io_type = 2
to_int can_mesh_requirements = 3
to_int can_mesh_io_type = 4
to_int make_mesh = 5
to_int mesh_status = 6
to_int retrieve_result = 7
to_int heartbeat = 8
to_int terminate_job = 9
to_int terminate_worker = 10
