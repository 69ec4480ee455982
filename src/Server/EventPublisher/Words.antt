-- ===== src/Server/EventPublisher/Words.antt =====
-- The words of remus/server/detail/EventPublisher.cxx, remus/proto/EventTypes.h and
-- remus/common/StatusTypes.h, as bytes.
use remus.Prelude.{ℕ, List, [], ◌∷◌}
use remus.Common.StatusTypes.{
  StatusType, invalid_status, queued, in_progress, finished, failed, expired,
}

-- The names of the fields.
abbrev pub field_job_id : List ℕ
field_job_id = 106 ∷ 111 ∷ 98 ∷ 95 ∷ 105 ∷ 100 ∷ []

abbrev pub field_msg_type : List ℕ
field_msg_type = 109 ∷ 115 ∷ 103 ∷ 95 ∷ 116 ∷ 121 ∷ 112 ∷ 101 ∷ []

abbrev pub field_worker_id : List ℕ
field_worker_id = 119 ∷ 111 ∷ 114 ∷ 107 ∷ 101 ∷ 114 ∷ 95 ∷ 105 ∷ 100 ∷ []

abbrev pub field_source_type : List ℕ
field_source_type = 115 ∷ 111 ∷ 117 ∷ 114 ∷ 99 ∷ 101 ∷ 95 ∷ 116 ∷ 121 ∷ 112 ∷ 101 ∷ []

abbrev pub field_format_type : List ℕ
field_format_type = 102 ∷ 111 ∷ 114 ∷ 109 ∷ 97 ∷ 116 ∷ 95 ∷ 116 ∷ 121 ∷ 112 ∷ 101 ∷ []

abbrev pub field_mesh_type : List ℕ
field_mesh_type = 109 ∷ 101 ∷ 115 ∷ 104 ∷ 95 ∷ 116 ∷ 121 ∷ 112 ∷ 101 ∷ []

abbrev pub field_worker_name : List ℕ
field_worker_name = 119 ∷ 111 ∷ 114 ∷ 107 ∷ 101 ∷ 114 ∷ 95 ∷ 110 ∷ 97 ∷ 109 ∷ 101 ∷ []

abbrev pub field_tag : List ℕ
field_tag = 116 ∷ 97 ∷ 103 ∷ []

abbrev pub field_requirements : List ℕ
field_requirements = 114 ∷ 101 ∷ 113 ∷ 117 ∷ 105 ∷ 114 ∷ 101 ∷ 109 ∷ 101 ∷ 110 ∷ 116 ∷ 115 ∷ []

abbrev pub field_status_type : List ℕ
field_status_type = 115 ∷ 116 ∷ 97 ∷ 116 ∷ 117 ∷ 115 ∷ 95 ∷ 116 ∷ 121 ∷ 112 ∷ 101 ∷ []

abbrev pub field_progress : List ℕ
field_progress = 112 ∷ 114 ∷ 111 ∷ 103 ∷ 114 ∷ 101 ∷ 115 ∷ 115 ∷ []

abbrev pub field_last_status_type : List ℕ
field_last_status_type =
    108 ∷ 97 ∷ 115 ∷ 116 ∷ 95 ∷ 115 ∷ 116 ∷ 97 ∷ 116 ∷ 117 ∷ 115 ∷ 95 ∷ 116 ∷ 121 ∷ 112 ∷ 101 ∷ []

abbrev pub field_last_progress : List ℕ
field_last_progress = 108 ∷ 97 ∷ 115 ∷ 116 ∷ 95 ∷ 112 ∷ 114 ∷ 111 ∷ 103 ∷ 114 ∷ 101 ∷ 115 ∷ 115 ∷ []

abbrev pub field_state : List ℕ
field_state = 115 ∷ 116 ∷ 97 ∷ 116 ∷ 101 ∷ []

-- The values of states and of the channels that are not events.
abbrev pub unresponsive : List ℕ
unresponsive = 85 ∷ 110 ∷ 114 ∷ 101 ∷ 115 ∷ 112 ∷ 111 ∷ 110 ∷ 115 ∷ 105 ∷ 118 ∷ 101 ∷ []

abbrev pub responsive : List ℕ
responsive = 82 ∷ 101 ∷ 115 ∷ 112 ∷ 111 ∷ 110 ∷ 115 ∷ 105 ∷ 118 ∷ 101 ∷ []

abbrev pub error_key : List ℕ
error_key = 101 ∷ 114 ∷ 114 ∷ 111 ∷ 114 ∷ 58 ∷ 115 ∷ 101 ∷ 114 ∷ 118 ∷ 101 ∷ 114 ∷ []

abbrev pub stop_key : List ℕ
stop_key = 115 ∷ 116 ∷ 111 ∷ 112 ∷ []

abbrev pub end_value : List ℕ
end_value = 69 ∷ 78 ∷ 68 ∷ []

abbrev pub job_prefix : List ℕ
job_prefix = 106 ∷ 111 ∷ 98 ∷ 58 ∷ []

abbrev pub worker_prefix : List ℕ
worker_prefix = 119 ∷ 111 ∷ 114 ∷ 107 ∷ 101 ∷ 114 ∷ 58 ∷ []

-- `event_types` of the two namespaces, as far as they are used, and TERMINATE_WORKER of `serv_types`.
abbrev pub queued_event : List ℕ
queued_event = 81 ∷ 85 ∷ 69 ∷ 85 ∷ 69 ∷ 68 ∷ []

abbrev pub job_status_event : List ℕ
job_status_event =
    67 ∷ 85 ∷ 82 ∷ 82 ∷ 69 ∷ 78 ∷ 84 ∷ 32 ∷ 74 ∷ 79 ∷ 66 ∷ 32 ∷ 83 ∷ 84 ∷ 65 ∷ 84 ∷ 85 ∷ 83 ∷ []

abbrev pub terminated_event : List ℕ
terminated_event = 84 ∷ 69 ∷ 82 ∷ 77 ∷ 73 ∷ 78 ∷ 65 ∷ 84 ∷ 69 ∷ 68 ∷ []

abbrev pub expired_event : List ℕ
expired_event = 69 ∷ 88 ∷ 80 ∷ 73 ∷ 82 ∷ 69 ∷ 68 ∷ []

abbrev pub completed_event : List ℕ
completed_event = 67 ∷ 79 ∷ 77 ∷ 80 ∷ 76 ∷ 69 ∷ 84 ∷ 69 ∷ 68 ∷ []

abbrev pub assigned_to_worker : List ℕ
assigned_to_worker =
    65 ∷ 83 ∷ 83 ∷ 73 ∷ 71 ∷ 78 ∷ 69 ∷ 68 ∷ 32 ∷ 84 ∷ 79 ∷ 32 ∷ 87 ∷ 79 ∷ 82 ∷ 75 ∷ 69 ∷ 82 ∷ []

abbrev pub register : List ℕ
register = 82 ∷ 69 ∷ 71 ∷ 73 ∷ 83 ∷ 84 ∷ 69 ∷ 82 ∷ []

abbrev pub asking_for_job : List ℕ
asking_for_job = 65 ∷ 83 ∷ 75 ∷ 73 ∷ 78 ∷ 71 ∷ 95 ∷ 70 ∷ 79 ∷ 82 ∷ 95 ∷ 74 ∷ 79 ∷ 66 ∷ []

abbrev pub heartbeat_event : List ℕ
heartbeat_event = 72 ∷ 69 ∷ 65 ∷ 82 ∷ 84 ∷ 66 ∷ 69 ∷ 65 ∷ 84 ∷ []

abbrev pub worker_state : List ℕ
worker_state = 87 ∷ 79 ∷ 82 ∷ 75 ∷ 69 ∷ 82 ∷ 32 ∷ 83 ∷ 84 ∷ 65 ∷ 84 ∷ 69 ∷ []

abbrev pub terminate_worker_service : List ℕ
terminate_worker_service =
    84 ∷ 69 ∷ 82 ∷ 77 ∷ 73 ∷ 78 ∷ 65 ∷ 84 ∷ 69 ∷ 32 ∷ 87 ∷ 79 ∷ 82 ∷ 75 ∷ 69 ∷ 82 ∷ []

-- `stat_types`.
abbrev pub stat_type : StatusType → List ℕ
stat_type invalid_status = 73 ∷ 78 ∷ 86 ∷ 65 ∷ 76 ∷ 73 ∷ 68 ∷ []
stat_type queued = 81 ∷ 85 ∷ 69 ∷ 85 ∷ 69 ∷ 68 ∷ []
stat_type in_progress = 73 ∷ 78 ∷ 32 ∷ 80 ∷ 82 ∷ 79 ∷ 71 ∷ 82 ∷ 69 ∷ 83 ∷ 83 ∷ []
stat_type finished = 70 ∷ 73 ∷ 78 ∷ 73 ∷ 83 ∷ 72 ∷ 69 ∷ 68 ∷ []
stat_type failed = 70 ∷ 65 ∷ 73 ∷ 76 ∷ 69 ∷ 68 ∷ []
stat_type expired = 69 ∷ 88 ∷ 80 ∷ 73 ∷ 82 ∷ 69 ∷ 68 ∷ []
