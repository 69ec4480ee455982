-- ===== src/Common/StatusTypes.antt =====
-- remus/common/StatusTypes.h: the states of a job.
use remus.Prelude.{ℕ, Bool, true, false}

pub data StatusType : Type 0 where
  invalid_status queued in_progress finished failed expired : StatusType

-- The enumerators' values.
unfoldable pub to_int : StatusType → ℕ
to_int invalid_status = 0
to_int queued = 1
to_int in_progress = 2
to_int finished = 3
to_int failed = 4
to_int expired = 5

abbrev pub is_status : StatusType → StatusType → Bool
is_status invalid_status invalid_status = true
is_status queued queued = true
is_status in_progress in_progress = true
is_status finished finished = true
is_status failed failed = true
is_status expired expired = true
is_status _ _ = false
