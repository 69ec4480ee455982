-- ===== src/Proto/JobStatus.antt =====
-- remus/proto/JobStatus.h and JobStatus.cxx.
use remus.Prelude.{ℕ, Bool, ◌||◌, List, []}
use remus.Common.StatusTypes
use remus.Common.StatusTypes.{StatusType, in_progress, is_status}
use remus.Proto.JobProgress
use remus.Proto.JobProgress.{JobProgress}

pub record JobStatus : Type 0 where
  pub id : ℕ
  pub status : StatusType
  pub progress : JobProgress

unfoldable pub of_status : ℕ → StatusType → JobStatus
of_status jid s = record { id = jid; status = s; progress = JobProgress.of_status s }

unfoldable pub of_progress : ℕ → JobProgress → JobStatus
of_progress jid p = record { id = jid; status = in_progress; progress = p }

unfoldable pub merge_status : JobStatus → JobStatus → JobStatus
merge_status old new = record old {
  status = new.status;
  progress =
      JobProgress.append_message (JobProgress.set_value old.progress new.progress.value)
        new.progress.message;
}

unfoldable pub update_progress : JobStatus → JobProgress → JobStatus
update_progress s p = record s { status = in_progress; progress = p }

unfoldable pub clear_progress : JobStatus → JobStatus
clear_progress s = record s { progress = JobProgress.set_message s.progress [] }

-- The queries read the status alone, so they are tests on it.
abbrev pub queued : StatusType → Bool
queued s = is_status s StatusTypes.queued

abbrev pub in_progress? : StatusType → Bool
in_progress? s = is_status s in_progress

abbrev pub good : StatusType → Bool
good s = queued s || in_progress? s

abbrev pub failed : StatusType → Bool
failed s =
    is_status s StatusTypes.invalid_status
    || is_status s StatusTypes.failed
    || is_status s StatusTypes.expired

abbrev pub finished : StatusType → Bool
finished s = is_status s StatusTypes.finished

unfoldable pub mark_as_failed : JobStatus → JobStatus
mark_as_failed s = record s { status = StatusTypes.failed }

unfoldable pub make_failed_job_status : ℕ → List ℕ → JobStatus
unfolding of_progress mark_as_failed
make_failed_job_status jid msg = mark_as_failed (of_progress jid (JobProgress.of_message msg))
