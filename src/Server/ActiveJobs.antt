-- ===== src/Server/ActiveJobs.antt =====
-- remus/server/detail/ActiveJobs.h and ActiveJobs.cxx: the jobs that a worker was given, by uuid.
pub mod LifeCycle
pub mod History
pub mod Expiry
use remus.Prelude.{
  ℕ, suc, ◌≡◌, Bool, true, false, not, ◌&&◌, ◌||◌, Option, none, some, List, [], ◌∷◌, ◌++◌, arith,
  ◌==◌, if◌then◌else◌,
}
use remus.Std.Order.{nat_ord}
use remus.Std.Set
use remus.Std.Map
use remus.Common.StatusTypes
use remus.Common.StatusTypes.{StatusType, is_status}
use remus.Proto.JobStatus
use remus.Proto.JobStatus.{JobStatus, merge_status, clear_progress}
use remus.Proto.JobResult.{JobResult, no_result}
use remus.Server.SocketMonitor
use remus.Server.SocketMonitor.{SocketMonitor}

pub record JobState : Type 0 where
  pub worker_address : ℕ
  pub jstatus : JobStatus
  pub jresult : JobResult
  pub have_result : Bool

-- The map `Info`.
abbrev pub ActiveJobs : Type 0
ActiveJobs = List (ℕ × JobState)

unfoldable pub make_state : ℕ → ℕ → StatusType → JobState
make_state worker id stat = record {
  worker_address = worker;
  jstatus = JobStatus.of_status id stat;
  jresult = no_result id;
  have_result = false;
}

-- The new status is looked at only if the old one is good.
unfoldable pub can_update_status_to : JobState → JobStatus → Bool
can_update_status_to w s =
    JobStatus.good w.jstatus.status
    && not (JobStatus.finished s.status)
    && (JobStatus.failed s.status || JobStatus.in_progress? s.status)

unfoldable pub have_uuid : ActiveJobs → ℕ → Bool
have_uuid info id = Map.has_key id info

unfoldable pub add : ActiveJobs → ℕ → ℕ → ActiveJobs × Bool
unfolding have_uuid make_state
add info worker id =
    if not (have_uuid info id)
    then (Map.insert id (make_state worker id StatusTypes.queued) info, true)
    else (info, false)

unfoldable pub remove : ActiveJobs → ℕ → ActiveJobs × Bool
unfolding have_uuid
remove info id = if have_uuid info id then (Map.erase id info, true) else (info, false)

-- 0 is the empty identity.
unfoldable pub worker_address : ActiveJobs → ℕ → ℕ
worker_address info id = elim (Map.lookup id info) [ none ↦ 0 | some item ↦ item.worker_address ]

unfoldable pub have_result : ActiveJobs → ℕ → Bool
have_result info id = elim (Map.lookup id info) [ none ↦ false | some item ↦ item.have_result ]

-- `none` where the source reads through the end iterator, which its callers rule out.
unfoldable pub status : ActiveJobs → ℕ → Option JobStatus
status info id = elim (Map.lookup id info) [ none ↦ none | some item ↦ some item.jstatus ]

unfoldable pub result : ActiveJobs → ℕ → Option JobResult
result info id = elim (Map.lookup id info) [ none ↦ none | some item ↦ some item.jresult ]

unfoldable pub clear_status : ActiveJobs → ℕ → ActiveJobs
clear_status info id =
    Map.adjust id (λ item. record item { jstatus = clear_progress item.jstatus }) info

-- What `update_status` and `update_result` do to the job that they find.
unfoldable pub accept_status : JobStatus → JobState → JobState
unfolding can_update_status_to
accept_status s item =
    if can_update_status_to item s
    then record item { jstatus = merge_status item.jstatus s }
    else item

unfoldable pub update_status : ActiveJobs → JobStatus → ActiveJobs
update_status info s = Map.adjust s.id (accept_status s) info

unfoldable pub accept_result : JobResult → JobState → JobState
accept_result r item = record item {
  jstatus =
      if not (is_status item.jstatus.status StatusTypes.failed)
      then JobStatus.of_status r.id StatusTypes.finished
      else item.jstatus;
  jresult = r;
  have_result = true;
}

unfoldable pub update_result : ActiveJobs → JobResult → ActiveJobs
update_result info r = Map.adjust r.id (accept_result r) info

-- The body of the loop of `markExpiredJobs`.
unfoldable pub expires : SocketMonitor → ℕ → JobState → Bool
expires monitor now item =
    (JobStatus.queued item.jstatus.status || JobStatus.in_progress? item.jstatus.status)
    && SocketMonitor.is_unresponsive monitor now item.worker_address

unfoldable pub expire : JobState → JobState
expire item = record item { jstatus = JobStatus.of_status item.jstatus.id StatusTypes.expired }

-- The loop reads the clock once for each job: `now i` at its turn `i`.
unfoldable pub mark_expired_from :
    SocketMonitor → (ℕ → ℕ) → ℕ → ActiveJobs → ActiveJobs × List JobStatus
unfolding expires expire
mark_expired_from monitor now i [] = ([], [])
mark_expired_from monitor now i ((id, item) ∷ info) =
    let (rest, expired) = mark_expired_from monitor now (suc i) info in
    if expires monitor (now i) item
    then ((id, expire item) ∷ rest, (expire item).jstatus ∷ expired)
    else ((id, item) ∷ rest, expired)

unfoldable pub mark_expired_jobs :
    ActiveJobs → SocketMonitor → (ℕ → ℕ) → ActiveJobs × List JobStatus
unfolding mark_expired_from
mark_expired_jobs info monitor now = mark_expired_from monitor now 0 info

unfoldable pub active_workers_from : List ℕ → ActiveJobs → List ℕ
active_workers_from found [] = found
active_workers_from found ((id, item) ∷ info) =
    active_workers_from (Set.insert item.worker_address found) info

unfoldable pub active_workers : ActiveJobs → List ℕ
unfolding active_workers_from
active_workers info = active_workers_from [] info
