-- ===== src/Worker/JobQueue.antt =====
-- remus/worker/detail/JobQueue.cxx: the queue that a polling thread fills with the jobs that the
-- server sends, and from which the worker takes them. Each function is what one thread does while it
-- holds the mutex. Sockets, threads and the end point are not modelled.
pub mod Fifo
pub mod Shutdown
pub mod Race
use remus.Prelude.{
  ℕ, ◌≡◌, Bool, true, false, not, ◌&&◌, Option, none, some, List, [], ◌∷◌, ◌++◌, arith, ltb, ◌==◌,
  if◌then◌else◌, length, remove_if,
}
use remus.Std.Order.{nat_ord}
use remus.Std.Set
use remus.Common.ServiceTypes.{ServiceType, make_mesh, terminate_job, terminate_worker}
use remus.Proto.WorkerJob.{WorkerJob, JobValidity, no_job}

-- A response with what `to_Job` makes of its data.
pub record Response : Type 0 where
  pub is_valid : Bool
  pub service_type : ServiceType
  pub to_job : WorkerJob

pub record JobQueue : Type 0 where
  pub queue : List WorkerJob
  pub terminated_jobs : List ℕ
  pub continue_polling : Bool
  pub polling_started : Bool
  pub polling_finished : Bool

abbrev pub job_id_matches : ℕ → WorkerJob → Bool
job_id_matches id job = job.id == id

unfoldable pub make : JobQueue
make = record {
  queue = [];
  terminated_jobs = [];
  continue_polling = true;
  polling_started = false;
  polling_finished = false;
}

unfoldable pub stop : JobQueue → JobQueue
stop q = record q { continue_polling = false; polling_started = false; polling_finished = true }

unfoldable pub terminate_job_of : JobQueue → WorkerJob → JobQueue
terminate_job_of q tj = record q {
  terminated_jobs = Set.insert tj.id q.terminated_jobs;
  queue = remove_if (job_id_matches tj.id) q.queue;
}

-- `Job()` with the validity TERMINATE_WORKER.
abbrev pub terminate_worker_job : WorkerJob
terminate_worker_job = record no_job { validity = JobValidity.terminate_worker }

unfoldable pub clear_jobs : JobQueue → JobQueue
clear_jobs q = record q { queue = terminate_worker_job ∷ [] }

unfoldable pub add_item : JobQueue → WorkerJob → JobQueue
add_item q j = record q { queue = q.queue ++ (j ∷ []) }

unfoldable pub is_a_terminated_job : JobQueue → ℕ → Bool
is_a_terminated_job q id = Set.contains id q.terminated_jobs

unfoldable pub size : JobQueue → ℕ
size q = length q.queue

unfoldable pub is_ready : JobQueue → Bool
is_ready q = q.polling_started && q.continue_polling

unfoldable pub is_shutdown : JobQueue → Bool
is_shutdown q = q.polling_finished

unfoldable pub dispatch : JobQueue → WorkerJob → ServiceType → JobQueue
unfolding clear_jobs stop add_item terminate_job_of
dispatch q job terminate_worker = stop (clear_jobs q)
dispatch q job make_mesh = add_item q job
dispatch q job terminate_job = terminate_job_of q job
dispatch q job _ = q

-- One round of the loop of `pollForJobs` that received a response; after the loop nothing is read.
unfoldable pub receive : JobQueue → Response → JobQueue
unfolding dispatch
receive q r =
    if not q.continue_polling
    then q
    else if not r.is_valid
    then q
    else dispatch q r.to_job r.service_type

-- The start of `pollForJobs`, when the socket is bound.
unfoldable pub start : JobQueue → JobQueue
start q = record q { polling_started = true }

-- `Queue[0]` and `pop_front`; `none` is the undefined behaviour of an empty deque.
unfoldable pub pop : JobQueue → Option (JobQueue × WorkerJob)
pop q = elim q.queue [ [] ↦ none | job ∷ jobs ↦ some (record q { queue = jobs }, job) ]

-- `take`, if no other thread has the mutex between the test of the size and the removal; Race has both
-- apart.
unfoldable pub take : JobQueue → JobQueue × WorkerJob
unfolding size pop
take q = if ltb 0 (size q) then elim (pop q) [ none ↦ (q, no_job) | some r ↦ r ] else (q, no_job)

-- `waitAndTakeJob`; `none` while it waits.
unfoldable pub wait_and_take_job : JobQueue → Option (JobQueue × WorkerJob)
unfolding size take
wait_and_take_job q = if size q == 0 then none else some (take q)

-- What happens to the queue: a response, a call of `take`, and the destructor's `stop`.
pub data Event : Type 0 where
  receives : Response → Event
  takes : Event
  stops : Event

unfoldable pub step : JobQueue → Event → JobQueue
unfolding receive take stop
step q (receives r) = receive q r
step q takes = (take q).0
step q stops = stop q

unfoldable pub run : JobQueue → List Event → JobQueue
unfolding step
run q [] = q
run q (e ∷ es) = run (step q e) es
