-- ===== src/Server/JobQueue.antt =====
-- remus/server/detail/JobQueue.h and JobQueue.cxx: the jobs that no worker has yet.
-- A uuid is the number that its 16 bytes spell, so that the order of uuids is that of numbers.
pub mod Ids
pub mod Invariant
pub mod Refinement
pub mod Order
pub mod Cache
pub mod Clear
pub mod Wanted
use remus.Prelude.{
  ℕ, ◌≡◌, Bool, true, false, not, ◌||◌, Option, none, some, List, [], ◌∷◌, ◌++◌, arith, ltb, ◌==◌,
  if◌then◌else◌, is_nil, length, find_if, remove_if, erase_first,
}
use remus.Std.Order.{nat_ord}
use remus.Std.Set
use remus.Proto.JobRequirements
use remus.Proto.JobRequirements.{JobRequirements, requirements_ord}
use remus.Proto.WorkerJob.{JobSubmission, WorkerJob, no_job, make_job}

pub record QueuedJob : Type 0 where
  pub id : ℕ
  pub submission : JobSubmission

pub record JobQueue : Type 0 where
  pub queued_jobs : List QueuedJob
  pub jobs_waiting_for_worker : List QueuedJob
  pub queued_ids : List ℕ
  pub cached_queued_job_requirements : List JobRequirements

-- The functors `JobIdMatches` and `JobTypeMatches`.
abbrev pub job_id_matches : ℕ → QueuedJob → Bool
job_id_matches uuid job = job.id == uuid

abbrev pub job_type_matches : JobRequirements → QueuedJob → Bool
job_type_matches reqs job = JobRequirements.eq reqs job.submission.requirements

unfoldable pub empty : JobQueue
empty = record {
  queued_jobs = [];
  jobs_waiting_for_worker = [];
  queued_ids = [];
  cached_queued_job_requirements = [];
}

-- `insert(lower_bound(begin, end, job), job)`: before the first job that is not below `job`.
unfoldable pub insert_at_lower_bound : QueuedJob → List QueuedJob → List QueuedJob
insert_at_lower_bound job [] = job ∷ []
insert_at_lower_bound job (x ∷ xs) =
    if ltb x.id job.id then x ∷ insert_at_lower_bound job xs else job ∷ x ∷ xs

unfoldable pub add_job : JobQueue → ℕ → JobSubmission → JobQueue × Bool
add_job q id submission = if Set.contains id q.queued_ids then (q, false) else (
  record q {
    queued_jobs = insert_at_lower_bound (record { id = id; submission = submission }) q.queued_jobs;
    queued_ids = Set.insert id q.queued_ids;
    cached_queued_job_requirements =
        Set.insert submission.requirements q.cached_queued_job_requirements;
  },
  true,
)

-- What `takeJob` does with the job that it found among the queued ones, if it found one.
unfoldable pub take_queued : JobQueue → Option QueuedJob → JobQueue × WorkerJob
take_queued q none = (q, no_job)
take_queued q (some item) = (
  record q {
    queued_jobs = remove_if (job_id_matches item.id) q.queued_jobs;
    queued_ids = Set.erase item.id q.queued_ids;
    cached_queued_job_requirements = [];
  },
  make_job item.id item.submission,
)

-- The same for the waiting ones, which come first.
unfoldable pub take_waiting : JobQueue → JobRequirements → Option QueuedJob → JobQueue × WorkerJob
unfolding take_queued
take_waiting q reqs none = take_queued q (find_if (job_type_matches reqs) q.queued_jobs)
take_waiting q reqs (some item) = (
  record q {
    jobs_waiting_for_worker = remove_if (job_id_matches item.id) q.jobs_waiting_for_worker;
    queued_ids = Set.erase item.id q.queued_ids;
  },
  make_job item.id item.submission,
)

unfoldable pub take_job : JobQueue → JobRequirements → JobQueue × WorkerJob
unfolding take_waiting
take_job q reqs = take_waiting q reqs (find_if (job_type_matches reqs) q.jobs_waiting_for_worker)

-- The loop `result.insert(i->Submission.requirements())`.
unfoldable pub collect : List JobRequirements → List QueuedJob → List JobRequirements
collect result [] = result
collect result (job ∷ jobs) = collect (Set.insert job.submission.requirements result) jobs

unfoldable pub waiting_job_requirements : JobQueue → List JobRequirements
waiting_job_requirements q = collect [] q.jobs_waiting_for_worker

unfoldable pub queued_job_requirements : JobQueue → JobQueue × List JobRequirements
queued_job_requirements q =
    let all = collect q.cached_queued_job_requirements q.queued_jobs in
    if length q.cached_queued_job_requirements == 0
    then (record q { cached_queued_job_requirements = all }, all)
    else (q, q.cached_queued_job_requirements)

unfoldable pub num_jobs_waiting_for_workers : JobQueue → ℕ
num_jobs_waiting_for_workers q = length q.jobs_waiting_for_worker

unfoldable pub num_jobs_just_queued : JobQueue → ℕ
num_jobs_just_queued q = length q.queued_jobs

unfoldable pub dispatch_found : JobQueue → JobRequirements → Option QueuedJob → JobQueue × Bool
dispatch_found q reqs none = (q, false)
dispatch_found q reqs (some item) = (
  record q {
    jobs_waiting_for_worker = q.jobs_waiting_for_worker ++ (item ∷ []);
    queued_jobs = erase_first (job_type_matches reqs) q.queued_jobs;
    cached_queued_job_requirements = [];
  },
  true,
)

unfoldable pub worker_dispatched : JobQueue → JobRequirements → JobQueue × Bool
unfolding dispatch_found
worker_dispatched q reqs = dispatch_found q reqs (find_if (job_type_matches reqs) q.queued_jobs)

unfoldable pub have_uuid : JobQueue → ℕ → Bool
have_uuid q id = Set.contains id q.queued_ids

-- `remove_if` moved its end exactly if some job has the id.
unfoldable pub has_id : ℕ → List QueuedJob → Bool
has_id id [] = false
has_id id (x ∷ xs) = x.id == id || has_id id xs

unfoldable pub remove : JobQueue → ℕ → JobQueue × Bool
unfolding has_id
remove q id =
    let ids = Set.erase id q.queued_ids in
    (
      if has_id id q.queued_jobs
          then record q {
            queued_jobs = remove_if (job_id_matches id) q.queued_jobs;
            cached_queued_job_requirements = [];
            queued_ids = ids;
          }
          else record q {
            jobs_waiting_for_worker = remove_if (job_id_matches id) q.jobs_waiting_for_worker;
            queued_ids = ids;
          },
      Set.contains id q.queued_ids,
    )

-- The source clears `QueuedJobs` twice, and never `JobsWaitingForWorker`.
unfoldable pub clear : JobQueue → JobQueue
clear q = record q { queued_ids = []; queued_jobs = []; cached_queued_job_requirements = [] }
