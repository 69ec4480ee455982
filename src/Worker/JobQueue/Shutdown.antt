-- ===== src/Worker/JobQueue/Shutdown.antt =====
-- What TERMINATE_WORKER and TERMINATE_JOB do to the worker's queue, for good.
use remus.Prelude.{ℕ, ◌≡◌, refl, ◌⊎◌, true, false, List, [], ◌∷◌, arith, remove_if, any}
use remus.Std.Order.{nat_ord}
use remus.Std.Set
use remus.Common.ServiceTypes.{ServiceType, terminate_job, terminate_worker}
use remus.Proto.WorkerJob.{WorkerJob}
use remus.Worker.JobQueue.{
  Response, JobQueue, job_id_matches, stop, terminate_job_of, terminate_worker_job, clear_jobs,
  add_item, is_a_terminated_job, size, is_ready, is_shutdown, dispatch, receive, pop, take, Event,
  receives, takes, stops, step, run,
}

-- The queue polls no more, and holds the order to terminate or nothing.
abbrev pub IsOver : JobQueue → Type 0
IsOver q =
    ((q.queue ≡ terminate_worker_job ∷ []) ⊎ (q.queue ≡ []))
    × (q.continue_polling ≡ false)
    × (is_shutdown q ≡ true)
    × (is_ready q ≡ false)

step-IsOver : (q : JobQueue) (e : Event) → IsOver q → IsOver (step q e)
unfolding step receive take stop size pop is_shutdown is_ready
step-IsOver q (receives r) v = ground (arith, v)
step-IsOver q takes v = ground (arith, v)
step-IsOver q stops v = ground (arith, v)

run-IsOver : (q : JobQueue) (es : List Event) → IsOver q → IsOver (run q es)
unfolding run
run-IsOver q [] v = v
run-IsOver q (e ∷ es) v = run-IsOver (step q e) es (step-IsOver q e v)

-- Once a polling queue has received a valid TERMINATE_WORKER, whatever is received, taken or stopped
-- later, it accepts no job: it holds the order to terminate or nothing, is shut down and not ready.
pub terminated_for_good :
    (q : JobQueue) (r : Response) (es : List Event)
    → q.continue_polling ≡ true
    → r.is_valid ≡ true
    → r.service_type ≡ terminate_worker
    → IsOver (run (receive q r) es)
unfolding receive dispatch clear_jobs stop is_shutdown is_ready
terminated_for_good q r es polls valid order =
    run-IsOver (receive q r) es (ground (arith, polls, valid, order))

dispatch_terminated :
    (q : JobQueue) (job : WorkerJob) (service : ServiceType) (id : ℕ)
    → is_a_terminated_job q id ≡ true
    → is_a_terminated_job (dispatch q job service) id ≡ true
unfolding dispatch clear_jobs stop add_item terminate_job_of is_a_terminated_job
dispatch_terminated q job terminate_job id h =
    ground (arith, h, Set.contains-insert job.id id q.terminated_jobs)
dispatch_terminated q job _ id h = h

step_terminated :
    (q : JobQueue) (e : Event) (id : ℕ)
    → is_a_terminated_job q id ≡ true
    → is_a_terminated_job (step q e) id ≡ true
unfolding step receive take stop size pop is_a_terminated_job
step_terminated q (receives r) id h =
    ground (arith, h, dispatch_terminated q r.to_job r.service_type id h)
step_terminated q takes id h = ground (arith, h)
step_terminated q stops id h = ground (arith, h)

run_terminated :
    (q : JobQueue) (es : List Event) (id : ℕ)
    → is_a_terminated_job q id ≡ true
    → is_a_terminated_job (run q es) id ≡ true
unfolding run
run_terminated q [] id h = h
run_terminated q (e ∷ es) id h = run_terminated (step q e) es id (step_terminated q e id h)

any-remove_if :
    (id : ℕ) (jobs : List WorkerJob)
    → any (job_id_matches id) (remove_if (job_id_matches id) jobs) ≡ false
unfolding any remove_if
any-remove_if id [] = refl
any-remove_if id (j ∷ jobs) = ground (arith, any-remove_if id jobs)

-- A valid TERMINATE_JOB takes every job with its id out of a polling queue, and after it that id
-- counts as terminated whatever happens later.
pub terminate_job_lem :
    (q : JobQueue) (r : Response) (es : List Event)
    → q.continue_polling ≡ true
    → r.is_valid ≡ true
    → r.service_type ≡ terminate_job
    → (any (job_id_matches r.to_job.id) (receive q r).queue ≡ false)
      × (is_a_terminated_job (run (receive q r) es) r.to_job.id ≡ true)
unfolding receive dispatch terminate_job_of is_a_terminated_job
terminate_job_lem q r es polls valid order = (
  ground (arith, polls, valid, order, any-remove_if r.to_job.id q.queue),
  run_terminated (receive q r) es r.to_job.id (
      ground (
        arith,
        polls,
        valid,
        order,
        Set.contains-insert r.to_job.id r.to_job.id q.terminated_jobs,
      )),
)
