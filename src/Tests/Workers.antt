-- ===== src/Tests/Workers.antt =====
-- The pool of workers and the worker's queue at concrete inputs.
use remus.Prelude.{ℕ, ◌≡◌, refl, true, false, none, some, [], ◌∷◌, ◌++◌, ◌⊎◌}
use remus.Common.ServiceTypes.{make_mesh, terminate_job, terminate_worker}
use remus.Proto.WorkerJob.{make_job}
use remus.Server.WorkerPool.{WorkerInfo, WorkerPool, have_waiting_worker, take_worker, rotate}
use remus.Server.WorkerPool.Take.{suits, one_less, take_worker_lem}
use remus.Worker.JobQueue
use remus.Worker.JobQueue.{
  Response, JobQueue, job_id_matches, size, is_a_terminated_job, receive, pop, receives,
}
use remus.Worker.JobQueue.Fifo.{taken, sent, run-fifo}
use remus.Worker.JobQueue.Shutdown.{IsOver, terminated_for_good}
use remus.Worker.JobQueue.Race.{Taking, polls, tests, removes, interleave, take_races}
use remus.Tests.{red, blue, red_job}

abbrev eager : WorkerInfo
eager = record { number_of_desired_jobs = 2; reqs = red; address = 10; is_responsive = true }

abbrev idle : WorkerInfo
idle = record { number_of_desired_jobs = 0; reqs = blue; address = 12; is_responsive = true }

abbrev pool : WorkerPool
pool = idle ∷ eager ∷ []

take_worker_lem_example :
    ((have_waiting_worker pool red ≡ false) × (take_worker pool red ≡ (pool, 0)))
    ⊎ ((before : WorkerPool) × (w : WorkerInfo) × (after : WorkerPool) × (pool
          ≡ before ++ (w ∷ after))
        × (have_waiting_worker before red ≡ false)
        × (suits red w ≡ true)
        × (take_worker pool red ≡ (rotate (before ++ (one_less w ∷ after)), w.address)))
take_worker_lem_example = take_worker_lem pool red

-- The queue of a worker that polls and holds the job 1.
abbrev queue : JobQueue
queue = record {
  queue = make_job 1 red_job ∷ [];
  terminated_jobs = [];
  continue_polling = true;
  polling_started = true;
  polling_finished = false;
}

abbrev order : remus.Common.ServiceTypes.ServiceType → ℕ → Response
order service id = record { is_valid = true; service_type = service; to_job = make_job id red_job }

run-fifo_example :
    taken queue (receives (order make_mesh 2) ∷ JobQueue.takes ∷ [])
      ++ (JobQueue.run queue (receives (order make_mesh 2) ∷ JobQueue.takes ∷ [])).queue
    ≡ queue.queue ++ sent (receives (order make_mesh 2) ∷ JobQueue.takes ∷ [])
run-fifo_example = run-fifo queue (receives (order make_mesh 2) ∷ JobQueue.takes ∷ []) refl refl

terminated_for_good_example : IsOver (
    JobQueue.run
      (receive queue (order terminate_worker 0))
      (receives (order make_mesh 2) ∷ JobQueue.takes ∷ []))
terminated_for_good_example =
    terminated_for_good queue (order terminate_worker 0)
      (receives (order make_mesh 2) ∷ JobQueue.takes ∷ []) refl refl refl

-- No thread is in `take`.
abbrev idle_take : Taking
idle_take = record { shared = queue; found = false }

take_races_example :
    (interleave idle_take (tests ∷ polls (order terminate_job 1) ∷ removes ∷ []) ≡ none)
    × ((u : Taking) × (interleave idle_take (polls (order terminate_job 1) ∷ tests ∷ removes ∷ [])
          ≡ some u)
        × (u.shared.queue ≡ []))
    × ((u : Taking) × (interleave idle_take (tests ∷ removes ∷ polls (order terminate_job 1) ∷ [])
          ≡ some u)
        × (u.shared.queue ≡ []))
take_races_example =
    take_races queue (make_job 1 red_job) (order terminate_job 1) refl refl refl refl refl
