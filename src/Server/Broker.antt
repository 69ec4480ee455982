-- ===== src/Server/Broker.antt =====
-- remus/server/Server.cxx: one round of the loop of `Brokering`, what follows the loop, and
-- `signalCaught`. What a round meets (the clock, the two sockets, the uuid generator, and whether
-- another thread has stopped the server) is its input.
pub mod Safety
pub mod Known
use remus.Prelude.{
  ℕ, ℤ, suc, ◌+◌, ◌*◌, ◌≡◌, Bool, true, false, not, ◌&&◌, ◌||◌, Option, none, some, List, [], ◌∷◌,
  arith, leb, ◌==◌, if◌then◌else◌,
}
use remus.Common.ServiceTypes.{terminate_worker}
use remus.Common.PollingMonitor
use remus.Common.PollingMonitor.{PollingMonitor, milliseconds}
use remus.Proto.WorkerJob.{no_submission, make_job}
use remus.Server.JobQueue
use remus.Server.SocketMonitor
use remus.Server.SocketMonitor.{SocketMonitor}
use remus.Server.WorkerPool
use remus.Server.ActiveJobs
use remus.Server.Factory.{WorkerFactory}
use remus.Server.Message.{Message, Output, to_worker, carry_out}
use remus.Server.State.{Server, send}
use remus.Server.ClientRequests.{determine_client_response}
use remus.Server.WorkerMessages.{determine_worker_response}
use remus.Server.Assignment.{find_worker_for_queued_job, check_for_change_in_workers_and_jobs}

-- What one round meets. The clock may give another time at each reading.
pub record Round : Type 0 where
  pub poll_time : ℕ
  pub current_time : ℕ
  pub from_client : Option (ℕ × Message)
  pub uuid : ℕ
  pub from_worker : Option (ℕ × Message)
  pub handler_time : ℕ
  pub expiry_times : ℕ → ℕ
  pub purge_times : ℕ → ℕ
  pub assignment_times : ℕ → ℕ
  pub delivers : ℕ → Bool
  pub still_brokering : Bool

abbrev pub worker_check_interval : ℕ
worker_check_interval = 250

module _ {f : WorkerFactory} where
  -- `monitor.pollOccurred()`, on the monitor that the socket monitor shares.
  unfoldable pub note_poll : Server f → ℕ → Server f
  note_poll s time = record s {
    socket_monitor = record s.socket_monitor {
      poll_monitor = PollingMonitor.poll_occurred s.socket_monitor.poll_monitor time;
    };
  }

  unfoldable pub serve_client : Server f → ℕ → Option (ℕ × Message) → Option (Server f)
  serve_client s uuid none = some s
  serve_client s uuid (some (client, msg)) = determine_client_response s client uuid msg

  unfoldable pub serve_worker : Server f → ℕ → Option (ℕ × Message) → Option (Server f × Bool)
  serve_worker s now none = some (s, false)
  serve_worker s now (some (worker, msg)) = determine_worker_response s now worker msg

  -- The rest of a round, after the worker's message; with the time of the next check.
  unfoldable pub finish_round : ℕ → Round → Server f × Bool → Server f × ℕ
  finish_round when r (s, worker_shutting_down) =
      let due = leb when r.current_time || worker_shutting_down in
      let checked =
        if due
        then check_for_change_in_workers_and_jobs r.delivers r.expiry_times s r.purge_times
        else s in
      (
        if r.still_brokering
            then find_worker_for_queued_job r.delivers r.assignment_times checked
            else checked,
        if due then r.current_time + milliseconds worker_check_interval else when,
      )

  -- `none` is an exception of a handler, which ends the loop.
  unfoldable pub round : Server f → ℕ → Round → Option (Server f × ℕ)
  unfolding note_poll serve_client serve_worker finish_round
  round s when r = elim (serve_client (note_poll s r.poll_time) r.uuid r.from_client) [
    | none ↦ none
    | some served ↦ elim (serve_worker served r.handler_time r.from_worker) [
      | none ↦ none
      | some t ↦ some (finish_round when r t)
    ]
  ]

  -- The two loops of `TerminateAllWorkers`, with the uuids that the generator returns.
  unfoldable pub terminate_workers : Server f → (ℕ → ℕ) → ℕ → List ℕ → Server f
  terminate_workers s uuids i [] = s
  terminate_workers s uuids i (worker ∷ workers) =
      terminate_workers
        (send s (to_worker worker terminate_worker (carry_out (make_job (uuids i) no_submission))))
        uuids (suc i) workers

  unfoldable pub terminate_all_workers : Server f → (ℕ → ℕ) → (ℕ → ℕ) → Server f
  unfolding terminate_workers
  terminate_all_workers s uuids more_uuids =
      terminate_workers
        (terminate_workers s uuids 0 (WorkerPool.all_responsive_workers s.worker_pool)) more_uuids 0
        (ActiveJobs.active_workers s.active_jobs)

  -- After the loop.
  unfoldable pub stop : Server f → (ℕ → ℕ) → (ℕ → ℕ) → Server f
  unfolding terminate_all_workers
  stop s uuids more_uuids =
      terminate_all_workers
        (record s { worker_factory = f.set_max_worker_count s.worker_factory 0 }) uuids more_uuids

  unfoldable pub signal_caught : Server f → Server f
  signal_caught s = record s { queued_jobs = JobQueue.clear s.queued_jobs }
