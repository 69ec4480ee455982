-- ===== src/Tests/Jobs.antt =====
-- Active jobs, sockets, polling and the orders of values at concrete inputs.
use remus.Prelude.{
  if◌then◌else◌, ◌&&◌, arith, pos, negsuc, ◌≡◌, refl, true, false, not, some, List, [], ◌∷◌,
}
use remus.Std.Map
use remus.Common.StatusTypes.{in_progress, queued, failed, finished}
use remus.Common.PollingMonitor
use remus.Common.PollingMonitor.{
  IsBounded, Rate, Event, poll, change, run-IsBounded, has_abnormal_event, poll_occurred,
  has_abnormal_event-poll_occurred,
}
use remus.Server.SocketMonitor
use remus.Server.SocketMonitor.{
  is_unresponsive, is_dead, exists, heartbeat, is_unresponsive-heartbeat, beats, dies, polls,
  refreshes, run-is_dead,
}
use remus.Server.ActiveJobs
use remus.Server.ActiveJobs.{JobState, ActiveJobs, make_state, mark_expired_jobs}
use remus.Server.ActiveJobs.LifeCycle.{IsConsistent}
use remus.Server.ActiveJobs.Expiry.{is_pending, expired_job, lookup-mark_expired_jobs}
use remus.Server.ActiveJobs.History.{
  Call, adds, reports, results, checks, step, run, run-AllConsistent, failed_stays, finished_stays,
}
use remus.Tests.{sockets, clock, done, message}
use remus.Common.ServiceTypes.{mesh_status}

-- A job that worker 10 runs, the same failed, and the same finished.
abbrev running : JobState
running = record {
  worker_address = 10;
  jstatus = (message mesh_status 1).to_status;
  jresult = record done { contents = [] };
  have_result = false;
}

abbrev broken : JobState
broken = record running { jstatus = record running.jstatus { status = failed } }

abbrev ended : JobState
ended = record running {
  jstatus = record running.jstatus { status = finished };
  jresult = done;
  have_result = true;
}

-- A late report, the result and a check.
abbrev late : List Call
late = reports running.jstatus ∷ results done ∷ checks sockets clock ∷ []

failed_stays_example :
    (new : JobState) × (Map.lookup 1 (run ((1, broken) ∷ []) late) ≡ some new)
    × (new.jstatus.status ≡ failed)
    × (new.worker_address ≡ 10)
unfolding Map.lookup
failed_stays_example =
    failed_stays ((1, broken) ∷ []) late 1 broken (λ k e. cc, (λ k e. cc, (λ k e. cc, tt))) refl
      refl

finished_stays_example :
    (new : JobState) × (Map.lookup 1 (run ((1, ended) ∷ []) late) ≡ some new)
    × (new.jstatus.status ≡ finished)
    × (new.have_result ≡ true)
unfolding Map.lookup
finished_stays_example =
    finished_stays ((1, ended) ∷ []) late 1 ended (λ k e. cc, (λ k e. cc, (λ k e. cc, tt))) refl
      refl refl

run-AllConsistent_example : IsConsistent 1 (make_state 10 1 queued)
unfolding run step ActiveJobs.add ActiveJobs.have_uuid Map.insert Map.place Map.has_key Map.lookup
run-AllConsistent_example = run-AllConsistent (adds 10 1 ∷ []) 1 (make_state 10 1 queued) refl

-- The worker of the job is late at the time 2000000000.
lookup-mark_expired_jobs_example :
    Map.lookup 1 (mark_expired_jobs ((1, running) ∷ []) sockets (λ i. 2000000000)).0
    ≡ some (
        if is_pending in_progress && is_unresponsive sockets 2000000000 10
        then expired_job running
        else running)
unfolding Map.lookup
lookup-mark_expired_jobs_example =
    lookup-mark_expired_jobs sockets (λ i. 2000000000) 1 ((1, running) ∷ [])

run-is_dead_example :
    is_dead (SocketMonitor.run sockets (beats 5 12 (pos 60) ∷ dies 10 ∷ polls 9 ∷ [])) 10
    ≡ not
        (SocketMonitor.known 10 (exists sockets 10) (beats 5 12 (pos 60) ∷ dies 10 ∷ polls 9 ∷ []))
run-is_dead_example = run-is_dead sockets (beats 5 12 (pos 60) ∷ dies 10 ∷ polls 9 ∷ []) 10

abbrev five : Rate
five = record { value = pos 5; fits = omega arith }

abbrev four : Rate
four = record { value = pos 4; fits = omega arith }

abbrev below_zero : Rate
below_zero = record { value = negsuc 3; fits = omega arith }

run-IsBounded_example : IsBounded (
    PollingMonitor.run
      (PollingMonitor.make five below_zero 7)
      (poll 9 ∷ change four five ∷ poll 3 ∷ []))
run-IsBounded_example = run-IsBounded five below_zero 7 (poll 9 ∷ change four five ∷ poll 3 ∷ [])
