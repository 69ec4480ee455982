-- ===== src/Tests/Handlers.antt =====
-- The handlers of the server and its rounds at concrete inputs.
use remus.Prelude.{ℕ, ◌≡◌, refl, true, not, ◌&&◌, Option, none, some, ◌==◌, arith, [], ◌∷◌}
use remus.Common.ServiceTypes.{make_mesh, mesh_status, terminate_job}
use remus.Server.JobQueue
use remus.Server.State.{Server, make}
use remus.Server.Invariant.{knows, Inv, make-Inv}
use remus.Server.ClientRequests.{terminate, determine_client_response}
use remus.Server.ClientRequests.{throws}
use remus.Server.ClientRequests.Outcome.{Returns-some}
use remus.Server.Assignment.Moves.{Gives}
use remus.Server.ClientRequests.Replies.{AnsweredOnce, client-AnsweredOnce, terminate-knows}
use remus.Server.ClientRequests.Known.{known_after, determine_client_response-knows}
use remus.Server.ClientRequests.Jobs.{determine_client_response-Inv}
use remus.Server.Assignment.{find_worker_for_queued_job}
use remus.Server.Assignment.Conservation.{find_worker-knows}
use remus.Server.Broker.{Round, round}
use remus.Server.Broker.Known.{known_after_client, round-knows}
use remus.Server.Broker.Safety.{Reach, start, next, Reach-Inv}
use remus.Common.StatusTypes.{in_progress}
use remus.Proto.WorkerJob.{make_job, no_submission}
use remus.Server.ActiveJobs.{make_state}
use remus.Server.Message.{to_worker, carry_out, active_job_terminated}
use remus.Tests.{two_workers, polling, clock, message}

abbrev fresh : Server two_workers
fresh = make polling 0

abbrev served : Server two_workers → Option (Server two_workers) → Server two_workers
served s none = s
served s (some t) = t

-- Client 5 asks for a mesh, and the job 1 is queued.
abbrev asked : Server two_workers
asked = served fresh (determine_client_response fresh 5 1 (message make_mesh 0))

asked-returns : determine_client_response fresh 5 1 (message make_mesh 0) ≡ some asked
unfolding determine_client_response throws
asked-returns = refl

asked-Inv : Inv asked
unfolding make JobQueue.empty remus.Std.Map.lookup
asked-Inv =
    Returns-some Inv (determine_client_response fresh 5 1 (message make_mesh 0)) asked
      (determine_client_response-Inv fresh 5 1 (message make_mesh 0) refl
        (make-Inv two_workers polling 0))
      asked-returns

-- The job 1 is queued, and the factory has room for a worker.
find_worker-knows_example :
    Inv (find_worker_for_queued_job (λ w. true) clock asked)
    × ((id : ℕ) → knows (find_worker_for_queued_job (λ w. true) clock asked) id ≡ knows asked id)
    × Gives asked (find_worker_for_queued_job (λ w. true) clock asked)
find_worker-knows_example = find_worker-knows (λ w. true) clock asked asked-Inv

-- The client gives the job 1 up.
abbrev given_up : Server two_workers
given_up = served asked (determine_client_response asked 5 2 (message terminate_job 1))

given_up-returns : determine_client_response asked 5 2 (message terminate_job 1) ≡ some given_up
unfolding determine_client_response throws
given_up-returns = refl

determine_client_response-knows_example :
    knows given_up 1 ≡ known_after asked 2 (message terminate_job 1) terminate_job 1
determine_client_response-knows_example =
    determine_client_response-knows asked 5 2 (message terminate_job 1) given_up 1 asked-Inv
      given_up-returns

client-AnsweredOnce_example :
    (t : Server two_workers) × (determine_client_response asked 5 2 (message mesh_status 1)
      ≡ some t)
    × AnsweredOnce 5 asked.sent t.sent
client-AnsweredOnce_example = client-AnsweredOnce asked 5 2 (message mesh_status 1) refl refl

-- The factory has launched a worker for the job 1, which gets it.
abbrev with_worker : Server two_workers
with_worker = record asked {
  queued_jobs = JobQueue.empty;
  active_jobs = (1, make_state 10 1 in_progress) ∷ [];
}

with_worker-Inv : Inv with_worker
unfolding make JobQueue.empty remus.Std.Map.lookup
with_worker-Inv =
    let v = make-Inv two_workers polling 0 in
    record { queue = v.queue; cache = v.cache; apart = λ id h. absurd (ground (arith, h)) }

terminate-knows_example :
    ((terminate with_worker (message terminate_job 1)).0.active_jobs ≡ with_worker.active_jobs)
    × ((id : ℕ)
        → knows (terminate with_worker (message terminate_job 1)).0 id
          ≡ (knows with_worker id && not (1 == id && JobQueue.have_uuid JobQueue.empty 1)))
    × ((terminate with_worker (message terminate_job 1)).0.sent ≡ (
        active_job_terminated (make_state 10 1 in_progress).jstatus 10
        ∷ to_worker 10 terminate_job (carry_out (make_job 1 no_submission))
        ∷ with_worker.sent))
unfolding JobQueue.empty remus.Std.Map.lookup make_state
terminate-knows_example = terminate-knows with_worker (message terminate_job 1) with_worker-Inv

-- A round that serves client 5 and no worker.
abbrev first_round : Round
first_round = record {
  poll_time = 100;
  current_time = 150;
  from_client = some (5, message make_mesh 0);
  uuid = 1;
  from_worker = none;
  handler_time = 120;
  expiry_times = clock;
  purge_times = clock;
  assignment_times = clock;
  delivers = λ w. true;
  still_brokering = true;
}

abbrev after_round : Option (Server two_workers × ℕ) → Server two_workers × ℕ
after_round none = (fresh, 0)
after_round (some t) = t

abbrev later : Server two_workers × ℕ
later = after_round (round fresh 1000 first_round)

returns : round fresh 1000 first_round ≡ some later
unfolding round determine_client_response
returns = refl

reached : Reach later.0 later.1
unfolding make JobQueue.empty remus.Std.Map.lookup
reached = next fresh 1000 first_round later (start polling 0 1000) refl returns

Reach-Inv_example : Inv later.0
Reach-Inv_example = Reach-Inv later.0 later.1 reached

round-knows_example : knows later.0 1 ≡ known_after_client fresh 1 (some (5, message make_mesh 0)) 1
unfolding make JobQueue.empty remus.Std.Map.lookup
round-knows_example =
    round-knows fresh 1000 first_round later 1 refl (make-Inv two_workers polling 0) returns
