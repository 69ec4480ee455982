-- ===== src/Tests/Router.antt =====
-- The worker's message router at concrete inputs.
use remus.Prelude.{suc, ◌≡◌, refl, true, not, ◌&&◌, none, some, [], ◌∷◌, if◌then◌else◌}
use remus.Common.ServiceTypes.{ServiceType, make_mesh, retrieve_result, terminate_worker}
use remus.Proto.WorkerJob.{make_job}
use remus.Worker.JobQueue.{Response}
use remus.Worker.MessageRouter.{Router, make, set_is_talking, Round, serve_server, round, run}
use remus.Worker.MessageRouter.Closing.{
  num_to_server, ends, is_refused, round-num_to_server, server_ends,
}
use remus.Worker.MessageRouter.Results.{Accounts, run-Accounts}
use remus.Tests.{red_job, message, polling}

abbrev router : Router
router = record {
  outstanding_results = 0;
  poll_monitor = polling;
  continue_polling = true;
  continue_forwarding_to_server = true;
  continue_forwarding_to_worker = true;
  sent = [];
}

abbrev response : ServiceType → Response
response service = record { is_valid = true; service_type = service; to_job = make_job 1 red_job }

abbrev busy : Round
busy = record {
  poll_time = 300;
  from_server = some (response make_mesh);
  from_worker = some (message retrieve_result 1);
}

abbrev quiet : Round
quiet = record { poll_time = 600; from_server = none; from_worker = none }

round-num_to_server_example :
    (num_to_server (round router busy).sent ≡ (
      if true && not (ends (some (response make_mesh))) && not (is_refused busy.from_worker)
      then suc 0
      else 0))
    × ((round router busy).continue_forwarding_to_server
        ≡ (true && not (ends (some (response make_mesh)))))
round-num_to_server_example = round-num_to_server router busy

server_ends_example :
    num_to_server
      (run
        (serve_server router (some (response terminate_worker)))
        (some busy ∷ some quiet ∷ [])).sent
    ≡ 0
server_ends_example =
    server_ends router (response terminate_worker) (some busy ∷ some quiet ∷ []) refl refl

run-Accounts_example :
    Accounts (run (set_is_talking (make 7) true) (some busy ∷ some quiet ∷ none ∷ []))
run-Accounts_example = run-Accounts 7 (some busy ∷ some quiet ∷ none ∷ [])
