-- ===== src/Worker/MessageRouter/Closing.antt =====
-- What the router no longer sends once the server or the worker has ended the connection, and what
-- it sends to the server until then.
use remus.Prelude.{
  ℕ, zero, suc, ◌≡◌, refl, ◌∙◌, Bool, true, false, not, ◌&&◌, Option, none, some, List, [], ◌∷◌,
  arith, if◌then◌else◌,
}
use remus.Common.ServiceTypes.{ServiceType, make_mesh, terminate_job, terminate_worker}
use remus.Common.PollingMonitor
use remus.Server.Message.{Message}
use remus.Worker.JobQueue.{Response}
use remus.Worker.MessageRouter.{
  Sent, forwarded, heartbeat, to_queue, no_result, Router, note_worker_message, forward_message,
  handle_worker_message, no_results, pass_to_queue, dispatch, handle_server_message,
  send_heart_beat, set_is_talking, Round, serve_server, serve_worker, round, run,
}

-- How many messages, and how many of the queue's responses, have been sent.
abbrev pub num_to_server : List Sent → ℕ
num_to_server [] = 0
num_to_server (forwarded _ ∷ sent) = suc (num_to_server sent)
num_to_server (heartbeat _ ∷ sent) = suc (num_to_server sent)
num_to_server (_ ∷ sent) = num_to_server sent

abbrev pub num_to_queue : List Sent → ℕ
num_to_queue [] = 0
num_to_queue (to_queue _ ∷ sent) = suc (num_to_queue sent)
num_to_queue (_ ∷ sent) = num_to_queue sent

no_results-num :
    (n : ℕ) (sent : List Sent)
    → (num_to_server (no_results n sent) ≡ num_to_server sent)
      × (num_to_queue (no_results n sent) ≡ num_to_queue sent)
unfolding no_results
no_results-num zero sent = (refl, refl)
no_results-num (suc n) sent = no_results-num n (no_result ∷ sent)

-- A response sends nothing to the server.
serve_server-num_to_server :
    (r : Router) (o : Option Response)
    → num_to_server (serve_server r o).sent ≡ num_to_server r.sent
unfolding serve_server handle_server_message dispatch pass_to_queue
serve_server-num_to_server r none = refl
serve_server-num_to_server r (some response) = ground (
  arith,
  no_results-num r.outstanding_results r.sent,
  no_results-num r.outstanding_results (to_queue response ∷ r.sent),
)

-- A message of the worker that is not valid.
abbrev pub is_refused : Option Message → Bool
is_refused none = false
is_refused (some msg) = not msg.is_valid

serve_worker-num_to_server :
    (r : Router) (o : Option Message)
    → num_to_server (serve_worker r o).sent ≡ (
        if r.continue_forwarding_to_server && not (is_refused o)
        then suc (num_to_server r.sent)
        else num_to_server r.sent)
unfolding serve_worker handle_worker_message note_worker_message forward_message send_heart_beat
    set_is_talking
serve_worker-num_to_server r none = ground arith
serve_worker-num_to_server r (some msg) = ground arith

-- The response with which the server ends the connection.
abbrev pub is_order_to_end : ServiceType → Bool
is_order_to_end terminate_worker = true
is_order_to_end _ = false

abbrev pub ends : Option Response → Bool
ends none = false
ends (some response) = response.is_valid && is_order_to_end response.service_type

dispatch-forwarding :
    (r : Router) (response : Response) (service : ServiceType)
    → (dispatch r response service).continue_forwarding_to_server
      ≡ (r.continue_forwarding_to_server && not (is_order_to_end service))
unfolding dispatch pass_to_queue
dispatch-forwarding r response make_mesh = ground arith
dispatch-forwarding r response terminate_job = ground arith
dispatch-forwarding r response _ = ground arith

serve_server-forwarding :
    (r : Router) (o : Option Response)
    → (serve_server r o).continue_forwarding_to_server
      ≡ (r.continue_forwarding_to_server && not (ends o))
unfolding serve_server handle_server_message
serve_server-forwarding r none = ground arith
serve_server-forwarding r (some response) =
    ground (arith, dispatch-forwarding r response response.service_type)

serve_worker-forwarding :
    (r : Router) (o : Option Message)
    → (serve_worker r o).continue_forwarding_to_server ≡ r.continue_forwarding_to_server
unfolding serve_worker handle_worker_message note_worker_message forward_message send_heart_beat
    set_is_talking
serve_worker-forwarding r none = ground arith
serve_worker-forwarding r (some msg) = ground arith

-- In each turn of the loop the router sends the server exactly one message, the worker's or a
-- heartbeat, as long as it forwards to the server and the turn brings neither a valid TERMINATE_WORKER
-- from it nor a message of the worker that is not valid; otherwise it sends none. It goes on forwarding
-- exactly if it did and no valid TERMINATE_WORKER came.
pub round-num_to_server :
    (r : Router) (x : Round)
    → (num_to_server (round r x).sent ≡ (
        if r.continue_forwarding_to_server
          && not (ends x.from_server)
          && not (is_refused x.from_worker)
        then suc (num_to_server r.sent)
        else num_to_server r.sent))
      × ((round r x).continue_forwarding_to_server
          ≡ (r.continue_forwarding_to_server && not (ends x.from_server)))
unfolding round
round-num_to_server r x =
    let polled = record r {
      poll_monitor = PollingMonitor.poll_occurred r.poll_monitor x.poll_time;
    } in
    ground (
      arith,
      serve_server-forwarding polled x.from_server,
      serve_server-num_to_server polled x.from_server,
      serve_worker-forwarding (serve_server polled x.from_server) x.from_worker,
      serve_worker-num_to_server (serve_server polled x.from_server) x.from_worker,
    )

turn-closed :
    (r : Router) (x : Round)
    → r.continue_forwarding_to_server ≡ false
    → (b : Bool)
    → (num_to_server (if b then round r x else r).sent ≡ num_to_server r.sent)
      × ((if b then round r x else r).continue_forwarding_to_server ≡ false)
turn-closed r x closed true = ground (arith, closed, round-num_to_server r x)
turn-closed r x closed false = (refl, closed)

run-closed :
    (r : Router) (xs : List (Option Round))
    → r.continue_forwarding_to_server ≡ false
    → num_to_server (run r xs).sent ≡ num_to_server r.sent
unfolding run set_is_talking
run-closed r [] closed = refl
run-closed r (none ∷ xs) closed = run-closed (record r { continue_polling = false }) xs closed
run-closed r (some x ∷ xs) closed =
    let turn = turn-closed r x closed r.continue_polling in
    run-closed (if r.continue_polling then round r x else r) xs turn.1 ∙ turn.0

-- Once a valid TERMINATE_WORKER of the server has been handled, no message is sent to the server any
-- more, whatever the next turns bring.
pub server_ends :
    (r : Router) (response : Response) (xs : List (Option Round))
    → response.is_valid ≡ true
    → response.service_type ≡ terminate_worker
    → num_to_server (run (serve_server r (some response)) xs).sent ≡ num_to_server r.sent
server_ends r response xs valid order =
    run-closed (serve_server r (some response)) xs
      (serve_server-forwarding r (some response) ∙ ground (arith, valid, order))
    ∙ serve_server-num_to_server r (some response)

-- What passes no more to the queue.
serve_server-num_to_queue :
    (r : Router) (o : Option Response)
    → r.continue_forwarding_to_worker ≡ false
    → (num_to_queue (serve_server r o).sent ≡ num_to_queue r.sent)
      × ((serve_server r o).continue_forwarding_to_worker ≡ false)
unfolding serve_server handle_server_message dispatch pass_to_queue
serve_server-num_to_queue r none closed = (refl, closed)
serve_server-num_to_queue r (some response) closed =
    ground (arith, closed, no_results-num r.outstanding_results r.sent)

serve_worker-num_to_queue :
    (r : Router) (o : Option Message)
    → r.continue_forwarding_to_worker ≡ false
    → (num_to_queue (serve_worker r o).sent ≡ num_to_queue r.sent)
      × ((serve_worker r o).continue_forwarding_to_worker ≡ false)
unfolding serve_worker handle_worker_message note_worker_message forward_message send_heart_beat
    set_is_talking
serve_worker-num_to_queue r none closed = ground (arith, closed)
serve_worker-num_to_queue r (some msg) closed = ground (arith, closed)

round-num_to_queue :
    (r : Router) (x : Round)
    → r.continue_forwarding_to_worker ≡ false
    → (num_to_queue (round r x).sent ≡ num_to_queue r.sent)
      × ((round r x).continue_forwarding_to_worker ≡ false)
unfolding round
round-num_to_queue r x closed =
    let polled = record r {
      poll_monitor = PollingMonitor.poll_occurred r.poll_monitor x.poll_time;
    } in
    let (same, still) = serve_server-num_to_queue polled x.from_server closed in
    let (same', still') =
      serve_worker-num_to_queue (serve_server polled x.from_server) x.from_worker still in
    (same' ∙ same, still')

turn-num_to_queue :
    (r : Router) (x : Round)
    → r.continue_forwarding_to_worker ≡ false
    → (b : Bool)
    → (num_to_queue (if b then round r x else r).sent ≡ num_to_queue r.sent)
      × ((if b then round r x else r).continue_forwarding_to_worker ≡ false)
turn-num_to_queue r x closed true = round-num_to_queue r x closed
turn-num_to_queue r x closed false = (refl, closed)

run-num_to_queue :
    (r : Router) (xs : List (Option Round))
    → r.continue_forwarding_to_worker ≡ false
    → num_to_queue (run r xs).sent ≡ num_to_queue r.sent
unfolding run set_is_talking
run-num_to_queue r [] closed = refl
run-num_to_queue r (none ∷ xs) closed =
    run-num_to_queue (record r { continue_polling = false }) xs closed
run-num_to_queue r (some x ∷ xs) closed =
    let turn = turn-num_to_queue r x closed r.continue_polling in
    run-num_to_queue (if r.continue_polling then round r x else r) xs turn.1 ∙ turn.0

-- Once the router has forwarded a TERMINATE_WORKER of the worker to the server, no response of the
-- server reaches the queue any more, whatever the next turns bring.
pub worker_ends :
    (r : Router) (msg : Message) (xs : List (Option Round))
    → r.continue_forwarding_to_server ≡ true
    → msg.service_type ≡ terminate_worker
    → num_to_queue (run (handle_worker_message r msg) xs).sent ≡ num_to_queue r.sent
unfolding handle_worker_message note_worker_message forward_message
worker_ends r msg xs forwards order =
    run-num_to_queue (handle_worker_message r msg) xs (ground (arith, forwards, order))
    ∙ ground (arith, forwards, order)
