-- ===== src/Worker/MessageRouter.antt =====
-- remus/worker/detail/MessageRouter.cxx: the thread that passes messages between the server, the
-- worker and the worker's queue. What its sockets receive in a round is input, and what it sends on
-- them is kept, last first. Starting and joining the thread are not modelled.
pub mod Closing
pub mod Results
use remus.Prelude.{
  ℕ, zero, ◌+◌, ◌%◌, suc, pos, ◌≡◌, Bool, true, false, not, ◌&&◌, ◌||◌, Option, none, some, List,
  [], ◌∷◌, arith, ◌==◌, if◌then◌else◌,
}
use remus.Common.ServiceTypes.{
  ServiceType, make_mesh, retrieve_result, terminate_job, terminate_worker,
}
use remus.Common.PollingMonitor
use remus.Common.PollingMonitor.{PollingMonitor}
use remus.Server.Message.{Message}
use remus.Worker.JobQueue.{Response}

-- `forwarded` and `heartbeat` go to the server; a message that is `refused`, because it is not valid, was
-- to go there, and `send_impl` sent nothing. Of the others the next two go to the queue, the last two
-- to the worker. `terminate_queue` is the response with the empty job, `no_result` the one with INVALID_MSG.
pub data Sent : Type 0 where
  forwarded : Message → Sent
  heartbeat : ℕ → Sent
  refused : Message → Sent
  terminate_queue : Sent
  to_queue : Response → Sent
  to_worker : Response → Sent
  no_result : Sent

pub record Router : Type 0 where
  pub outstanding_results : ℕ
  pub poll_monitor : PollingMonitor
  pub continue_polling : Bool
  pub continue_forwarding_to_server : Bool
  pub continue_forwarding_to_worker : Bool
  pub sent : List Sent

-- `OutstandingResults` is a `std::size_t` of 64 bits, which wraps around.
abbrev pub increment : ℕ → ℕ
increment n = (n + 1) % 18446744073709551616

abbrev pub decrement : ℕ → ℕ
decrement n = (n + 18446744073709551615) % 18446744073709551616

-- The constructor, at the time `now`.
unfoldable pub make : ℕ → Router
make now = record {
  outstanding_results = 0;
  poll_monitor =
      PollingMonitor.make (record { value = pos 250; fits = omega arith })
        (record { value = pos 60000; fits = omega arith }) now;
  continue_polling = false;
  continue_forwarding_to_server = true;
  continue_forwarding_to_worker = true;
  sent = [];
}

unfoldable pub set_is_talking : Router → Bool → Router
set_is_talking r t = record r { continue_polling = t }

abbrev pub send : Router → Sent → Router
send r s = record r { sent = s ∷ r.sent }

-- What follows the forwarding of a worker's message.
unfoldable pub note_worker_message : Router → ServiceType → Router
note_worker_message r terminate_worker = record (send r terminate_queue) {
  continue_forwarding_to_worker = false;
}
note_worker_message r retrieve_result = record r {
  outstanding_results = increment r.outstanding_results;
}
note_worker_message r _ = r

-- `forward_Message`, whose result is not looked at.
unfoldable pub forward_message : Router → Message → Router
forward_message r msg = if msg.is_valid then send r (forwarded msg) else send r (refused msg)

unfoldable pub handle_worker_message : Router → Message → Router
unfolding note_worker_message forward_message
handle_worker_message r msg =
    if r.continue_forwarding_to_server
    then note_worker_message (forward_message r msg) msg.service_type
    else r

-- The loop over the outstanding results sends one `no_result` for each.
unfoldable pub no_results : ℕ → List Sent → List Sent
no_results zero sent = sent
no_results (suc n) sent = no_results n (no_result ∷ sent)

unfoldable pub pass_to_queue : Router → Response → Router
pass_to_queue r response = if r.continue_forwarding_to_worker then send r (to_queue response) else r

-- The branches on the service of a valid response.
unfoldable pub dispatch : Router → Response → ServiceType → Router
unfolding no_results pass_to_queue
dispatch r response terminate_worker =
    let r' = pass_to_queue r response in
    record r' {
      sent = no_results r'.outstanding_results r'.sent;
      outstanding_results = 0;
      continue_forwarding_to_server = false;
    }
dispatch r response terminate_job = pass_to_queue r response
dispatch r response make_mesh = pass_to_queue r response
dispatch r response retrieve_result = record (send r (to_worker response)) {
  outstanding_results = decrement r.outstanding_results;
}
dispatch r response _ = r

unfoldable pub handle_server_message : Router → Response → Router
unfolding dispatch
handle_server_message r response =
    if response.is_valid then dispatch r response response.service_type else r

unfoldable pub send_heart_beat : Router → Router
send_heart_beat r =
    if r.continue_forwarding_to_server
    then send r (heartbeat (PollingMonitor.max_time_out_ms r.poll_monitor))
    else r

-- What one turn of the loop of `poll` meets.
pub record Round : Type 0 where
  pub poll_time : ℕ
  pub from_server : Option Response
  pub from_worker : Option Message

unfoldable pub serve_server : Router → Option Response → Router
serve_server r none = r
serve_server r (some response) = handle_server_message r response

-- A message of the worker, or else a heartbeat.
unfoldable pub serve_worker : Router → Option Message → Router
unfolding send_heart_beat set_is_talking
serve_worker r none = send_heart_beat r
serve_worker r (some msg) =
    let r' = handle_worker_message r msg in
    if not r'.continue_forwarding_to_server then set_is_talking r' false else r'

unfoldable pub round : Router → Round → Router
unfolding serve_server serve_worker
round r x =
    serve_worker
      (serve_server
        (record r { poll_monitor = PollingMonitor.poll_occurred r.poll_monitor x.poll_time })
        x.from_server)
      x.from_worker

-- The loop; `none` stands for a call of `stop` between two turns.
unfoldable pub run : Router → List (Option Round) → Router
unfolding round set_is_talking
run r [] = r
run r (none ∷ xs) = run (set_is_talking r false) xs
run r (some x ∷ xs) = run (if r.continue_polling then round r x else r) xs
