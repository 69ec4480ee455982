-- ===== src/Worker/MessageRouter/Results.antt =====
-- The count of results for which the worker waits for an answer of the server.
use remus.Prelude.{
  ℕ, zero, ◌+◌, ◌%◌, suc, ◌≡◌, refl, ◌∙◌, Bool, true, false, Option, none, some, List, [], ◌∷◌,
  arith, if◌then◌else◌, Bool-cases, inl, inr,
}
use remus.Common.PollingMonitor
use remus.Common.ServiceTypes.{
  ServiceType, make_mesh, retrieve_result, terminate_job, terminate_worker,
}
use remus.Server.Message.{Message}
use remus.Worker.JobQueue.{Response}
use remus.Worker.MessageRouter.{
  Sent, forwarded, refused, to_queue, to_worker, no_result, Router, make, increment, decrement,
  note_worker_message, forward_message, handle_worker_message, no_results, pass_to_queue, dispatch,
  handle_server_message, send_heart_beat, set_is_talking, Round, serve_server, serve_worker, round,
  run,
}

abbrev pub is_result : ServiceType → Bool
is_result retrieve_result = true
is_result _ = false

-- The results that the worker handed over while the router forwarded, those that were refused included,
-- and the answers given to the worker.
abbrev pub num_asked : List Sent → ℕ
num_asked [] = 0
num_asked (forwarded msg ∷ sent) =
    if is_result msg.service_type then suc (num_asked sent) else num_asked sent
num_asked (refused msg ∷ sent) =
    if is_result msg.service_type then suc (num_asked sent) else num_asked sent
num_asked (_ ∷ sent) = num_asked sent

abbrev pub num_answered : List Sent → ℕ
num_answered [] = 0
num_answered (to_worker _ ∷ sent) = suc (num_answered sent)
num_answered (no_result ∷ sent) = suc (num_answered sent)
num_answered (_ ∷ sent) = num_answered sent

-- The count is that of the results asked and not answered, as far as its 64 bits can tell.
abbrev pub Accounts : Router → Type 0
Accounts r =
    (num_answered r.sent + r.outstanding_results) % 18446744073709551616
    ≡ num_asked r.sent % 18446744073709551616

no_results-num :
    (n : ℕ) (sent : List Sent)
    → (num_asked (no_results n sent) ≡ num_asked sent)
      × (num_answered (no_results n sent) ≡ num_answered sent + n)
unfolding no_results
no_results-num zero sent = (refl, omega arith)
no_results-num (suc n) sent =
    let rest = no_results-num n (no_result ∷ sent) in (rest.0, ground (arith, rest.1))

more :
    (a o f : ℕ)
    → (a + o) % 18446744073709551616 ≡ f % 18446744073709551616
    → (a + increment o) % 18446744073709551616 ≡ suc f % 18446744073709551616
more a o f h = omega (arith, h)

fewer :
    (a o f : ℕ)
    → (a + o) % 18446744073709551616 ≡ f % 18446744073709551616
    → (suc a + decrement o) % 18446744073709551616 ≡ f % 18446744073709551616
fewer a o f h = omega (arith, h)

dispatch-Accounts :
    (r : Router) (response : Response) (service : ServiceType)
    → Accounts r
    → Accounts (dispatch r response service)
unfolding dispatch pass_to_queue
dispatch-Accounts r response make_mesh v = ground (arith, v)
dispatch-Accounts r response terminate_job v = ground (arith, v)
dispatch-Accounts r response terminate_worker v = ground (
  arith,
  v,
  no_results-num r.outstanding_results r.sent,
  no_results-num r.outstanding_results (to_queue response ∷ r.sent),
)
dispatch-Accounts r response retrieve_result v =
    fewer (num_answered r.sent) r.outstanding_results (num_asked r.sent) v
dispatch-Accounts r response _ v = v

serve_server-Accounts :
    (r : Router) (o : Option Response) → Accounts r → Accounts (serve_server r o)
unfolding serve_server handle_server_message
serve_server-Accounts r none v = v
serve_server-Accounts r (some response) v =
    ground (arith, v, dispatch-Accounts r response response.service_type v)

note-Accounts :
    (r : Router) (msg : Message) (service : ServiceType)
    → msg.service_type ≡ service
    → Accounts r
    → Accounts (note_worker_message (forward_message r msg) service)
unfolding note_worker_message forward_message
note-Accounts r msg retrieve_result e v = elim (Bool-cases msg.is_valid) [
  | inl h ↦ rw (h, e) (more (num_answered r.sent) r.outstanding_results (num_asked r.sent) v)
  | inr h ↦ rw (h, e) (more (num_answered r.sent) r.outstanding_results (num_asked r.sent) v)
]
note-Accounts r msg _ e v = elim (Bool-cases msg.is_valid) [
  | inl h ↦ rw (h, e) v
  | inr h ↦ rw (h, e) v
]

serve_worker-Accounts : (r : Router) (o : Option Message) → Accounts r → Accounts (serve_worker r o)
unfolding serve_worker handle_worker_message send_heart_beat set_is_talking
serve_worker-Accounts r none v = ground (arith, v)
serve_worker-Accounts r (some msg) v =
    ground (arith, v, note-Accounts r msg msg.service_type refl v)

turn-Accounts :
    (r : Router) (x : Round) (b : Bool) → Accounts r → Accounts (if b then round r x else r)
unfolding round
turn-Accounts r x true v =
    let polled = record r {
      poll_monitor = PollingMonitor.poll_occurred r.poll_monitor x.poll_time;
    } in
    serve_worker-Accounts (serve_server polled x.from_server) x.from_worker
      (serve_server-Accounts polled x.from_server v)
turn-Accounts r x false v = v

run_from-Accounts : (r : Router) (xs : List (Option Round)) → Accounts r → Accounts (run r xs)
unfolding run set_is_talking
run_from-Accounts r [] v = v
run_from-Accounts r (none ∷ xs) v = run_from-Accounts (record r { continue_polling = false }) xs v
run_from-Accounts r (some x ∷ xs) v =
    run_from-Accounts (if r.continue_polling then round r x else r) xs
      (turn-Accounts r x r.continue_polling v)

-- Whatever a new router receives, its count of outstanding results is, modulo 2 ^ 64, the number of
-- RETRIEVE_RESULT messages of the worker that it forwarded to the server, or that were refused because
-- they are not valid, less the number of answers that it gave the worker.
pub run-Accounts :
    (now : ℕ) (xs : List (Option Round)) → Accounts (run (set_is_talking (make now) true) xs)
unfolding make set_is_talking
run-Accounts now xs = run_from-Accounts (set_is_talking (make now) true) xs refl

-- A valid TERMINATE_WORKER of the server gives the worker one answer for every outstanding result and
-- leaves none outstanding.
pub order_to_end_answers :
    (r : Router) (response : Response)
    → response.is_valid ≡ true
    → response.service_type ≡ terminate_worker
    → (num_answered (handle_server_message r response).sent
        ≡ num_answered r.sent + r.outstanding_results)
      × ((handle_server_message r response).outstanding_results ≡ 0)
unfolding handle_server_message dispatch pass_to_queue
order_to_end_answers r response valid order = ground (
  arith,
  valid,
  order,
  no_results-num r.outstanding_results r.sent,
  no_results-num r.outstanding_results (to_queue response ∷ r.sent),
)

after_answer :
    (r : Router) (answer : Response)
    → r.outstanding_results ≡ 0
    → answer.is_valid ≡ true
    → answer.service_type ≡ retrieve_result
    → num_answered (handle_server_message r answer).sent
        + (handle_server_message r answer).outstanding_results
      ≡ suc (num_answered r.sent) + 18446744073709551615
unfolding handle_server_message dispatch
after_answer r answer none_waits valid service = ground (arith, none_waits, valid, service)

-- An answer for which nobody waits wraps the count around: if the server sends a valid
-- RETRIEVE_RESULT while no result is outstanding, its next valid TERMINATE_WORKER makes the router
-- send the worker 2 ^ 64 - 1 answers more.
pub unasked_answer :
    (r : Router) (answer order : Response)
    → r.outstanding_results ≡ 0
    → answer.is_valid ≡ true
    → answer.service_type ≡ retrieve_result
    → order.is_valid ≡ true
    → order.service_type ≡ terminate_worker
    → num_answered (handle_server_message (handle_server_message r answer) order).sent
      ≡ suc (num_answered r.sent) + 18446744073709551615
unasked_answer r answer order none_waits valid service valid' service' =
    (order_to_end_answers (handle_server_message r answer) order valid' service').0
    ∙ after_answer r answer none_waits valid service
