-- ===== src/Worker/JobQueue/Fifo.antt =====
-- The worker's queue hands out what it was sent, in order.
use mathlib.Core.List.{append-nil, append_assoc}
use remus.Prelude.{
  ◌≡◌, refl, sym, ap, ◌∙◌, Bool, true, false, ◌&&◌, List, [], ◌∷◌, ◌++◌, arith, ◌==◌, if◌then◌else◌,
}
use remus.Common.ServiceTypes.{ServiceType, make_mesh, terminate_job, terminate_worker}
use remus.Proto.WorkerJob.{WorkerJob}
use remus.Worker.JobQueue.{
  Response, JobQueue, add_item, size, dispatch, receive, pop, take, Event, receives, takes, stops,
  step, run,
}

-- The jobs that a history sends, if the queue polls: those of valid MAKE_MESH responses.
abbrev pub job_of : Response → List WorkerJob
job_of r = if r.is_valid then elim r.service_type [ make_mesh ↦ r.to_job ∷ [] | _ ↦ [] ] else []

abbrev pub sent_by : Event → List WorkerJob
sent_by (receives r) = job_of r
sent_by takes = []
sent_by stops = []

abbrev pub sent : List Event → List WorkerJob
sent [] = []
sent (e ∷ es) = sent_by e ++ sent es

-- The jobs that the calls of `take` return, less the invalid job of an empty queue.
abbrev pub taken_by : JobQueue → Event → List WorkerJob
taken_by q (receives r) = []
taken_by q takes = if size q == 0 then [] else (take q).1 ∷ []
taken_by q stops = []

abbrev pub taken : JobQueue → List Event → List WorkerJob
taken q [] = []
taken q (e ∷ es) = taken_by q e ++ taken (step q e) es

-- No order to terminate and no stop.
abbrev pub is_work : ServiceType → Bool
is_work terminate_job = false
is_work terminate_worker = false
is_work _ = true

abbrev pub only_work : List Event → Bool
only_work [] = true
only_work (receives r ∷ es) = is_work r.service_type && only_work es
only_work (takes ∷ es) = only_work es
only_work (stops ∷ es) = false

dispatch_adds :
    (q : JobQueue) (job : WorkerJob) (service : ServiceType)
    → is_work service ≡ true
    → ((dispatch q job service).queue
        ≡ q.queue ++ elim service as (λ s. List WorkerJob) [ make_mesh ↦ job ∷ [] | _ ↦ [] ])
      × ((dispatch q job service).continue_polling ≡ q.continue_polling)
unfolding dispatch add_item
dispatch_adds q job make_mesh h = (refl, refl)
dispatch_adds q job terminate_job h = absurd (ground (arith, h))
dispatch_adds q job terminate_worker h = absurd (ground (arith, h))
dispatch_adds q job _ h = (sym (append-nil q.queue), refl)

receive_adds :
    (q : JobQueue) (r : Response)
    → q.continue_polling ≡ true
    → is_work r.service_type ≡ true
    → ((receive q r).queue ≡ q.queue ++ job_of r) × ((receive q r).continue_polling ≡ true)
unfolding receive
receive_adds q r polls h =
    ground (arith, polls, h, dispatch_adds q r.to_job r.service_type h, append-nil q.queue)

take_removes :
    (q : JobQueue)
    → (taken_by q takes ++ (take q).0.queue ≡ q.queue)
      × ((take q).0.continue_polling ≡ q.continue_polling)
unfolding size take pop
take_removes q = ground arith

-- If nothing orders a polling queue to terminate and it is not stopped, then the jobs taken, in the
-- order in which they were taken, with those still in the queue are the jobs that were in the queue
-- at the start with those sent since, in the order in which they were sent.
pub run-fifo :
    (q : JobQueue) (es : List Event)
    → q.continue_polling ≡ true
    → only_work es ≡ true
    → taken q es ++ (run q es).queue ≡ q.queue ++ sent es
unfolding run step
run-fifo q [] polls h = sym (append-nil q.queue)
run-fifo q (receives r ∷ es) polls h =
    let (adds, still) = receive_adds q r polls (ground (arith, h)) in
    run-fifo (receive q r) es still (ground (arith, h))
    ∙ ap (λ jobs. jobs ++ sent es) adds
    ∙ append_assoc q.queue (job_of r) (sent es)
run-fifo q (takes ∷ es) polls h =
    let (removes, still) = take_removes q in
    append_assoc (taken_by q takes) (taken (take q).0 es) (run (take q).0 es).queue
    ∙ ap (λ jobs. taken_by q takes ++ jobs) (run-fifo (take q).0 es (still ∙ polls) h)
    ∙ sym (append_assoc (taken_by q takes) (take q).0.queue (sent es))
    ∙ ap (λ jobs. jobs ++ sent es) removes
run-fifo q (stops ∷ es) polls h = absurd (ground (arith, h))
