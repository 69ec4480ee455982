-- ===== src/Worker/JobQueue/Race.antt =====
-- remus/worker/detail/JobQueue.cxx: `take` as its two critical sections, with those of the polling thread
-- in between.
use remus.Prelude.{
  ◌≡◌, Bool, true, false, Option, none, some, List, [], ◌∷◌, arith, ltb, if◌then◌else◌, remove_if,
}
use remus.Common.ServiceTypes.{terminate_job}
use remus.Proto.WorkerJob.{WorkerJob}
use remus.Worker.JobQueue.{Response, JobQueue, size, pop, receive, dispatch, terminate_job_of}

-- The queue, and whether a thread in `take` has found that it is not empty.
pub record Taking : Type 0 where
  pub shared : JobQueue
  pub found : Bool

-- What one of the threads does while it has the mutex: the polling thread handles a response, and the
-- other tests the size and later removes the first job.
pub data Action : Type 0 where
  polls : Response → Action
  tests : Action
  removes : Action

-- `none` is a read of `Queue[0]` of an empty deque, which is undefined.
unfoldable pub act : Taking → Action → Option Taking
unfolding receive size pop
act t (polls r) = some (record t { shared = receive t.shared r })
act t tests = some (record t { found = ltb 0 (size t.shared) })
act t removes =
    if t.found
    then elim (pop t.shared) [
      | none ↦ none
      | some r ↦ some (record { shared = r.0; found = false })
    ]
    else some t

unfoldable pub interleave : Taking → List Action → Option Taking
unfolding act
interleave t [] = some t
interleave t (a ∷ later) = elim (act t a) [ none ↦ none | some u ↦ interleave u later ]

-- `take` and the handling of a valid TERMINATE_JOB for the only job do not exclude each other. If the
-- order is handled between the test and the removal, the removal reads an empty deque; if it is handled
-- before the test or after the removal, `take` ends, with the queue empty.
pub take_races :
    (q : JobQueue) (job : WorkerJob) (r : Response)
    → q.queue ≡ job ∷ []
    → q.continue_polling ≡ true
    → r.is_valid ≡ true
    → r.service_type ≡ terminate_job
    → r.to_job.id ≡ job.id
    → let t : Taking = record { shared = q; found = false } in
      (interleave t (tests ∷ polls r ∷ removes ∷ []) ≡ none)
      × ((u : Taking) × (interleave t (polls r ∷ tests ∷ removes ∷ []) ≡ some u)
          × (u.shared.queue ≡ []))
      × ((u : Taking) × (interleave t (tests ∷ removes ∷ polls r ∷ []) ≡ some u)
          × (u.shared.queue ≡ []))
unfolding interleave act size pop receive dispatch terminate_job_of remove_if
take_races q job r one polling valid order same =
    let emptied : (receive q r).queue ≡ [] = ground (arith, one, polling, valid, order, same) in
    let emptied' : (receive (record q { queue = [] }) r).queue ≡ [] =
      ground (arith, polling, valid, order) in
    (
      ground (arith, one, emptied),
      (record { shared = receive q r; found = false }, ground (arith, emptied), emptied),
      (
        record { shared = receive (record q { queue = [] }) r; found = false },
        ground (arith, one),
        emptied',
      ),
    )
