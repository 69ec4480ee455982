-- ===== src/Server/Broker/Safety.antt =====
-- What holds of the server in every round of `Brokering`.
use mathlib.Core.Option.{some-injective}
use remus.Prelude.{
  ℕ, ◌≡◌, inl, inr, Bool, false, ◌||◌, Option, none, some, arith, leb, if◌then◌else◌, Bool-cases,
  subst, Option-cases,
}
use remus.Server.ClientRequests.Outcome.{Returns, Returns-some}
use remus.Common.PollingMonitor.{PollingMonitor}
use remus.Server.JobQueue.{JobQueue}
use remus.Server.SocketMonitor.{SocketMonitor}
use remus.Server.ActiveJobs
use remus.Server.ActiveJobs.{ActiveJobs}
use remus.Server.ActiveJobs.Expiry.{lookup-marked}
use remus.Server.Factory.{WorkerFactory}
use remus.Server.Message.{Message}
use remus.Server.State.{Server, make}
use remus.Server.Invariant.{knows, IsGood, Inv, make-Inv}
use remus.Server.ClientRequests.Jobs.{fewer-IsGood, determine_client_response-Inv}
use remus.Server.WorkerMessages.Jobs.{Keeps, determine_worker_response-Keeps}
use remus.Server.Assignment.{find_worker_for_queued_job, check_for_change_in_workers_and_jobs}
use remus.Server.Assignment.Conservation.{find_worker-knows}
use remus.Server.Broker.{Round, note_poll, serve_client, serve_worker, finish_round, round}

mark-IsGood :
    (q : JobQueue) (info : ActiveJobs) (monitor : SocketMonitor) (now : ℕ → ℕ)
    → IsGood q info
    → IsGood q (ActiveJobs.mark_expired_jobs info monitor now).0
mark-IsGood q info monitor now v =
    fewer-IsGood q info _ (λ k e. ground (arith, e, lookup-marked monitor now k info)) v

module _ {f : WorkerFactory} where
  -- The check for changes keeps the invariant, and the server knows the same jobs after it.
  pub check_for_change-knows :
      (delivers : ℕ → Bool) (now later : ℕ → ℕ) (s : Server f)
      → Inv s
      → Inv (check_for_change_in_workers_and_jobs delivers now s later)
        × ((id : ℕ)
            → knows (check_for_change_in_workers_and_jobs delivers now s later) id ≡ knows s id)
  unfolding check_for_change_in_workers_and_jobs
  check_for_change-knows delivers now later s v = (
    mark-IsGood s.queued_jobs s.active_jobs s.socket_monitor now v,
    λ id. ground (arith, lookup-marked s.socket_monitor now id s.active_jobs),
  )

  assigned-Inv :
      (r : Round) (s : Server f)
      → Inv s
      → Inv (
          if r.still_brokering
          then find_worker_for_queued_job r.delivers r.assignment_times s
          else s)
  assigned-Inv r s v = elim (Bool-cases r.still_brokering) [
    | inl e ↦ simp e (find_worker-knows r.delivers r.assignment_times s v).0
    | inr e ↦ simp e v
  ]

  pub finish_round-Inv :
      (when : ℕ) (r : Round) (s : Server f) (b : Bool) → Inv s → Inv (finish_round when r (s, b)).0
  unfolding finish_round
  finish_round-Inv when r s b v = elim (Bool-cases (leb when r.current_time || b)) [
    | inl e ↦ simp e (
        assigned-Inv r
          (check_for_change_in_workers_and_jobs r.delivers r.expiry_times s r.purge_times)
          (check_for_change-knows r.delivers r.expiry_times r.purge_times s v).0)
    | inr e ↦ simp e (assigned-Inv r s v)
  ]

  pub serve_client-Inv :
      (s : Server f) (uuid : ℕ) (m : Option (ℕ × Message))
      → knows s uuid ≡ false
      → Inv s
      → Returns Inv (serve_client s uuid m)
  unfolding serve_client
  serve_client-Inv s uuid none fresh v = v
  serve_client-Inv s uuid (some (client, msg)) fresh v =
      determine_client_response-Inv s client uuid msg fresh v

  pub serve_worker-Keeps :
      (s : Server f) (now : ℕ) (m : Option (ℕ × Message)) → Inv s → Keeps (serve_worker s now m)
  unfolding serve_worker
  serve_worker-Keeps s now none v = v
  serve_worker-Keeps s now (some (worker, msg)) v =
      determine_worker_response-Keeps s now worker msg v

  finish-Inv :
      (when : ℕ) (r : Round) (o : Option (Server f × Bool)) (t : Server f × ℕ)
      → Keeps o
      → (elim o [ none ↦ none | some t ↦ some (finish_round when r t) ]) ≡ some t
      → Inv t.0
  finish-Inv when r none t v e = absurd (ground (arith, e))
  finish-Inv when r (some (s, b)) t v e =
      subst (λ (x : Server f × ℕ). Inv x.0) (some-injective _ _ e) (finish_round-Inv when r s b v)

  -- In a round that returns, the client is served and then the worker.
  pub round-served :
      (s : Server f) (when : ℕ) (r : Round) (t : Server f × ℕ)
      → round s when r ≡ some t
      → (served : Server f) × (serve_client (note_poll s r.poll_time) r.uuid r.from_client
          ≡ some served)
        × ((elim (serve_worker served r.handler_time r.from_worker) [
          | none ↦ none
          | some u ↦ some (finish_round when r u)
        ])
            ≡ some t)
  unfolding round
  round-served s when r t e =
      elim (Option-cases (serve_client (note_poll s r.poll_time) r.uuid r.from_client)) [
        | inl c ↦ absurd (ground (arith, c, e))
        | inr (served, c) ↦ (served, c, rw (c, round) at e)
      ]

  pub round-Inv :
      (s : Server f) (when : ℕ) (r : Round) (t : Server f × ℕ)
      → knows s r.uuid ≡ false
      → Inv s
      → round s when r ≡ some t
      → Inv t.0
  unfolding round note_poll
  round-Inv s when r t fresh v e =
      let polled = note_poll s r.poll_time in
      let (served, c, d) = round-served s when r t e in
      finish-Inv when r (serve_worker served r.handler_time r.from_worker) t
        (serve_worker-Keeps served r.handler_time r.from_worker (
          Returns-some Inv (serve_client polled r.uuid r.from_client) served
            (serve_client-Inv polled r.uuid r.from_client fresh v) c))
        d

-- The states that `Brokering` reaches, with the time of the next check: it starts from the
-- constructor's state, and in each round the generator gives a uuid that the server does not know.
pub data Reach {f : WorkerFactory} : Server f → ℕ → Type 0 where
  start : (p : PollingMonitor) (factory : f.State) (when : ℕ) → Reach (make p factory) when
  next :
      (s : Server f) (when : ℕ) (r : Round) (t : Server f × ℕ)
      → Reach s when
      → knows s r.uuid ≡ false
      → round s when r ≡ some t
      → Reach t.0 t.1

module _ {f : WorkerFactory} where
  -- In every state that `Brokering` reaches, if each generated uuid is new to the server, the queue is
  -- well formed (its set of ids is that of its jobs, which have different ids), every type of the
  -- cached set of queued types is one that a job still in the queue wants, and no job is both in the
  -- queue and active.
  pub Reach-Inv : (s : Server f) (when : ℕ) → Reach s when → Inv s
  Reach-Inv _ _ (start p factory when) = make-Inv f p factory
  Reach-Inv _ _ (next s before r t reached fresh e) =
      round-Inv s before r t fresh (Reach-Inv s before reached) e
