-- ===== src/Server/Broker/Known.antt =====
-- Which jobs the server knows after a round of `Brokering`.
use mathlib.Core.Option.{some-injective}
use remus.Prelude.{
  ℕ, ℤ, ◌≡◌, refl, ap, ◌∙◌, Bool, true, false, not, ◌&&◌, ◌||◌, Option, none, some, arith, leb,
  if◌then◌else◌, Bool-cases, inl, inr, subst, sym,
}
use remus.Common.ServiceTypes.{
  ServiceType, can_mesh_requirements, make_mesh, mesh_status, retrieve_result, heartbeat,
  terminate_worker,
}
use remus.Server.JobQueue.Ids.{is_some}
use remus.Server.JobQueue.Invariant.{find_job}
use remus.Server.ActiveJobs
use remus.Server.Factory.{WorkerFactory}
use remus.Server.Message.{Message}
use remus.Server.State.{Server}
use remus.Server.Invariant.{knows, Inv}
use remus.Server.ClientRequests.Known.{known_after, adjust_known, determine_client_response-knows}
use remus.Server.WorkerMessages.{
  beat, dispatch, refreshed, determine_worker_response, is_heartbeat, is_terminate_worker,
}
use remus.Server.WorkerMessages.Jobs.{Keeps, determine_worker_response-cases}
use remus.Server.Assignment.{find_worker_for_queued_job, check_for_change_in_workers_and_jobs}
use remus.Server.Assignment.Conservation.{find_worker-knows}
use remus.Server.Broker.{Round, note_poll, serve_client, serve_worker, finish_round, round}
use remus.Server.Broker.Safety.{
  check_for_change-knows, serve_client-Inv, serve_worker-Keeps, round-served,
}
use remus.Server.ClientRequests.Outcome.{Returns-some}

module _ {f : WorkerFactory} where
  -- A handler that returns knows the jobs of `s`.
  abbrev KnowsAs : Server f → Option (Server f × Bool) → Type 0
  KnowsAs s none = Unit
  KnowsAs s (some (t, terminated)) = (id : ℕ) → knows t id ≡ knows s id

  beat-KnowsAs :
      (s : Server f) (now worker : ℕ) (msg : Message) (d : Option ℤ)
      → msg.to_duration ≡ d
      → KnowsAs s (dispatch s now worker msg heartbeat)
  unfolding dispatch beat
  beat-KnowsAs s now worker msg none e = rw e tt
  beat-KnowsAs s now worker msg (some d) e = rw e (λ id. refl)

  dispatch-KnowsAs :
      (s : Server f) (now worker : ℕ) (msg : Message) (service : ServiceType)
      → KnowsAs s (dispatch s now worker msg service)
  unfolding dispatch ActiveJobs.update_status ActiveJobs.update_result
  dispatch-KnowsAs s now worker msg mesh_status = λ id.
      ap (λ b. is_some (find_job s.queued_jobs id) || b)
        (adjust_known msg.to_status.id id _ s.active_jobs)
  dispatch-KnowsAs s now worker msg retrieve_result = λ id.
      ap (λ b. is_some (find_job s.queued_jobs id) || b)
        (adjust_known msg.to_result.id id _ s.active_jobs)
  dispatch-KnowsAs s now worker msg heartbeat = beat-KnowsAs s now worker msg msg.to_duration refl
  dispatch-KnowsAs s now worker msg can_mesh_requirements = λ id. refl
  dispatch-KnowsAs s now worker msg make_mesh = λ id. refl
  dispatch-KnowsAs s now worker msg terminate_worker = λ id. refl
  dispatch-KnowsAs s now worker msg _ = λ id. refl

  refreshed-knows :
      (now worker : ℕ) (service : ServiceType) (s : Server f) (t : Bool) (id : ℕ)
      → knows (refreshed now worker service (s, t)).0 id ≡ knows s id
  unfolding refreshed
  refreshed-knows now worker service s t id =
      elim (Bool-cases (not (is_heartbeat service) && not (is_terminate_worker service))) [
        | inl e ↦ rw e refl
        | inr e ↦ rw e refl
      ]

  refreshed-KnowsAs :
      (s : Server f) (now worker : ℕ) (service : ServiceType) (r : Option (Server f × Bool))
      → KnowsAs s r
      → KnowsAs s (elim r [ none ↦ none | some t ↦ some (refreshed now worker service t) ])
  refreshed-KnowsAs s now worker service none v = tt
  refreshed-KnowsAs s now worker service (some (t, b)) v =
      λ id. refreshed-knows now worker service t b id ∙ v id

  determine_worker_response-KnowsAs :
      (s : Server f) (now worker : ℕ) (msg : Message)
      → KnowsAs s (determine_worker_response s now worker msg)
  determine_worker_response-KnowsAs s now worker msg =
      determine_worker_response-cases (KnowsAs s) s now worker msg tt (λ id. refl)
        (refreshed-KnowsAs s now worker msg.service_type
          (dispatch s now worker msg msg.service_type)
          (dispatch-KnowsAs s now worker msg msg.service_type))

  serve_worker-KnowsAs :
      (s : Server f) (now : ℕ) (m : Option (ℕ × Message)) → KnowsAs s (serve_worker s now m)
  unfolding serve_worker
  serve_worker-KnowsAs s now none = λ id. refl
  serve_worker-KnowsAs s now (some (worker, msg)) =
      determine_worker_response-KnowsAs s now worker msg

  checked-knows :
      (r : Round) (s : Server f) (b : Bool)
      → Inv s
      → let t =
          if b
          then check_for_change_in_workers_and_jobs r.delivers r.expiry_times s r.purge_times
          else s in
        Inv t × ((id : ℕ) → knows t id ≡ knows s id)
  checked-knows r s true v = check_for_change-knows r.delivers r.expiry_times r.purge_times s v
  checked-knows r s false v = (v, λ id. refl)

  assigned-knows :
      (r : Round) (s : Server f) (b : Bool) (id : ℕ)
      → Inv s
      → knows (if b then find_worker_for_queued_job r.delivers r.assignment_times s else s) id
        ≡ knows s id
  assigned-knows r s true id v = (find_worker-knows r.delivers r.assignment_times s v).1 id
  assigned-knows r s false id v = refl

  finish_round-knows :
      (when : ℕ) (r : Round) (s : Server f) (b : Bool) (id : ℕ)
      → Inv s
      → knows (finish_round when r (s, b)).0 id ≡ knows s id
  unfolding finish_round
  finish_round-knows when r s b id v =
      let due = leb when r.current_time || b in
      let (v', same) = checked-knows r s due v in
      assigned-knows r
        (if due
          then check_for_change_in_workers_and_jobs r.delivers r.expiry_times s r.purge_times
          else s)
        r.still_brokering id v'
      ∙ same id

  finish-knows :
      (s : Server f) (when : ℕ) (r : Round) (o : Option (Server f × Bool)) (t : Server f × ℕ)
      (id : ℕ)
      → Keeps o
      → KnowsAs s o
      → (elim o [ none ↦ none | some t ↦ some (finish_round when r t) ]) ≡ some t
      → knows t.0 id ≡ knows s id
  finish-knows s when r none t id v k e = absurd (ground (arith, e))
  finish-knows s when r (some (u, b)) t id v k e =
      subst (λ (x : Server f × ℕ). knows x.0 id ≡ knows s id) (some-injective _ _ e)
        (finish_round-knows when r u b id v ∙ k id)

  -- What a round's message of a client does to the knowledge of one job.
  abbrev pub known_after_client : Server f → ℕ → Option (ℕ × Message) → ℕ → Bool
  known_after_client s uuid none id = knows s id
  known_after_client s uuid (some (client, msg)) id =
      if msg.is_valid then known_after s uuid msg msg.service_type id else knows s id

  serve_client-knows :
      (s : Server f) (uuid : ℕ) (m : Option (ℕ × Message)) (t : Server f) (id : ℕ)
      → Inv s
      → serve_client s uuid m ≡ some t
      → knows t id ≡ known_after_client s uuid m id
  unfolding serve_client
  serve_client-knows s uuid none t id v e = ap (λ u. knows u id) (sym (some-injective _ _ e))
  serve_client-knows s uuid (some (client, msg)) t id v e =
      determine_client_response-knows s client uuid msg t id v e

  known_polled :
      (s : Server f) (time uuid : ℕ) (m : Option (ℕ × Message)) (id : ℕ)
      → known_after_client (note_poll s time) uuid m id ≡ known_after_client s uuid m id
  unfolding note_poll
  known_polled s time uuid none id = refl
  known_polled s time uuid (some (client, msg)) id = same msg.is_valid msg.service_type
    where
      same :
          (b : Bool) (service : ServiceType)
          → (if b then known_after (note_poll s time) uuid msg service id else knows s id)
            ≡ (if b then known_after s uuid msg service id else knows s id)
      same b make_mesh = refl
      same b retrieve_result = refl
      same b remus.Common.ServiceTypes.terminate_job = refl
      same b _ = refl

  -- If the server's queue is well formed, its cache sound and no job both queued and active and
  -- the round's uuid is new to it, then a round that returns adds and takes away no job but by its
  -- message of a client: a valid MAKE_MESH adds the uuid, a valid RETRIEVE_RESULT takes away the
  -- job of the message if that is active with a result, and a valid TERMINATE_JOB takes it away if
  -- it is queued. No message of a worker, no expiry, purge or assignment loses or makes up a job.
  pub round-knows :
      (s : Server f) (when : ℕ) (r : Round) (t : Server f × ℕ) (id : ℕ)
      → knows s r.uuid ≡ false
      → Inv s
      → round s when r ≡ some t
      → knows t.0 id ≡ known_after_client s r.uuid r.from_client id
  unfolding round note_poll
  round-knows s when r t id fresh v e =
      let polled = note_poll s r.poll_time in
      let (served, c, d) = round-served s when r t e in
      finish-knows served when r (serve_worker served r.handler_time r.from_worker) t id
        (serve_worker-Keeps served r.handler_time r.from_worker (
          Returns-some Inv (serve_client polled r.uuid r.from_client) served
            (serve_client-Inv polled r.uuid r.from_client fresh v) c))
        (serve_worker-KnowsAs served r.handler_time r.from_worker) d
      ∙ serve_client-knows polled r.uuid r.from_client served id v c
      ∙ known_polled s r.poll_time r.uuid r.from_client id
