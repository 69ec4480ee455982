-- ===== src/Server/WorkerPool.antt =====
-- remus/server/detail/WorkerPool.h and WorkerPool.cxx: the workers that registered, each with the
-- requirements that it meets and the number of jobs that it asked for. `takesJob` runs only where
-- that number is positive, so a natural number serves; it stays below 2 ^ 31.
pub mod Take
pub mod Registry
use remus.Prelude.{
  ℕ, suc, ◌+◌, ◌-◌, ◌≡◌, Bool, true, false, not, ◌&&◌, ◌||◌, Option, none, some, List, [], ◌∷◌,
  ◌++◌, arith, ltb, ◌==◌, if◌then◌else◌, remove_if,
}
use remus.Std.Order.{nat_ord}
use remus.Std.Set
use remus.Common.MeshIoType
use remus.Common.MeshIoType.{MeshIoType, mesh_io_type_ord}
use remus.Proto.JobRequirements
use remus.Proto.JobRequirements.{JobRequirements, requirements_ord}
use remus.Server.SocketMonitor
use remus.Server.SocketMonitor.{SocketMonitor}

pub record WorkerInfo : Type 0 where
  pub number_of_desired_jobs : ℕ
  pub reqs : JobRequirements
  pub address : ℕ
  pub is_responsive : Bool

abbrev pub WorkerPool : Type 0
WorkerPool = List WorkerInfo

unfoldable pub make_worker : ℕ → JobRequirements → WorkerInfo
make_worker address reqs = record {
  number_of_desired_jobs = 0;
  reqs = reqs;
  address = address;
  is_responsive = true;
}

abbrev pub is_waiting_for_work : WorkerInfo → Bool
is_waiting_for_work w = ltb 0 w.number_of_desired_jobs && w.is_responsive

-- The loops stop at the first worker that is found.
unfoldable pub have_waiting_worker : WorkerPool → JobRequirements → Bool
have_waiting_worker [] reqs = false
have_waiting_worker (w ∷ ws) reqs =
    (JobRequirements.eq w.reqs reqs && is_waiting_for_work w) || have_waiting_worker ws reqs

unfoldable pub have_worker : WorkerPool → ℕ → JobRequirements → Bool
have_worker [] address reqs = false
have_worker (w ∷ ws) address reqs =
    (w.address == address && JobRequirements.eq w.reqs reqs) || have_worker ws address reqs

unfoldable pub add_worker : WorkerPool → ℕ → JobRequirements → WorkerPool
unfolding make_worker
add_worker pool address reqs =
    if not (have_worker pool address reqs) then pool ++ (make_worker address reqs ∷ []) else pool

unfoldable pub supported_io_types_from : List MeshIoType → WorkerPool → List MeshIoType
supported_io_types_from found [] = found
supported_io_types_from found (w ∷ ws) =
    supported_io_types_from (if w.is_responsive then Set.insert w.reqs.mesh_types found else found)
      ws

unfoldable pub supported_io_types : WorkerPool → List MeshIoType
unfolding supported_io_types_from
supported_io_types pool = supported_io_types_from [] pool

unfoldable pub waiting_worker_requirements_from :
    List JobRequirements → WorkerPool → MeshIoType → List JobRequirements
waiting_worker_requirements_from found [] type = found
waiting_worker_requirements_from found (w ∷ ws) type =
    waiting_worker_requirements_from
      (if MeshIoType.eq w.reqs.mesh_types type && is_waiting_for_work w
        then Set.insert w.reqs found
        else found)
      ws type

unfoldable pub waiting_worker_requirements : WorkerPool → MeshIoType → List JobRequirements
unfolding waiting_worker_requirements_from
waiting_worker_requirements pool type = waiting_worker_requirements_from [] pool type

-- The loop of `readyForWork`, with `count`.
unfoldable pub ready_from : ℕ → WorkerPool → ℕ → JobRequirements → WorkerPool × ℕ
ready_from count [] address reqs = ([], count)
ready_from count (w ∷ ws) address reqs =
    let found = w.address == address && JobRequirements.eq w.reqs reqs in
    let (rest, total) = ready_from (if found then count + 1 else count) ws address reqs in
    (
      (if found
            then record w {
              is_responsive = true;
              number_of_desired_jobs = w.number_of_desired_jobs + 1;
            }
            else w)
          ∷ rest,
      total,
    )

unfoldable pub ready_for_work : WorkerPool → ℕ → JobRequirements → WorkerPool × Bool
unfolding ready_from
ready_for_work pool address reqs =
    let (after, count) = ready_from 0 pool address reqs in (after, ltb 0 count)

-- `takesJob` on the first worker that waits for such a job.
unfoldable pub take_first : WorkerPool → JobRequirements → Option (WorkerInfo × WorkerPool)
take_first [] reqs = none
take_first (w ∷ ws) reqs =
    if JobRequirements.eq w.reqs reqs && is_waiting_for_work w
    then some (w, record w { number_of_desired_jobs = w.number_of_desired_jobs - 1 } ∷ ws)
    else elim (take_first ws reqs) [ none ↦ none | some (v, vs) ↦ some (v, w ∷ vs) ]

-- `std::rotate(begin, begin + 1, end)`.
unfoldable pub rotate : WorkerPool → WorkerPool
rotate [] = []
rotate (w ∷ ws) = ws ++ (w ∷ [])

-- The identity is the empty one, 0, where no worker was found.
unfoldable pub take_worker : WorkerPool → JobRequirements → WorkerPool × ℕ
unfolding take_first rotate
take_worker pool reqs = elim (take_first pool reqs) [
  | none ↦ (pool, 0)
  | some (w, after) ↦ (rotate after, w.address)
]

-- The loop over the workers that are not dead; the clock reads `now i` at its turn `i`.
unfoldable pub mark_responsive : SocketMonitor → (ℕ → ℕ) → ℕ → WorkerPool → WorkerPool
mark_responsive monitor now i [] = []
mark_responsive monitor now i (w ∷ ws) =
    record w { is_responsive = not (SocketMonitor.is_unresponsive monitor (now i) w.address) }
    ∷ mark_responsive monitor now (suc i) ws

unfoldable pub purge_dead_workers : WorkerPool → SocketMonitor → (ℕ → ℕ) → WorkerPool
unfolding mark_responsive
purge_dead_workers pool monitor now =
    mark_responsive monitor now 0 (remove_if (λ w. SocketMonitor.is_dead monitor w.address) pool)

unfoldable pub addresses_if : (WorkerInfo → Bool) → List ℕ → WorkerPool → List ℕ
addresses_if p found [] = found
addresses_if p found (w ∷ ws) =
    addresses_if p (if p w then Set.insert w.address found else found) ws

unfoldable pub all_workers : WorkerPool → List ℕ
all_workers pool = addresses_if (λ w. true) [] pool

unfoldable pub all_responsive_workers : WorkerPool → List ℕ
all_responsive_workers pool = addresses_if (λ w. w.is_responsive) [] pool

unfoldable pub all_workers_wanting_work : WorkerPool → List ℕ
all_workers_wanting_work pool = addresses_if is_waiting_for_work [] pool
