-- ===== src/Server/ProcessFactory/History.antt =====
-- remus/server/WorkerFactory.cxx: the processes of a factory over its life.
use remus.Prelude.{
  ℕ, ◌≤◌, ◌<◌, ◌≡◌, refl, Bool, not, List, [], ◌∷◌, ◌++◌, map, arith, length, length-append,
  remove_if, inl, inr, Option-cases,
}
use remus.Proto.JobRequirements.{JobRequirements}
use remus.Server.Factory.{
  FactoryDeletionBehavior, live_on_factory_deletion, kill_on_factory_deletion,
}
use remus.Server.ProcessFactory.{
  ProcessWorkerFactory, FactoryWorkerSpecification, RunningProcessInfo, make, find_worker_path,
  update_worker_count, current_worker_count, create_worker, add_worker, killed_on_deletion,
  add_worker_search_directory, add_command_line_argument, set_max_worker_count,
  port_for_workers_to_use,
}

-- What happens to a factory. Each operation that looks at the processes has its own answers of the
-- system.
pub data Step : ProcessWorkerFactory → ProcessWorkerFactory → Type 0 where
  creates :
      (f : ProcessWorkerFactory) (alive : ℕ → Bool) (reqs : JobRequirements)
      (lifespan : FactoryDeletionBehavior)
      → Step f (create_worker alive f reqs lifespan).0
  updates : (f : ProcessWorkerFactory) (alive : ℕ → Bool) → Step f (update_worker_count alive f)
  searches :
      (f : ProcessWorkerFactory) (found : List FactoryWorkerSpecification)
      → Step f (add_worker_search_directory f found)
  adds :
      (f : ProcessWorkerFactory) (argument : List ℕ) → Step f (add_command_line_argument f argument)
  limits : (f : ProcessWorkerFactory) (count : ℕ) → Step f (set_max_worker_count f count)
  ports :
      (f : ProcessWorkerFactory) (endpoint : List ℕ) → Step f (port_for_workers_to_use f endpoint)

-- A factory's history in which the allowed number of workers is never above `limit`.
pub data Reach (limit : ℕ) : ProcessWorkerFactory → Type 0 where
  constructed : (found : List FactoryWorkerSpecification) → Reach limit (make found)
  steps :
      {f g : ProcessWorkerFactory}
      → Reach limit f
      → Step f g
      → g.max_workers ≤ limit
      → Reach limit g

AllKilled : List RunningProcessInfo → Type 0
AllKilled [] = Unit
AllKilled (p ∷ ps) = (p.lifespan ≡ kill_on_factory_deletion) × AllKilled ps

AllKilled-remove_if :
    (q : RunningProcessInfo → Bool) (ps : List RunningProcessInfo)
    → AllKilled ps
    → AllKilled (remove_if q ps)
unfolding AllKilled remove_if
AllKilled-remove_if q [] v = tt
AllKilled-remove_if q (p ∷ ps) v = ground (arith, AllKilled-remove_if q ps v.1)

AllKilled-append :
    (ps : List RunningProcessInfo) (p : RunningProcessInfo)
    → AllKilled ps
    → p.lifespan ≡ kill_on_factory_deletion
    → AllKilled (ps ++ p ∷ [])
unfolding AllKilled
AllKilled-append [] p v e = (e, tt)
AllKilled-append (q ∷ ps) p v e = (v.0, AllKilled-append ps p v.1 e)

length-remove_if :
    (q : RunningProcessInfo → Bool) (ps : List RunningProcessInfo)
    → length (remove_if q ps) ≤ length ps
unfolding remove_if
length-remove_if q [] = omega arith
length-remove_if q (p ∷ ps) = ground (arith, length-remove_if q ps)

abbrev Bounded : ℕ → ProcessWorkerFactory → Type 0
Bounded limit f = AllKilled f.current_processes × (current_worker_count f ≤ limit)

update-Bounded :
    (limit : ℕ) (alive : ℕ → Bool) (f : ProcessWorkerFactory)
    → Bounded limit f
    → Bounded limit (update_worker_count alive f)
unfolding update_worker_count
update-Bounded limit alive f v = (
  AllKilled-remove_if (λ p. not (alive p.process)) f.current_processes v.0,
  omega (arith, length-remove_if (λ p. not (alive p.process)) f.current_processes, v.1),
)

add-Bounded :
    (limit : ℕ) (f : ProcessWorkerFactory) (w : FactoryWorkerSpecification)
    (lifespan : FactoryDeletionBehavior)
    → Bounded limit f
    → current_worker_count f < limit
    → Bounded limit (add_worker f w lifespan).0
unfolding add_worker
add-Bounded limit f w live_on_factory_deletion v h = v
add-Bounded limit f w kill_on_factory_deletion v h = (
  AllKilled-append f.current_processes _ v.0 refl,
  omega (
    arith,
    length-append f.current_processes
        (record { process = f.started; executes = _; lifespan = kill_on_factory_deletion } ∷ []),
    h,
  ),
)

create-Bounded :
    (limit : ℕ) (alive : ℕ → Bool) (f : ProcessWorkerFactory) (reqs : JobRequirements)
    (lifespan : FactoryDeletionBehavior)
    → f.max_workers ≤ limit
    → Bounded limit f
    → Bounded limit (create_worker alive f reqs lifespan).0
unfolding create_worker
create-Bounded limit alive f reqs lifespan h v =
    elim (Option-cases (find_worker_path reqs f.possible_workers)) [
      | inl e ↦ ground (arith, e, v)
      | inr (w, e) ↦
          let g = update_worker_count alive f in
          ground (arith, e, update-Bounded limit alive f v, add-Bounded limit g w lifespan, h)
    ]

step-Bounded :
    {limit : ℕ} {f g : ProcessWorkerFactory}
    → Step f g
    → f.max_workers ≤ limit
    → Bounded limit f
    → Bounded limit g
unfolding add_worker_search_directory add_command_line_argument set_max_worker_count
    port_for_workers_to_use
step-Bounded (creates f alive reqs lifespan) h v = create-Bounded _ alive f reqs lifespan h v
step-Bounded (updates f alive) h v = update-Bounded _ alive f v
step-Bounded (searches f found) h v = v
step-Bounded (adds f argument) h v = v
step-Bounded (limits f count) h v = v
step-Bounded (ports f endpoint) h v = v

reach-Bounded :
    {limit : ℕ} {f : ProcessWorkerFactory}
    → Reach limit f
    → 1 ≤ limit
    → (f.max_workers ≤ limit) × Bounded limit f
unfolding AllKilled
reach-Bounded (constructed found) h = (h, (tt, omega arith))
reach-Bounded (steps r s k) h = let v = reach-Bounded r h in (k, step-Bounded s v.0 v.1)

killed_if-AllKilled :
    (alive : ℕ → Bool) (ps : List RunningProcessInfo)
    → AllKilled ps
    → killed_on_deletion alive ps ≡ map (λ p. p.process) (remove_if (λ p. not (alive p.process)) ps)
unfolding AllKilled killed_on_deletion remove_if
killed_if-AllKilled alive [] v = refl
killed_if-AllKilled alive (p ∷ ps) v = ground (arith, v.0, killed_if-AllKilled alive ps v.1)

-- A factory that was never allowed more than `limit` workers, `limit` being at least one, tracks at most
-- `limit` processes, whatever requests came and whatever the system answered; and its destructor kills
-- every process of those that is alive then, in their order, and no other.
pub reach-killed_on_deletion :
    {limit : ℕ} {f : ProcessWorkerFactory} (alive : ℕ → Bool)
    → Reach limit f
    → 1 ≤ limit
    → (current_worker_count f ≤ limit)
      × (killed_on_deletion alive f.current_processes
          ≡ map (λ p. p.process) (remove_if (λ p. not (alive p.process)) f.current_processes))
reach-killed_on_deletion {f = f} alive r h =
    let v = reach-Bounded r h in (v.1.1, killed_if-AllKilled alive f.current_processes v.1.0)
