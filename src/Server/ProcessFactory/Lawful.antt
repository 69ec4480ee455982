-- ===== src/Server/ProcessFactory/Lawful.antt =====
-- remus/server/WorkerFactory.cxx: what the factory lists, and when it creates a worker.
use remus.Prelude.{
  ℕ, suc, false, not, ◌++◌, length, remove_if, ◌≡◌, refl, ◌∙◌, Bool, true, ◌&&◌, ◌||◌, List, [],
  ◌∷◌, arith, length-append, ltb, inl, inr, Option-cases, Bool-cases, or_false,
}
use remus.Std.Set
use remus.Std.Set.{contains, contains-insert}
use remus.Common.MeshIoType
use remus.Common.MeshIoType.{MeshIoType, mesh_io_type_ord}
use remus.Proto.JobRequirements
use remus.Proto.JobRequirements.{JobRequirements, requirements_ord, eq-mesh_types}
use remus.Server.Factory.{IsLawful, live_on_factory_deletion, kill_on_factory_deletion}
use remus.Server.ProcessFactory.{
  ProcessWorkerFactory, RunningProcessInfo, FactoryWorkerSpecification, support_job_reqs,
  find_worker_path, find_all_workers_iotypes, find_all_matching_workers, supported_io_types,
  worker_requirements, is_some, have_support, update_worker_count, current_worker_count,
  create_worker, add_worker, as_worker_factory, arguments_of,
}
use remus.Common.ExecuteProcess

contains-matching :
    (reqs : JobRequirements) (type : MeshIoType) (is : List FactoryWorkerSpecification)
    (found : List JobRequirements)
    → contains reqs (find_all_matching_workers type is found) ≡ (
        (is_some (find_worker_path reqs is) && MeshIoType.eq reqs.mesh_types type)
        || contains reqs found)
unfolding find_all_matching_workers find_worker_path support_job_reqs
contains-matching reqs type [] found = refl
contains-matching reqs type (i ∷ is) found = ground (
  arith,
  contains-matching reqs type is (Set.insert i.requirements found),
  contains-matching reqs type is found,
  contains-insert i.requirements reqs found,
  eq-mesh_types i.requirements reqs type,
)

contains-iotypes :
    (type : MeshIoType) (is : List FactoryWorkerSpecification) (found : List MeshIoType)
    → contains type found ≡ true
    → contains type (find_all_workers_iotypes is found) ≡ true
unfolding find_all_workers_iotypes
contains-iotypes type [] found h = h
contains-iotypes type (i ∷ is) found h =
    contains-iotypes type is (Set.insert i.requirements.mesh_types found)
      (contains-insert i.requirements.mesh_types type found ∙ ground (arith, h))

supported-iotypes :
    (reqs : JobRequirements) (is : List FactoryWorkerSpecification) (found : List MeshIoType)
    → is_some (find_worker_path reqs is) ≡ true
    → contains reqs.mesh_types (find_all_workers_iotypes is found) ≡ true
unfolding find_all_workers_iotypes find_worker_path support_job_reqs
supported-iotypes reqs [] found h = absurd (ground (arith, h))
supported-iotypes reqs (i ∷ is) found h =
    elim (Bool-cases (JobRequirements.eq i.requirements reqs)) [
      | inl e ↦ contains-iotypes reqs.mesh_types is (Set.insert i.requirements.mesh_types found) (
          contains-insert i.requirements.mesh_types reqs.mesh_types found
          ∙ ground (
            arith,
            e,
            eq-mesh_types i.requirements reqs reqs.mesh_types,
            mesh_io_type_ord.eq_refl reqs.mesh_types,
          ))
      | inr e ↦ supported-iotypes reqs is (Set.insert i.requirements.mesh_types found) (rw e at h)
    ]

add_worker-count :
    (f : ProcessWorkerFactory) (w : FactoryWorkerSpecification)
    → ((add_worker f w kill_on_factory_deletion).1 ≡ true)
      × (current_worker_count (add_worker f w kill_on_factory_deletion).0
          ≡ suc (current_worker_count f))
unfolding add_worker
add_worker-count f w = (refl, length-append f.current_processes _ ∙ omega arith)

create_worker-count :
    (alive : ℕ → Bool) (f : ProcessWorkerFactory) (reqs : JobRequirements)
    → ((create_worker alive f reqs kill_on_factory_deletion).1 ≡ (
        have_support f reqs
        && ltb (current_worker_count (update_worker_count alive f)) f.max_workers))
      × ((create_worker alive f reqs kill_on_factory_deletion).1 ≡ true
          → current_worker_count (create_worker alive f reqs kill_on_factory_deletion).0
            ≡ suc (current_worker_count (update_worker_count alive f)))
unfolding create_worker have_support
create_worker-count alive f reqs = elim (Option-cases (find_worker_path reqs f.possible_workers)) [
  | inl e ↦ ground (arith, e)
  | inr (w, e) ↦ ground (arith, e, add_worker-count (update_worker_count alive f) w)
]

-- The process that `add_worker` starts.
abbrev new_process : ProcessWorkerFactory → FactoryWorkerSpecification → RunningProcessInfo
new_process f w = record {
  process = f.started;
  executes =
      record (ExecuteProcess.make w.execution_path (arguments_of f w) w.environment_variables) {
        created = true;
      };
  lifespan = kill_on_factory_deletion;
}

-- A worker is created if and only if it is to end with the factory, its requirements are supported and,
-- once the dead processes are forgotten, fewer than the allowed number are left. Then the processes are
-- those that are alive, in their order, and a new one behind them.
pub create_worker_lem :
    (alive : ℕ → Bool) (f : ProcessWorkerFactory) (reqs : JobRequirements)
    → ((create_worker alive f reqs live_on_factory_deletion).1 ≡ false)
      × ((create_worker alive f reqs kill_on_factory_deletion).1 ≡ (
          have_support f reqs
          && ltb
              (length (remove_if (λ q. not (alive q.process)) f.current_processes))
              f.max_workers))
      × ((create_worker alive f reqs kill_on_factory_deletion).1 ≡ true
          → (p : RunningProcessInfo) × (p.process ≡ f.started)
            × ((create_worker alive f reqs kill_on_factory_deletion).0.current_processes
                ≡ remove_if (λ q. not (alive q.process)) f.current_processes ++ p ∷ []))
unfolding create_worker have_support update_worker_count add_worker arguments_of ExecuteProcess.make
create_worker_lem alive f reqs = elim (Option-cases (find_worker_path reqs f.possible_workers)) [
  | inl e ↦
      (ground (arith, e), (create_worker-count alive f reqs).0, λ h. absurd (ground (arith, e, h)))
  | inr (w, e) ↦ (
    ground (arith, e),
    (create_worker-count alive f reqs).0,
    λ h. let g = update_worker_count alive f in (new_process g w, refl, ground (arith, e, h)),
  )
]

pub as_worker_factory-IsLawful : (alive : ℕ → ℕ → Bool) → IsLawful (as_worker_factory alive)
unfolding as_worker_factory worker_requirements supported_io_types have_support contains
as_worker_factory-IsLawful alive = record {
  listed = λ s type reqs.
      contains-matching reqs type s.0.possible_workers []
      ∙ or_false (have_support s.0 reqs && MeshIoType.eq reqs.mesh_types type);
  typed = λ s reqs h. supported-iotypes reqs s.0.possible_workers [] h;
  created_supported = λ s reqs h. ground (arith, h, (create_worker-count (alive s.1) s.0 reqs).0);
  created_within = λ s reqs h. ground (arith, h, create_worker-count (alive s.1) s.0 reqs);
}
