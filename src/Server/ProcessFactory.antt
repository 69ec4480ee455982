-- ===== src/Server/ProcessFactory.antt =====
-- remus/server/WorkerFactory.h and WorkerFactory.cxx, with MaxWorkers and WorkerEndpoint of
-- remus/server/WorkerFactoryBase.h: workers that are processes. A process is named by the number of
-- processes that were started before it; the system's answers to `isAlive` are arguments.
use remus.Prelude.{
  ℕ, suc, Bool, true, false, not, Option, none, some, List, [], ◌∷◌, ◌++◌, length, ltb, is_nil,
  if◌then◌else◌, find_if, remove_if,
}
use remus.Std.Set
use remus.Common.ExecuteProcess
use remus.Common.ExecuteProcess.{ExecuteProcess, Variables}
use remus.Common.MeshIoType
use remus.Common.MeshIoType.{MeshIoType, mesh_io_type_ord}
use remus.Proto.JobRequirements
use remus.Proto.JobRequirements.{JobRequirements, requirements_ord}
use remus.Server.Factory.{
  WorkerFactory, FactoryDeletionBehavior, live_on_factory_deletion, kill_on_factory_deletion,
}
pub mod Lawful
pub mod History

pub record FactoryWorkerSpecification : Type 0 where
  pub requirements : JobRequirements
  pub execution_path : List ℕ
  pub extra_command_line_arguments : List (List ℕ)
  pub environment_variables : Variables
  pub is_valid : Bool

pub record RunningProcessInfo : Type 0 where
  pub process : ℕ
  pub executes : ExecuteProcess
  pub lifespan : FactoryDeletionBehavior

-- `Tracker` is opened; `started` counts the processes that were started.
pub record ProcessWorkerFactory : Type 0 where
  pub max_workers : ℕ
  pub worker_endpoint : List ℕ
  pub global_command_line_arguments : List (List ℕ)
  pub possible_workers : List FactoryWorkerSpecification
  pub current_processes : List RunningProcessInfo
  pub started : ℕ

-- The constructors, with what the search of the current directory found.
abbrev pub make : List FactoryWorkerSpecification → ProcessWorkerFactory
make found = record {
  max_workers = 1;
  worker_endpoint = [];
  global_command_line_arguments = [];
  possible_workers = found;
  current_processes = [];
  started = 0;
}

-- `found` is what the search of the directory yields.
unfoldable pub add_worker_search_directory :
    ProcessWorkerFactory → List FactoryWorkerSpecification → ProcessWorkerFactory
add_worker_search_directory f found = record f { possible_workers = f.possible_workers ++ found }

unfoldable pub add_command_line_argument : ProcessWorkerFactory → List ℕ → ProcessWorkerFactory
add_command_line_argument f argument = record f {
  global_command_line_arguments = f.global_command_line_arguments ++ argument ∷ [];
}

-- Of the base class.
unfoldable pub set_max_worker_count : ProcessWorkerFactory → ℕ → ProcessWorkerFactory
set_max_worker_count f count = record f { max_workers = count }

-- Of the base class, with the text of the end point.
unfoldable pub port_for_workers_to_use : ProcessWorkerFactory → List ℕ → ProcessWorkerFactory
port_for_workers_to_use f endpoint = record f { worker_endpoint = endpoint }

-- `support_JobReqs`.
unfoldable pub support_job_reqs : JobRequirements → FactoryWorkerSpecification → Bool
support_job_reqs reqs info = JobRequirements.eq info.requirements reqs

-- `find_worker_path`; `none` is the invalid worker.
unfoldable pub find_worker_path :
    JobRequirements → List FactoryWorkerSpecification → Option FactoryWorkerSpecification
unfolding find_if support_job_reqs
find_worker_path reqs container = find_if (support_job_reqs reqs) container

unfoldable pub find_all_workers_iotypes :
    List FactoryWorkerSpecification → List MeshIoType → List MeshIoType
unfolding Set.insert mesh_io_type_ord
find_all_workers_iotypes [] valid_io_types = valid_io_types
find_all_workers_iotypes (i ∷ is) valid_io_types =
    find_all_workers_iotypes is (Set.insert i.requirements.mesh_types valid_io_types)

unfoldable pub find_all_matching_workers :
    MeshIoType → List FactoryWorkerSpecification → List JobRequirements → List JobRequirements
unfolding Set.insert
find_all_matching_workers type [] valid_workers = valid_workers
find_all_matching_workers type (i ∷ is) valid_workers = find_all_matching_workers type is (
    if MeshIoType.eq i.requirements.mesh_types type
    then Set.insert i.requirements valid_workers
    else valid_workers)

unfoldable pub supported_io_types : ProcessWorkerFactory → List MeshIoType
supported_io_types f = find_all_workers_iotypes f.possible_workers []

unfoldable pub worker_requirements : ProcessWorkerFactory → MeshIoType → List JobRequirements
worker_requirements f type = find_all_matching_workers type f.possible_workers []

abbrev pub is_some {ℓ} : {A : Type ℓ} → Option A → Bool
is_some none = false
is_some (some a) = true

unfoldable pub have_support : ProcessWorkerFactory → JobRequirements → Bool
unfolding find_worker_path
have_support f reqs = is_some (find_worker_path reqs f.possible_workers)

unfoldable pub update_worker_count : (ℕ → Bool) → ProcessWorkerFactory → ProcessWorkerFactory
unfolding remove_if
update_worker_count alive f = record f {
  current_processes = remove_if (λ p. not (alive p.process)) f.current_processes;
}

abbrev pub current_worker_count : ProcessWorkerFactory → ℕ
current_worker_count f = length f.current_processes

unfoldable pub arguments_of : ProcessWorkerFactory → FactoryWorkerSpecification → List (List ℕ)
arguments_of f spec =
    (if not (is_nil f.worker_endpoint) then f.worker_endpoint ∷ [] else [])
    ++ f.global_command_line_arguments
    ++ spec.extra_command_line_arguments

-- `ep->execute()` is left to `ExecuteProcess.execute`.
unfoldable pub add_worker :
    ProcessWorkerFactory
    → FactoryWorkerSpecification
    → FactoryDeletionBehavior
    → ProcessWorkerFactory × Bool
unfolding arguments_of ExecuteProcess.make
add_worker f spec live_on_factory_deletion = (f, false)
add_worker f spec kill_on_factory_deletion = (
  record f {
    current_processes =
        f.current_processes
        ++ record {
          process = f.started;
          executes =
              record (ExecuteProcess.make spec.execution_path (arguments_of f spec)
                spec.environment_variables) { created = true };
          lifespan = kill_on_factory_deletion;
        }
          ∷ [];
    started = suc f.started;
  },
  true,
)

unfoldable pub create_worker :
    (ℕ → Bool)
    → ProcessWorkerFactory
    → JobRequirements
    → FactoryDeletionBehavior
    → ProcessWorkerFactory × Bool
unfolding find_worker_path update_worker_count add_worker
create_worker alive f reqs lifespan = elim (find_worker_path reqs f.possible_workers) [
  | none ↦ (f, false)
  | some w ↦
      let g = update_worker_count alive f in
      if ltb (current_worker_count g) g.max_workers then add_worker g w lifespan else (g, false)
]

-- `kill_on_deletion` on each process: those that the destructor kills.
unfoldable pub killed_on_deletion : (ℕ → Bool) → List RunningProcessInfo → List ℕ
killed_on_deletion alive [] = []
killed_on_deletion alive (p ∷ ps) =
    let rest = killed_on_deletion alive ps in
    elim p.lifespan [
      | live_on_factory_deletion ↦ rest
      | kill_on_factory_deletion ↦ if alive p.process then p.process ∷ rest else rest
    ]

-- What the server is given: the state counts the sweeps over the processes, and `alive n` is what the
-- system answers in the sweep `n`.
unfoldable pub as_worker_factory : (ℕ → ℕ → Bool) → WorkerFactory
unfolding create_worker update_worker_count have_support supported_io_types worker_requirements
    set_max_worker_count
as_worker_factory alive = record {
  State = ProcessWorkerFactory × ℕ;
  supported_io_types = λ s. supported_io_types s.0;
  worker_requirements = λ s. worker_requirements s.0;
  have_support = λ s. have_support s.0;
  create_worker = λ s reqs.
      let r = create_worker (alive s.1) s.0 reqs kill_on_factory_deletion in ((r.0, suc s.1), r.1);
  update_worker_count = λ s. (update_worker_count (alive s.1) s.0, suc s.1);
  set_max_worker_count = λ s count. (set_max_worker_count s.0 count, s.1);
  max_worker_count = λ s. s.0.max_workers;
  current_worker_count = λ s. current_worker_count s.0;
}
