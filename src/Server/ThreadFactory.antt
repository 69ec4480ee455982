-- ===== src/Server/ThreadFactory.antt =====
-- remus/server/ThreadWorkerFactory.h and ThreadWorkerFactory.cxx, with the endpoint of
-- remus/server/WorkerFactoryBase.h: workers that are threads of the server's process. `WorkerThread`
-- is the type of the functions that the user registers.
use remus.Prelude.{
  ℕ, Bool, true, false, ◌||◌, Option, none, some, List, [], ◌∷◌, leb, if◌then◌else◌,
}
use remus.Std.Set
use remus.Std.OrderedMap.{find, assign}
use remus.Common.MeshIoType
use remus.Common.MeshIoType.{MeshIoType, mesh_io_type_ord}
use remus.Proto.JobRequirements
use remus.Proto.JobRequirements.{JobRequirements, requirements_ord}
use remus.Server.Factory.{
  WorkerFactory, FactoryDeletionBehavior, live_on_factory_deletion, kill_on_factory_deletion,
}
pub mod Pool
pub mod Threads
pub mod Lawful
pub mod Launch
use Pool.{ThreadPool, number_of_active_threads, run_task}
use Pool

-- `std::bind(worker, requirements, endpoint)`.
pub record Task (WorkerThread : Type 0) : Type 0 where
  pub worker : WorkerThread
  pub requirements : JobRequirements
  pub endpoint : List ℕ

pub record ThreadWorkerFactory (WorkerThread : Type 0) : Type 0 where
  pub worker_endpoint : List ℕ
  pub worker_thread_types : List (JobRequirements × WorkerThread)
  pub pool : ThreadPool (Task WorkerThread)

module _ {WorkerThread : Type 0} where
  abbrev pub make : ThreadWorkerFactory WorkerThread
  make = record { worker_endpoint = []; worker_thread_types = []; pool = Pool.make 1 }

  unfoldable pub port_for_workers_to_use :
      ThreadWorkerFactory WorkerThread → List ℕ → ThreadWorkerFactory WorkerThread
  port_for_workers_to_use f endpoint = record f { worker_endpoint = endpoint }

  unfoldable pub io_types_of :
      List (JobRequirements × WorkerThread) → List MeshIoType → List MeshIoType
  unfolding Set.insert mesh_io_type_ord
  io_types_of [] s = s
  io_types_of (c ∷ cs) s = io_types_of cs (Set.insert c.0.mesh_types s)

  unfoldable pub supported_io_types : ThreadWorkerFactory WorkerThread → List MeshIoType
  unfolding io_types_of
  supported_io_types f = io_types_of f.worker_thread_types []

  unfoldable pub requirements_of :
      MeshIoType
      → List (JobRequirements × WorkerThread)
      → List JobRequirements
      → List JobRequirements
  unfolding Set.insert
  requirements_of type [] s = s
  requirements_of type (c ∷ cs) s =
      requirements_of type cs (if MeshIoType.eq c.0.mesh_types type then Set.insert c.0 s else s)

  unfoldable pub worker_requirements :
      ThreadWorkerFactory WorkerThread → MeshIoType → List JobRequirements
  unfolding requirements_of
  worker_requirements f type = requirements_of type f.worker_thread_types []

  unfoldable pub supports : List (JobRequirements × WorkerThread) → JobRequirements → Bool
  supports [] reqs = false
  supports (worker ∷ workers) reqs = JobRequirements.eq reqs worker.0 || supports workers reqs

  unfoldable pub have_support : ThreadWorkerFactory WorkerThread → JobRequirements → Bool
  unfolding supports
  have_support f reqs = supports f.worker_thread_types reqs

  unfoldable pub register_worker_type :
      ThreadWorkerFactory WorkerThread
      → JobRequirements
      → WorkerThread
      → ThreadWorkerFactory WorkerThread × Bool
  unfolding assign
  register_worker_type f requirements worker =
      (record f { worker_thread_types = assign requirements worker f.worker_thread_types }, true)

  unfoldable pub set_max_worker_count :
      ThreadWorkerFactory WorkerThread → ℕ → ThreadWorkerFactory WorkerThread
  unfolding Pool.resize
  set_max_worker_count f count = record f { pool = Pool.resize f.pool count }

  abbrev pub max_worker_count : ThreadWorkerFactory WorkerThread → ℕ
  max_worker_count f = f.pool.pool_size

  abbrev pub current_worker_count : ThreadWorkerFactory WorkerThread → ℕ
  current_worker_count f = number_of_active_threads f.pool

  unfoldable pub add_worker :
      ThreadWorkerFactory WorkerThread → Task WorkerThread → ThreadWorkerFactory WorkerThread × Bool
  unfolding run_task
  add_worker f task = let r = run_task f.pool task in (record f { pool = r.0 }, r.1)

  unfoldable pub launch_worker_thread :
      ThreadWorkerFactory WorkerThread → JobRequirements → ThreadWorkerFactory WorkerThread × Bool
  unfolding add_worker find
  launch_worker_thread f requirements =
      if leb (max_worker_count f) (current_worker_count f)
      then (f, false)
      else elim (find requirements f.worker_thread_types) [
        | none ↦ (f, false)
        | some w ↦
            add_worker f
              (record { worker = w; requirements = requirements; endpoint = f.worker_endpoint })
      ]

  unfoldable pub create_worker :
      ThreadWorkerFactory WorkerThread
      → JobRequirements
      → FactoryDeletionBehavior
      → ThreadWorkerFactory WorkerThread × Bool
  unfolding launch_worker_thread
  create_worker f reqs live_on_factory_deletion = (f, false)
  create_worker f reqs kill_on_factory_deletion = launch_worker_thread f reqs

-- What the server is given. `updateWorkerCount` does nothing; the server asks for workers that end
-- with the factory.
unfoldable pub as_worker_factory : Type 0 → WorkerFactory
unfolding supported_io_types worker_requirements have_support create_worker set_max_worker_count
as_worker_factory WorkerThread = record {
  State = ThreadWorkerFactory WorkerThread;
  supported_io_types = supported_io_types;
  worker_requirements = worker_requirements;
  have_support = have_support;
  create_worker = λ f reqs. create_worker f reqs kill_on_factory_deletion;
  update_worker_count = λ f. f;
  set_max_worker_count = set_max_worker_count;
  max_worker_count = max_worker_count;
  current_worker_count = current_worker_count;
}
