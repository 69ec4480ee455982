-- ===== src/Server/Factory.antt =====
-- remus/server/WorkerFactoryBase.h: the interface by which the server launches workers. The server
-- is given an implementation, its own or the user's; the operations may change its state.
use remus.Prelude.{ℕ, ◌≡◌, ◌≤◌, Bool, true, ◌&&◌, List}
use remus.Std.Set.{contains}
use remus.Common.MeshIoType
use remus.Common.MeshIoType.{MeshIoType, mesh_io_type_ord}
use remus.Proto.JobRequirements.{JobRequirements, requirements_ord}

-- Whether a worker may outlive its factory.
pub data FactoryDeletionBehavior : Type 0 where
  live_on_factory_deletion kill_on_factory_deletion : FactoryDeletionBehavior

pub record WorkerFactory : Type 1 where
  pub State : Type 0
  pub supported_io_types : State → List MeshIoType
  pub worker_requirements : State → MeshIoType → List JobRequirements
  pub have_support : State → JobRequirements → Bool
  pub create_worker : State → JobRequirements → State × Bool
  pub update_worker_count : State → State
  pub set_max_worker_count : State → ℕ → State
  pub max_worker_count : State → ℕ
  pub current_worker_count : State → ℕ

-- What the server relies on: the requirements that a factory lists are those that it supports, sorted
-- by mesh type; the types are those with a requirement; a worker is created only where it is supported
-- and there is room for it.
pub record IsLawful (f : WorkerFactory) : Type 0 where
  pub listed :
      (s : f.State) (type : MeshIoType) (reqs : JobRequirements)
      → contains reqs (f.worker_requirements s type)
        ≡ (f.have_support s reqs && MeshIoType.eq reqs.mesh_types type)
  pub typed :
      (s : f.State) (reqs : JobRequirements)
      → f.have_support s reqs ≡ true
      → contains reqs.mesh_types (f.supported_io_types s) ≡ true
  pub created_supported :
      (s : f.State) (reqs : JobRequirements)
      → (f.create_worker s reqs).1 ≡ true
      → f.have_support s reqs ≡ true
  pub created_within :
      (s : f.State) (reqs : JobRequirements)
      → (f.create_worker s reqs).1 ≡ true
      → f.current_worker_count (f.create_worker s reqs).0 ≤ f.max_worker_count s
