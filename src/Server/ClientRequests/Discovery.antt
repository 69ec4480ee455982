-- ===== src/Server/ClientRequests/Discovery.antt =====
-- remus/server/Server.cxx: what clients learn before they submit a job agrees, request by request.
use remus.Prelude.{◌<◌, ◌≡◌, refl, ap, ◌∙◌, true, ◌&&◌, ◌||◌, List, [], ◌∷◌, arith, ltb, length}
use remus.Std.Set
use remus.Std.Order.{Ord}
use remus.Std.Set.{contains, contains-insert}
use remus.Common.MeshIoType
use remus.Common.MeshIoType.{MeshIoType, mesh_io_type_ord}
use remus.Proto.JobRequirements.{JobRequirements, requirements_ord, eq-mesh_types}
use remus.Server.Factory.{WorkerFactory, IsLawful}
use remus.Server.WorkerPool.{
  WorkerPool, waiting_worker_requirements, waiting_worker_requirements_from, have_waiting_worker,
}
use remus.Server.Message.{Message, Reply, answer, requirements_set}
use remus.Server.State.{Server}
use remus.Server.ClientRequests.{insert_all, can_mesh, can_mesh_reqs, mesh_requirements}

module _ {A : Type 0} ⦃o : Ord A⦄ where
  pub contains-insert_all :
      (a : A) (s xs : List A) → contains a (insert_all s xs) ≡ (contains a s || contains a xs)
  unfolding insert_all contains
  contains-insert_all a s [] = ground arith
  contains-insert_all a s (x ∷ xs) =
      ground (arith, contains-insert_all a (Set.insert x s) xs, contains-insert x a s)

  insert-positive : (a : A) (s : List A) → ltb 0 (length (Set.insert a s)) ≡ true
  unfolding Set.insert
  insert-positive a [] = refl
  insert-positive a (x ∷ xs) = ground arith

  positive-insert_all :
      (s xs : List A) → ltb 0 (length (insert_all s xs)) ≡ (ltb 0 (length s) || ltb 0 (length xs))
  unfolding insert_all
  positive-insert_all s [] = ground arith
  positive-insert_all s (x ∷ xs) =
      ground (arith, positive-insert_all (Set.insert x s) xs, insert-positive x s)

-- The requirements that the pool lists for a mesh type are those for which a worker waits.
contains-waiting :
    (reqs : JobRequirements) (type : MeshIoType) (found : List JobRequirements) (ws : WorkerPool)
    → contains reqs (waiting_worker_requirements_from found ws type)
      ≡ ((have_waiting_worker ws reqs && MeshIoType.eq reqs.mesh_types type) || contains reqs found)
unfolding waiting_worker_requirements_from have_waiting_worker
contains-waiting reqs type found [] = refl
contains-waiting reqs type found (w ∷ ws) = ground (
  arith,
  contains-waiting reqs type (Set.insert w.reqs found) ws,
  contains-waiting reqs type found ws,
  contains-insert w.reqs reqs found,
  eq-mesh_types w.reqs reqs type,
)

-- The requirements in a reply.
abbrev pub listed : Reply → List JobRequirements
listed (requirements_set s) = s
listed _ = []

module _ {f : WorkerFactory} (law : IsLawful f) where
  open law use {listed as factory_listed}

  -- The server of a factory that keeps its laws and may run a worker answers that it can mesh some
  -- requirements if and only if it lists them for their mesh type. `msg` asks the first question and
  -- `ask` the second, for the mesh type of the requirements.
  pub can_mesh_reqs-listed :
      (s : Server f) (msg ask : Message)
      → 0 < f.max_worker_count s.worker_factory
      → ask.mesh_io_type ≡ msg.to_requirements.mesh_types
      → can_mesh_reqs s msg
        ≡ answer (contains msg.to_requirements (listed (mesh_requirements s ask)))
  unfolding can_mesh_reqs mesh_requirements waiting_worker_requirements contains mesh_io_type_ord
  can_mesh_reqs-listed s msg ask h e =
      let reqs = msg.to_requirements in
      let typed : MeshIoType.eq reqs.mesh_types ask.mesh_io_type ≡ true =
        ap (MeshIoType.eq reqs.mesh_types) e ∙ mesh_io_type_ord.eq_refl reqs.mesh_types in
      ap answer (
        ground (
          arith,
          h,
          contains-insert_all reqs (f.worker_requirements s.worker_factory ask.mesh_io_type)
              (waiting_worker_requirements_from [] s.worker_pool ask.mesh_io_type),
          contains-waiting reqs ask.mesh_io_type [] s.worker_pool,
          factory_listed s.worker_factory ask.mesh_io_type reqs,
          typed,
        ))

  -- It answers that it can mesh a type if and only if it lists requirements for it.
  pub can_mesh-listed :
      (s : Server f) (ask : Message)
      → 0 < f.max_worker_count s.worker_factory
      → can_mesh s ask ≡ answer (ltb 0 (length (listed (mesh_requirements s ask))))
  unfolding can_mesh mesh_requirements
  can_mesh-listed s ask h = ap answer (
      ground (
        arith,
        h,
        positive-insert_all (f.worker_requirements s.worker_factory ask.mesh_io_type)
            (waiting_worker_requirements s.worker_pool ask.mesh_io_type),
      ))
