-- ===== src/Server/ThreadFactory/Lawful.antt =====
-- remus/server/ThreadWorkerFactory.cxx: what the factory lists.
use remus.Prelude.{
  ◌≡◌, refl, ◌∙◌, true, ◌&&◌, ◌||◌, List, [], ◌∷◌, arith, inl, inr, Bool-cases, or_false,
}
use remus.Std.Set
use remus.Std.Set.{contains, contains-insert}
use remus.Std.Order.{eq_comm}
use remus.Common.MeshIoType
use remus.Common.MeshIoType.{MeshIoType, mesh_io_type_ord}
use remus.Proto.JobRequirements
use remus.Proto.JobRequirements.{JobRequirements, requirements_ord, eq-mesh_types}
use remus.Server.Factory.{IsLawful}
use remus.Server.ThreadFactory.{
  io_types_of, requirements_of, supports, supported_io_types, worker_requirements, have_support,
  create_worker, as_worker_factory,
}
use remus.Server.ThreadFactory.Launch.{launch_worker_thread_lem, launch_worker_thread-within}

module _ {WorkerThread : Type 0} where
  contains-requirements_of :
      (reqs : JobRequirements) (type : MeshIoType) (cs : List (JobRequirements × WorkerThread))
      (found : List JobRequirements)
      → contains reqs (requirements_of type cs found)
        ≡ ((supports cs reqs && MeshIoType.eq reqs.mesh_types type) || contains reqs found)
  unfolding requirements_of supports
  contains-requirements_of reqs type [] found = refl
  contains-requirements_of reqs type (c ∷ cs) found = ground (
    arith,
    contains-requirements_of reqs type cs (Set.insert c.0 found),
    contains-requirements_of reqs type cs found,
    contains-insert c.0 reqs found,
    eq-mesh_types c.0 reqs type,
    eq_comm c.0 reqs,
  )

  contains-io_types_of :
      (type : MeshIoType) (cs : List (JobRequirements × WorkerThread)) (found : List MeshIoType)
      → contains type found ≡ true
      → contains type (io_types_of cs found) ≡ true
  unfolding io_types_of
  contains-io_types_of type [] found h = h
  contains-io_types_of type (c ∷ cs) found h =
      contains-io_types_of type cs (Set.insert c.0.mesh_types found)
        (contains-insert c.0.mesh_types type found ∙ ground (arith, h))

  supported-io_types_of :
      (reqs : JobRequirements) (cs : List (JobRequirements × WorkerThread))
      (found : List MeshIoType)
      → supports cs reqs ≡ true
      → contains reqs.mesh_types (io_types_of cs found) ≡ true
  unfolding io_types_of supports
  supported-io_types_of reqs [] found h = absurd (ground (arith, h))
  supported-io_types_of reqs (c ∷ cs) found h = elim (Bool-cases (JobRequirements.eq reqs c.0)) [
    | inl e ↦ contains-io_types_of reqs.mesh_types cs (Set.insert c.0.mesh_types found) (
        contains-insert c.0.mesh_types reqs.mesh_types found
        ∙ ground (
          arith,
          e,
          eq_comm c.0 reqs,
          eq-mesh_types c.0 reqs reqs.mesh_types,
          mesh_io_type_ord.eq_refl reqs.mesh_types,
        ))
    | inr e ↦ supported-io_types_of reqs cs (Set.insert c.0.mesh_types found) (rw e at h)
  ]

pub as_worker_factory-IsLawful : (WorkerThread : Type 0) → IsLawful (as_worker_factory WorkerThread)
unfolding as_worker_factory worker_requirements supported_io_types have_support create_worker
    contains
as_worker_factory-IsLawful WorkerThread = record {
  listed = λ s type reqs.
      contains-requirements_of reqs type s.worker_thread_types []
      ∙ or_false (supports s.worker_thread_types reqs && MeshIoType.eq reqs.mesh_types type);
  typed = λ s reqs h. supported-io_types_of reqs s.worker_thread_types [] h;
  created_supported = λ s reqs h. ground (arith, h, launch_worker_thread_lem s reqs);
  created_within = λ s reqs h. launch_worker_thread-within s reqs h;
}
