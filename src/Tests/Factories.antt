-- ===== src/Tests/Factories.antt =====
-- The factories, the threads and the events of the server at concrete inputs.
use remus.Prelude.{
  ℕ, ◌+◌, ◌≡◌, ◌≤◌, refl, true, false, ◌&&◌, suc, [], ◌∷◌, ◌++◌, map, remove_if, arith,
}
use remus.Std.Order.{bytes_ord}
use remus.Std.OrderedMap.{find}
use remus.Std.Set.{contains}
use remus.Std.Stream.{c_string}
use remus.Common.ServiceTypes.{can_mesh_requirements, mesh_requirements_for_io_type}
use remus.Common.ExecuteProcess.{ExecuteProcess, Variables, execute}
use remus.Common.ExecuteProcess.Environment.{or_else, non_empty_if, execute-variables}
use remus.Proto.JobRequirements.{JobRequirements, requirements_ord}
use remus.Server.Factory.{live_on_factory_deletion, kill_on_factory_deletion}
use remus.Server.State
use remus.Server.State.{Server}
use remus.Server.Message.{answer, active_job_terminated}
use remus.Server.ClientRequests.{can_mesh_reqs, mesh_requirements}
use remus.Server.ClientRequests.Discovery.{listed, can_mesh_reqs-listed}
use remus.Server.ThreadFactory
use remus.Server.ThreadFactory.{ThreadWorkerFactory}
use remus.Server.ThreadFactory.Lawful.{as_worker_factory-IsLawful}
use remus.Server.ThreadFactory.Launch
use remus.Server.ThreadFactory.Launch.{Run, run-current_worker_count}
use remus.Server.ProcessFactory
use remus.Server.ProcessFactory.{
  ProcessWorkerFactory, RunningProcessInfo, FactoryWorkerSpecification, create_worker, have_support,
  current_worker_count, update_worker_count, killed_on_deletion,
}
use remus.Server.ProcessFactory.Lawful.{create_worker_lem}
use remus.Server.ProcessFactory.History
use remus.Server.ProcessFactory.History.{Reach, reach-killed_on_deletion}
use remus.Server.EventPublisher.{publish}
use remus.Server.EventPublisher.Keys.{AllAgree, publish-AllAgree}
use remus.Server.Threads
use remus.Server.Threads.{Threads, is_brokering, launch, begin_loop}
use remus.Server.Threads.OneBroker.{reach-OneBroker}
use remus.Tests.{red, polling, message}

-- A variable that was set, one that was empty and one that is new.
abbrev variables : Variables
variables = (1 ∷ [], 5 ∷ []) ∷ (2 ∷ [], []) ∷ []

abbrev command : ExecuteProcess
command = record {
  command_queue = [];
  env = (1 ∷ [], 6 ∷ []) ∷ (2 ∷ [], 7 ∷ []) ∷ (3 ∷ [], 8 ∷ []) ∷ [];
  created = false;
}

execute-variables_example :
    (find (1 ∷ []) (execute command variables).1.inherited
      ≡ or_else (find (1 ∷ []) command.env) (find (1 ∷ []) variables))
    × (find (1 ∷ []) (execute command variables).1.left
        ≡ or_else
            (non_empty_if (find (1 ∷ []) command.env) (find (1 ∷ []) variables))
            (or_else (find (1 ∷ []) command.env) (find (1 ∷ []) variables)))
execute-variables_example =
    execute-variables command variables (1 ∷ []) ((refl, (refl, tt)), ((refl, tt), (tt, tt)))

-- A factory of threads launches a red worker and refuses a second one.
abbrev one_type : ThreadWorkerFactory ℕ
one_type = (ThreadFactory.register_worker_type ThreadFactory.make red 4).0

abbrev launched : ThreadWorkerFactory ℕ
launched = (ThreadFactory.create_worker one_type red kill_on_factory_deletion).0

launched-run : Run 1 ThreadFactory.make launched
unfolding ThreadFactory.register_worker_type ThreadFactory.create_worker
    ThreadFactory.launch_worker_thread ThreadFactory.add_worker
    remus.Server.ThreadFactory.Pool.run_task remus.Server.ThreadFactory.Pool.harvest
    remus.Server.ThreadFactory.Pool.number_of_active_threads find remus.Std.OrderedMap.assign
    remus.Proto.JobRequirements.lt remus.Common.MeshIoType.eq
launched-run =
    Launch.next
      (Launch.next (Launch.stop ThreadFactory.make) (Launch.registers ThreadFactory.make red 4)
        (omega arith))
      (Launch.creates one_type red kill_on_factory_deletion) (omega arith)

run-current_worker_count_example : ThreadFactory.current_worker_count launched ≤ 1
run-current_worker_count_example = run-current_worker_count launched-run (omega arith)

abbrev red_worker : FactoryWorkerSpecification
red_worker = record {
  requirements = red;
  execution_path = 9 ∷ [];
  extra_command_line_arguments = [];
  environment_variables = [];
  is_valid = true;
}

abbrev processes : ProcessWorkerFactory
processes = ProcessFactory.make (red_worker ∷ [])

abbrev created : ProcessWorkerFactory
created = (create_worker (λ p. true) processes red kill_on_factory_deletion).0

create_worker_lem_example :
    ((create_worker (λ p. true) processes red live_on_factory_deletion).1 ≡ false)
    × ((create_worker (λ p. true) processes red kill_on_factory_deletion).1
        ≡ (have_support processes red && true))
    × ((create_worker (λ p. true) processes red kill_on_factory_deletion).1 ≡ true
        → (p : RunningProcessInfo) × (p.process ≡ 0)
          × ((create_worker (λ p. true) processes red kill_on_factory_deletion).0.current_processes
              ≡ [] ++ p ∷ []))
unfolding remove_if
create_worker_lem_example = create_worker_lem (λ p. true) processes red

created-reach : Reach 1 created
unfolding create_worker update_worker_count ProcessFactory.add_worker
    ProcessFactory.find_worker_path remus.Proto.JobRequirements.eq remus.Common.MeshIoType.eq
created-reach =
    History.steps (History.constructed (red_worker ∷ []))
      (History.creates processes (λ p. true) red kill_on_factory_deletion) (omega arith)

reach-killed_on_deletion_example :
    (current_worker_count created ≤ 1)
    × (killed_on_deletion (λ p. true) created.current_processes
        ≡ map (λ p. p.process) (remove_if (λ p. false) created.current_processes))
reach-killed_on_deletion_example = reach-killed_on_deletion (λ p. true) created-reach (omega arith)

abbrev of_threads : Server (ThreadFactory.as_worker_factory ℕ)
unfolding ThreadFactory.as_worker_factory
of_threads = State.make polling ThreadFactory.make

can_mesh_reqs-listed_example :
    can_mesh_reqs of_threads (message can_mesh_requirements 0)
    ≡ answer (
        contains red
          (listed (mesh_requirements of_threads (message mesh_requirements_for_io_type 0))))
unfolding State.make of_threads ThreadFactory.as_worker_factory
can_mesh_reqs-listed_example =
    can_mesh_reqs-listed (as_worker_factory-IsLawful ℕ) of_threads (message can_mesh_requirements 0)
      (message mesh_requirements_for_io_type 0) (omega arith) refl

c_string-one : (n : ℕ) → c_string (suc n ∷ []) ≡ suc n ∷ []
unfolding c_string
c_string-one n = ground arith

abbrev ended : remus.Proto.JobStatus.JobStatus
ended = (message can_mesh_requirements 3).to_status

publish-AllAgree_example :
    AllAgree (publish (λ u. suc u ∷ []) (λ si. suc si ∷ []) (active_job_terminated ended 10))
publish-AllAgree_example =
    publish-AllAgree (λ u. suc u ∷ []) (λ si. suc si ∷ []) c_string-one c_string-one
      (active_job_terminated ended 10) refl

-- The server is started, and its thread comes to its loop.
abbrev started : Threads
started = begin_loop (launch Threads.make).0

started-reach : Threads.Reach started
unfolding Threads.IsCareful launch begin_loop
started-reach =
    Threads.steps (Threads.steps Threads.constructed (Threads.launches Threads.make) (λ h. refl))
      (Threads.begins (launch Threads.make).0 0 refl) tt

reach-OneBroker_example :
    (started.starting + started.looping ≤ 1) × (is_brokering started ≡ true → started.looping ≡ 1)
reach-OneBroker_example = reach-OneBroker started-reach
