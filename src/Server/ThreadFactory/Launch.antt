-- ===== src/Server/ThreadFactory/Launch.antt =====
-- remus/server/ThreadWorkerFactory.cxx: when a worker is launched, and how many run at once.
use remus.Prelude.{
  ℕ, suc, ◌+◌, ◌≤◌, ◌≡◌, refl, true, false, ◌&&◌, none, some, List, [], ◌∷◌, arith, ltb,
  if◌then◌else◌, inl, inr, Option-cases,
}
use remus.Std.Map.{lookup}
use remus.Std.OrderedMap.{find, same-eq}
use remus.Std.Order.{eq_comm}
use remus.Proto.JobRequirements.{JobRequirements, requirements_ord}
use remus.Server.Factory.{
  FactoryDeletionBehavior, live_on_factory_deletion, kill_on_factory_deletion,
}
use remus.Server.ThreadFactory.{
  ThreadWorkerFactory, Task, make, create_worker, launch_worker_thread, add_worker, have_support,
  supports, max_worker_count, current_worker_count, set_max_worker_count, register_worker_type,
}
use remus.Server.ThreadFactory.Pool.{
  ThreadPool, FutureWithState, number_of_active_threads, count_active, complete, resize,
}
use remus.Server.ThreadFactory.Threads.{
  IsFresh, run_task-within, run_task-free, run_task-number, run_task-IsFresh, complete-number,
  complete-IsFresh, Below-mono, Below,
}

module _ {WorkerThread : Type 0} where
  -- `std::map::find` and the loop of `haveSupport` agree.
  supports-find :
      (ws : List (JobRequirements × WorkerThread)) (reqs : JobRequirements)
      → supports ws reqs ≡ (elim (find reqs ws) [ none ↦ false | some w ↦ true ])
  unfolding supports find
  supports-find [] reqs = refl
  supports-find ((r, w) ∷ ws) reqs =
      ground (arith, supports-find ws reqs, same-eq r reqs, eq_comm r reqs)

  -- A worker is launched if and only if the requirements are supported and fewer workers run than are
  -- allowed: the pool never refuses a task that the factory hands it.
  pub launch_worker_thread_lem :
      (f : ThreadWorkerFactory WorkerThread) (reqs : JobRequirements)
      → (launch_worker_thread f reqs).1
        ≡ (have_support f reqs && ltb (current_worker_count f) (max_worker_count f))
  unfolding launch_worker_thread add_worker have_support
  launch_worker_thread_lem f reqs = elim (Option-cases (find reqs f.worker_thread_types)) [
    | inl e ↦ ground (arith, e, supports-find f.worker_thread_types reqs)
    | inr (w, e) ↦ ground (
      arith,
      e,
      supports-find f.worker_thread_types reqs,
      run_task-free f.pool
          (record { worker = w; requirements = reqs; endpoint = f.worker_endpoint }),
    )
  ]

  pub launch_worker_thread-count :
      (f : ThreadWorkerFactory WorkerThread) (reqs : JobRequirements)
      → IsFresh f.pool
      → current_worker_count (launch_worker_thread f reqs).0 ≡ (
          if (launch_worker_thread f reqs).1
          then suc (current_worker_count f)
          else current_worker_count f)
  unfolding launch_worker_thread add_worker
  launch_worker_thread-count f reqs v = elim (Option-cases (find reqs f.worker_thread_types)) [
    | inl e ↦ ground (arith, e)
    | inr (w, e) ↦ ground (
      arith,
      e,
      run_task-number f.pool
          (record { worker = w; requirements = reqs; endpoint = f.worker_endpoint }) v,
    )
  ]

  launch_worker_thread-IsFresh :
      (f : ThreadWorkerFactory WorkerThread) (reqs : JobRequirements)
      → IsFresh f.pool
      → IsFresh (launch_worker_thread f reqs).0.pool
  unfolding launch_worker_thread add_worker
  launch_worker_thread-IsFresh f reqs v = elim (Option-cases (find reqs f.worker_thread_types)) [
    | inl e ↦ ground (arith, e, v)
    | inr (w, e) ↦ ground (
      arith,
      e,
      v,
      run_task-IsFresh f.pool
          (record { worker = w; requirements = reqs; endpoint = f.worker_endpoint }) v,
    )
  ]

  -- The other pools of the process take keys from the same counter.
  abbrev advance : ThreadWorkerFactory WorkerThread → ℕ → ThreadWorkerFactory WorkerThread
  advance f n = record f { pool = record f.pool { key = f.pool.key + n } }

  -- What happens to a factory. `ends` is the end of a task's thread, while its future is in the pool.
  pub data Step : ThreadWorkerFactory WorkerThread → ThreadWorkerFactory WorkerThread → Type 0 where
    registers :
        (f : ThreadWorkerFactory WorkerThread) (reqs : JobRequirements) (worker : WorkerThread)
        → Step f (register_worker_type f reqs worker).0
    creates :
        (f : ThreadWorkerFactory WorkerThread) (reqs : JobRequirements)
        (lifespan : FactoryDeletionBehavior)
        → Step f (create_worker f reqs lifespan).0
    resizes :
        (f : ThreadWorkerFactory WorkerThread) (count : ℕ) → Step f (set_max_worker_count f count)
    ends :
        (f : ThreadWorkerFactory WorkerThread) (k : ℕ) (w : FutureWithState (Task WorkerThread))
        → lookup k f.pool.futures ≡ some w
        → Step f (record f { pool = complete f.pool k })
    advances : (f : ThreadWorkerFactory WorkerThread) (n : ℕ) → Step f (advance f n)

  -- A history in which the allowed number of workers is never above `limit`.
  pub data Run (limit : ℕ)
      : ThreadWorkerFactory WorkerThread → ThreadWorkerFactory WorkerThread → Type 0 where
    stop : (f : ThreadWorkerFactory WorkerThread) → Run limit f f
    next :
        {f g h : ThreadWorkerFactory WorkerThread}
        → Run limit f g
        → Step g h
        → max_worker_count h ≤ limit
        → Run limit f h

  abbrev Bounded : ℕ → ThreadWorkerFactory WorkerThread → Type 0
  Bounded limit f = IsFresh f.pool × (max_worker_count f ≤ limit) × (current_worker_count f ≤ limit)

  create_worker-Bounded :
      (limit : ℕ) (f : ThreadWorkerFactory WorkerThread) (reqs : JobRequirements)
      (lifespan : FactoryDeletionBehavior)
      → Bounded limit f
      → IsFresh (create_worker f reqs lifespan).0.pool
        × (current_worker_count (create_worker f reqs lifespan).0 ≤ limit)
  unfolding create_worker
  create_worker-Bounded limit f reqs live_on_factory_deletion v = (v.0, v.2)
  create_worker-Bounded limit f reqs kill_on_factory_deletion v =
      (launch_worker_thread-IsFresh f reqs v.0, within)
    where
      within : current_worker_count (launch_worker_thread f reqs).0 ≤ limit
      within =
          ground (
            arith,
            v.1,
            v.2,
            launch_worker_thread_lem f reqs,
            launch_worker_thread-count f reqs v.0,
          )

  advance-IsFresh :
      (p : ThreadPool (Task WorkerThread)) (n : ℕ)
      → IsFresh p
      → IsFresh (record p { key = p.key + n })
  unfolding IsFresh
  advance-IsFresh p n v = Below-mono p.key (p.key + n) p.futures (omega arith) v

  step-Bounded :
      {limit : ℕ} {f g : ThreadWorkerFactory WorkerThread}
      → Step f g
      → max_worker_count g ≤ limit
      → Bounded limit f
      → Bounded limit g
  unfolding register_worker_type set_max_worker_count resize number_of_active_threads IsFresh
  step-Bounded (registers f reqs worker) h v = (v.0, h, v.2)
  step-Bounded (creates f reqs lifespan) h v =
      let r = create_worker-Bounded _ f reqs lifespan v in (r.0, h, r.1)
  step-Bounded (resizes f count) h v = (v.0, h, v.2)
  step-Bounded (ends f k w e) h v =
      (complete-IsFresh f.pool k w e v.0, h, omega (arith, complete-number f.pool k w e, v.2))
  step-Bounded (advances f n) h v = (advance-IsFresh f.pool n v.0, h, v.2)

  run-Bounded :
      {limit : ℕ} {f g : ThreadWorkerFactory WorkerThread}
      → Run limit f g
      → Bounded limit f
      → Bounded limit g
  run-Bounded (stop f) v = v
  run-Bounded (next r s h) v = step-Bounded s h (run-Bounded r v)

  -- From the new factory, which allows one worker, no history in which at most `limit` workers are
  -- allowed at any time has more than `limit` workers running at its end, `limit` being at least one.
  -- Workers end at any time, in any order, and other pools of the process take keys meanwhile.
  pub run-current_worker_count :
      {limit : ℕ} {f : ThreadWorkerFactory WorkerThread}
      → Run limit make f
      → 1 ≤ limit
      → current_worker_count f ≤ limit
  unfolding number_of_active_threads IsFresh Below count_active
  run-current_worker_count r h = (run-Bounded r (tt, h, omega arith)).2

  pub launch_worker_thread-within :
      (f : ThreadWorkerFactory WorkerThread) (reqs : JobRequirements)
      → (launch_worker_thread f reqs).1 ≡ true
      → current_worker_count (launch_worker_thread f reqs).0 ≤ max_worker_count f
  unfolding launch_worker_thread add_worker
  launch_worker_thread-within f reqs h = elim (Option-cases (find reqs f.worker_thread_types)) [
    | inl e ↦ ground (arith, e, h)
    | inr (w, e) ↦ ground (
      arith,
      e,
      h,
      run_task-within f.pool
          (record { worker = w; requirements = reqs; endpoint = f.worker_endpoint }),
    )
  ]
