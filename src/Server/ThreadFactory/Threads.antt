-- ===== src/Server/ThreadFactory/Threads.antt =====
-- The class `ThreadPool` of remus/server/ThreadWorkerFactory.cxx: its tasks and their keys.
use remus.Prelude.{
  ℕ, suc, ◌+◌, ◌≤◌, ◌<◌, ◌≡◌, refl, Bool, true, false, none, some, List, [], ◌∷◌, arith, length,
  ltb, if◌then◌else◌, remove_if,
}
use remus.Std.Map.{lookup, has_key, place, adjust, lookup-place}
use remus.Server.ThreadFactory.Pool.{
  ThreadPool, FutureWithState, count_active, number_of_active_threads, harvest, write, run_task,
  complete,
}

module _ {Task : Type 0} where
  -- How many futures are not completed, by structural recursion.
  active : List (ℕ × FutureWithState Task) → ℕ
  active [] = 0
  active (f ∷ fs) = if f.1.completed then active fs else suc (active fs)

  count_active-add :
      (fs : List (ℕ × FutureWithState Task)) (n : ℕ) → count_active fs n ≡ active fs + n
  unfolding count_active active
  count_active-add [] n = omega arith
  count_active-add (f ∷ fs) n = ground (arith, count_active-add fs n, count_active-add fs (n + 1))

  length-kept :
      (fs : List (ℕ × FutureWithState Task))
      → length (remove_if (λ f. f.1.completed) fs) ≡ active fs
  unfolding active remove_if
  length-kept [] = refl
  length-kept (f ∷ fs) = ground (arith, length-kept fs)

  -- Every key is below `k`.
  unfoldable pub Below : ℕ → List (ℕ × FutureWithState Task) → Type 0
  Below k [] = Unit
  Below k (f ∷ fs) = (f.0 < k) × Below k fs

  pub Below-mono :
      (k j : ℕ) (fs : List (ℕ × FutureWithState Task)) → k ≤ j → Below k fs → Below j fs
  unfolding Below
  Below-mono k j [] h v = tt
  Below-mono k j (f ∷ fs) h v = (omega (arith, h, v.0), Below-mono k j fs h v.1)

  Below-remove_if :
      (k : ℕ) (p : ℕ × FutureWithState Task → Bool) (fs : List (ℕ × FutureWithState Task))
      → Below k fs
      → Below k (remove_if p fs)
  unfolding Below remove_if
  Below-remove_if k p [] v = tt
  Below-remove_if k p (f ∷ fs) v = ground (arith, Below-remove_if k p fs v.1)

  Below-lookup : (k : ℕ) (fs : List (ℕ × FutureWithState Task)) → Below k fs → lookup k fs ≡ none
  unfolding Below lookup
  Below-lookup k [] v = refl
  Below-lookup k ((j, f) ∷ fs) v = ground (arith, Below-lookup k fs v.1)

  Below-place :
      (k j : ℕ) (f : FutureWithState Task) (fs : List (ℕ × FutureWithState Task))
      → j < k
      → Below k fs
      → Below k (place j f fs)
  unfolding Below place
  Below-place k j f [] h v = (h, tt)
  Below-place k j f ((i, g) ∷ fs) h v = ground (arith, Below-place k j f fs h v.1)

  active-place :
      (k : ℕ) (f : FutureWithState Task) (fs : List (ℕ × FutureWithState Task))
      → active (place k f fs) ≡ (if f.completed then active fs else suc (active fs))
  unfolding active place
  active-place k f [] = refl
  active-place k f ((j, g) ∷ fs) = ground (arith, active-place k f fs)

  active-harvested :
      (fs : List (ℕ × FutureWithState Task))
      → active (remove_if (λ f. f.1.completed) fs) ≡ active fs
  unfolding active remove_if
  active-harvested [] = refl
  active-harvested (f ∷ fs) = ground (arith, active-harvested fs)

  abbrev pending : Task → FutureWithState Task
  pending task = record { future = some task; completed = false }

  -- The keys in use are below the next one.
  unfoldable pub IsFresh : ThreadPool Task → Type 0
  unfolding Below
  IsFresh p = Below p.key p.futures

  write-fresh :
      (k : ℕ) (f : FutureWithState Task) (fs : List (ℕ × FutureWithState Task))
      → Below k fs
      → write k (λ _. f) fs ≡ place k f fs
  unfolding write has_key active adjust
  write-fresh k f fs v = ground (arith, Below-lookup k fs v)

  active-number : (p : ThreadPool Task) → number_of_active_threads p ≡ active p.futures
  unfolding number_of_active_threads
  active-number p = omega (arith, count_active-add p.futures 0)

  -- A task runs if and only if a thread is free.
  pub run_task-free :
      (p : ThreadPool Task) (task : Task)
      → (run_task p task).1 ≡ ltb (number_of_active_threads p) p.pool_size
  unfolding run_task harvest
  run_task-free p task = ground (arith, length-kept p.futures, active-number p)

  -- It is one more running task then.
  pub run_task-number :
      (p : ThreadPool Task) (task : Task)
      → IsFresh p
      → number_of_active_threads (run_task p task).0 ≡ (
          if (run_task p task).1
          then suc (number_of_active_threads p)
          else number_of_active_threads p)
  unfolding run_task IsFresh harvest
  run_task-number p task v = ground (
    arith,
    active-number p,
    active-number (run_task p task).0,
    active-harvested p.futures,
    write-fresh p.key (pending task) (remove_if (λ f. f.1.completed) p.futures)
        (Below-remove_if p.key (λ f. f.1.completed) p.futures v),
    active-place p.key (pending task) (remove_if (λ f. f.1.completed) p.futures),
  )

  pub run_task-IsFresh :
      (p : ThreadPool Task) (task : Task) → IsFresh p → IsFresh (run_task p task).0
  unfolding run_task IsFresh harvest
  run_task-IsFresh p task v =
      let kept = remove_if (λ f. f.1.completed) p.futures in
      let new = pending task in
      let old = Below-remove_if p.key (λ f. f.1.completed) p.futures v in
      ground (
        arith,
        old,
        write-fresh p.key new kept old,
        Below-place (suc p.key) p.key new kept (omega arith)
            (Below-mono p.key (suc p.key) kept (omega arith) old),
      )

  Below-adjust :
      (k j : ℕ) (g : FutureWithState Task → FutureWithState Task)
      (fs : List (ℕ × FutureWithState Task))
      → Below k fs
      → Below k (adjust j g fs)
  unfolding Below adjust
  Below-adjust k j g [] v = tt
  Below-adjust k j g ((i, f) ∷ fs) v = ground (arith, Below-adjust k j g fs v.1)

  active-adjust :
      (k : ℕ) (fs : List (ℕ × FutureWithState Task))
      → active (adjust k (λ f. record f { completed = true }) fs) ≤ active fs
  unfolding active adjust
  active-adjust k [] = omega arith
  active-adjust k ((j, f) ∷ fs) = ground (arith, active-adjust k fs)

  write-old :
      (k : ℕ) (g : FutureWithState Task → FutureWithState Task)
      (fs : List (ℕ × FutureWithState Task)) (w : FutureWithState Task)
      → lookup k fs ≡ some w
      → write k g fs ≡ adjust k g fs
  unfolding write has_key active adjust
  write-old k g fs w h = ground arith

  pub complete-number :
      (p : ThreadPool Task) (k : ℕ) (w : FutureWithState Task)
      → lookup k p.futures ≡ some w
      → number_of_active_threads (complete p k) ≤ number_of_active_threads p
  unfolding complete
  complete-number p k w h = ground (
    arith,
    active-number p,
    active-number (complete p k),
    write-old k (λ f. record f { completed = true }) p.futures w h,
    active-adjust k p.futures,
  )

  pub complete-IsFresh :
      (p : ThreadPool Task) (k : ℕ) (w : FutureWithState Task)
      → lookup k p.futures ≡ some w
      → IsFresh p
      → IsFresh (complete p k)
  unfolding complete IsFresh
  complete-IsFresh p k w h v =
      rw (write-old k (λ f. record f { completed = true }) p.futures w h)
        (Below-adjust p.key k (λ f. record f { completed = true }) p.futures v)

  lookup-harvested :
      (k : ℕ) (w : FutureWithState Task) (fs : List (ℕ × FutureWithState Task))
      → lookup k fs ≡ some w
      → w.completed ≡ false
      → lookup k (remove_if (λ f. f.1.completed) fs) ≡ some w
  unfolding lookup remove_if
  lookup-harvested k w [] h c = cc
  lookup-harvested k w ((j, f) ∷ fs) h c = ground (arith, lookup-harvested k w fs)

  -- A new task leaves the futures of the running tasks as they are.
  pub run_task-running :
      (p : ThreadPool Task) (task : Task) (k : ℕ) (w : FutureWithState Task)
      → IsFresh p
      → lookup k p.futures ≡ some w
      → w.completed ≡ false
      → lookup k (run_task p task).0.futures ≡ some w
  unfolding run_task IsFresh harvest
  run_task-running p task k w v h c =
      let kept = remove_if (λ f. f.1.completed) p.futures in
      let new = pending task in
      let old = Below-remove_if p.key (λ f. f.1.completed) p.futures v in
      ground (
        arith,
        write-fresh p.key new kept old,
        lookup-place p.key k new kept (Below-lookup p.key kept old),
        Below-lookup p.key kept old,
        lookup-harvested k w p.futures h c,
      )

  active-write :
      (k : ℕ) (g : FutureWithState Task → FutureWithState Task)
      (fs : List (ℕ × FutureWithState Task))
      → active (write k g fs) ≤ suc (active fs)
  unfolding write has_key active adjust
  active-write k g fs =
      ground (
        arith,
        adjusted k g fs,
        active-place k (g (record { future = none; completed = false })) fs,
      )
    where
      adjusted :
          (k : ℕ) (g : FutureWithState Task → FutureWithState Task)
          (fs : List (ℕ × FutureWithState Task))
          → active (adjust k g fs) ≤ suc (active fs)
      adjusted k g [] = omega arith
      adjusted k g ((j, f) ∷ fs) = ground (arith, adjusted k g fs)

  -- Whatever the keys are, a task that runs leaves no more running tasks than are allowed.
  pub run_task-within :
      (p : ThreadPool Task) (task : Task)
      → (run_task p task).1 ≡ true
      → number_of_active_threads (run_task p task).0 ≤ p.pool_size
  unfolding run_task harvest
  run_task-within p task h = ground (
    arith,
    h,
    active-number (run_task p task).0,
    length-kept p.futures,
    active-harvested p.futures,
    active-write p.key (λ _. pending task) (remove_if (λ f. f.1.completed) p.futures),
  )
