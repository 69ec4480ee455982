-- ===== src/Server/ThreadFactory/Pool.antt =====
-- The class `ThreadPool` of remus/server/ThreadWorkerFactory.cxx. A task is a value of any type; the
-- static counter of keys, which other pools may advance too, is a field.
use remus.Prelude.{
  ℕ, suc, ◌+◌, Bool, true, false, Option, none, some, List, [], ◌∷◌, length, leb, if◌then◌else◌,
  remove_if,
}
use remus.Std.Map.{has_key, place, adjust}

pub record FutureWithState (Task : Type 0) : Type 0 where
  pub future : Option Task
  pub completed : Bool

pub record ThreadPool (Task : Type 0) : Type 0 where
  pub futures : List (ℕ × FutureWithState Task)
  pub pool_size : ℕ
  pub key : ℕ

module _ {Task : Type 0} where
  abbrev pub make : ℕ → ThreadPool Task
  make pool_size = record { futures = []; pool_size = pool_size; key = 0 }

  unfoldable pub resize : ThreadPool Task → ℕ → ThreadPool Task
  resize p size = record p { pool_size = size }

  -- `std::accumulate` over the futures.
  unfoldable pub count_active : List (ℕ × FutureWithState Task) → ℕ → ℕ
  count_active [] counter = counter
  count_active (f ∷ fs) counter = count_active fs (if f.1.completed then counter else counter + 1)

  unfoldable pub number_of_active_threads : ThreadPool Task → ℕ
  unfolding count_active
  number_of_active_threads p = count_active p.futures 0

  -- A write to `Futures[key]`, which makes an entry where there is none.
  unfoldable pub write :
      ℕ
      → (FutureWithState Task → FutureWithState Task)
      → List (ℕ × FutureWithState Task)
      → List (ℕ × FutureWithState Task)
  unfolding has_key place adjust
  write k f fs =
      if has_key k fs
      then adjust k f fs
      else place k (f (record { future = none; completed = false })) fs

  unfoldable pub harvest : ThreadPool Task → ThreadPool Task
  unfolding remove_if
  harvest p = record p { futures = remove_if (λ f. f.1.completed) p.futures }

  unfoldable pub run_task : ThreadPool Task → Task → ThreadPool Task × Bool
  unfolding harvest write
  run_task p task =
      let q = harvest p in
      if leb q.pool_size (length q.futures) then (q, false) else (
        record q {
          futures = write q.key (λ _. record { future = some task; completed = false }) q.futures;
          key = suc q.key;
        },
        true,
      )

  -- The end of `wrap_task`, which the thread of the task with this key runs.
  unfoldable pub complete : ThreadPool Task → ℕ → ThreadPool Task
  unfolding write
  complete p k = record p { futures = write k (λ f. record f { completed = true }) p.futures }
