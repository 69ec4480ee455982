-- ===== src/Server/WorkerPool/Take.antt =====
-- `takeWorker`: which worker is taken, and where the rotation leaves it.
use mathlib.Core.List.{append_assoc}
use remus.Prelude.{
  ◌-◌, ◌≤◌, ◌≡◌, refl, ap, ◌⊎◌, inl, inr, Bool, true, false, ◌&&◌, none, some, [], ◌∷◌, ◌++◌, arith,
  Bool-cases,
}
use remus.Proto.JobRequirements
use remus.Proto.JobRequirements.{JobRequirements}
use remus.Server.WorkerPool.{
  WorkerInfo, WorkerPool, is_waiting_for_work, have_waiting_worker, take_first, rotate, take_worker,
}

-- The test of the loops.
abbrev pub suits : JobRequirements → WorkerInfo → Bool
suits reqs w = JobRequirements.eq w.reqs reqs && is_waiting_for_work w

abbrev pub one_less : WorkerInfo → WorkerInfo
one_less w = record w { number_of_desired_jobs = w.number_of_desired_jobs - 1 }

-- The pool is split at the first worker that suits.
pub record FirstSuited (reqs : JobRequirements) (pool : WorkerPool) : Type 0 where
  pub before : WorkerPool
  pub worker : WorkerInfo
  pub after : WorkerPool
  pub split : pool ≡ before ++ (worker ∷ after)
  pub passed : have_waiting_worker before reqs ≡ false
  pub suited : suits reqs worker ≡ true
  pub taken : take_first pool reqs ≡ some (worker, before ++ (one_less worker ∷ after))

first_suited :
    (pool : WorkerPool) (reqs : JobRequirements)
    → have_waiting_worker pool reqs ≡ true
    → FirstSuited reqs pool
unfolding have_waiting_worker take_first
first_suited [] reqs h = absurd (cc)
first_suited (w ∷ ws) reqs h = elim (Bool-cases (suits reqs w)) [
  | inl e ↦ record {
    before = [];
    worker = w;
    after = ws;
    split = refl;
    passed = refl;
    suited = e;
    taken = rw e;
  }
  | inr e ↦
      let f = first_suited ws reqs (rw e at h) in
      record {
        before = w ∷ f.before;
        worker = f.worker;
        after = f.after;
        split = ap (◌∷◌ w) f.split;
        passed = rw e f.passed;
        suited = f.suited;
        taken = rw (e, f.taken);
      }
]

take_first-none :
    (pool : WorkerPool) (reqs : JobRequirements)
    → have_waiting_worker pool reqs ≡ false
    → take_first pool reqs ≡ none
unfolding have_waiting_worker take_first
take_first-none [] reqs h = refl
take_first-none (w ∷ ws) reqs h = ground (arith, take_first-none ws reqs)

pub take_worker-some :
    (pool : WorkerPool) (reqs : JobRequirements) (w : WorkerInfo) (after : WorkerPool)
    → take_first pool reqs ≡ some (w, after)
    → take_worker pool reqs ≡ (rotate after, w.address)
unfolding take_worker
take_worker-some pool reqs w after e = rw (e, take_worker)

take_worker-none :
    (pool : WorkerPool) (reqs : JobRequirements)
    → take_first pool reqs ≡ none
    → take_worker pool reqs ≡ (pool, 0)
unfolding take_worker
take_worker-none pool reqs e = rw (e, take_worker)

-- If some worker waits for such a job, `take_worker` returns the address of the first one in the
-- pool, counts one job less for it alone, and then moves the first worker of the pool to its end.
-- If none waits, it returns the empty identity and changes nothing.
pub take_worker_lem :
    (pool : WorkerPool) (reqs : JobRequirements)
    → ((have_waiting_worker pool reqs ≡ false) × (take_worker pool reqs ≡ (pool, 0)))
      ⊎ ((before : WorkerPool) × (w : WorkerInfo) × (after : WorkerPool) × (pool
            ≡ before ++ (w ∷ after))
          × (have_waiting_worker before reqs ≡ false)
          × (suits reqs w ≡ true)
          × (take_worker pool reqs ≡ (rotate (before ++ (one_less w ∷ after)), w.address)))
take_worker_lem pool reqs = elim (Bool-cases (have_waiting_worker pool reqs)) [
  | inr e ↦ inl (e, take_worker-none pool reqs (take_first-none pool reqs e))
  | inl e ↦
      let f = first_suited pool reqs e in
      inr (
        f.before,
        f.worker,
        f.after,
        f.split,
        f.passed,
        f.suited,
        take_worker-some pool reqs f.worker _ f.taken,
      )
]

take_first_at :
    (before : WorkerPool) (w : WorkerInfo) (after : WorkerPool) (reqs : JobRequirements)
    → have_waiting_worker before reqs ≡ false
    → suits reqs w ≡ true
    → take_first (before ++ (w ∷ after)) reqs ≡ some (w, before ++ (one_less w ∷ after))
unfolding have_waiting_worker take_first
take_first_at [] w after reqs h s = rw s
take_first_at (x ∷ xs) w after reqs h s = ground (arith, take_first_at xs w after reqs)

-- The worker that was taken is not the one that moves to the end: where the first worker of the
-- pool does not suit, and the first that does still wants another job, two calls in a row take the
-- same worker, whoever waits behind it.
pub take_worker_again :
    (x : WorkerInfo) (before : WorkerPool) (w : WorkerInfo) (after : WorkerPool)
    (reqs : JobRequirements)
    → have_waiting_worker (x ∷ before) reqs ≡ false
    → suits reqs w ≡ true
    → 2 ≤ w.number_of_desired_jobs
    → let first = take_worker (x ∷ (before ++ (w ∷ after))) reqs in
      (first.1 ≡ w.address) × ((take_worker first.0 reqs).1 ≡ w.address)
unfolding have_waiting_worker rotate
take_worker_again x before w after reqs h s two =
    rw (take_worker-some _ reqs w _ (take_first_at (x ∷ before) w after reqs h s)) (
      refl,
      rw (append_assoc before (one_less w ∷ after) (x ∷ []))
          (ap (λ r. r.1) (take_worker-some _ reqs (one_less w) _ again)),
    )
  where
    again :
        take_first (before ++ (one_less w ∷ (after ++ (x ∷ [])))) reqs
        ≡ some (one_less w, before ++ (one_less (one_less w) ∷ (after ++ (x ∷ []))))
    again = take_first_at before (one_less w) (after ++ (x ∷ [])) reqs (ground arith) (ground arith)
