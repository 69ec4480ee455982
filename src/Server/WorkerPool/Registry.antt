-- ===== src/Server/WorkerPool/Registry.antt =====
-- Registration, readiness and the purge: who is in the pool, and who waits for work.
use remus.Prelude.{
  ℕ, suc, ◌+◌, ◌≤◌, ◌<◌, ◌≡◌, refl, sym, ap, subst, ◌∙◌, ◌⊎◌, inl, inr, true, false, not, ◌&&◌,
  ◌||◌, List, [], ◌∷◌, ◌++◌, arith, ◌==◌, Bool-cases, remove_if,
}
use remus.Std.Order.{eq_comm}
use remus.Proto.JobRequirements
use remus.Proto.JobRequirements.{JobRequirements, requirements_ord, eq_refl, eq_cong}
use remus.Server.SocketMonitor
use remus.Server.SocketMonitor.{SocketMonitor}
use remus.Server.WorkerPool.{
  WorkerInfo, WorkerPool, make_worker, have_waiting_worker, have_worker, add_worker, ready_from,
  ready_for_work, take_worker, rotate, mark_responsive, purge_dead_workers,
}
use remus.Server.WorkerPool.Take.{one_less, take_worker_lem}

pub have_worker-append :
    (xs ys : WorkerPool) (a : ℕ) (r : JobRequirements)
    → have_worker (xs ++ ys) a r ≡ (have_worker xs a r || have_worker ys a r)
unfolding have_worker
have_worker-append [] ys a r = refl
have_worker-append (x ∷ xs) ys a r = ground (arith, have_worker-append xs ys a r)

-- Requirements that are equal to those of a registered worker are registered too.
have_worker-same :
    (ws : WorkerPool) (a b : ℕ) (r s : JobRequirements)
    → have_worker ws a r ≡ true
    → (a == b && JobRequirements.eq r s) ≡ true
    → have_worker ws b s ≡ true
unfolding have_worker
have_worker-same [] a b r s e h = absurd (cc)
have_worker-same (w ∷ ws) a b r s e h =
    ground
      (arith, have_worker-same ws a b r s, eq_cong r s w.reqs, eq_comm r w.reqs, eq_comm s w.reqs)

-- After `add_worker` exactly the pairs of before and the added one are registered.
pub have_worker-add_worker :
    (pool : WorkerPool) (a b : ℕ) (r s : JobRequirements)
    → have_worker (add_worker pool a r) b s
      ≡ (have_worker pool b s || (a == b && JobRequirements.eq r s))
unfolding add_worker have_worker
have_worker-add_worker pool a b r s = elim (Bool-cases (have_worker pool a r)) [
  | inr e ↦ rw (e, have_worker-append pool (make_worker a r ∷ []) b s) (ground arith)
  | inl e ↦ rw e (elim (Bool-cases (a == b && JobRequirements.eq r s)) [
    | inr ne ↦ rw ne (ground arith)
    | inl h ↦ rw h (ground (arith, have_worker-same pool a b r s e h))
  ])
]

-- No address is registered twice for the same requirements.
abbrev pub NoTwins : WorkerPool → Type 0
NoTwins [] = Unit {0}
NoTwins (w ∷ ws) = (have_worker ws w.address w.reqs ≡ false) × NoTwins ws

-- The loop of `readyForWork` finds a worker exactly if one is registered.
ready_count :
    (pool : WorkerPool) (n a : ℕ) (r : JobRequirements)
    → (n ≤ (ready_from n pool a r).1)
      × ((n < (ready_from n pool a r).1) ⊎ (have_worker pool a r ≡ false))
      × ((have_worker pool a r ≡ true) ⊎ ((ready_from n pool a r).1 ≡ n))
unfolding ready_from have_worker
ready_count [] n a r = ground arith
ready_count (w ∷ ws) n a r = ground (arith, ready_count ws n a r, ready_count ws (n + 1) a r)

ready_waits :
    (pool : WorkerPool) (n a : ℕ) (r : JobRequirements)
    → have_waiting_worker (ready_from n pool a r).0 r
      ≡ (have_waiting_worker pool r || have_worker pool a r)
unfolding ready_from have_worker have_waiting_worker
ready_waits [] n a r = refl
ready_waits (w ∷ ws) n a r = ground (arith, ready_waits ws n a r, ready_waits ws (n + 1) a r)

-- `ready_for_work` answers whether the worker is registered with these requirements, and after it a
-- worker waits for such a job exactly if one did before or this one is registered.
pub ready_for_work_lem :
    (pool : WorkerPool) (a : ℕ) (r : JobRequirements)
    → ((ready_for_work pool a r).1 ≡ have_worker pool a r)
      × (have_waiting_worker (ready_for_work pool a r).0 r
          ≡ (have_waiting_worker pool r || have_worker pool a r))
unfolding ready_for_work
ready_for_work_lem pool a r = (ground (arith, ready_count pool 0 a r), ready_waits pool 0 a r)

have_worker-ready :
    (pool : WorkerPool) (n a b : ℕ) (r s : JobRequirements)
    → have_worker (ready_from n pool a r).0 b s ≡ have_worker pool b s
unfolding ready_from have_worker
have_worker-ready [] n a b r s = refl
have_worker-ready (w ∷ ws) n a b r s =
    ground (arith, have_worker-ready ws n a b r s, have_worker-ready ws (n + 1) a b r s)

have_worker-rotate :
    (pool : WorkerPool) (b : ℕ) (s : JobRequirements)
    → have_worker (rotate pool) b s ≡ have_worker pool b s
unfolding rotate have_worker
have_worker-rotate [] b s = refl
have_worker-rotate (w ∷ ws) b s = ground (arith, have_worker-append ws (w ∷ []) b s)

have_worker-one_less :
    (xs ys : WorkerPool) (w : WorkerInfo) (b : ℕ) (s : JobRequirements)
    → have_worker (xs ++ (one_less w ∷ ys)) b s ≡ have_worker (xs ++ (w ∷ ys)) b s
unfolding have_worker
have_worker-one_less [] ys w b s = refl
have_worker-one_less (x ∷ xs) ys w b s = ground (arith, have_worker-one_less xs ys w b s)

-- Taking a worker registers and forgets nobody.
pub have_worker-take_worker :
    (pool : WorkerPool) (reqs : JobRequirements) (b : ℕ) (s : JobRequirements)
    → have_worker (take_worker pool reqs).0 b s ≡ have_worker pool b s
have_worker-take_worker pool reqs b s = elim (take_worker_lem pool reqs) [
  | inl (_, e) ↦ rw e
  | inr (xs, w, ys, split, _, _, e) ↦ rw e (
      have_worker-rotate (xs ++ (one_less w ∷ ys)) b s
      ∙ have_worker-one_less xs ys w b s
      ∙ ap (λ p. have_worker p b s) (sym split))
]

have_worker-mark :
    (m : SocketMonitor) (now : ℕ → ℕ) (i : ℕ) (pool : WorkerPool) (b : ℕ) (s : JobRequirements)
    → have_worker (mark_responsive m now i pool) b s ≡ have_worker pool b s
unfolding mark_responsive have_worker
have_worker-mark m now i [] b s = refl
have_worker-mark m now i (w ∷ ws) b s = ground (arith, have_worker-mark m now (suc i) ws b s)

have_worker-remove_dead :
    (m : SocketMonitor) (pool : WorkerPool) (b : ℕ) (s : JobRequirements)
    → have_worker (remove_if (λ w. SocketMonitor.is_dead m w.address) pool) b s
      ≡ (have_worker pool b s && not (SocketMonitor.is_dead m b))
unfolding have_worker remove_if
have_worker-remove_dead m [] b s = refl
have_worker-remove_dead m (w ∷ ws) b s =
    ground (
      arith,
      have_worker-remove_dead m ws b s,
      ap (SocketMonitor.is_dead m) {x = w.address} {y = b},
    )

-- The purge forgets exactly the workers that are dead.
pub have_worker-purge_dead_workers :
    (pool : WorkerPool) (m : SocketMonitor) (now : ℕ → ℕ) (b : ℕ) (s : JobRequirements)
    → have_worker (purge_dead_workers pool m now) b s
      ≡ (have_worker pool b s && not (SocketMonitor.is_dead m b))
unfolding purge_dead_workers
have_worker-purge_dead_workers pool m now b s =
    have_worker-mark m now 0 _ b s ∙ have_worker-remove_dead m pool b s

append-NoTwins :
    (xs : WorkerPool) (w : WorkerInfo)
    → have_worker xs w.address w.reqs ≡ false
    → NoTwins xs
    → NoTwins (xs ++ (w ∷ []))
unfolding have_worker
append-NoTwins [] w h v = (refl, tt)
append-NoTwins (x ∷ xs) w h v = (
  ground (arith, have_worker-append xs (w ∷ []) x.address x.reqs, eq_comm x.reqs w.reqs),
  append-NoTwins xs w (ground arith) v.1,
)

rotate-NoTwins : (pool : WorkerPool) → NoTwins pool → NoTwins (rotate pool)
unfolding rotate
rotate-NoTwins [] v = tt
rotate-NoTwins (w ∷ ws) v = append-NoTwins ws w v.0 v.1

one_less-NoTwins :
    (xs ys : WorkerPool) (w : WorkerInfo)
    → NoTwins (xs ++ (w ∷ ys))
    → NoTwins (xs ++ (one_less w ∷ ys))
one_less-NoTwins [] ys w v = v
one_less-NoTwins (x ∷ xs) ys w v =
    (rw (have_worker-one_less xs ys w x.address x.reqs) v.0, one_less-NoTwins xs ys w v.1)

ready-NoTwins :
    (pool : WorkerPool) (n a : ℕ) (r : JobRequirements)
    → NoTwins pool
    → NoTwins (ready_from n pool a r).0
unfolding ready_from
ready-NoTwins [] n a r v = tt
ready-NoTwins (w ∷ ws) n a r v = ground (
  arith,
  ready-NoTwins ws n a r v.1,
  ready-NoTwins ws (n + 1) a r v.1,
  have_worker-ready ws n a w.address r w.reqs,
  have_worker-ready ws (n + 1) a w.address r w.reqs,
)

mark-NoTwins :
    (m : SocketMonitor) (now : ℕ → ℕ) (i : ℕ) (pool : WorkerPool)
    → NoTwins pool
    → NoTwins (mark_responsive m now i pool)
unfolding mark_responsive
mark-NoTwins m now i [] v = tt
mark-NoTwins m now i (w ∷ ws) v =
    (rw (have_worker-mark m now (suc i) ws w.address w.reqs) v.0, mark-NoTwins m now (suc i) ws v.1)

remove_dead-NoTwins :
    (m : SocketMonitor) (pool : WorkerPool)
    → NoTwins pool
    → NoTwins (remove_if (λ w. SocketMonitor.is_dead m w.address) pool)
unfolding remove_if
remove_dead-NoTwins m [] v = tt
remove_dead-NoTwins m (w ∷ ws) v =
    ground (arith, remove_dead-NoTwins m ws v.1, have_worker-remove_dead m ws w.address w.reqs)

-- The calls that change a pool.
pub data Call : Type 0 where
  registers readies : ℕ → JobRequirements → Call
  takes : JobRequirements → Call
  purges : SocketMonitor → (ℕ → ℕ) → Call

pub step : WorkerPool → Call → WorkerPool
step pool (registers a r) = add_worker pool a r
step pool (readies a r) = (ready_for_work pool a r).0
step pool (takes r) = (take_worker pool r).0
step pool (purges m now) = purge_dead_workers pool m now

pub run : WorkerPool → List Call → WorkerPool
run pool [] = pool
run pool (c ∷ cs) = run (step pool c) cs

take-NoTwins :
    (pool : WorkerPool) (r : JobRequirements) → NoTwins pool → NoTwins (take_worker pool r).0
take-NoTwins pool r v = elim (take_worker_lem pool r) [
  | inl (_, e) ↦ subst (λ p. NoTwins p.0) (sym e) v
  | inr (xs, w, ys, split, _, _, e) ↦
      subst (λ p. NoTwins p.0) (sym e)
        (rotate-NoTwins (xs ++ (one_less w ∷ ys))
          (one_less-NoTwins xs ys w (subst NoTwins split v)))
]

step-NoTwins : (pool : WorkerPool) (c : Call) → NoTwins pool → NoTwins (step pool c)
unfolding step add_worker ready_for_work purge_dead_workers
step-NoTwins pool (registers a r) v = elim (Bool-cases (have_worker pool a r)) [
  | inl e ↦ rw e v
  | inr e ↦ rw e (append-NoTwins pool (make_worker a r) e v)
]
step-NoTwins pool (readies a r) v = ready-NoTwins pool 0 a r v
step-NoTwins pool (takes r) v = take-NoTwins pool r v
step-NoTwins pool (purges m now) v = mark-NoTwins m now 0 _ (remove_dead-NoTwins m pool v)

run_from-NoTwins : (pool : WorkerPool) (cs : List Call) → NoTwins pool → NoTwins (run pool cs)
unfolding run
run_from-NoTwins pool [] v = v
run_from-NoTwins pool (c ∷ cs) v = run_from-NoTwins (step pool c) cs (step-NoTwins pool c v)

-- Whatever calls are made on an empty pool, no worker is ever registered twice for the same
-- requirements.
pub run-NoTwins : (cs : List Call) → NoTwins (run [] cs)
run-NoTwins cs = run_from-NoTwins [] cs tt
