-- ===== src/Server/ActiveJobs/History.antt =====
-- The jobs of a server over a history of calls.
use remus.Prelude.{
  ℕ, ◌≡◌, refl, ◌∙◌, inl, inr, true, Option, none, some, List, [], ◌∷◌, arith, ◌==◌, Option-cases,
  Bool-cases, ◌≢◌,
}
use remus.Std.Map
use remus.Common.StatusTypes.{StatusType, queued, finished, failed}
use remus.Proto.JobStatus
use remus.Proto.JobStatus.{JobStatus, clear_progress}
use remus.Proto.JobResult.{JobResult}
use remus.Server.SocketMonitor.{SocketMonitor}
use remus.Server.ActiveJobs.{
  JobState, ActiveJobs, make_state, add, remove, clear_status, accept_status, update_status,
  accept_result, update_result, mark_expired_jobs,
}
use remus.Server.ActiveJobs.LifeCycle.{
  ◌⟶◌, stay, start, break, finish, IsConsistent, AllConsistent, Changes, unchanged,
  accept_status-Changes, accept_result-Changes, clear-Changes, expire-Changes,
}
use remus.Server.ActiveJobs.Expiry.{lookup-marked, marked}

pub data Call : Type 0 where
  adds : ℕ → ℕ → Call
  removes clears : ℕ → Call
  reports : JobStatus → Call
  results : JobResult → Call
  checks : SocketMonitor → (ℕ → ℕ) → Call

-- What a call does to the entry under an id.
pub data Fate (c : Call) (id : ℕ) (o p : Option JobState) : Type 0 where
  absent : o ≡ none → p ≡ none → Fate c id o p
  added :
      (worker : ℕ)
      → c ≡ adds worker id
      → o ≡ none
      → p ≡ some (make_state worker id queued)
      → Fate c id o p
  removed : (a : JobState) → c ≡ removes id → o ≡ some a → p ≡ none → Fate c id o p
  kept : (a b : JobState) → o ≡ some a → p ≡ some b → Changes id a b → Fate c id o p

unfoldable pub step : ActiveJobs → Call → ActiveJobs
step info (adds worker id) = (add info worker id).0
step info (removes id) = (remove info id).0
step info (clears id) = clear_status info id
step info (reports s) = update_status info s
step info (results r) = update_result info r
step info (checks monitor now) = (mark_expired_jobs info monitor now).0

same-Fate :
    (c : Call) (id : ℕ) (info : ActiveJobs) → Fate c id (Map.lookup id info) (Map.lookup id info)
same-Fate c id info = elim (Option-cases (Map.lookup id info)) [
  | inl e ↦ absent e e
  | inr (a, e) ↦ kept a a e e (unchanged id a)
]

adjust-Fate :
    (c : Call) (k j : ℕ) (f : JobState → JobState) (info : ActiveJobs)
    → ((item : JobState) → k ≡ j → Changes j item (f item))
    → Fate c j (Map.lookup j info) (Map.lookup j (Map.adjust k f info))
adjust-Fate c k j f info h = elim (Bool-cases (k == j)) [
  | inr e ↦ rw (Map.lookup-adjust k j f info, e) (same-Fate c j info)
  | inl e ↦ elim (Option-cases (Map.lookup j info)) [
    | inl m ↦ absent m (ground (arith, Map.lookup-adjust k j f info))
    | inr (a, m) ↦
        kept a (f a) m (ground (arith, Map.lookup-adjust k j f info)) (h a (ground arith))
  ]
]

pub add_old :
    (info : ActiveJobs) (w k : ℕ) {a : JobState}
    → Map.lookup k info ≡ some a
    → (add info w k).0 ≡ info
unfolding add Map.has_key
add_old info w k e = ground arith

pub add_new :
    (info : ActiveJobs) (w k : ℕ)
    → Map.lookup k info ≡ none
    → (add info w k).0 ≡ Map.insert k (make_state w k queued) info
unfolding add Map.has_key
add_new info w k e = ground arith

pub remove_missing :
    (info : ActiveJobs) (k : ℕ) → Map.lookup k info ≡ none → (remove info k).0 ≡ info
unfolding remove Map.has_key
remove_missing info k e = ground arith

pub remove_found :
    (info : ActiveJobs) (k : ℕ) {a : JobState}
    → Map.lookup k info ≡ some a
    → (remove info k).0 ≡ Map.erase k info
unfolding remove Map.has_key
remove_found info k e = ground arith

add-Fate :
    (info : ActiveJobs) (w k id : ℕ)
    → Fate (adds w k) id (Map.lookup id info) (Map.lookup id (add info w k).0)
add-Fate info w k id = elim (Option-cases (Map.lookup k info)) [
  | inr (a, e) ↦ rw (add_old info w k e) (same-Fate (adds w k) id info)
  | inl e ↦
      rw (add_new info w k e, Map.lookup-insert k id (make_state w k queued) info e)
        (elim (Bool-cases (k == id)) [
          | inr ne ↦ rw ne (same-Fate (adds w k) id info)
          | inl eq ↦ let h : k ≡ id = ground arith in added w (rw h) (rw h at e) (rw (eq, h))
        ])
]

remove-Fate :
    (info : ActiveJobs) (k id : ℕ)
    → Fate (removes k) id (Map.lookup id info) (Map.lookup id (remove info k).0)
remove-Fate info k id = elim (Option-cases (Map.lookup k info)) [
  | inl e ↦ rw (remove_missing info k e) (same-Fate (removes k) id info)
  | inr (a, e) ↦
      rw (remove_found info k e, Map.lookup-erase k id info)
        (elim (Bool-cases (k == id)) [
          | inr ne ↦ rw ne (same-Fate (removes k) id info)
          | inl eq ↦ let h : k ≡ id = ground arith in removed a (rw h) (rw h at e) (rw eq)
        ])
]

checks-Fate :
    (info : ActiveJobs) (m : SocketMonitor) (now : ℕ → ℕ) (id : ℕ)
    → Fate (checks m now) id (Map.lookup id info) (Map.lookup id (mark_expired_jobs info m now).0)
checks-Fate info m now id = elim (lookup-marked m now id info) [
  | inl (a, b) ↦ absent a b
  | inr (item, t, a, b) ↦ kept item (marked m (now t) item) a b (expire-Changes id item m (now t))
]

pub step-Fate :
    (info : ActiveJobs) (c : Call) (id : ℕ)
    → Fate c id (Map.lookup id info) (Map.lookup id (step info c))
unfolding step update_status update_result clear_status
step-Fate info (adds w k) id = add-Fate info w k id
step-Fate info (removes k) id = remove-Fate info k id
step-Fate info (clears k) id = adjust-Fate (clears k) k id _ info (λ item _. clear-Changes id item)
step-Fate info (reports s) id =
    adjust-Fate (reports s) s.id id (accept_status s) info
      (λ item _. accept_status-Changes id item s)
step-Fate info (results r) id =
    adjust-Fate (results r) r.id id (accept_result r) info
      (λ item e. accept_result-Changes id item r e)
step-Fate info (checks m now) id = checks-Fate info m now id

unfoldable pub run : ActiveJobs → List Call → ActiveJobs
run info [] = info
run info (c ∷ cs) = run (step info c) cs

fresh-IsConsistent : (w id : ℕ) → IsConsistent id (make_state w id queued)
unfolding make_state JobStatus.of_status
fresh-IsConsistent w id = ground arith

step-AllConsistent :
    (info : ActiveJobs) (c : Call) → AllConsistent info → AllConsistent (step info c)
step-AllConsistent info c v id item e = consistent (step-Fate info c id)
  where
    consistent : Fate c id (Map.lookup id info) (Map.lookup id (step info c)) → IsConsistent id item
    consistent (absent a b) = absurd (ground (arith, e, b))
    consistent (added w _ a b) =
        let h : make_state w id queued ≡ item = ground (arith, e, b) in
        rw h at (fresh-IsConsistent w id)
    consistent (removed x _ a b) = absurd (ground (arith, e, b))
    consistent (kept x y a b ch) =
        let h : y ≡ item = ground (arith, e, b) in rw h at (ch.keeps (v id x a))

run_from-AllConsistent :
    (info : ActiveJobs) (cs : List Call) → AllConsistent info → AllConsistent (run info cs)
unfolding run
run_from-AllConsistent info [] v = v
run_from-AllConsistent info (c ∷ cs) v =
    run_from-AllConsistent (step info c) cs (step-AllConsistent info c v)

-- After any calls on an empty record of jobs, every job bears its own id in its status and its
-- result, has a result if it is finished, and is finished or failed if it has a result.
pub run-AllConsistent :
    (cs : List Call) (id : ℕ) (item : JobState)
    → Map.lookup id (run [] cs) ≡ some item
    → IsConsistent id item
unfolding Map.lookup
run-AllConsistent cs = run_from-AllConsistent [] cs (λ id item e. absurd (cc))

-- A call that is no removal keeps every job, with its worker and its result once it has one, and
-- moves its state along an edge of the diagram or not at all.
pub step-Changes :
    (info : ActiveJobs) (c : Call) (id : ℕ) (old : JobState)
    → ((k : ℕ) → c ≢ removes k)
    → Map.lookup id info ≡ some old
    → (new : JobState) × (Map.lookup id (step info c) ≡ some new) × Changes id old new
step-Changes info c id old other e = changes (step-Fate info c id)
  where
    changes :
        Fate c id (Map.lookup id info) (Map.lookup id (step info c))
        → (new : JobState) × (Map.lookup id (step info c) ≡ some new) × Changes id old new
    changes (absent a b) = absurd (ground (arith, e, a))
    changes (added w _ a b) = absurd (ground (arith, e, a))
    changes (removed x h a b) = absurd (other id h)
    changes (kept x y a b ch) = let h : x ≡ old = ground (arith, e, a) in (y, b, rw h at ch)

-- The two final states have no way out.
failed_edge : {s t : StatusType} → s ≡ failed → s ⟶ t → t ≡ failed
failed_edge e stay = e
failed_edge e (start g) = ground arith
failed_edge e (break g h) = ground arith
failed_edge e (finish n) = absurd (n e)

finished_edge : {s t : StatusType} → s ≡ finished → s ⟶ t → t ≡ finished
finished_edge e stay = e
finished_edge e (start g) = ground arith
finished_edge e (break g h) = ground arith
finished_edge e (finish n) = refl

abbrev pub NoRemoval : List Call → Type 0
NoRemoval [] = Unit {0}
NoRemoval (c ∷ cs) = ((k : ℕ) → c ≢ removes k) × NoRemoval cs

-- A job that has failed is still a failed one, with the same worker, after any further calls none of
-- which is a removal: no report, result or expiry revives it.
pub failed_stays :
    (info : ActiveJobs) (cs : List Call) (id : ℕ) (old : JobState)
    → NoRemoval cs
    → Map.lookup id info ≡ some old
    → old.jstatus.status ≡ failed
    → (new : JobState) × (Map.lookup id (run info cs) ≡ some new)
      × (new.jstatus.status ≡ failed)
      × (new.worker_address ≡ old.worker_address)
unfolding run
failed_stays info [] id old ok e f = (old, e, f, refl)
failed_stays info (c ∷ cs) id old ok e f =
    let (mid, e', ch) = step-Changes info c id old ok.0 e in
    let (new, e'', f', w) = failed_stays (step info c) cs id mid ok.1 e' (failed_edge f ch.moves) in
    (new, e'', f', w ∙ ch.same_worker)

-- A finished job that has a result is still finished and still has one, after any further calls none of
-- which is a removal.
pub finished_stays :
    (info : ActiveJobs) (cs : List Call) (id : ℕ) (old : JobState)
    → NoRemoval cs
    → Map.lookup id info ≡ some old
    → old.jstatus.status ≡ finished
    → old.have_result ≡ true
    → (new : JobState) × (Map.lookup id (run info cs) ≡ some new)
      × (new.jstatus.status ≡ finished)
      × (new.have_result ≡ true)
unfolding run
finished_stays info [] id old ok e f h = (old, e, f, h)
finished_stays info (c ∷ cs) id old ok e f h =
    let (mid, e', ch) = step-Changes info c id old ok.0 e in
    finished_stays (step info c) cs id mid ok.1 e' (finished_edge f ch.moves) (ch.has_result h)
