-- ===== src/Server/JobQueue/Ids.antt =====
-- The two vectors of the queue seen as maps from ids to submissions.
use remus.Prelude.{
  ℕ, ◌≤◌, ◌≡◌, refl, Bool, true, false, Option, none, some, List, [], ◌∷◌, ◌++◌, arith, ltb, ◌==◌,
  if◌then◌else◌, find_if, remove_if, erase_first,
}
use remus.Proto.WorkerJob.{JobSubmission}
use remus.Server.JobQueue.{QueuedJob, job_id_matches, insert_at_lower_bound, has_id}

abbrev pub find_id : ℕ → List QueuedJob → Option JobSubmission
find_id k [] = none
find_id k (x ∷ xs) = if x.id == k then some x.submission else find_id k xs

abbrev pub is_some {ℓ} : {A : Type ℓ} → Option A → Bool
is_some none = false
is_some (some a) = true

abbrev pub or_else {ℓ} : {A : Type ℓ} → Option A → Option A → Option A
or_else none b = b
or_else (some a) b = some a

pub has_id-find_id : (k : ℕ) (js : List QueuedJob) → has_id k js ≡ is_some (find_id k js)
unfolding has_id
has_id-find_id k [] = refl
has_id-find_id k (x ∷ xs) = ground (arith, has_id-find_id k xs)

pub find_id-insert :
    (k : ℕ) (n : QueuedJob) (js : List QueuedJob)
    → find_id k (insert_at_lower_bound n js)
      ≡ (if n.id == k then some n.submission else find_id k js)
unfolding insert_at_lower_bound
find_id-insert k n [] = refl
find_id-insert k n (x ∷ xs) = ground (arith, find_id-insert k n xs)

pub find_id-remove :
    (k j : ℕ) (js : List QueuedJob)
    → find_id k (remove_if (job_id_matches j) js) ≡ (if j == k then none else find_id k js)
unfolding remove_if
find_id-remove k j [] = ground arith
find_id-remove k j (x ∷ xs) = ground (arith, find_id-remove k j xs)

pub find_id-append :
    (k : ℕ) (js : List QueuedJob) (n : QueuedJob)
    → find_id k (js ++ (n ∷ []))
      ≡ or_else (find_id k js) (if n.id == k then some n.submission else none)
find_id-append k [] n = ground arith
find_id-append k (x ∷ xs) n = ground (arith, find_id-append k xs n)

-- No id stands twice.
abbrev pub Distinct : List QueuedJob → Type 0
Distinct [] = Unit
Distinct (x ∷ xs) = (find_id x.id xs ≡ none) × Distinct xs

-- Ids rise along the vector.
abbrev pub Above : ℕ → List QueuedJob → Type 0
Above k [] = Unit
Above k (x ∷ xs) = (ltb k x.id ≡ true) × Above k xs

abbrev pub IsSorted : List QueuedJob → Type 0
IsSorted [] = Unit
IsSorted (x ∷ xs) = Above x.id xs × IsSorted xs

pub Above-mono : (k j : ℕ) (js : List QueuedJob) → k ≤ j → Above j js → Above k js
Above-mono k j [] h v = tt
Above-mono k j (x ∷ xs) h v = (ground arith, Above-mono k j xs h v.1)

pub find_id-Above : (k j : ℕ) (js : List QueuedJob) → k ≤ j → Above j js → find_id k js ≡ none
find_id-Above k j [] h v = refl
find_id-Above k j (x ∷ xs) h v = ground (arith, find_id-Above k j xs h v.1)

pub IsSorted-Distinct : (js : List QueuedJob) → IsSorted js → Distinct js
IsSorted-Distinct [] v = tt
IsSorted-Distinct (x ∷ xs) v =
    (find_id-Above x.id x.id xs (omega arith) v.0, IsSorted-Distinct xs v.1)

Above-insert :
    (k : ℕ) (n : QueuedJob) (js : List QueuedJob)
    → ltb k n.id ≡ true
    → Above k js
    → Above k (insert_at_lower_bound n js)
unfolding insert_at_lower_bound
Above-insert k n [] h v = (h, tt)
Above-insert k n (x ∷ xs) h v = ground (arith, Above-insert k n xs h v.1)

pub insert-IsSorted :
    (n : QueuedJob) (js : List QueuedJob)
    → find_id n.id js ≡ none
    → IsSorted js
    → IsSorted (insert_at_lower_bound n js)
unfolding insert_at_lower_bound
insert-IsSorted n [] h v = (tt, tt)
insert-IsSorted n (x ∷ xs) h v =
    ground (arith, insert-IsSorted n xs, Above-insert x.id n xs, Above-mono n.id x.id xs)

Above-remove :
    (k : ℕ) (p : QueuedJob → Bool) (js : List QueuedJob) → Above k js → Above k (remove_if p js)
unfolding remove_if
Above-remove k p [] v = tt
Above-remove k p (x ∷ xs) v = ground (arith, Above-remove k p xs v.1)

pub remove-IsSorted :
    (p : QueuedJob → Bool) (js : List QueuedJob) → IsSorted js → IsSorted (remove_if p js)
unfolding remove_if
remove-IsSorted p [] v = tt
remove-IsSorted p (x ∷ xs) v = ground (arith, remove-IsSorted p xs v.1, Above-remove x.id p xs v.0)

Above-erase :
    (k : ℕ) (p : QueuedJob → Bool) (js : List QueuedJob) → Above k js → Above k (erase_first p js)
unfolding erase_first
Above-erase k p [] v = tt
Above-erase k p (x ∷ xs) v = ground (arith, Above-erase k p xs v.1)

pub erase-IsSorted :
    (p : QueuedJob → Bool) (js : List QueuedJob) → IsSorted js → IsSorted (erase_first p js)
unfolding erase_first
erase-IsSorted p [] v = tt
erase-IsSorted p (x ∷ xs) v = ground (arith, erase-IsSorted p xs v.1, Above-erase x.id p xs v.0)

pub remove-Distinct :
    (k : ℕ) (js : List QueuedJob) → Distinct js → Distinct (remove_if (job_id_matches k) js)
unfolding remove_if
remove-Distinct k [] v = tt
remove-Distinct k (x ∷ xs) v = ground (arith, remove-Distinct k xs v.1, find_id-remove x.id k xs)

pub append-Distinct :
    (n : QueuedJob) (js : List QueuedJob)
    → find_id n.id js ≡ none
    → Distinct js
    → Distinct (js ++ (n ∷ []))
append-Distinct n [] h v = (refl, tt)
append-Distinct n (x ∷ xs) h v = ground (arith, append-Distinct n xs, find_id-append x.id xs n)

-- What `find_if` returns is the submission under its id, and it matches.
pub find_if-find_id :
    (p : QueuedJob → Bool) (js : List QueuedJob) (n : QueuedJob)
    → Distinct js
    → find_if p js ≡ some n
    → find_id n.id js ≡ some n.submission
unfolding find_if
find_if-find_id p [] n v e = cc
find_if-find_id p (x ∷ xs) n v e = ground (arith, find_if-find_id p xs n v.1)

pub find_id-erase_first :
    (k : ℕ) (p : QueuedJob → Bool) (js : List QueuedJob) (n : QueuedJob)
    → Distinct js
    → find_if p js ≡ some n
    → find_id k (erase_first p js) ≡ (if n.id == k then none else find_id k js)
unfolding find_if erase_first
find_id-erase_first k p [] n v e = cc
find_id-erase_first k p (x ∷ xs) n v e =
    ground (arith, find_id-erase_first k p xs n v.1, find_if-find_id p xs n v.1)
