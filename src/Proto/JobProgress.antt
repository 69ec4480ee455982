-- ===== src/Proto/JobProgress.antt =====
-- remus/proto/JobProgress.h and JobProgress.cxx. A message is its bytes; -1 is `negsuc 0`.
use remus.Prelude.{
  ℕ, ℤ, pos, negsuc, ◌≤ℤ◌, ltzb, ◌≡◌, ◌||◌, List, [], ◌∷◌, ◌++◌, arith, if◌then◌else◌, is_nil,
}
use remus.Common.StatusTypes.{StatusType, in_progress, is_status}

pub record JobProgress : Type 0 where
  pub value : ℤ
  pub message : List ℕ

-- `std::min<int>(v, 100)` and `std::max<int>(v, 0)`.
abbrev pub min_ℤ : ℤ → ℤ → ℤ
min_ℤ a b = if ltzb b a then b else a

abbrev pub max_ℤ : ℤ → ℤ → ℤ
max_ℤ a b = if ltzb a b then b else a

unfoldable pub valid_progress_value : ℤ → ℤ
valid_progress_value v = max_ℤ (min_ℤ v (pos 100)) (pos 0)

-- The default constructor and those from a status, a number, a message, and both.
abbrev pub no_progress : JobProgress
no_progress = record { value = negsuc 0; message = [] }

unfoldable pub of_status : StatusType → JobProgress
of_status s = record { value = if is_status s in_progress then pos 0 else negsuc 0; message = [] }

unfoldable pub of_value : ℤ → JobProgress
of_value v = record { value = valid_progress_value v; message = [] }

unfoldable pub of_message : List ℕ → JobProgress
of_message msg = record { value = pos 0; message = msg }

unfoldable pub of_both : ℤ → List ℕ → JobProgress
of_both v msg = record { value = valid_progress_value v; message = msg }

unfoldable pub set_value : JobProgress → ℤ → JobProgress
set_value p v = record p { value = valid_progress_value v }

unfoldable pub set_message : JobProgress → List ℕ → JobProgress
set_message p msg = record p { message = msg }

-- `"\n"` stands between two messages of which neither is empty.
unfoldable pub append_message : JobProgress → List ℕ → JobProgress
append_message p msg = record p {
  message = p.message ++ ((if is_nil p.message || is_nil msg then [] else 10 ∷ []) ++ msg);
}

-- What the constructors and setters guarantee of a value: a percentage, or -1.
abbrev pub IsProgressValue : ℤ → Type 0
IsProgressValue v = (negsuc 0 ≤ℤ v) × (v ≤ℤ pos 100)

pub valid_progress_value_bounds :
    (v : ℤ) → (pos 0 ≤ℤ valid_progress_value v) × (valid_progress_value v ≤ℤ pos 100)
unfolding valid_progress_value
valid_progress_value_bounds (pos n) = ground arith
valid_progress_value_bounds (negsuc n) = ground arith

pub valid_progress_value_same : (v : ℤ) → pos 0 ≤ℤ v → v ≤ℤ pos 100 → valid_progress_value v ≡ v
unfolding valid_progress_value
valid_progress_value_same (pos n) h k = ground arith
valid_progress_value_same (negsuc n) h k = ground arith
