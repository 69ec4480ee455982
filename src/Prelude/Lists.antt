-- ===== src/Prelude/Lists.antt =====
-- Lists measured by native numbers, tests over them by Boolean functions, and the Boolean forms of
-- `std::find_if` and `std::remove_if`.
use Prim.Native.Nat.{ℕ, suc, ◌+◌}
use mathlib.Core.Path.{◌≡◌, refl}
use mathlib.Core.Logic.{inl, inr}
use mathlib.Core.Bool.{Bool, true, false, ◌||◌}
use mathlib.Core.List.{List, [], ◌∷◌, ◌++◌}
use mathlib.Core.Option.{Option, none, some}
use native.Mathlib.Omega.{arith}
use remus.Prelude.Tests.{if◌then◌else◌, Bool-cases}

module _ {ℓ} {A : Type ℓ} where
  abbrev pub length : List A → ℕ
  length [] = 0
  length (x ∷ xs) = suc (length xs)

  abbrev pub is_nil : List A → Bool
  is_nil [] = true
  is_nil (x ∷ xs) = false

  pub length-append : (xs ys : List A) → length (xs ++ ys) ≡ length xs + length ys
  length-append [] ys = omega arith
  length-append (x ∷ xs) ys = omega (arith, length-append xs ys)

module _ {ℓ} {A : Type ℓ} where
  -- `std::find_if`: the first element that passes.
  unfoldable pub find_if : (A → Bool) → List A → Option A
  find_if p [] = none
  find_if p (x ∷ xs) = if p x then some x else find_if p xs

  -- `std::remove_if` with the `erase` that follows it: the elements that do not pass, in order.
  unfoldable pub remove_if : (A → Bool) → List A → List A
  remove_if p [] = []
  remove_if p (x ∷ xs) = if p x then remove_if p xs else x ∷ remove_if p xs

  -- `vector::erase` at the place that `std::find_if` found.
  unfoldable pub erase_first : (A → Bool) → List A → List A
  erase_first p [] = []
  erase_first p (x ∷ xs) = if p x then xs else x ∷ erase_first p xs

  unfoldable pub any : (A → Bool) → List A → Bool
  any p [] = false
  any p (x ∷ xs) = p x || any p xs

  pub any-append : (p : A → Bool) (xs ys : List A) → any p (xs ++ ys) ≡ (any p xs || any p ys)
  unfolding any
  any-append p [] ys = refl
  any-append p (x ∷ xs) ys = ground (arith, any-append p xs ys)

  pub find_if-passes : (p : A → Bool) (xs : List A) {a : A} → find_if p xs ≡ some a → p a ≡ true
  unfolding find_if
  find_if-passes p [] e = cc
  find_if-passes p (x ∷ xs) {a} e = ground (arith, find_if-passes p xs {a = a})

  pub find_if-none : (p : A → Bool) (xs : List A) → any p xs ≡ false → find_if p xs ≡ none
  unfolding find_if any
  find_if-none p [] h = refl
  find_if-none p (x ∷ xs) h = ground (arith, find_if-none p xs)

  pub find_if-some :
      (p : A → Bool) (xs : List A) → any p xs ≡ true → (a : A) × (find_if p xs ≡ some a)
  unfolding find_if any
  find_if-some p [] h = cc
  find_if-some p (x ∷ xs) h = elim (Bool-cases (p x)) [
    | inl hit ↦ (x, rw hit)
    | inr miss ↦ rw miss (find_if-some p xs (rw miss at h))
  ]

  pub remove_if-none : (p : A → Bool) (xs : List A) → any p xs ≡ false → remove_if p xs ≡ xs
  unfolding remove_if any
  remove_if-none p [] h = refl
  remove_if-none p (x ∷ xs) h = ground (arith, remove_if-none p xs)

  pub any-remove_if_self : (p : A → Bool) (xs : List A) → any p (remove_if p xs) ≡ false
  unfolding remove_if any
  any-remove_if_self p [] = refl
  any-remove_if_self p (x ∷ xs) = ground (arith, any-remove_if_self p xs)
