-- ===== src/Std/Set.antt =====
-- `std::set`: a list that `insert` keeps strictly sorted, so that a loop over it meets its elements
-- in the order of the C++ iterators.
use remus.Prelude.{
  ◌≡◌, refl, sym, ap, subst, ◌∙◌, Bool, true, false, not, ◌&&◌, ◌||◌, List, [], ◌∷◌, ◌++◌, arith,
  if◌then◌else◌,
}
use mathlib.Core.List.{append-nil, append_assoc}
use remus.Std.Order.{Ord, eq_sym, eq_comm, lt_asymm}

module _ {ℓ} {A : Type ℓ} ⦃o : Ord A⦄ where
  -- `count(a) != 0`.
  unfoldable pub contains : A → List A → Bool
  contains a [] = false
  contains a (x ∷ xs) = o.eq x a || contains a xs

  unfoldable pub insert : A → List A → List A
  insert a [] = a ∷ []
  insert a (x ∷ xs) = if o.lt a x then a ∷ x ∷ xs else if o.lt x a then x ∷ insert a xs else x ∷ xs

  unfoldable pub erase : A → List A → List A
  erase a [] = []
  erase a (x ∷ xs) = if o.eq x a then erase a xs else x ∷ erase a xs

  pub contains-insert :
      (a b : A) (s : List A) → contains b (insert a s) ≡ (o.eq a b || contains b s)
  unfolding contains insert
  contains-insert a b [] = refl
  contains-insert a b (x ∷ xs) =
      ground (arith, contains-insert a b xs, o.lt_total a x, o.eq_cong a x b)

  pub contains-erase :
      (a b : A) (s : List A) → contains b (erase a s) ≡ (not (o.eq a b) && contains b s)
  unfolding contains erase
  contains-erase a b [] = ground arith
  contains-erase a b (x ∷ xs) =
      ground
        (arith, contains-erase a b xs, o.eq_cong x a b, o.eq_cong a b x, eq_comm a x, eq_comm b x)

  -- Every element of the list comes after `a`.
  abbrev pub Above : A → List A → Type 0
  Above a [] = Unit
  Above a (x ∷ xs) = (o.lt a x ≡ true) × Above a xs

  abbrev pub IsSorted : List A → Type 0
  IsSorted [] = Unit
  IsSorted (x ∷ xs) = Above x xs × IsSorted xs

  pub Above-mono : (a b : A) (s : List A) → o.lt a b ≡ true → Above b s → Above a s
  Above-mono a b [] h v = tt
  Above-mono a b (x ∷ xs) h v = (o.lt_trans a b x h v.0, Above-mono a b xs h v.1)

  pub Above-insert : (a b : A) (s : List A) → o.lt b a ≡ true → Above b s → Above b (insert a s)
  unfolding insert
  Above-insert a b [] h v = (h, tt)
  Above-insert a b (x ∷ xs) h v = ground (arith, Above-insert a b xs h v.1)

  pub insert-IsSorted : (a : A) (s : List A) → IsSorted s → IsSorted (insert a s)
  unfolding insert
  insert-IsSorted a [] v = (tt, tt)
  insert-IsSorted a (x ∷ xs) v =
      ground (arith, insert-IsSorted a xs v.1, Above-insert a x xs, Above-mono a x xs)

  -- An element above which all others stand is not among them.
  pub Above-not_contains : (a : A) (s : List A) → Above a s → contains a s ≡ false
  unfolding contains
  Above-not_contains a [] v = refl
  Above-not_contains a (x ∷ xs) v =
      ground (arith, Above-not_contains a xs v.1, eq_sym x a, o.lt_ne a x)

  Above-last : (j a : A) (s xs : List A) → Above j (s ++ a ∷ xs) → o.lt j a ≡ true
  Above-last j a [] xs v = v.0
  Above-last j a (x ∷ s) xs v = Above-last j a s xs v.1

  -- An element above all others is put at the end.
  insert-last : (a : A) (s xs : List A) → IsSorted (s ++ a ∷ xs) → insert a s ≡ s ++ a ∷ []
  unfolding insert
  insert-last a [] xs v = refl
  insert-last a (x ∷ s) xs v =
      ground (arith, Above-last x a s xs v.0, insert-last a s xs v.1, lt_asymm x a)

  -- Elements that are inserted one after the other.
  unfoldable pub insert_each : List A → List A → List A
  unfolding insert
  insert_each s [] = s
  insert_each s (x ∷ xs) = insert_each (insert x s) xs

  insert_each-append : (s xs : List A) → IsSorted (s ++ xs) → insert_each s xs ≡ s ++ xs
  unfolding insert_each
  insert_each-append s [] v = sym (append-nil s)
  insert_each-append s (x ∷ xs) v =
      let joined = append_assoc s (x ∷ []) xs in
      ap (λ n. insert_each n xs) (insert-last x s xs v)
      ∙ insert_each-append (s ++ x ∷ []) xs (subst IsSorted (sym joined) v)
      ∙ joined

  -- The elements of a set, read in order, make the set.
  pub insert_each-sorted : (xs : List A) → IsSorted xs → insert_each [] xs ≡ xs
  insert_each-sorted xs v = insert_each-append [] xs v
