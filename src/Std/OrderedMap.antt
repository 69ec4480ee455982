-- ===== src/Std/OrderedMap.antt =====
-- `std::map` with a key ordered by its `operator<`, as an association list in the order of its keys.
use remus.Prelude.{
  ◌≡◌, refl, sym, ap, subst, ◌∙◌, Bool, true, not, ◌&&◌, Option, none, some, List, [], ◌∷◌, ◌++◌,
  arith, if◌then◌else◌,
}
use mathlib.Core.List.{append-nil, append_assoc}
use remus.Std.Order.{Ord, eq_sym, eq_comm}

module _ {ℓ} {K : Type ℓ} ⦃o : Ord K⦄ where
  -- Keys are equivalent if neither is less.
  abbrev pub same : K → K → Bool
  same j k = not (o.lt j k) && not (o.lt k j)

  pub same-eq : (j k : K) → same j k ≡ o.eq j k
  same-eq j k = ground (arith, o.lt_ne j k, o.lt_ne k j, o.lt_total j k, eq_sym j k)

module _ {ℓ κ} {K : Type ℓ} {V : Type κ} ⦃o : Ord K⦄ where
  -- `find`; `none` is the end iterator.
  unfoldable pub find : K → List (K × V) → Option V
  find k [] = none
  find k ((j, v) ∷ m) = if same j k then some v else find k m

  -- `m[k] = v`: a key that is there stays and its value is replaced.
  unfoldable pub assign : K → V → List (K × V) → List (K × V)
  assign k v [] = (k, v) ∷ []
  assign k v ((j, w) ∷ m) =
      if o.lt j k
      then (j, w) ∷ assign k v m
      else if o.lt k j
      then (k, v) ∷ (j, w) ∷ m
      else (j, v) ∷ m

  pub find-assign :
      (k j : K) (v : V) (m : List (K × V))
      → find j (assign k v m) ≡ (if o.eq k j then some v else find j m)
  unfolding find assign
  find-assign k j v [] = ground (arith, same-eq k j)
  find-assign k j v ((i, w) ∷ m) = ground (
    arith,
    find-assign k j v m,
    same-eq k j,
    same-eq i j,
    same-eq i k,
    o.eq_cong i k j,
    eq_comm k j,
    eq_comm i j,
    o.eq_cong j i k,
    eq_comm j k,
  )

  -- Every key of the map comes after `k`.
  abbrev pub Above : K → List (K × V) → Type 0
  Above k [] = Unit
  Above k (e ∷ m) = (o.lt k e.0 ≡ true) × Above k m

  -- The invariant of `std::map`.
  abbrev pub IsSorted : List (K × V) → Type 0
  IsSorted [] = Unit
  IsSorted (e ∷ m) = Above e.0 m × IsSorted m

  Above-mono : (k j : K) (m : List (K × V)) → o.lt k j ≡ true → Above j m → Above k m
  Above-mono k j [] h v = tt
  Above-mono k j (e ∷ m) h v = (o.lt_trans k j e.0 h v.0, Above-mono k j m h v.1)

  Above-assign :
      (k j : K) (v : V) (m : List (K × V)) → o.lt j k ≡ true → Above j m → Above j (assign k v m)
  unfolding assign
  Above-assign k j v [] h a = (h, tt)
  Above-assign k j v ((i, w) ∷ m) h a = ground (arith, Above-assign k j v m h a.1)

  pub assign-IsSorted : (k : K) (v : V) (m : List (K × V)) → IsSorted m → IsSorted (assign k v m)
  unfolding assign
  assign-IsSorted k v [] s = (tt, tt)
  assign-IsSorted k v ((j, w) ∷ m) s =
      ground (arith, assign-IsSorted k v m s.1, Above-assign k j v m, Above-mono k j m)

  pub Above-find : (k : K) (m : List (K × V)) → Above k m → find k m ≡ none
  unfolding find
  Above-find k [] a = refl
  Above-find k ((j, v) ∷ m) a = ground (arith, Above-find k m a.1)

  -- Equivalent keys find the same value.
  pub find_cong : (k j : K) (m : List (K × V)) → o.eq k j ≡ true → find k m ≡ find j m
  unfolding find
  find_cong k j [] h = refl
  find_cong k j ((i, v) ∷ m) h = ground (
    arith,
    find_cong k j m h,
    same-eq i k,
    same-eq i j,
    eq_comm i k,
    eq_comm i j,
    o.eq_cong k j i h,
  )

  Above-last :
      (j k : K) (v : V) (m es : List (K × V)) → Above j (m ++ (k, v) ∷ es) → o.lt j k ≡ true
  Above-last j k v [] es a = a.0
  Above-last j k v (e ∷ m) es a = Above-last j k v m es a.1

  -- A key above all others is put at the end.
  assign-last :
      (k : K) (v : V) (m es : List (K × V))
      → IsSorted (m ++ (k, v) ∷ es)
      → assign k v m ≡ m ++ (k, v) ∷ []
  unfolding assign
  assign-last k v [] es s = refl
  assign-last k v ((j, w) ∷ m) es s =
      ground (arith, Above-last j k v m es s.0, assign-last k v m es s.1)

  -- Entries that are assigned one after the other.
  unfoldable pub assign_all : List (K × V) → List (K × V) → List (K × V)
  unfolding assign
  assign_all m [] = m
  assign_all m (e ∷ es) = assign_all (assign e.0 e.1 m) es

  assign_all-append : (m es : List (K × V)) → IsSorted (m ++ es) → assign_all m es ≡ m ++ es
  unfolding assign_all
  assign_all-append m [] s = sym (append-nil m)
  assign_all-append m (e ∷ es) s =
      let joined = append_assoc m (e ∷ []) es in
      ap (λ n. assign_all n es) (assign-last e.0 e.1 m es s)
      ∙ assign_all-append (m ++ e ∷ []) es (subst IsSorted (sym joined) s)
      ∙ joined

  -- The entries of a map, read in order, make the map.
  pub assign_all-sorted : (es : List (K × V)) → IsSorted es → assign_all [] es ≡ es
  assign_all-sorted es s = assign_all-append [] es s
