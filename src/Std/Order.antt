-- ===== src/Std/Order.antt =====
-- What `std::set` and `std::find_if` ask of an element type: `operator<`, `operator==` and the laws
-- that make the first a strict weak order whose ties are the second. `operator==` need not be
-- equality: that of `JobRequirements` leaves the contents out.
use remus.Prelude.{ℕ, ◌≡◌, Bool, true, false, List, [], ◌∷◌, arith, ltb, ◌==◌, ◌&&◌, if◌then◌else◌}

pub record Ord {ℓ} (A : Type ℓ) : Type ℓ where
  pub lt : A → A → Bool
  pub eq : A → A → Bool
  pub eq_refl : (a : A) → eq a a ≡ true
  pub eq_cong : (a b c : A) → eq a b ≡ true → eq a c ≡ eq b c
  pub lt_ne : (a b : A) → eq a b ≡ true → lt a b ≡ false
  pub lt_trans : (a b c : A) → lt a b ≡ true → lt b c ≡ true → lt a c ≡ true
  pub lt_total : (a b : A) → lt a b ≡ false → lt b a ≡ false → eq a b ≡ true

module _ {ℓ} {A : Type ℓ} ⦃o : Ord A⦄ where
  pub eq_sym : (a b : A) → o.eq a b ≡ true → o.eq b a ≡ true
  eq_sym a b h = ground (arith, o.eq_cong a b a, o.eq_refl a)

  pub eq_comm : (a b : A) → o.eq a b ≡ o.eq b a
  eq_comm a b = ground (arith, eq_sym a b, eq_sym b a)

  pub lt_asymm : (a b : A) → o.lt a b ≡ true → o.lt b a ≡ false
  lt_asymm a b h = ground (arith, o.lt_trans a b a h, o.lt_ne a a (o.eq_refl a))

  pub lt_cong_left : (a b c : A) → o.eq a b ≡ true → o.lt b c ≡ true → o.lt a c ≡ true
  lt_cong_left a b c h k = ground (
    arith,
    o.lt_total a c,
    o.lt_trans b c a k,
    o.lt_ne b a,
    eq_sym a b,
    o.eq_cong a b c h,
    o.lt_ne b c,
  )

  pub lt_cong_right : (a b c : A) → o.eq b c ≡ true → o.lt a b ≡ true → o.lt a c ≡ true
  lt_cong_right a b c h k = ground (
    arith,
    o.lt_total a c,
    (λ (q : o.lt c a ≡ true). o.lt_trans c a b q k),
    o.lt_ne c b,
    eq_sym b c,
    o.eq_cong c b a,
    eq_comm a c,
    eq_comm a b,
    o.lt_ne a b,
  )

pub nat_eq_refl : (a : ℕ) → (a == a) ≡ true
nat_eq_refl a = ground arith

pub nat_eq_cong : (a b c : ℕ) → (a == b) ≡ true → (a == c) ≡ (b == c)
nat_eq_cong a b c h = ground arith

pub ltb_ne : (a b : ℕ) → (a == b) ≡ true → ltb a b ≡ false
ltb_ne a b h = ground arith

pub ltb_trans : (a b c : ℕ) → ltb a b ≡ true → ltb b c ≡ true → ltb a c ≡ true
ltb_trans a b c h k = ground arith

pub ltb_total : (a b : ℕ) → ltb a b ≡ false → ltb b a ≡ false → (a == b) ≡ true
ltb_total a b h k = ground arith

instance abbrev pub nat_ord : Ord ℕ
nat_ord = record {
  lt = ltb;
  eq = ◌==◌;
  eq_refl = nat_eq_refl;
  eq_cong = nat_eq_cong;
  lt_ne = ltb_ne;
  lt_trans = ltb_trans;
  lt_total = ltb_total;
}

-- The lexicographic order of two parts: `operator<` on a pair of fields.
module _ {ℓ κ} {A : Type ℓ} {B : Type κ} ⦃o : Ord A⦄ ⦃p : Ord B⦄ where
  abbrev pub pair_eq : A × B → A × B → Bool
  pair_eq x y = o.eq x.0 y.0 && p.eq x.1 y.1

  abbrev pub pair_lt : A × B → A × B → Bool
  pair_lt x y = if o.eq x.0 y.0 then p.lt x.1 y.1 else o.lt x.0 y.0

  pub pair_eq_refl : (x : A × B) → pair_eq x x ≡ true
  pair_eq_refl (a, b) = ground (arith, o.eq_refl a, p.eq_refl b)

  pub pair_eq_cong : (x y z : A × B) → pair_eq x y ≡ true → pair_eq x z ≡ pair_eq y z
  pair_eq_cong (a, b) (c, d) (e, f) h = ground (arith, o.eq_cong a c e, p.eq_cong b d f)

  pub pair_lt_ne : (x y : A × B) → pair_eq x y ≡ true → pair_lt x y ≡ false
  pair_lt_ne (a, b) (c, d) h = ground (arith, p.lt_ne b d)

  pub pair_lt_trans : (x y z : A × B) → pair_lt x y ≡ true → pair_lt y z ≡ true → pair_lt x z ≡ true
  pair_lt_trans (a, b) (c, d) (e, f) h k = ground (
    arith,
    o.eq_cong a c e,
    o.eq_cong c e a,
    eq_comm a c,
    eq_comm a e,
    o.lt_trans a c e,
    p.lt_trans b d f,
    lt_cong_left a c e,
    lt_cong_right a c e,
    lt_asymm a c,
    lt_cong_right c a e,
    o.lt_ne c e,
    eq_comm c e,
    lt_cong_left e a c,
    lt_asymm c e,
  )

  pub pair_lt_total : (x y : A × B) → pair_lt x y ≡ false → pair_lt y x ≡ false → pair_eq x y ≡ true
  pair_lt_total (a, b) (c, d) h k = ground (arith, eq_comm a c, o.lt_total a c, p.lt_total b d)

  abbrev pub pair_ord : Ord (A × B)
  pair_ord = record {
    lt = pair_lt;
    eq = pair_eq;
    eq_refl = pair_eq_refl;
    eq_cong = pair_eq_cong;
    lt_ne = pair_lt_ne;
    lt_trans = pair_lt_trans;
    lt_total = pair_lt_total;
  }

-- `std::string`: bytes in the order of `std::lexicographical_compare`.
abbrev pub bytes_eq : List ℕ → List ℕ → Bool
bytes_eq [] [] = true
bytes_eq (x ∷ xs) (y ∷ ys) = x == y && bytes_eq xs ys
bytes_eq _ _ = false

abbrev pub bytes_lt : List ℕ → List ℕ → Bool
bytes_lt xs [] = false
bytes_lt [] (y ∷ ys) = true
bytes_lt (x ∷ xs) (y ∷ ys) = if x == y then bytes_lt xs ys else ltb x y

pub bytes_eq_refl : (x : List ℕ) → bytes_eq x x ≡ true
bytes_eq_refl [] = ground arith
bytes_eq_refl (x ∷ xs) = ground (arith, bytes_eq_refl xs)

pub bytes_eq_cong : (x y z : List ℕ) → bytes_eq x y ≡ true → bytes_eq x z ≡ bytes_eq y z
bytes_eq_cong [] [] z h = ground arith
bytes_eq_cong [] (y ∷ ys) z h = ground arith
bytes_eq_cong (x ∷ xs) [] z h = ground arith
bytes_eq_cong (x ∷ xs) (y ∷ ys) [] h = ground arith
bytes_eq_cong (x ∷ xs) (y ∷ ys) (z ∷ zs) h = ground (arith, bytes_eq_cong xs ys zs)

pub bytes_lt_ne : (x y : List ℕ) → bytes_eq x y ≡ true → bytes_lt x y ≡ false
bytes_lt_ne [] [] h = ground arith
bytes_lt_ne [] (y ∷ ys) h = ground arith
bytes_lt_ne (x ∷ xs) [] h = ground arith
bytes_lt_ne (x ∷ xs) (y ∷ ys) h = ground (arith, bytes_lt_ne xs ys)

pub bytes_lt_trans :
    (x y z : List ℕ) → bytes_lt x y ≡ true → bytes_lt y z ≡ true → bytes_lt x z ≡ true
bytes_lt_trans x [] z h k = ground arith
bytes_lt_trans x (y ∷ ys) [] h k = ground arith
bytes_lt_trans [] (y ∷ ys) (z ∷ zs) h k = ground arith
bytes_lt_trans (x ∷ xs) (y ∷ ys) (z ∷ zs) h k = ground (arith, bytes_lt_trans xs ys zs)

pub bytes_lt_total :
    (x y : List ℕ) → bytes_lt x y ≡ false → bytes_lt y x ≡ false → bytes_eq x y ≡ true
bytes_lt_total [] [] h k = ground arith
bytes_lt_total [] (y ∷ ys) h k = ground arith
bytes_lt_total (x ∷ xs) [] h k = ground arith
bytes_lt_total (x ∷ xs) (y ∷ ys) h k = ground (arith, bytes_lt_total xs ys)

instance abbrev pub bytes_ord : Ord (List ℕ)
bytes_ord = record {
  lt = bytes_lt;
  eq = bytes_eq;
  eq_refl = bytes_eq_refl;
  eq_cong = bytes_eq_cong;
  lt_ne = bytes_lt_ne;
  lt_trans = bytes_lt_trans;
  lt_total = bytes_lt_total;
}
