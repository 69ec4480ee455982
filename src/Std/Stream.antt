-- ===== src/Std/Stream.antt =====
-- Text streams of the C++ library, as lists of bytes: the formatted output and input of integers.
use remus.Prelude.{
  ℕ, zero, suc, ◌+◌, ◌-◌, ◌*◌, ◌/◌, ◌%◌, ◌<◌, ◌≡◌, refl, ap, ◌∙◌, Bool, true, false, ◌&&◌, ◌||◌,
  Option, none, some, List, [], ◌∷◌, ◌++◌, arith, ltb, leb, ◌==◌, if◌then◌else◌, ℤ, pos, negsuc,
  pos_part, neg_part, Bool-cases, inl, inr,
}

abbrev pub is_digit : ℕ → Bool
is_digit c = leb 48 c && leb c 57

-- Tab to carriage return, and blank.
abbrev pub is_space : ℕ → Bool
is_space c = (leb 9 c && leb c 13) || c == 32

-- The decimal digits of `n` before `ds`. The fuel `suc n` is enough.
unfoldable pub digits_from : ℕ → ℕ → List ℕ → List ℕ
digits_from zero n ds = ds
digits_from (suc fuel) n ds =
    let rest = digits_from fuel (n / 10) ((48 + n % 10) ∷ ds) in
    if ltb n 10 then (48 + n) ∷ ds else rest

-- `<<` of an unsigned number, before what is written next.
unfoldable pub put_nat : ℕ → List ℕ → List ℕ
unfolding digits_from
put_nat n after = digits_from (suc n) n after

-- `<<` of an `int`.
unfoldable pub put_int : ℤ → List ℕ → List ℕ
put_int (pos n) after = put_nat n after
put_int (negsuc n) after = 45 ∷ put_nat (suc n) after

unfoldable pub skip_space : List ℕ → List ℕ
skip_space [] = []
skip_space (c ∷ cs) = let rest = skip_space cs in if is_space c then rest else c ∷ cs

-- The digits at the front, as a number.
unfoldable pub take_digits : ℕ → List ℕ → ℕ × List ℕ
take_digits n [] = (n, [])
take_digits n (c ∷ cs) =
    let rest = take_digits (n * 10 + (c - 48)) cs in if is_digit c then rest else (n, c ∷ cs)

abbrev pub starts_with_digit : List ℕ → Bool
starts_with_digit [] = false
starts_with_digit (c ∷ cs) = is_digit c

-- `>>` into an unsigned number below `limit`; `none` where the stream fails.
unfoldable pub get_below : ℕ → List ℕ → Option (ℕ × List ℕ)
get_below limit cs =
    let (n, rest) = take_digits 0 cs in
    if starts_with_digit cs && ltb n limit then some (n, rest) else none

abbrev pub drop_first : List ℕ → List ℕ
drop_first [] = []
drop_first (c ∷ cs) = cs

abbrev pub starts_with_minus : List ℕ → Bool
starts_with_minus [] = false
starts_with_minus (c ∷ cs) = c == 45

-- The negation of a number; `-0` is 0.
abbrev pub minus : ℕ → ℤ
minus zero = pos 0
minus (suc n) = negsuc n

unfoldable pub get_nat : ℕ → List ℕ → Option (ℕ × List ℕ)
unfolding get_below skip_space
get_nat limit cs = get_below limit (skip_space cs)

-- `>>` into an `int` of 32 bits.
unfoldable pub get_int : List ℕ → Option (ℤ × List ℕ)
unfolding skip_space get_below
get_int cs =
    let text = skip_space cs in
    if starts_with_minus text
    then elim (get_below 2147483649 (drop_first text)) [
      | none ↦ none
      | some r ↦ some (minus r.0, r.1)
    ]
    else elim (get_below 2147483648 text) [ none ↦ none | some r ↦ some (pos r.0, r.1) ]

starts-digits_from :
    (fuel n : ℕ) (ds : List ℕ) → n < fuel → starts_with_digit (digits_from fuel n ds) ≡ true
unfolding digits_from
starts-digits_from zero n ds h = absurd (omega (arith, h))
starts-digits_from (suc fuel) n ds h =
    ground (arith, starts-digits_from fuel (n / 10) ((48 + n % 10) ∷ ds), h)

take-digit :
    (a d m : ℕ) (ds : List ℕ)
    → d < 10
    → a * 10 + d ≡ m
    → take_digits a ((48 + d) ∷ ds) ≡ take_digits m ds
unfolding take_digits
take-digit a d m ds h e =
    let digit : is_digit (48 + d) ≡ true = ground (arith, h) in
    let value : a * 10 + (48 + d - 48) ≡ m = omega (arith, e) in rw (digit, value) refl

take-digits_from :
    (fuel n : ℕ) (ds : List ℕ) → n < fuel → take_digits 0 (digits_from fuel n ds) ≡ take_digits n ds
unfolding digits_from
take-digits_from zero n ds h = absurd (omega (arith, h))
take-digits_from (suc fuel) n ds h = elim (Bool-cases (ltb n 10)) [
  | inl e ↦ rw e (take-digit 0 n n ds (ground (arith, e)) (omega arith))
  | inr e ↦ rw e (
      take-digits_from fuel (n / 10) ((48 + n % 10) ∷ ds) (ground (arith, e, h))
      ∙ take-digit (n / 10) (n % 10) n ds (omega arith) (omega arith))
]

skip-digits :
    (cs : List ℕ)
    → starts_with_digit cs ≡ true
    → (skip_space cs ≡ cs) × (starts_with_minus cs ≡ false)
unfolding skip_space
skip-digits [] h = absurd (ground (arith, h))
skip-digits (c ∷ cs) h = ground (arith, h)

take-rest :
    (n : ℕ) (rest : List ℕ) → starts_with_digit rest ≡ false → take_digits n rest ≡ (n, rest)
unfolding take_digits
take-rest n [] h = refl
take-rest n (c ∷ cs) h = ground (arith, h)

get-put_below :
    (limit n : ℕ) (rest : List ℕ)
    → n < limit
    → starts_with_digit rest ≡ false
    → get_below limit (put_nat n rest) ≡ some (n, rest)
unfolding get_below put_nat
get-put_below limit n rest h r =
    let digits : take_digits 0 (digits_from (suc n) n rest) ≡ (n, rest) =
      take-digits_from (suc n) n rest (omega arith) ∙ take-rest n rest r in
    let small : ltb n limit ≡ true = ground (arith, h) in
    rw (digits, starts-digits_from (suc n) n rest (omega arith), small) refl

starts-put_nat : (n : ℕ) (rest : List ℕ) → starts_with_digit (put_nat n rest) ≡ true
unfolding put_nat
starts-put_nat n rest = starts-digits_from (suc n) n rest (omega arith)

-- A number below the limit is read back as it was written, if no digit follows it.
pub get-put_nat :
    (limit n : ℕ) (rest : List ℕ)
    → n < limit
    → starts_with_digit rest ≡ false
    → get_nat limit (put_nat n rest) ≡ some (n, rest)
unfolding get_nat
get-put_nat limit n rest h r =
    rw ((skip-digits (put_nat n rest) (starts-put_nat n rest)).0) (get-put_below limit n rest h r)

-- Blank space before a number is skipped.
pub get_nat_newline : (limit : ℕ) (cs : List ℕ) → get_nat limit (10 ∷ cs) ≡ get_nat limit cs
unfolding get_nat skip_space
get_nat_newline limit cs = refl

pub get_int_newline : (cs : List ℕ) → get_int (10 ∷ cs) ≡ get_int cs
unfolding get_int skip_space
get_int_newline cs = refl

-- An `int` is read back as it was written, if it fits and no digit follows it.
pub get-put_int :
    (z : ℤ) (rest : List ℕ)
    → pos_part z < 2147483648
    → neg_part z < 2147483649
    → starts_with_digit rest ≡ false
    → get_int (put_int z rest) ≡ some (z, rest)
unfolding get_int put_int
get-put_int (pos n) rest h k r =
    let plain = skip-digits (put_nat n rest) (starts-put_nat n rest) in
    rw (plain.0, plain.1, get-put_below 2147483648 n rest h r) refl
get-put_int (negsuc n) rest h k r = rw (get-put_below 2147483649 (suc n) rest k r) refl

digits_from-append :
    (fuel n : ℕ) (ds rest : List ℕ)
    → digits_from fuel n ds ++ rest ≡ digits_from fuel n (ds ++ rest)
unfolding digits_from
digits_from-append zero n ds rest = refl
digits_from-append (suc fuel) n ds rest =
    ground (arith, digits_from-append fuel (n / 10) ((48 + n % 10) ∷ ds) rest)

-- What comes after a number may be written later.
pub put_nat-append :
    (n : ℕ) (after rest : List ℕ) → put_nat n after ++ rest ≡ put_nat n (after ++ rest)
unfolding put_nat
put_nat-append n after rest = digits_from-append (suc n) n after rest

-- What is read next, if the stream has not failed.
abbrev pub and_then {ℓ} : {A B : Type ℓ} → Option (A × List ℕ) → (A → List ℕ → Option B) → Option B
and_then none next = none
and_then (some r) next = next r.0 r.1

pub and_then-some {ℓ} :
    {A B : Type ℓ} (o : Option (A × List ℕ)) (next : A → List ℕ → Option B) (a : A) (cs : List ℕ)
    → o ≡ some (a, cs)
    → and_then o next ≡ next a cs
and_then-some o next a cs e = ap (λ x. and_then x next) e

pub and_then_cong {ℓ} :
    {A B : Type ℓ} (next : A → List ℕ → Option B) (o p : Option (A × List ℕ))
    → o ≡ p
    → and_then o next ≡ and_then p next
and_then_cong next o p e = ap (λ x. and_then x next) e

-- The C string at the start of some bytes: it ends at the first zero.
unfoldable pub c_string : List ℕ → List ℕ
c_string [] = []
c_string (c ∷ cs) = let rest = c_string cs in if c == 0 then [] else c ∷ rest
