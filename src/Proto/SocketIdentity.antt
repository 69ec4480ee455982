-- ===== src/Proto/SocketIdentity.antt =====
-- remus/proto/zmqSocketIdentity.h and zmqSocketIdentity.cxx: who is at the other end of a socket. A
-- `char` is signed, so that a byte from 128 on is cast to an unsigned integer of 32 bits with the high
-- bits set. `hex` is what the stream writes of the four words of an old identity.
use remus.Prelude.{
  ℕ, zero, suc, ◌+◌, ◌*◌, ◌%◌, ◌≡◌, sym, ap, ◌∙◌, ◌↔◌, Bool, true, false, not, ◌&&◌, List, [], ◌∷◌,
  arith, length, ltb, ◌==◌, if◌then◌else◌,
}
use Prim.Native.Nat.{bit_or, ◌^◌}
use remus.Std.Order.{Ord, nat_ord, bytes_eq, bytes_lt, bytes_ord, pair_ord, lt_asymm}
use remus.Std.Stream.{put_nat}
use remus.Proto.JobContent.Equality.{bytes_eq-path}

pub record SocketIdentity : Type 0 where
  pub data' : List ℕ
  pub name : List ℕ

-- `static_cast<boost::uint32_t>(c)`.
unfoldable pub cast_char : ℕ → ℕ
cast_char c = if ltb c 128 then c else c + 4294967040

-- `<<` on an integer of 32 bits.
unfoldable pub shift_left : ℕ → ℕ → ℕ
shift_left n bits = n * 2 ^ bits % 4294967296

unfoldable pub byte : ℕ → List ℕ → ℕ
byte i [] = 0
byte zero (b ∷ bs) = b
byte (suc i) (b ∷ bs) = byte i bs

unfoldable pub convert_be_to_unsigned_integer : List ℕ → ℕ
unfolding cast_char shift_left byte
convert_be_to_unsigned_integer buffer =
    bit_or
      (bit_or
        (bit_or (shift_left (cast_char (byte 1 buffer)) 24)
          (shift_left (cast_char (byte 2 buffer)) 16))
        (shift_left (cast_char (byte 3 buffer)) 8))
      (cast_char (byte 4 buffer))

abbrev pub starts_with_zero : List ℕ → Bool
starts_with_zero [] = false
starts_with_zero (c ∷ cs) = c == 0

-- `SocketIdentity(start, s)`, with the bytes from `start` on.
unfoldable pub make : (List ℕ → List ℕ) → List ℕ → SocketIdentity
unfolding convert_be_to_unsigned_integer put_nat
make hex start = record {
  data' = start;
  name =
      if starts_with_zero start && length start == 5
      then put_nat (convert_be_to_unsigned_integer start) []
      else if starts_with_zero start && length start == 17
      then hex start
      else start;
}

unfoldable pub eq : SocketIdentity → SocketIdentity → Bool
eq a b = if not (length a.data' == length b.data') then false else bytes_eq a.data' b.data'

unfoldable pub lt : SocketIdentity → SocketIdentity → Bool
lt a b =
    if not (length a.data' == length b.data')
    then ltb (length a.data') (length b.data')
    else bytes_lt a.data' b.data'

abbrev key : SocketIdentity → ℕ × List ℕ
key a = (length a.data', a.data')

abbrev key_ord : Ord (ℕ × List ℕ)
key_ord = pair_ord

eq-key : (a b : SocketIdentity) → eq a b ≡ key_ord.eq (key a) (key b)
unfolding eq
eq-key a b = ground arith

lt-key : (a b : SocketIdentity) → lt a b ≡ key_ord.lt (key a) (key b)
unfolding lt
lt-key a b = ground arith

-- Identities are equal to the code if and only if their bytes are the same; one that is less than a
-- second, which is less than a third, is less than the third; and of two identities exactly one is
-- less than the other, or their bytes are the same. So identities can be the keys of a map.
pub lt-IsOrder :
    (a b c : SocketIdentity)
    → ((eq a b ≡ true) ↔ (a.data' ≡ b.data'))
      × (lt a b ≡ true → lt b c ≡ true → lt a c ≡ true)
      × (lt a b ≡ false → lt b a ≡ false → a.data' ≡ b.data')
      × (lt a b ≡ true → lt b a ≡ false)
lt-IsOrder a b c = (
  (
    λ h. bytes_eq-path a.data' b.data' (same a b h),
    λ e. eq-key a b ∙ ap (λ d. key_ord.eq (key a) (length d, d)) (sym e) ∙ key_ord.eq_refl (key a),
  ),
  λ h k.
      lt-key a c
      ∙ key_ord.lt_trans (key a) (key b) (key c) (rw (lt-key a b) at h) (rw (lt-key b c) at k),
  λ h k. bytes_eq-path a.data' b.data' (
      same a b (
        eq-key a b
        ∙ key_ord.lt_total (key a) (key b) (rw (lt-key a b) at h) (rw (lt-key b a) at k))),
  λ h. lt-key b a ∙ lt_asymm ⦃o = key_ord⦄ (key a) (key b) (rw (lt-key a b) at h),
)
  where
    same : (a b : SocketIdentity) → eq a b ≡ true → bytes_eq a.data' b.data' ≡ true
    same a b h = ground (arith, eq-key a b, h)
