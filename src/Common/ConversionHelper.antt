-- ===== src/Common/ConversionHelper.antt =====
-- remus/common/ConversionHelper.h: strings of known length in a stream. The stream that is written is
-- built from its end: each function takes what is written after it.
use remus.Prelude.{
  ℕ, zero, suc, ◌≡◌, refl, Option, none, some, List, [], ◌∷◌, ◌++◌, ◌==◌, if◌then◌else◌, length,
}

-- `writeString`: the bytes and the end of the line.
unfoldable pub write_string : List ℕ → List ℕ → List ℕ
write_string str after = str ++ (10 ∷ after)

-- `sgetn` of `size` bytes; `none` where there are fewer, which the source asserts not to happen.
unfoldable pub get_bytes : ℕ → List ℕ → Option (List ℕ × List ℕ)
get_bytes zero cs = some ([], cs)
get_bytes (suc size) [] = none
get_bytes (suc size) (c ∷ cs) = elim (get_bytes size cs) [
  | none ↦ none
  | some r ↦ some (c ∷ r.0, r.1)
]

-- `if(buffer.peek()=='\n') buffer.get();`
abbrev pub skip_newline : List ℕ → List ℕ
skip_newline [] = []
skip_newline (c ∷ cs) = if c == 10 then cs else c ∷ cs

unfoldable pub extract_string : ℕ → List ℕ → Option (List ℕ × List ℕ)
unfolding get_bytes
extract_string size cs = get_bytes size (skip_newline cs)

get_bytes-append : (str rest : List ℕ) → get_bytes (length str) (str ++ rest) ≡ some (str, rest)
unfolding get_bytes
get_bytes-append [] rest = refl
get_bytes-append (c ∷ cs) rest = rw (get_bytes-append cs rest) refl

-- A string that was written after the newline that ends its length is read back, newlines at its
-- start included, and leaves its own newline in the stream.
pub extract-write_string :
    (str after : List ℕ)
    → extract_string (length str) (10 ∷ write_string str after) ≡ some (str, 10 ∷ after)
unfolding extract_string write_string
extract-write_string str after = get_bytes-append str (10 ∷ after)
