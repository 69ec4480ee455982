-- ===== src/Proto/JobContent/Equality.antt =====
-- remus/proto/JobContent.cxx: what the comparisons tell apart.
use remus.Prelude.{
  ℕ, ◌<◌, ◌≡◌, refl, ap, sym, ◌∙◌, ◌↔◌, Bool, true, false, not, ◌&&◌, List, [], ◌∷◌, arith, ltb,
  ◌==◌, if◌then◌else◌,
}
use remus.Std.Order.{Ord, nat_ord, bytes_eq, bytes_lt, bytes_ord, pair_ord}
use remus.Proto.JobRequirements.{ContentSource, ContentFormat, source_to_int, format_to_int}
use remus.Proto.JobContent.{JobContent, data_size, short_hash, full_hash, equal, less, eq, lt}

pub bytes_eq-path : (xs ys : List ℕ) → bytes_eq xs ys ≡ true → xs ≡ ys
bytes_eq-path [] [] h = refl
bytes_eq-path [] (y ∷ ys) h = absurd (ground (arith, h))
bytes_eq-path (x ∷ xs) [] h = absurd (ground (arith, h))
bytes_eq-path (x ∷ xs) (y ∷ ys) h = ground (arith, h, bytes_eq-path xs ys)

source-path : (a b : ContentSource) → (source_to_int a == source_to_int b) ≡ true → a ≡ b
source-path a b h = ground (arith, h)

format-path : (a b : ContentFormat) → (format_to_int a == format_to_int b) ≡ true → a ≡ b
format-path a b h = ground (arith, h)

module _ (md5 : List ℕ → List ℕ) where
  -- The compared parts, nested so that the order of pairs is the cascade.
  abbrev Key : Type 0
  Key = ℕ × (ℕ × (List ℕ × (ℕ × (List ℕ × List ℕ))))

  abbrev key : JobContent → Key
  key c = (
    source_to_int c.source_type,
    (format_to_int c.format_type, (c.tag, (data_size c, (short_hash md5 c, full_hash md5 c)))),
  )

  abbrev key_ord : Ord Key
  key_ord = pair_ord ⦃p = pair_ord ⦃p = pair_ord ⦃p = pair_ord ⦃p = pair_ord⦄⦄⦄⦄

  eq-key : (a b : JobContent) → eq md5 a b ≡ key_ord.eq (key a) (key b)
  unfolding eq equal
  eq-key a b = ground arith

  -- The cascade of the source, and the nested one, at any results of the comparisons.
  cascade :
      (e₁ l₁ e₂ l₂ e₃ l₃ e₄ l₄ e₅ l₅ e₆ l₆ : Bool)
      → (e₆ ≡ true → l₆ ≡ false)
      → (if not e₁
          then l₁
          else if not e₂
          then l₂
          else if not e₃
          then l₃
          else if not e₄
          then l₄
          else if not (e₅ && e₆)
          then (if not e₅ then l₅ else if not e₆ then l₆ else false)
          else false)
        ≡ (if e₁
            then (if e₂
                then (if e₃ then (if e₄ then (if e₅ then l₆ else l₅) else l₄) else l₃)
                else l₂)
            else l₁)
  cascade e₁ l₁ e₂ l₂ e₃ l₃ e₄ l₄ e₅ l₅ e₆ l₆ h = ground arith

  lt-key : (a b : JobContent) → lt md5 a b ≡ key_ord.lt (key a) (key b)
  unfolding lt equal less
  lt-key a b =
      cascade (source_to_int a.source_type == source_to_int b.source_type)
        (ltb (source_to_int a.source_type) (source_to_int b.source_type))
        (format_to_int a.format_type == format_to_int b.format_type)
        (ltb (format_to_int a.format_type) (format_to_int b.format_type)) (bytes_eq a.tag b.tag)
        (bytes_lt a.tag b.tag) (data_size a == data_size b) (ltb (data_size a) (data_size b))
        (bytes_eq (short_hash md5 a) (short_hash md5 b))
        (bytes_lt (short_hash md5 a) (short_hash md5 b))
        (bytes_eq (full_hash md5 a) (full_hash md5 b))
        (bytes_lt (full_hash md5 a) (full_hash md5 b))
        (bytes_ord.lt_ne (full_hash md5 a) (full_hash md5 b))

  content_eq_refl : (a : JobContent) → eq md5 a a ≡ true
  content_eq_refl a = eq-key a a ∙ key_ord.eq_refl (key a)

  -- `operator<` is a strict weak order, whose ties are `operator==`.
  pub content_ord : Ord JobContent
  content_ord = record {
    lt = lt md5;
    eq = eq md5;
    eq_refl = content_eq_refl;
    eq_cong = λ a b c h.
        eq-key a c
        ∙ key_ord.eq_cong (key a) (key b) (key c) (rw (eq-key a b) at h)
        ∙ sym (eq-key b c);
    lt_ne = λ a b h. lt-key a b ∙ key_ord.lt_ne (key a) (key b) (rw (eq-key a b) at h);
    lt_trans = λ a b c h k.
        lt-key a c
        ∙ key_ord.lt_trans (key a) (key b) (key c) (rw (lt-key a b) at h) (rw (lt-key b c) at k);
    lt_total = λ a b h k.
        eq-key a b ∙ key_ord.lt_total (key a) (key b) (rw (lt-key a b) at h) (rw (lt-key b a) at k);
  }

  parts :
      (a b : JobContent)
      → eq md5 a b ≡ true
      → ((source_to_int a.source_type == source_to_int b.source_type) ≡ true)
        × ((format_to_int a.format_type == format_to_int b.format_type) ≡ true)
        × (bytes_eq a.tag b.tag ≡ true)
        × ((data_size a == data_size b) ≡ true)
        × (bytes_eq (short_hash md5 a) (short_hash md5 b) ≡ true)
  unfolding eq equal
  parts a b h = ground (arith, h)

  short_hash-small : (c : JobContent) → data_size c < 4096 → short_hash md5 c ≡ c.contents
  unfolding short_hash
  short_hash-small c h = ground (arith, h)

  contents-path :
      (a b : JobContent) → data_size a < 4096 → eq md5 a b ≡ true → a.contents ≡ b.contents
  contents-path a b h e =
      let q = parts a b e in
      let small : data_size b < 4096 = ground (arith, h, q.3) in
      sym (short_hash-small a h)
      ∙ bytes_eq-path (short_hash md5 a) (short_hash md5 b) q.4
      ∙ short_hash-small b small

  -- Contents of fewer than 4096 bytes are equal to the code if and only if they have the same source,
  -- format, tag and bytes, whatever the hash is.
  pub eq-path : (a b : JobContent) → data_size a < 4096 → (eq md5 a b ≡ true) ↔ (a ≡ b)
  eq-path a b h = (
    λ e.
        let q = parts a b e in
        cc (
          source-path a.source_type b.source_type q.0,
          format-path a.format_type b.format_type q.1,
          bytes_eq-path a.tag b.tag q.2,
          contents-path a b h e,
        ),
    λ e. ap (eq md5 a) (sym e) ∙ content_eq_refl a,
  )
