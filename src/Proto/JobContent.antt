-- ===== src/Proto/JobContent.antt =====
-- remus/proto/JobContent.h and JobContent.cxx: named bytes of a submission. `md5` is the hash of
-- remus/common/MD5Hash.h; that hashes are computed once and kept has no effect.
pub mod Equality
use remus.Prelude.{
  ℕ, zero, suc, Bool, true, false, not, ◌&&◌, List, [], ◌∷◌, length, ltb, ◌==◌, if◌then◌else◌,
}
use remus.Std.Order.{bytes_eq, bytes_lt}
use remus.Proto.JobRequirements.{
  ContentSource, file, memory, ContentFormat, user, source_to_int, format_to_int,
}

pub record JobContent : Type 0 where
  pub source_type : ContentSource
  pub format_type : ContentFormat
  pub tag : List ℕ
  pub contents : List ℕ

abbrev pub no_content : JobContent
no_content = record { source_type = file; format_type = user; tag = []; contents = [] }

-- `make_JobContent` with a file, whose contents are its path.
unfoldable pub of_file : ContentFormat → List ℕ → JobContent
of_file format path = record { source_type = file; format_type = format; tag = []; contents = path }

unfoldable pub of_memory : ContentFormat → List ℕ → JobContent
of_memory format contents = record {
  source_type = memory;
  format_type = format;
  tag = [];
  contents = contents;
}

unfoldable pub data_size : JobContent → ℕ
data_size c = length c.contents

-- The first bytes.
unfoldable pub take : ℕ → List ℕ → List ℕ
take zero bytes = []
take (suc n) [] = []
take (suc n) (b ∷ bs) = b ∷ take n bs

module _ (md5 : List ℕ → List ℕ) where
  unfoldable pub short_hash : JobContent → List ℕ
  unfolding take data_size
  short_hash c = if ltb (data_size c) 4096 then c.contents else md5 (take 4096 c.contents)

  unfoldable pub full_hash : JobContent → List ℕ
  full_hash c = md5 c.contents

  -- `InternalImpl::equal`.
  unfoldable pub equal : JobContent → JobContent → Bool
  unfolding short_hash full_hash
  equal a b = bytes_eq (short_hash a) (short_hash b) && bytes_eq (full_hash a) (full_hash b)

  -- `InternalImpl::less`.
  unfoldable pub less : JobContent → JobContent → Bool
  unfolding short_hash full_hash
  less a b =
      if not (bytes_eq (short_hash a) (short_hash b))
      then bytes_lt (short_hash a) (short_hash b)
      else if not (bytes_eq (full_hash a) (full_hash b))
      then bytes_lt (full_hash a) (full_hash b)
      else false

  -- `operator==`.
  unfoldable pub eq : JobContent → JobContent → Bool
  unfolding equal data_size
  eq a b =
      source_to_int a.source_type == source_to_int b.source_type
      && format_to_int a.format_type == format_to_int b.format_type
      && bytes_eq a.tag b.tag
      && data_size a == data_size b
      && equal a b

  -- `operator<`.
  unfoldable pub lt : JobContent → JobContent → Bool
  unfolding equal less data_size
  lt a b =
      if not (source_to_int a.source_type == source_to_int b.source_type)
      then ltb (source_to_int a.source_type) (source_to_int b.source_type)
      else if not (format_to_int a.format_type == format_to_int b.format_type)
      then ltb (format_to_int a.format_type) (format_to_int b.format_type)
      else if not (bytes_eq a.tag b.tag)
      then bytes_lt a.tag b.tag
      else if not (data_size a == data_size b)
      then ltb (data_size a) (data_size b)
      else if not (equal a b)
      then less a b
      else false
