-- ===== src/Proto/Wire/RoundTrip.antt =====
-- What is written is read back.
use remus.Prelude.{
  ℕ, ℤ, pos, ◌<◌, ◌≡◌, refl, ap, ◌∙◌, Option, some, List, ◌∷◌, ◌++◌, arith, length, pos_part,
  neg_part, ◌^◌,
}
use mathlib.Core.List.{append_assoc}
use remus.Std.Stream.{
  put_nat, put_nat-append, put_int, get_int, get-put_nat, get-put_int, get_nat_newline,
  get_int_newline, and_then, and_then-some, and_then_cong,
}
use remus.Common.ConversionHelper.{write_string, extract_string, extract-write_string}
use remus.Common.MeshIoType.{MeshIoType}
use remus.Common.StatusTypes.{
  StatusType, invalid_status, queued, in_progress, finished, failed, expired, to_int,
}
use remus.Proto.JobRequirements.{
  JobRequirements, ContentSource, file, memory, ContentFormat, user, xml, json, bson, source_to_int,
  format_to_int,
}
use remus.Proto.JobStatus.{JobStatus}
use remus.Proto.JobProgress.{JobProgress, IsProgressValue}
use remus.Proto.Wire.{
  put_sized, get_sized, max_int, max_size, put_progress, get_progress, put_mesh_type, get_mesh_type,
  to_source, to_format, to_status, cast, put_requirements, get_requirements, put_status, get_status,
}

pub get-put_sized :
    (limit : ℕ) (str after : List ℕ)
    → length str < limit
    → get_sized limit (put_sized str after) ≡ some (str, 10 ∷ after)
unfolding get_sized put_sized
get-put_sized limit str after h =
    and_then-some _ _ _ _ (get-put_nat limit (length str) (10 ∷ write_string str after) h refl)
    ∙ extract-write_string str after

-- Between two values there are newlines, which the reader skips.
pub get_sized_newline : (limit : ℕ) (cs : List ℕ) → get_sized limit (10 ∷ cs) ≡ get_sized limit cs
unfolding get_sized
get_sized_newline limit cs =
    ap (λ o. and_then o (λ size rest. extract_string size rest)) (get_nat_newline limit cs)

pub get-put_sized_next :
    (limit : ℕ) (str after : List ℕ)
    → length str < limit
    → get_sized limit (10 ∷ put_sized str after) ≡ some (str, 10 ∷ after)
get-put_sized_next limit str after h =
    get_sized_newline limit (put_sized str after) ∙ get-put_sized limit str after h

pub get-put_int_next :
    (z : ℤ) (rest : List ℕ)
    → pos_part z < 2147483648
    → neg_part z < 2147483649
    → get_int (10 ∷ put_int z (10 ∷ rest)) ≡ some (z, 10 ∷ rest)
get-put_int_next z rest h k =
    get_int_newline (put_int z (10 ∷ rest)) ∙ get-put_int z (10 ∷ rest) h k refl

-- A progress whose value is one that a progress can have, with any message shorter than 2 ^ 31 bytes,
-- newlines and blanks included, is read back as it was written, and what was written after it is left.
pub get-put_progress :
    (p : JobProgress) (after : List ℕ)
    → IsProgressValue p.value
    → length p.message < max_int
    → get_progress (put_progress p after) ≡ some (p, 10 ∷ after)
unfolding get_progress put_progress
get-put_progress p after v h =
    and_then-some _ _ _ _ (
      get-put_int p.value (10 ∷ put_sized p.message after) (ground (arith, v)) (ground (arith, v))
        refl)
    ∙ and_then-some _ _ _ _ (get-put_sized_next max_int p.message after h)

-- A mesh type with names shorter than 2 ^ 64 bytes is read back as it was written.
pub get-put_mesh_type :
    (t : MeshIoType) (after : List ℕ)
    → length t.input_type < max_size
    → length t.output_type < max_size
    → get_mesh_type (put_mesh_type t after) ≡ some (t, 10 ∷ after)
unfolding get_mesh_type put_mesh_type
get-put_mesh_type t after h k =
    and_then-some _ _ _ _ (get-put_sized max_size t.input_type (put_sized t.output_type after) h)
    ∙ and_then-some _ _ _ _ (get-put_sized_next max_size t.output_type after k)

pub get_mesh_type_newline : (cs : List ℕ) → get_mesh_type (10 ∷ cs) ≡ get_mesh_type cs
unfolding get_mesh_type
get_mesh_type_newline cs = and_then_cong _ _ _ (get_sized_newline max_size cs)

get_progress_newline : (cs : List ℕ) → get_progress (10 ∷ cs) ≡ get_progress cs
unfolding get_progress
get_progress_newline cs = and_then_cong _ _ _ (get_int_newline cs)

pub cast-some {ℓ} :
    {A B : Type ℓ} (o : Option A) (next : A → Option B) (a : A) → o ≡ some a → cast o next ≡ next a
cast-some o next a e = ap (λ x. cast x next) e

pub cast_source : (s : ContentSource) → to_source (pos (source_to_int s)) ≡ some s
cast_source file = refl
cast_source memory = refl

pub cast_format : (s : ContentFormat) → to_format (pos (format_to_int s)) ≡ some s
cast_format user = refl
cast_format xml = refl
cast_format json = refl
cast_format bson = refl

cast_status : (s : StatusType) → to_status (pos (to_int s)) ≡ some s
unfolding to_int
cast_status invalid_status = refl
cast_status queued = refl
cast_status in_progress = refl
cast_status finished = refl
cast_status failed = refl
cast_status expired = refl

to_int_small : (s : StatusType) → to_int s < 2147483648
unfolding to_int
to_int_small invalid_status = omega arith
to_int_small queued = omega arith
to_int_small in_progress = omega arith
to_int_small finished = omega arith
to_int_small failed = omega arith
to_int_small expired = omega arith

-- The strings of the requirements fit the integers into which their sizes are read.
pub record IsShort (r : JobRequirements) : Type 0 where
  pub input_type : length r.mesh_types.input_type < max_size
  pub output_type : length r.mesh_types.output_type < max_size
  pub worker_name : length r.worker_name < max_int
  pub tag : length r.tag < max_int
  pub requirements : length r.requirements < max_int

-- Requirements whose strings are short enough are read back as they were written, whatever bytes the
-- strings hold, and what was written after them is left.
pub get-put_requirements :
    (r : JobRequirements) (after : List ℕ)
    → IsShort r
    → get_requirements (put_requirements r after) ≡ some (r, 10 ∷ after)
unfolding get_requirements put_requirements
get-put_requirements r after v =
    and_then-some _ _ _ _
      (get-put_int (pos (source_to_int r.source_type)) _ (ground arith) (omega arith) refl)
    ∙ and_then-some _ _ _ _
        (get-put_int_next (pos (format_to_int r.format_type)) _ (ground arith) (omega arith))
    ∙ and_then-some _ _ _ _
        (get_mesh_type_newline _ ∙ get-put_mesh_type r.mesh_types _ v.input_type v.output_type)
    ∙ cast-some _ _ _ (cast_source r.source_type)
    ∙ cast-some _ _ _ (cast_format r.format_type)
    ∙ and_then-some _ _ _ _
        (get_sized_newline max_int _ ∙ get-put_sized_next max_int r.worker_name _ v.worker_name)
    ∙ and_then-some _ _ _ _ (get-put_sized_next max_int r.tag _ v.tag)
    ∙ and_then-some _ _ _ _ (get-put_sized_next max_int r.requirements after v.requirements)

-- If the library reads an uuid back from the text that it writes before a newline, then a status, with
-- any message shorter than 2 ^ 31 bytes, is read back as it was written.
pub get-put_status :
    (put_uuid : ℕ → List ℕ → List ℕ) (get_uuid : List ℕ → Option (ℕ × List ℕ))
    → ((u : ℕ) (rest : List ℕ)
        → u < 2 ^ 128
        → get_uuid (put_uuid u (10 ∷ rest)) ≡ some (u, 10 ∷ rest))
    → (js : JobStatus) (after : List ℕ) → js.id < 2 ^ 128
    → IsProgressValue js.progress.value
    → length js.progress.message < max_int
    → get_status get_uuid (put_status put_uuid js after) ≡ some (js, 10 ∷ 10 ∷ after)
unfolding get_status put_status
get-put_status put_uuid get_uuid reads js after id v h =
    and_then-some _ _ _ _ (reads js.id _ id)
    ∙ and_then-some _ _ _ _
        (get-put_int_next (pos (to_int js.status)) _ (to_int_small js.status) (omega arith))
    ∙ and_then-some _ _ _ _ (get_progress_newline _ ∙ get-put_progress js.progress (10 ∷ after) v h)
    ∙ cast-some _ _ _ (cast_status js.status)

pub get_requirements_newline : (cs : List ℕ) → get_requirements (10 ∷ cs) ≡ get_requirements cs
unfolding get_requirements
get_requirements_newline cs = and_then_cong _ _ _ (get_int_newline cs)

-- What comes after a value may be written later.
pub put_sized-append :
    (str after rest : List ℕ) → put_sized str after ++ rest ≡ put_sized str (after ++ rest)
unfolding put_sized write_string
put_sized-append str after rest =
    put_nat-append (length str) (10 ∷ (str ++ 10 ∷ after)) rest
    ∙ ap (λ cs. put_nat (length str) (10 ∷ cs)) (append_assoc str (10 ∷ after) rest)

pub put_mesh_type-append :
    (t : MeshIoType) (after rest : List ℕ)
    → put_mesh_type t after ++ rest ≡ put_mesh_type t (after ++ rest)
unfolding put_mesh_type
put_mesh_type-append t after rest =
    put_sized-append t.input_type (put_sized t.output_type after) rest
    ∙ ap (put_sized t.input_type) (put_sized-append t.output_type after rest)
