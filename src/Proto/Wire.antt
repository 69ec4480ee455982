-- ===== src/Proto/Wire.antt =====
-- The serialization of remus/common/MeshIOType.cxx, remus/proto/JobProgress.cxx,
-- remus/proto/JobRequirements.cxx and remus/proto/JobStatus.cxx. A value is written before what comes
-- after it, and read from the front of a stream, which it leaves with the rest; `none` is a stream that
-- fails or ends, after which the source goes on with unspecified values.
pub mod RoundTrip
pub mod Submission
pub mod Append
use remus.Prelude.{
  ℕ, zero, suc, ℤ, pos, negsuc, ◌≡◌, Bool, true, false, Option, none, some, List, [], ◌∷◌, ◌++◌,
  arith, ◌==◌, if◌then◌else◌, length,
}
use remus.Std.Stream.{put_nat, put_int, get_nat, get_int, and_then}
use remus.Common.ConversionHelper.{write_string, extract_string}
use remus.Common.MeshIoType.{MeshIoType}
use remus.Common.StatusTypes
use remus.Common.StatusTypes.{StatusType, to_int}
use remus.Proto.JobProgress.{JobProgress}
use remus.Proto.JobRequirements.{
  JobRequirements, ContentSource, file, memory, ContentFormat, user, xml, json, bson, source_to_int,
  format_to_int,
}
use remus.Proto.JobStatus.{JobStatus}

-- A string with its size on the line before it.
unfoldable pub put_sized : List ℕ → List ℕ → List ℕ
put_sized str after = put_nat (length str) (10 ∷ write_string str after)

-- The sizes are read into an `int`, or for a mesh type into a `std::size_t`.
unfoldable pub get_sized : ℕ → List ℕ → Option (List ℕ × List ℕ)
get_sized limit cs = and_then (get_nat limit cs) (λ size rest. extract_string size rest)

abbrev pub max_int : ℕ
max_int = 2147483648

abbrev pub max_size : ℕ
max_size = 18446744073709551616

unfoldable pub put_progress : JobProgress → List ℕ → List ℕ
unfolding put_sized
put_progress p after = put_int p.value (10 ∷ put_sized p.message after)

unfoldable pub get_progress : List ℕ → Option (JobProgress × List ℕ)
unfolding get_sized
get_progress cs = and_then (get_int cs) (λ v rest.
    and_then (get_sized max_int rest) (λ m after. some (record { value = v; message = m }, after)))

unfoldable pub put_mesh_type : MeshIoType → List ℕ → List ℕ
unfolding put_sized
put_mesh_type t after = put_sized t.input_type (put_sized t.output_type after)

unfoldable pub get_mesh_type : List ℕ → Option (MeshIoType × List ℕ)
unfolding get_sized
get_mesh_type cs = and_then (get_sized max_size cs) (λ i rest.
    and_then (get_sized max_size rest)
      (λ o after. some (record { input_type = i; output_type = o }, after)))

-- The casts of an `int` to an enumeration; `none` where it has no such value.
abbrev pub to_source : ℤ → Option ContentSource
to_source (pos zero) = some file
to_source (pos (suc zero)) = some memory
to_source _ = none

abbrev pub to_format : ℤ → Option ContentFormat
to_format (pos zero) = some user
to_format (pos (suc zero)) = some xml
to_format (pos (suc (suc zero))) = some json
to_format (pos (suc (suc (suc zero)))) = some bson
to_format _ = none

abbrev pub to_status : ℤ → Option StatusType
to_status (pos zero) = some StatusTypes.invalid_status
to_status (pos (suc zero)) = some StatusTypes.queued
to_status (pos (suc (suc zero))) = some StatusTypes.in_progress
to_status (pos (suc (suc (suc zero)))) = some StatusTypes.finished
to_status (pos (suc (suc (suc (suc zero))))) = some StatusTypes.failed
to_status (pos (suc (suc (suc (suc (suc zero)))))) = some StatusTypes.expired
to_status _ = none

-- A cast within a reader.
abbrev pub cast {ℓ} : {A B : Type ℓ} → Option A → (A → Option B) → Option B
cast none next = none
cast (some a) next = next a

unfoldable pub put_requirements : JobRequirements → List ℕ → List ℕ
unfolding put_mesh_type put_sized
put_requirements r after = put_int (pos (source_to_int r.source_type)) (
    10
    ∷ put_int (pos (format_to_int r.format_type)) (
        10
        ∷ put_mesh_type r.mesh_types
            (10 ∷ put_sized r.worker_name (put_sized r.tag (put_sized r.requirements after)))))

-- The casts come after the mesh type is read.
unfoldable pub get_requirements : List ℕ → Option (JobRequirements × List ℕ)
unfolding get_mesh_type get_sized
get_requirements c₀ = and_then (get_int c₀) λ s c₁. and_then (get_int c₁) λ f c₂.
    and_then (get_mesh_type c₂) λ t c₃. cast (to_source s) λ source. cast (to_format f) λ format.
      and_then (get_sized max_int c₃) λ name c₄. and_then (get_sized max_int c₄) λ tag c₅.
        and_then (get_sized max_int c₅) λ reqs c₆. some (
          record {
            source_type = source;
            format_type = format;
            mesh_types = t;
            worker_name = name;
            tag = tag;
            requirements = reqs;
          },
          c₆,
        )

-- `to_JobRequirements`: the data, with a newline behind it.
unfoldable pub to_requirements : List ℕ → Option (JobRequirements × List ℕ)
unfolding get_requirements
to_requirements data' = get_requirements (data' ++ 10 ∷ [])

-- The text of an uuid is that of the library.
unfoldable pub put_status : (ℕ → List ℕ → List ℕ) → JobStatus → List ℕ → List ℕ
unfolding put_progress
put_status put_uuid js after =
    put_uuid js.id
      (10 ∷ put_int (pos (to_int js.status)) (10 ∷ put_progress js.progress (10 ∷ after)))

unfoldable pub get_status : (List ℕ → Option (ℕ × List ℕ)) → List ℕ → Option (JobStatus × List ℕ)
unfolding get_progress
get_status get_uuid c₀ = and_then (get_uuid c₀) λ id c₁. and_then (get_int c₁) λ t c₂.
    and_then (get_progress c₂) λ p c₃.
      cast (to_status t) λ status. some (record { id = id; status = status; progress = p }, c₃)
