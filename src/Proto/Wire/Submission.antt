-- ===== src/Proto/Wire/Submission.antt =====
-- The serialization of remus/proto/JobContent.cxx, remus/proto/JobSubmission.cxx,
-- remus/proto/JobResult.cxx, remus/proto/WorkerJob.cxx and of the sets of remus/common/MeshIOType.cxx
-- and remus/proto/JobRequirements.cxx, as in the parent.
pub mod RoundTrip
pub mod Sets
use remus.Prelude.{ℕ, zero, suc, pos, Option, none, some, List, [], ◌∷◌, ◌++◌, length}
use remus.Std.Stream.{put_nat, put_int, get_nat, get_int, and_then}
use remus.Std.Order.{Ord, bytes_ord}
use remus.Std.OrderedMap.{assign}
use remus.Std.Set.{insert}
use remus.Proto.JobRequirements.{source_to_int, format_to_int}
use remus.Proto.JobContent.{JobContent}
use remus.Proto.JobResult.{JobResult}
use remus.Proto.JobSubmission.{JobSubmission, Contents}
use remus.Proto.WorkerJob.{WorkerJob, make_job}
use remus.Proto.Wire.{
  put_sized, get_sized, max_int, max_size, put_mesh_type, get_mesh_type, put_requirements,
  get_requirements, to_source, to_format, cast,
}

unfoldable pub put_content : JobContent → List ℕ → List ℕ
unfolding put_sized
put_content c after = put_int (pos (source_to_int c.source_type)) (
    10
    ∷ put_int (pos (format_to_int c.format_type))
        (10 ∷ put_sized c.tag (put_sized c.contents after)))

unfoldable pub get_content : List ℕ → Option (JobContent × List ℕ)
unfolding get_sized
get_content c₀ = and_then (get_int c₀) λ s c₁. and_then (get_int c₁) λ f c₂.
    cast (to_source s) λ source. cast (to_format f) λ format.
      and_then (get_sized max_size c₂) λ tag c₃. and_then (get_sized max_size c₃) λ contents c₄.
        some (
          record { source_type = source; format_type = format; tag = tag; contents = contents },
          c₄,
        )

-- The loop over the map.
unfoldable pub put_entries : Contents → List ℕ → List ℕ
unfolding put_sized put_content
put_entries [] after = after
put_entries (e ∷ es) after = put_sized e.0 (put_content e.1 (10 ∷ put_entries es after))

unfoldable pub put_submission : JobSubmission → List ℕ → List ℕ
unfolding put_mesh_type put_requirements put_entries
put_submission s after = put_mesh_type s.mesh_type (
    10
    ∷ put_requirements s.requirements
        (10 ∷ put_nat (length s.content) (10 ∷ put_entries s.content after)))

-- The loop that reads `n` entries into the map.
unfoldable pub get_entries : ℕ → Contents → List ℕ → Option (Contents × List ℕ)
unfolding get_sized get_content assign
get_entries zero m c₀ = some (m, c₀)
get_entries (suc n) m c₀ =
    and_then (get_sized max_size c₀)
      λ key c₁. and_then (get_content c₁) λ value c₂. get_entries n (assign key value m) c₂

unfoldable pub get_submission : List ℕ → Option (JobSubmission × List ℕ)
unfolding get_mesh_type get_requirements get_entries
get_submission c₀ = and_then (get_mesh_type c₀) λ type c₁. and_then (get_requirements c₁) λ reqs c₂.
    and_then (get_nat max_size c₂) λ size c₃.
      and_then (get_entries size [] c₃)
        λ content c₄. some (record { mesh_type = type; requirements = reqs; content = content }, c₄)

-- `to_JobSubmission`: the data, with a newline behind it.
unfoldable pub to_submission : List ℕ → Option (JobSubmission × List ℕ)
unfolding get_submission
to_submission data' = get_submission (data' ++ 10 ∷ [])

-- The text of an uuid is that of the library.
unfoldable pub put_result : (ℕ → List ℕ → List ℕ) → JobResult → List ℕ → List ℕ
unfolding put_sized
put_result put_uuid r after =
    put_uuid r.id
      (10 ∷ put_int (pos (format_to_int r.format_type)) (10 ∷ put_sized r.contents after))

unfoldable pub get_result : (List ℕ → Option (ℕ × List ℕ)) → List ℕ → Option (JobResult × List ℕ)
unfolding get_sized
get_result get_uuid c₀ = and_then (get_uuid c₀) λ id c₁. and_then (get_int c₁) λ f c₂.
    cast (to_format f) λ format.
      and_then (get_sized max_size c₂)
        λ contents c₃. some (record { id = id; format_type = format; contents = contents }, c₃)

-- `to_string` of a worker's job, and `to_WorkerJob`, which makes a valid job.
unfoldable pub put_worker_job : (ℕ → List ℕ → List ℕ) → WorkerJob → List ℕ → List ℕ
unfolding put_submission
put_worker_job put_uuid j after = put_uuid j.id (10 ∷ put_submission j.submission (10 ∷ after))

unfoldable pub get_worker_job :
    (List ℕ → Option (ℕ × List ℕ)) → List ℕ → Option (WorkerJob × List ℕ)
unfolding get_submission
get_worker_job get_uuid c₀ =
    and_then (get_uuid c₀)
      λ id c₁. and_then (get_submission c₁) λ submission c₂. some (make_job id submission, c₂)

-- `MeshIOTypeSet` and `JobRequirementsSet`: the number of elements, then each with a newline.
unfoldable pub put_each {ℓ} : {A : Type ℓ} → (A → List ℕ → List ℕ) → List A → List ℕ → List ℕ
put_each put [] after = after
put_each put (x ∷ xs) after = put x (10 ∷ put_each put xs after)

unfoldable pub put_set {ℓ} : {A : Type ℓ} → (A → List ℕ → List ℕ) → List A → List ℕ → List ℕ
unfolding put_each
put_set put s after = put_nat (length s) (10 ∷ put_each put s after)

unfoldable pub get_each :
    {A : Type 0} ⦃o : Ord A⦄
    → (List ℕ → Option (A × List ℕ))
    → ℕ
    → List A
    → List ℕ
    → Option (List A × List ℕ)
unfolding insert
get_each get zero s c₀ = some (s, c₀)
get_each get (suc n) s c₀ = and_then (get c₀) λ x c₁. get_each get n (insert x s) c₁

unfoldable pub get_set :
    {A : Type 0} ⦃o : Ord A⦄ → (List ℕ → Option (A × List ℕ)) → List ℕ → Option (List A × List ℕ)
unfolding get_each
get_set get c₀ = and_then (get_nat max_size c₀) λ n c₁. get_each get n [] c₁
