-- ===== src/Proto/Wire/Submission/RoundTrip.antt =====
-- Submissions, results and jobs: what is written is read back.
use remus.Prelude.{ℕ, pos, ◌<◌, ◌≡◌, refl, ap, ◌∙◌, ◌^◌, Option, some, List, [], ◌∷◌, arith, length}
use remus.Std.Stream.{
  get-put_nat, get-put_int, get_nat_newline, get_int_newline, and_then-some, and_then_cong,
}
use remus.Std.Order.{bytes_ord}
use remus.Std.OrderedMap.{assign, assign_all, assign_all-sorted, IsSorted}
use remus.Proto.JobRequirements.{source_to_int, format_to_int}
use remus.Proto.JobContent.{JobContent}
use remus.Proto.JobResult.{JobResult}
use remus.Proto.JobSubmission.{JobSubmission, Contents}
use remus.Proto.WorkerJob.{make_job}
use remus.Proto.Wire.{max_size}
use remus.Proto.Wire.RoundTrip.{
  get-put_sized_next, get_sized_newline, get-put_int_next, get-put_mesh_type, get_mesh_type_newline,
  get-put_requirements, get_requirements_newline, cast-some, cast_source, cast_format, IsShort,
}
use remus.Proto.Wire.Submission.{
  put_content, get_content, put_entries, get_entries, put_submission, get_submission, put_result,
  get_result, put_worker_job, get_worker_job,
}
use remus.Proto.Wire.Submission.Sets.{gap, IsShortType}

abbrev pub IsShortContent : JobContent → Type 0
IsShortContent c = (length c.tag < max_size) × (length c.contents < max_size)

get-put_content :
    (c : JobContent) (after : List ℕ)
    → IsShortContent c
    → get_content (put_content c after) ≡ some (c, 10 ∷ after)
unfolding get_content put_content
get-put_content c after v =
    and_then-some _ _ _ _
      (get-put_int (pos (source_to_int c.source_type)) _ (ground arith) (omega arith) refl)
    ∙ and_then-some _ _ _ _
        (get-put_int_next (pos (format_to_int c.format_type)) _ (ground arith) (omega arith))
    ∙ cast-some _ _ _ (cast_source c.source_type)
    ∙ cast-some _ _ _ (cast_format c.format_type)
    ∙ and_then-some _ _ _ _ (get-put_sized_next max_size c.tag _ v.0)
    ∙ and_then-some _ _ _ _ (get-put_sized_next max_size c.contents after v.1)

get_content_newline : (cs : List ℕ) → get_content (10 ∷ cs) ≡ get_content cs
unfolding get_content
get_content_newline cs = and_then_cong _ _ _ (get_int_newline cs)

-- All strings of a map of contents fit.
abbrev pub AllShort : Contents → Type 0
AllShort [] = Unit
AllShort (e ∷ es) = (length e.0 < max_size) × IsShortContent e.1 × AllShort es

get-put_entries_next :
    (m es : Contents) (after : List ℕ)
    → AllShort es
    → get_entries (length es) m (10 ∷ 10 ∷ put_entries es after)
      ≡ some (assign_all m es, 10 ∷ 10 ∷ after)
unfolding get_entries put_entries assign_all
get-put_entries_next m [] after v = refl
get-put_entries_next m (e ∷ es) after v =
    and_then-some _ _ _ _ (get_sized_newline max_size _ ∙ get-put_sized_next max_size e.0 _ v.0)
    ∙ and_then-some _ _ _ _ (get_content_newline _ ∙ get-put_content e.1 _ v.1)
    ∙ get-put_entries_next (assign e.0 e.1 m) es after v.2

get-put_entries :
    (m es : Contents) (after : List ℕ)
    → AllShort es
    → get_entries (length es) m (10 ∷ put_entries es after) ≡ some (assign_all m es, gap es after)
unfolding get_entries put_entries assign_all
get-put_entries m [] after v = refl
get-put_entries m (e ∷ es) after v =
    and_then-some _ _ _ _ (get-put_sized_next max_size e.0 _ v.0)
    ∙ and_then-some _ _ _ _ (get_content_newline _ ∙ get-put_content e.1 _ v.1)
    ∙ get-put_entries_next (assign e.0 e.1 m) es after v.2

-- The contents are a map of the C++ library, and all strings fit the integers of their sizes.
pub record IsSendable (s : JobSubmission) : Type 0 where
  pub types : IsShortType s.mesh_type
  pub requirements : IsShort s.requirements
  pub map : IsSorted s.content
  pub entries : length s.content < max_size
  pub contents : AllShort s.content

-- A submission is read back as it was written, with any number of named contents, whatever bytes its
-- strings hold, if its strings are short enough and its contents are a map.
pub get-put_submission :
    (s : JobSubmission) (after : List ℕ)
    → IsSendable s
    → get_submission (put_submission s after) ≡ some (s, gap s.content after)
unfolding get_submission put_submission
get-put_submission s after v =
    and_then-some _ _ _ _ (get-put_mesh_type s.mesh_type _ v.types.0 v.types.1)
    ∙ and_then-some _ _ _ _ (
        get_requirements_newline _
        ∙ get_requirements_newline _
        ∙ get-put_requirements s.requirements _ v.requirements)
    ∙ and_then-some _ _ _ _ (
        get_nat_newline max_size _
        ∙ get_nat_newline max_size _
        ∙ get-put_nat max_size (length s.content) _ v.entries refl)
    ∙ and_then-some _ _ _ _ (
        get-put_entries [] s.content after v.contents
        ∙ ap (λ m. some (m, gap s.content after)) (assign_all-sorted s.content v.map))

get_submission_newline : (cs : List ℕ) → get_submission (10 ∷ cs) ≡ get_submission cs
unfolding get_submission
get_submission_newline cs = and_then_cong _ _ _ (get_mesh_type_newline cs)

-- If the library reads an uuid back from the text that it writes before a newline, then a valid job
-- that the server sends a worker is read back as it was written, if its submission can be sent, and so
-- is a result with fewer than 2 ^ 64 bytes that the worker sends back.
pub get-put_worker_job :
    (put_uuid : ℕ → List ℕ → List ℕ) (get_uuid : List ℕ → Option (ℕ × List ℕ))
    → ((u : ℕ) (rest : List ℕ)
        → u < 2 ^ 128
        → get_uuid (put_uuid u (10 ∷ rest)) ≡ some (u, 10 ∷ rest))
    → (id : ℕ) (s : JobSubmission) (r : JobResult) (after : List ℕ) → id < 2 ^ 128
    → IsSendable s
    → r.id < 2 ^ 128
    → length r.contents < max_size
    → (get_worker_job get_uuid (put_worker_job put_uuid (make_job id s) after)
        ≡ some (make_job id s, gap s.content (10 ∷ after)))
      × (get_result get_uuid (put_result put_uuid r after) ≡ some (r, 10 ∷ after))
unfolding get_worker_job put_worker_job get_result put_result make_job
get-put_worker_job put_uuid get_uuid reads id s r after h v k fits = (
  and_then-some _ _ _ _ (reads id _ h)
      ∙ and_then-some _ _ _ _ (get_submission_newline _ ∙ get-put_submission s (10 ∷ after) v),
  and_then-some _ _ _ _ (reads r.id _ k)
      ∙ and_then-some _ _ _ _
          (get-put_int_next (pos (format_to_int r.format_type)) _ (ground arith) (omega arith))
      ∙ cast-some _ _ _ (cast_format r.format_type)
      ∙ and_then-some _ _ _ _ (get-put_sized_next max_size r.contents after fits),
)
