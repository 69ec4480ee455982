-- ===== src/Proto/Wire/Append.antt =====
-- What comes after a value may be written later: the texts that are sent have an end, and the functions
-- that decode them add a newline.
use mathlib.Core.List.{append_assoc}
use remus.Prelude.{ℕ, ℤ, pos, negsuc, suc, ◌≡◌, refl, ap, ◌∙◌, List, [], ◌∷◌, ◌++◌, length}
use remus.Std.Stream.{put_nat, put_int, put_nat-append}
use remus.Common.StatusTypes.{to_int}
use remus.Proto.JobRequirements.{JobRequirements, source_to_int, format_to_int}
use remus.Proto.JobStatus.{JobStatus}
use remus.Proto.JobContent.{JobContent}
use remus.Proto.JobSubmission.{JobSubmission, Contents}
use remus.Proto.Wire.{put_sized, put_mesh_type, put_requirements, put_progress, put_status}
use remus.Proto.Wire.RoundTrip.{put_sized-append, put_mesh_type-append}
use remus.Proto.Wire.Submission.{put_content, put_entries, put_submission}

put_int-append : (z : ℤ) (after rest : List ℕ) → put_int z after ++ rest ≡ put_int z (after ++ rest)
unfolding put_int
put_int-append (pos n) after rest = put_nat-append n after rest
put_int-append (negsuc n) after rest = ap (λ cs. 45 ∷ cs) (put_nat-append (suc n) after rest)

pub put_requirements-append :
    (r : JobRequirements) (after rest : List ℕ)
    → put_requirements r after ++ rest ≡ put_requirements r (after ++ rest)
unfolding put_requirements
put_requirements-append r after rest =
    put_int-append (pos (source_to_int r.source_type)) _ rest
    ∙ ap (λ cs. put_int (pos (source_to_int r.source_type)) (10 ∷ cs))
        (put_int-append (pos (format_to_int r.format_type)) _ rest
          ∙ ap (λ cs. put_int (pos (format_to_int r.format_type)) (10 ∷ cs))
              (put_mesh_type-append r.mesh_types _ rest
                ∙ ap (λ cs. put_mesh_type r.mesh_types (10 ∷ cs))
                    (put_sized-append r.worker_name _ rest
                      ∙ ap (put_sized r.worker_name) (
                          put_sized-append r.tag _ rest
                          ∙ ap (put_sized r.tag) (put_sized-append r.requirements after rest)))))

put_content-append :
    (c : JobContent) (after rest : List ℕ)
    → put_content c after ++ rest ≡ put_content c (after ++ rest)
unfolding put_content
put_content-append c after rest =
    put_int-append (pos (source_to_int c.source_type)) _ rest
    ∙ ap (λ cs. put_int (pos (source_to_int c.source_type)) (10 ∷ cs))
        (put_int-append (pos (format_to_int c.format_type)) _ rest
          ∙ ap (λ cs. put_int (pos (format_to_int c.format_type)) (10 ∷ cs))
              (put_sized-append c.tag _ rest
                ∙ ap (put_sized c.tag) (put_sized-append c.contents after rest)))

put_entries-append :
    (es : Contents) (after rest : List ℕ)
    → put_entries es after ++ rest ≡ put_entries es (after ++ rest)
unfolding put_entries
put_entries-append [] after rest = refl
put_entries-append (e ∷ es) after rest =
    put_sized-append e.0 _ rest
    ∙ ap (put_sized e.0) (
        put_content-append e.1 _ rest
        ∙ ap (λ cs. put_content e.1 (10 ∷ cs)) (put_entries-append es after rest))

pub put_submission-append :
    (s : JobSubmission) (after rest : List ℕ)
    → put_submission s after ++ rest ≡ put_submission s (after ++ rest)
unfolding put_submission
put_submission-append s after rest =
    put_mesh_type-append s.mesh_type _ rest
    ∙ ap (λ cs. put_mesh_type s.mesh_type (10 ∷ cs))
        (put_requirements-append s.requirements _ rest
          ∙ ap (λ cs. put_requirements s.requirements (10 ∷ cs))
              (put_nat-append (length s.content) _ rest
                ∙ ap (λ cs. put_nat (length s.content) (10 ∷ cs))
                    (put_entries-append s.content after rest)))

-- The text of an uuid is a word, before which nothing is written.
pub put_status-append :
    (text : ℕ → List ℕ) (js : JobStatus) (after rest : List ℕ)
    → put_status (λ u cs. text u ++ cs) js after ++ rest
      ≡ put_status (λ u cs. text u ++ cs) js (after ++ rest)
unfolding put_status put_progress
put_status-append text js after rest =
    append_assoc (text js.id) _ rest
    ∙ ap (λ cs. text js.id ++ 10 ∷ cs)
        (put_int-append (pos (to_int js.status)) _ rest
          ∙ ap (λ cs. put_int (pos (to_int js.status)) (10 ∷ cs))
              (put_int-append js.progress.value _ rest
                ∙ ap (λ cs. put_int js.progress.value (10 ∷ cs))
                    (put_sized-append js.progress.message _ rest)))
