-- ===== src/Proto/Wire/Submission/Sets.antt =====
-- The sets of remus/common/MeshIOType.cxx and remus/proto/JobRequirements.cxx: what is written is read
-- back.
use remus.Prelude.{ℕ, ◌<◌, ◌≡◌, refl, ap, ◌∙◌, Option, some, List, [], ◌∷◌, length}
use remus.Std.Stream.{get-put_nat, and_then-some}
use remus.Std.Order.{Ord}
use remus.Std.Set.{insert, insert_each, insert_each-sorted, IsSorted}
use remus.Common.MeshIoType.{MeshIoType, mesh_io_type_ord}
use remus.Proto.JobRequirements.{JobRequirements, requirements_ord}
use remus.Proto.Wire.{max_size, put_mesh_type, get_mesh_type, put_requirements, get_requirements}
use remus.Proto.Wire.RoundTrip.{
  get-put_mesh_type, get_mesh_type_newline, IsShort, get-put_requirements, get_requirements_newline,
}
use remus.Proto.Wire.Submission.{put_each, put_set, get_each, get_set}

-- What is left behind the elements: each is followed by its own newline and that of the set.
abbrev pub gap : {A : Type 0} → List A → List ℕ → List ℕ
gap [] after = 10 ∷ after
gap (x ∷ xs) after = 10 ∷ 10 ∷ after

-- All elements fit.
abbrev pub AllFit : {A : Type 0} → (A → Type 0) → List A → Type 0
AllFit IsFit [] = Unit
AllFit IsFit (x ∷ xs) = IsFit x × AllFit IsFit xs

-- The names fit the integers into which their sizes are read.
abbrev pub IsShortType : MeshIoType → Type 0
IsShortType t = (length t.input_type < max_size) × (length t.output_type < max_size)

module _ {A : Type 0} ⦃o : Ord A⦄ (put : A → List ℕ → List ℕ) (get : List ℕ → Option (A × List ℕ))
    (IsFit : A → Type 0)
    (reads : (a : A) (after : List ℕ) → IsFit a → get (put a after) ≡ some (a, 10 ∷ after))
    (skips : (cs : List ℕ) → get (10 ∷ cs) ≡ get cs) where
  get-put_each_next :
      (s xs : List A) (after : List ℕ)
      → AllFit IsFit xs
      → get_each get (length xs) s (10 ∷ 10 ∷ put_each put xs after)
        ≡ some (insert_each s xs, 10 ∷ 10 ∷ after)
  unfolding get_each put_each insert_each
  get-put_each_next s [] after v = refl
  get-put_each_next s (x ∷ xs) after v =
      and_then-some _ _ _ _ (skips _ ∙ skips _ ∙ reads x _ v.0)
      ∙ get-put_each_next (insert x s) xs after v.1

  get-put_each :
      (s xs : List A) (after : List ℕ)
      → AllFit IsFit xs
      → get_each get (length xs) s (10 ∷ put_each put xs after)
        ≡ some (insert_each s xs, gap xs after)
  unfolding get_each put_each insert_each
  get-put_each s [] after v = refl
  get-put_each s (x ∷ xs) after v =
      and_then-some _ _ _ _ (skips _ ∙ reads x _ v.0) ∙ get-put_each_next (insert x s) xs after v.1

  get-put_set :
      (s : List A) (after : List ℕ)
      → IsSorted s
      → length s < max_size
      → AllFit IsFit s
      → get_set get (put_set put s after) ≡ some (s, gap s after)
  unfolding get_set put_set
  get-put_set s after v h fit =
      and_then-some _ _ _ _ (get-put_nat max_size (length s) _ h refl)
      ∙ get-put_each [] s after fit
      ∙ ap (λ t. some (t, gap s after)) (insert_each-sorted s v)

-- A set of mesh types with names shorter than 2 ^ 64 bytes, or of requirements whose strings are short
-- enough, is read back as it was written, in the order of the set.
pub get-put_sets :
    (types : List MeshIoType) (reqs : List JobRequirements) (after : List ℕ)
    → IsSorted types
    → IsSorted reqs
    → length types < max_size
    → length reqs < max_size
    → AllFit IsShortType types
    → AllFit IsShort reqs
    → (get_set get_mesh_type (put_set put_mesh_type types after) ≡ some (types, gap types after))
      × (get_set get_requirements (put_set put_requirements reqs after)
          ≡ some (reqs, gap reqs after))
get-put_sets types reqs after v w h k fit short = (
  get-put_set put_mesh_type get_mesh_type IsShortType (λ t rest u. get-put_mesh_type t rest u.0 u.1)
      get_mesh_type_newline types after v h fit,
  get-put_set put_requirements get_requirements IsShort get-put_requirements
      get_requirements_newline reqs after w k short,
)
