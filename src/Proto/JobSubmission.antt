-- ===== src/Proto/JobSubmission.antt =====
-- remus/proto/JobSubmission.h and JobSubmission.cxx: what a client asks for. `md5` is the hash by which
-- contents are compared.
use remus.Prelude.{
  ℕ, Bool, true, false, not, ◌&&◌, ◌||◌, List, [], ◌∷◌, length, ◌==◌, if◌then◌else◌,
}
use remus.Std.Order.{bytes_eq, bytes_lt, bytes_ord}
use remus.Std.OrderedMap.{assign}
use remus.Common.MeshIoType
use remus.Common.MeshIoType.{MeshIoType, no_mesh_io_type}
use remus.Proto.JobRequirements
use remus.Proto.JobRequirements.{JobRequirements, no_requirements}
use remus.Proto.JobContent
use remus.Proto.JobContent.{JobContent}

abbrev pub Contents : Type 0
Contents = List (List ℕ × JobContent)

pub record JobSubmission : Type 0 where
  pub mesh_type : MeshIoType
  pub requirements : JobRequirements
  pub content : Contents

abbrev pub no_submission : JobSubmission
no_submission = record { mesh_type = no_mesh_io_type; requirements = no_requirements; content = [] }

-- "data".
abbrev pub default_key : List ℕ
default_key = 100 ∷ 97 ∷ 116 ∷ 97 ∷ []

-- The constructors with requirements, with one content and with a map of them.
unfoldable pub make : JobRequirements → Contents → JobSubmission
make reqs content = record { mesh_type = reqs.mesh_types; requirements = reqs; content = content }

unfoldable pub make_one : JobRequirements → JobContent → JobSubmission
unfolding make assign
make_one reqs content = make reqs (assign default_key content [])

-- `operator==` and `operator<` of the map, lexicographic over its entries.
unfoldable pub contents_eq : (List ℕ → List ℕ) → Contents → Contents → Bool
unfolding JobContent.eq
contents_eq md5 [] [] = true
contents_eq md5 (x ∷ xs) (y ∷ ys) =
    bytes_eq x.0 y.0 && JobContent.eq md5 x.1 y.1 && contents_eq md5 xs ys
contents_eq md5 _ _ = false

abbrev entry_lt : (List ℕ → List ℕ) → List ℕ × JobContent → List ℕ × JobContent → Bool
entry_lt md5 x y = bytes_lt x.0 y.0 || (not (bytes_lt y.0 x.0) && JobContent.lt md5 x.1 y.1)

unfoldable pub contents_lt : (List ℕ → List ℕ) → Contents → Contents → Bool
unfolding JobContent.lt
contents_lt md5 xs [] = false
contents_lt md5 [] (y ∷ ys) = true
contents_lt md5 (x ∷ xs) (y ∷ ys) =
    if entry_lt md5 x y then true else if entry_lt md5 y x then false else contents_lt md5 xs ys

unfoldable pub eq : (List ℕ → List ℕ) → JobSubmission → JobSubmission → Bool
unfolding contents_eq MeshIoType.eq JobRequirements.eq
eq md5 a b =
    MeshIoType.eq a.mesh_type b.mesh_type
    && JobRequirements.eq a.requirements b.requirements
    && length a.content == length b.content
    && contents_eq md5 a.content b.content

unfoldable pub lt : (List ℕ → List ℕ) → JobSubmission → JobSubmission → Bool
unfolding contents_lt MeshIoType.eq MeshIoType.lt JobRequirements.eq JobRequirements.lt
lt md5 a b =
    if not (MeshIoType.eq a.mesh_type b.mesh_type)
    then MeshIoType.lt a.mesh_type b.mesh_type
    else if not (JobRequirements.eq a.requirements b.requirements)
    then JobRequirements.lt a.requirements b.requirements
    else if not (length a.content == length b.content)
    then contents_lt md5 a.content b.content
    else false
