-- ===== src/Proto/JobRequirements.antt =====
-- remus/proto/JobRequirements.h and JobRequirements.cxx, and remus/common/ContentTypes.h.
use remus.Prelude.{
  ℕ, ◌≡◌, ◌⊎◌, Bool, true, false, not, ◌&&◌, List, [], arith, ltb, ◌==◌, if◌then◌else◌, sym, ◌∙◌,
}
use remus.Std.Order.{Ord, nat_ord, bytes_eq, bytes_lt, bytes_ord, pair_ord}
use remus.Common.MeshIoType
use remus.Common.MeshIoType.{MeshIoType, no_mesh_io_type, mesh_io_type_ord}

-- `ContentSource::Type` and `ContentFormat::Type` are compared as integers.
pub data ContentSource : Type 0 where
  file memory : ContentSource

abbrev pub source_to_int : ContentSource → ℕ
source_to_int file = 0
source_to_int memory = 1

pub data ContentFormat : Type 0 where
  user xml json bson : ContentFormat

abbrev pub format_to_int : ContentFormat → ℕ
format_to_int user = 0
format_to_int xml = 1
format_to_int json = 2
format_to_int bson = 3

pub record JobRequirements : Type 0 where
  pub source_type : ContentSource
  pub format_type : ContentFormat
  pub mesh_types : MeshIoType
  pub worker_name : List ℕ
  pub tag : List ℕ
  pub requirements : List ℕ

-- `operator==`, which leaves the contents out.
unfoldable pub eq : JobRequirements → JobRequirements → Bool
eq a b =
    MeshIoType.eq a.mesh_types b.mesh_types
    && source_to_int a.source_type == source_to_int b.source_type
    && format_to_int a.format_type == format_to_int b.format_type
    && bytes_eq a.worker_name b.worker_name
    && bytes_eq a.tag b.tag

-- `operator<`: the cascade of comparisons.
unfoldable pub lt : JobRequirements → JobRequirements → Bool
lt a b =
    if not (MeshIoType.eq a.mesh_types b.mesh_types)
    then MeshIoType.lt a.mesh_types b.mesh_types
    else if not (source_to_int a.source_type == source_to_int b.source_type)
    then ltb (source_to_int a.source_type) (source_to_int b.source_type)
    else if not (format_to_int a.format_type == format_to_int b.format_type)
    then ltb (format_to_int a.format_type) (format_to_int b.format_type)
    else if not (bytes_eq a.worker_name b.worker_name)
    then bytes_lt a.worker_name b.worker_name
    else if not (bytes_eq a.tag b.tag)
    then bytes_lt a.tag b.tag
    else false

-- The compared fields, nested so that the order of pairs is the cascade.
abbrev Key : Type 0
Key = MeshIoType × (ℕ × (ℕ × (List ℕ × List ℕ)))

abbrev key : JobRequirements → Key
key r = (
  r.mesh_types,
  (source_to_int r.source_type, (format_to_int r.format_type, (r.worker_name, r.tag))),
)

abbrev key_ord : Ord Key
key_ord = pair_ord ⦃p = pair_ord ⦃p = pair_ord ⦃p = pair_ord⦄⦄⦄

pub eq-key : (a b : JobRequirements) → eq a b ≡ key_ord.eq (key a) (key b)
unfolding eq mesh_io_type_ord
eq-key a b = ground arith

-- The cascade of the source, and the nested one, at any results of the comparisons.
cascade :
    (e₁ l₁ e₂ l₂ e₃ l₃ e₄ l₄ e₅ l₅ : Bool)
    → (e₅ ≡ true → l₅ ≡ false)
    → (if not e₁
        then l₁
        else if not e₂
        then l₂
        else if not e₃
        then l₃
        else if not e₄
        then l₄
        else if not e₅
        then l₅
        else false)
      ≡ (if e₁ then (if e₂ then (if e₃ then (if e₄ then l₅ else l₄) else l₃) else l₂) else l₁)
cascade e₁ l₁ e₂ l₂ e₃ l₃ e₄ l₄ e₅ l₅ h = ground arith

pub lt-key : (a b : JobRequirements) → lt a b ≡ key_ord.lt (key a) (key b)
unfolding lt mesh_io_type_ord
lt-key a b =
    cascade (MeshIoType.eq a.mesh_types b.mesh_types) (MeshIoType.lt a.mesh_types b.mesh_types)
      (source_to_int a.source_type == source_to_int b.source_type)
      (ltb (source_to_int a.source_type) (source_to_int b.source_type))
      (format_to_int a.format_type == format_to_int b.format_type)
      (ltb (format_to_int a.format_type) (format_to_int b.format_type))
      (bytes_eq a.worker_name b.worker_name) (bytes_lt a.worker_name b.worker_name)
      (bytes_eq a.tag b.tag) (bytes_lt a.tag b.tag) (bytes_ord.lt_ne a.tag b.tag)

pub eq_refl : (a : JobRequirements) → eq a a ≡ true
eq_refl a = eq-key a a ∙ key_ord.eq_refl (key a)

pub eq_cong : (a b c : JobRequirements) → eq a b ≡ true → eq a c ≡ eq b c
eq_cong a b c h =
    eq-key a c ∙ key_ord.eq_cong (key a) (key b) (key c) (rw (eq-key a b) at h) ∙ sym (eq-key b c)

-- Equal requirements have the same mesh types.
pub eq-mesh_types :
    (a b : JobRequirements) (t : MeshIoType)
    → eq a b ≡ true
    → MeshIoType.eq a.mesh_types t ≡ MeshIoType.eq b.mesh_types t
unfolding eq mesh_io_type_ord
eq-mesh_types a b t h = mesh_io_type_ord.eq_cong a.mesh_types b.mesh_types t (ground (arith, h))

pub lt_ne : (a b : JobRequirements) → eq a b ≡ true → lt a b ≡ false
lt_ne a b h = lt-key a b ∙ key_ord.lt_ne (key a) (key b) (rw (eq-key a b) at h)

pub lt_trans : (a b c : JobRequirements) → lt a b ≡ true → lt b c ≡ true → lt a c ≡ true
lt_trans a b c h k =
    lt-key a c
    ∙ key_ord.lt_trans (key a) (key b) (key c) (rw (lt-key a b) at h) (rw (lt-key b c) at k)

pub lt_total : (a b : JobRequirements) → lt a b ≡ false → lt b a ≡ false → eq a b ≡ true
lt_total a b h k =
    eq-key a b ∙ key_ord.lt_total (key a) (key b) (rw (lt-key a b) at h) (rw (lt-key b a) at k)

-- `operator<` and `operator==` fit together: of any two requirements exactly one is less than the
-- other, or they are equal.
pub lt_cases :
    (a b : JobRequirements)
    → ((lt a b ≡ true) × (eq a b ≡ false) × (lt b a ≡ false))
      ⊎ ((lt a b ≡ false) × (eq a b ≡ true) × (lt b a ≡ false))
      ⊎ ((lt a b ≡ false) × (eq a b ≡ false) × (lt b a ≡ true))
lt_cases a b = ground (
  arith,
  lt_total a b,
  lt_ne a b,
  lt_trans a b a,
  lt_ne a a,
  eq_refl a,
  lt_ne b a,
  eq_cong a b a,
  eq_refl b,
)

-- `JobRequirementsSet` is a `std::set` under this order.
instance abbrev pub requirements_ord : Ord JobRequirements
requirements_ord = record {
  lt = lt;
  eq = eq;
  eq_refl = eq_refl;
  eq_cong = eq_cong;
  lt_ne = lt_ne;
  lt_trans = lt_trans;
  lt_total = lt_total;
}

-- `JobRequirements()`.
abbrev pub no_requirements : JobRequirements
no_requirements = record {
  source_type = file;
  format_type = user;
  mesh_types = no_mesh_io_type;
  worker_name = [];
  tag = [];
  requirements = [];
}
