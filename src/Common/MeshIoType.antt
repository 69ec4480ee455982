-- ===== src/Common/MeshIoType.antt =====
-- remus/common/MeshIOType.h and MeshIOType.cxx: the input and output type of a job, by name.
use remus.Prelude.{ℕ, Bool, not, ◌&&◌, List, [], if◌then◌else◌, is_nil}
use remus.Std.Order.{Ord, bytes_eq, bytes_lt, bytes_ord, pair_ord}

pub record MeshIoType : Type 0 where
  pub input_type : List ℕ
  pub output_type : List ℕ

-- `MeshIOType()`, which is not valid.
abbrev pub no_mesh_io_type : MeshIoType
no_mesh_io_type = record { input_type = []; output_type = [] }

unfoldable pub valid : MeshIoType → Bool
valid t = not (is_nil t.input_type) && not (is_nil t.output_type)

-- `operator==`.
unfoldable pub eq : MeshIoType → MeshIoType → Bool
eq a b = bytes_eq a.input_type b.input_type && bytes_eq a.output_type b.output_type

-- `operator<`.
unfoldable pub lt : MeshIoType → MeshIoType → Bool
lt a b =
    if bytes_eq a.input_type b.input_type
    then bytes_lt a.output_type b.output_type
    else bytes_lt a.input_type b.input_type

abbrev key : MeshIoType → List ℕ × List ℕ
key t = (t.input_type, t.output_type)

instance unfoldable pub mesh_io_type_ord : Ord MeshIoType
unfolding eq lt
mesh_io_type_ord = record {
  lt = lt;
  eq = eq;
  eq_refl = λ a. pair_ord.eq_refl (key a);
  eq_cong = λ a b c. pair_ord.eq_cong (key a) (key b) (key c);
  lt_ne = λ a b. pair_ord.lt_ne (key a) (key b);
  lt_trans = λ a b c. pair_ord.lt_trans (key a) (key b) (key c);
  lt_total = λ a b. pair_ord.lt_total (key a) (key b);
}
