-- ===== src/Proto/Job.antt =====
-- remus/proto/Job.h and Job.cxx: what a client holds of a job. `text` and `parse` are the library's
-- conversions of an uuid.
use remus.Prelude.{
  ℕ, ◌<◌, ◌≡◌, refl, ap, ◌∙◌, Bool, false, Option, some, List, [], ◌∷◌, ◌++◌, arith, if◌then◌else◌,
  length, is_nil,
}
use mathlib.Core.List.{append_assoc}
use remus.Std.Stream.{is_space, skip_space, and_then, and_then-some}
use remus.Common.MeshIoType
use remus.Common.MeshIoType.{MeshIoType, no_mesh_io_type}
use remus.Proto.Wire.{put_mesh_type, get_mesh_type, max_size}
use remus.Proto.Wire.RoundTrip.{get-put_mesh_type, put_mesh_type-append}

pub record Job : Type 0 where
  pub id : ℕ
  pub type : MeshIoType
  pub cached_serialized_form : List ℕ

unfoldable pub valid : Job → Bool
valid j = MeshIoType.valid j.type

-- `>>` into a string: the bytes up to the next blank.
unfoldable pub take_word : List ℕ → List ℕ
take_word [] = []
take_word (c ∷ cs) = let rest = take_word cs in if is_space c then [] else c ∷ rest

module _ (text : ℕ → List ℕ) (parse : List ℕ → ℕ) where
  unfoldable pub make_serialized_form : ℕ → MeshIoType → List ℕ
  unfolding put_mesh_type
  make_serialized_form my_id my_type = put_mesh_type my_type (10 ∷ (text my_id ++ 10 ∷ []))

  unfoldable pub make : ℕ → MeshIoType → Job
  unfolding make_serialized_form
  make my_id my_type = record {
    id = my_id;
    type = my_type;
    cached_serialized_form = make_serialized_form my_id my_type;
  }

  -- `to_string`.
  unfoldable pub serialize : Job → List ℕ
  serialize j = j.cached_serialized_form ++ 10 ∷ []

  -- The cache is made of the old cache. `none` is a stream that fails.
  unfoldable pub deserialize : Job → List ℕ → Option Job
  unfolding get_mesh_type skip_space take_word serialize
  deserialize j cs = and_then (get_mesh_type cs) λ type rest. some (record {
    id = parse (take_word (skip_space rest));
    type = type;
    cached_serialized_form = serialize j;
  })

  -- `Job(std::istream&)`, which `>>` uses.
  unfoldable pub of_stream : List ℕ → Option Job
  unfolding deserialize
  of_stream cs =
      deserialize (record { id = 0; type = no_mesh_io_type; cached_serialized_form = [] }) cs

  -- `to_Job`.
  unfoldable pub of_string : List ℕ → Option Job
  unfolding deserialize
  of_string data' =
      deserialize (record { id = 0; type = no_mesh_io_type; cached_serialized_form = data' }) data'

  -- A text that `>>` reads as one word.
  abbrev pub IsWord : List ℕ → Type 0
  IsWord [] = Unit
  IsWord (c ∷ cs) = (is_space c ≡ false) × IsWord cs

  take_word-append : (w rest : List ℕ) → IsWord w → take_word (w ++ 10 ∷ rest) ≡ w
  unfolding take_word
  take_word-append [] rest v = refl
  take_word-append (c ∷ cs) rest v = ground (arith, v.0, take_word-append cs rest v.1)

  skip_space-word :
      (w rest : List ℕ)
      → IsWord w
      → is_nil w ≡ false
      → skip_space (10 ∷ 10 ∷ (w ++ 10 ∷ rest)) ≡ w ++ 10 ∷ rest
  unfolding skip_space
  skip_space-word [] rest v h = absurd (ground (arith, h))
  skip_space-word (c ∷ cs) rest v h = ground (arith, v.0)

  -- If the library writes an uuid as one word and parses that word as the uuid, then a job with type
  -- names shorter than 2 ^ 64 bytes keeps its id and type through `to_string` and `to_Job`; and what is
  -- written of the job that was read is what was read, and a newline.
  pub of_string-serialize :
      (id : ℕ) (type : MeshIoType)
      → IsWord (text id)
      → is_nil (text id) ≡ false
      → parse (text id) ≡ id
      → length type.input_type < max_size
      → length type.output_type < max_size
      → of_string (serialize (make id type))
        ≡ some (record {
          id = id;
          type = type;
          cached_serialized_form = serialize (make id type) ++ 10 ∷ [];
        })
  unfolding of_string deserialize make make_serialized_form serialize
  of_string-serialize id type v n p h k =
      let word = text id in
      let written =
        put_mesh_type-append type (10 ∷ (word ++ 10 ∷ [])) (10 ∷ [])
        ∙ ap (λ cs. put_mesh_type type (10 ∷ cs)) (append_assoc word (10 ∷ []) (10 ∷ [])) in
      and_then-some _ _ _ _ (ap get_mesh_type written ∙ get-put_mesh_type type _ h k)
      ∙ ap
          (λ u. some (record {
            id = u;
            type = type;
            cached_serialized_form = serialize (make id type) ++ 10 ∷ [];
          }))
          (ap (λ cs. parse (take_word cs)) (skip_space-word word (10 ∷ []) v n)
            ∙ ap parse (take_word-append word (10 ∷ []) v)
            ∙ p)

  -- A job that `>>` reads, whatever was in the stream, writes itself as two newlines: its cache is made
  -- of the empty cache, and its id and type are not written.
  pub serialize-of_stream :
      (cs : List ℕ) (j : Job) → of_stream cs ≡ some j → serialize j ≡ 10 ∷ 10 ∷ []
  unfolding of_stream deserialize serialize
  serialize-of_stream cs j e = ground (arith, e)
