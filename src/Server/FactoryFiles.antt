-- ===== src/Server/FactoryFiles.antt =====
-- remus/server/FactoryFileParser.cxx, remus/server/FactoryWorkerSpecification.cxx and
-- remus/server/detail/WorkerFinder.cxx: the workers that files describe, on systems other than Windows
-- and in builds without CMAKE_INTDIR. The library cJSON and the file system are arguments.
mod Words
pub mod Valid
use Words.{
  word_input_type, word_output_type, word_executable_name, word_worker_name, word_file_field,
  word_file_format, word_tag, word_arguments, word_environment, word_xml_word, word_json_word,
  word_bson_word, word_self,
}
use remus.Prelude.{
  ℕ, zero, suc, ◌-◌, Bool, true, false, not, ◌&&◌, Option, none, some, List, [], ◌∷◌, ◌++◌, leb,
  ◌==◌, is_nil, if◌then◌else◌, length,
}
use remus.Std.Order.{bytes_eq, bytes_ord}
use remus.Std.OrderedMap.{assign}
use remus.Std.Bytes.{starts_with, drop}
use remus.Common.ExecuteProcess.{Variables}
use remus.Common.MeshIoType.{MeshIoType}
use remus.Proto.JobRequirements.{
  JobRequirements, ContentFormat, user, xml, json, bson, file, memory, no_requirements,
}
use remus.Server.ProcessFactory.{FactoryWorkerSpecification}

-- What the code uses of cJSON: `value_string` is `none` for a null pointer.
pub record JsonLibrary : Type 1 where
  pub Node : Type 0
  pub parse : List ℕ → Option Node
  pub get_object_item : Node → List ℕ → Option Node
  pub is_string : Node → Bool
  pub is_array : Node → Bool
  pub is_object : Node → Bool
  pub value_string : Node → Option (List ℕ)
  pub name : Node → Option (List ℕ)
  pub children : Node → List Node
  pub print_unformatted : Node → List ℕ

-- What it uses of the file system. `entries` are the paths in a directory, in its order.
pub record FileSystem : Type 0 where
  pub is_regular_file : List ℕ → Bool
  pub is_directory : List ℕ → Bool
  pub entries : List ℕ → List (List ℕ)
  pub canonical : List ℕ → List ℕ
  pub contents : List ℕ → List ℕ
  pub parent_path : List ℕ → List ℕ
  pub join : List ℕ → List ℕ → List ℕ
  pub filename : List ℕ → List ℕ
  pub has_extension : List ℕ → Bool
  pub extension : List ℕ → List ℕ

-- `FactoryWorkerSpecification()`.
abbrev pub no_specification : FactoryWorkerSpecification
no_specification = record {
  requirements = no_requirements;
  execution_path = [];
  extra_command_line_arguments = [];
  environment_variables = [];
  is_valid = false;
}

-- `find` and `replace` of the first occurrence.
unfoldable pub replace_first : List ℕ → List ℕ → List ℕ → List ℕ
unfolding starts_with drop
replace_first w by [] = []
replace_first w by (c ∷ cs) =
    let rest = replace_first w by cs in
    if starts_with w (c ∷ cs) then by ++ drop (length w) (c ∷ cs) else c ∷ rest

unfoldable pub format_of : List ℕ → ContentFormat
unfolding starts_with
format_of s =
    if starts_with word_xml_word s
    then xml
    else if starts_with word_json_word s
    then json
    else if starts_with word_bson_word s
    then bson
    else user

module _ (fs : FileSystem) where
  -- The constructor with arguments and variables.
  unfoldable pub make_specification :
      List ℕ → List (List ℕ) → Variables → JobRequirements → FactoryWorkerSpecification
  make_specification exec_path extra_args environment r = record {
    requirements = r;
    execution_path = if fs.is_regular_file exec_path then fs.canonical exec_path else [];
    extra_command_line_arguments = extra_args;
    environment_variables = environment;
    is_valid = fs.is_regular_file exec_path;
  }

  -- A path as it is, or from the directory of the file that is parsed.
  unfoldable pub resolve : List ℕ → List ℕ → List ℕ
  resolve parsed path =
      if fs.is_regular_file path then path else fs.join (fs.parent_path parsed) path

abbrev or_nil : Option (List ℕ) → List ℕ
or_nil none = []
or_nil (some s) = s

-- What comes next, where nothing is undefined.
abbrev pub defined {ℓ} : {A B : Type ℓ} → Option A → (A → Option B) → Option B
defined none next = none
defined (some a) next = next a

-- `none` is a null pointer that is made into a string or a path, which is undefined.
module _ (lib : JsonLibrary) (fs : FileSystem) where
  -- The string of a node of the string type, empty where there is none.
  unfoldable pub string_of : lib.Node → List ℕ
  string_of n = if lib.is_string n then or_nil (lib.value_string n) else []

  unfoldable pub worker_name_of : lib.Node → List ℕ → List ℕ
  unfolding string_of
  worker_name_of root executable_name =
      let given : List ℕ = elim (lib.get_object_item root word_worker_name) [
        | none ↦ []
        | some n ↦ string_of n
      ] in
      if is_nil given then fs.filename executable_name else given

  unfoldable pub file_format_of : Option lib.Node → Option ContentFormat
  unfolding format_of
  file_format_of none = some user
  file_format_of (some n) = defined (lib.value_string n) λ s. some (format_of s)

  -- The requirements with the file that they name, if it is there.
  unfoldable pub with_file :
      List ℕ → lib.Node → JobRequirements → Option lib.Node → Option JobRequirements
  unfolding file_format_of resolve
  with_file parsed root reqs none = some reqs
  with_file parsed root reqs (some f) =
      defined (file_format_of (lib.get_object_item root word_file_format)) λ format.
        defined (lib.value_string f) λ path.
          let found = resolve fs parsed path in
          some (
            if fs.is_regular_file found
            then record reqs {
              source_type = file;
              format_type = format;
              requirements = fs.canonical found;
            }
            else reqs)

  unfoldable pub with_tag : Option lib.Node → JobRequirements → JobRequirements
  unfolding string_of
  with_tag none reqs = reqs
  with_tag (some n) reqs =
      if lib.is_string n
      then (if is_nil (string_of n) then reqs else record reqs { tag = string_of n })
      else record reqs { tag = lib.print_unformatted n }

  -- The loop over the array of arguments.
  unfoldable pub collect_arguments : List ℕ → List lib.Node → List (List ℕ)
  unfolding string_of replace_first
  collect_arguments parsed [] = []
  collect_arguments parsed (n ∷ ns) =
      let rest = collect_arguments parsed ns in
      if is_nil (string_of n) then rest else replace_first word_self parsed (string_of n) ∷ rest

  unfoldable pub arguments_in : List ℕ → Option lib.Node → List (List ℕ)
  unfolding collect_arguments
  arguments_in parsed none = []
  arguments_in parsed (some n) =
      if lib.is_array n then collect_arguments parsed (lib.children n) else []

  -- The loop over the object of variables.
  unfoldable pub collect_variables : Variables → List lib.Node → Variables
  unfolding string_of assign
  collect_variables env [] = env
  collect_variables env (n ∷ ns) =
      collect_variables
        (if not (is_nil (string_of n)) && not (is_nil (or_nil (lib.name n)))
          then assign (or_nil (lib.name n)) (string_of n) env
          else env)
        ns

  unfoldable pub variables_in : Option lib.Node → Variables
  unfolding collect_variables
  variables_in none = []
  variables_in (some n) = if lib.is_object n then collect_variables [] (lib.children n) else []

  abbrev base_requirements : MeshIoType → List ℕ → JobRequirements
  base_requirements mesh_type worker_name = record {
    source_type = memory;
    format_type = user;
    mesh_types = mesh_type;
    worker_name = worker_name;
    tag = [];
    requirements = [];
  }

  -- What is made of a root with the three strings.
  unfoldable pub specification_of :
      List ℕ → lib.Node → MeshIoType → List ℕ → Option FactoryWorkerSpecification
  unfolding worker_name_of with_file with_tag arguments_in variables_in resolve make_specification
  specification_of parsed root mesh_type executable_name =
      defined
        (with_file parsed root (base_requirements mesh_type (worker_name_of root executable_name))
          (lib.get_object_item root word_file_field))
        λ reqs. some (
          make_specification fs (resolve fs parsed executable_name)
            (arguments_in parsed (lib.get_object_item root word_arguments))
            (variables_in (lib.get_object_item root word_environment))
            (with_tag (lib.get_object_item root word_tag) reqs))

  unfoldable pub with_strings :
      List ℕ
      → lib.Node
      → Option lib.Node
      → Option lib.Node
      → Option lib.Node
      → Option FactoryWorkerSpecification
  unfolding specification_of
  with_strings parsed root (some i) (some o) (some e) = defined (lib.value_string i) λ input.
      defined (lib.value_string o) λ output. defined (lib.value_string e) λ executable.
        specification_of parsed root (record { input_type = input; output_type = output })
          executable
  with_strings parsed root _ _ _ = some no_specification

  unfoldable pub parse_json_reqs : List ℕ → Option FactoryWorkerSpecification
  unfolding with_strings
  parse_json_reqs parsed = elim (lib.parse (fs.contents parsed)) [
    | none ↦ some no_specification
    | some root ↦
        with_strings parsed root (lib.get_object_item root word_input_type)
          (lib.get_object_item root word_output_type)
          (lib.get_object_item root word_executable_name)
  ]

-- `boost::algorithm::to_upper_copy`.
unfoldable pub to_upper : List ℕ → List ℕ
to_upper [] = []
to_upper (c ∷ cs) = (if leb 97 c && leb c 122 then c - 32 else c) ∷ to_upper cs

-- `WorkerFinder`, with any parser.
module _ (fs : FileSystem) (parser : List ℕ → FactoryWorkerSpecification) where
  unfoldable pub parse_file :
      List ℕ → List FactoryWorkerSpecification → List FactoryWorkerSpecification
  parse_file path info =
      let found = parser path in if found.is_valid then info ++ found ∷ [] else info

  unfoldable pub parse_entries :
      List ℕ → List (List ℕ) → List FactoryWorkerSpecification → List FactoryWorkerSpecification
  unfolding parse_file to_upper
  parse_entries file_ext [] info = info
  parse_entries file_ext (i ∷ is) info = parse_entries file_ext is (
      if fs.is_regular_file i && fs.has_extension i && bytes_eq (to_upper (fs.extension i)) file_ext
      then parse_file i info
      else info)

  -- The constructor: all workers of a directory, with an extension in any case.
  unfoldable pub find_workers : List ℕ → List ℕ → List FactoryWorkerSpecification
  unfolding parse_entries to_upper
  find_workers dir ext =
      if fs.is_directory dir then parse_entries (to_upper ext) (fs.entries dir) [] else []
