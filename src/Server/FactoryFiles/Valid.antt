-- ===== src/Server/FactoryFiles/Valid.antt =====
-- remus/server/FactoryFileParser.cxx and remus/server/detail/WorkerFinder.cxx: what is known of the
-- workers that files describe.
use remus.Prelude.{
  ℕ, ◌≡◌, refl, ap, sym, subst, true, Option, none, some, List, [], ◌∷◌, ◌++◌, arith, if◌then◌else◌,
  inl, inr, Bool-cases,
}
use remus.Std.Order.{bytes_eq}
use remus.Common.MeshIoType.{MeshIoType}
use remus.Proto.JobRequirements.{JobRequirements}
use remus.Server.ProcessFactory.{FactoryWorkerSpecification}
use remus.Server.FactoryFiles.Words.{word_input_type, word_output_type, word_executable_name}
use remus.Server.FactoryFiles.{
  JsonLibrary, FileSystem, no_specification, make_specification, specification_of, with_strings,
  parse_json_reqs, defined, to_upper, parse_file, parse_entries, find_workers,
}

module _ (fs : FileSystem) where
  -- A valid worker executes a regular file, by its canonical path.
  abbrev pub IsExecutable : FactoryWorkerSpecification → Type 0
  IsExecutable s =
      s.is_valid ≡ true
      → (path : List ℕ) × (fs.is_regular_file path ≡ true) × (s.execution_path ≡ fs.canonical path)

  data WhereDefined : Option FactoryWorkerSpecification → Type 0 where
    undefined : WhereDefined none
    gives : (s : FactoryWorkerSpecification) → IsExecutable s → WhereDefined (some s)

  abbrev Given : Option FactoryWorkerSpecification → Type 0
  Given none = Unit
  Given (some s) = IsExecutable s

  given : {o : Option FactoryWorkerSpecification} → WhereDefined o → Given o
  given undefined = tt
  given (gives s h) = h

  defined-WhereDefined :
      {A : Type 0} (o : Option A) (next : A → Option FactoryWorkerSpecification)
      → ((a : A) → WhereDefined (next a))
      → WhereDefined (defined o next)
  defined-WhereDefined none next h = undefined
  defined-WhereDefined (some a) next h = h a

  make-IsExecutable :
      (path : List ℕ) (args : List (List ℕ)) (env : List (List ℕ × List ℕ)) (r : JobRequirements)
      → IsExecutable (make_specification fs path args env r)
  unfolding make_specification
  make-IsExecutable path args env r h = (path, h, ap (λ b. if b then fs.canonical path else []) h)

  made :
      (path : List ℕ) (args : List (List ℕ)) (env : List (List ℕ × List ℕ)) (r : JobRequirements)
      → WhereDefined (some (make_specification fs path args env r))
  made path args env r = gives _ (make-IsExecutable path args env r)

  no-IsExecutable : IsExecutable no_specification
  no-IsExecutable h = absurd (cc)

  module _ (lib : JsonLibrary) where
    specification_of-WhereDefined :
        (parsed : List ℕ) (root : lib.Node) (type : MeshIoType) (executable : List ℕ)
        → WhereDefined (specification_of lib fs parsed root type executable)
    unfolding specification_of
    specification_of-WhereDefined parsed root type executable =
        defined-WhereDefined _ _ (λ reqs. made _ _ _ _)

    with_strings-WhereDefined :
        (parsed : List ℕ) (root : lib.Node) (i o e : Option lib.Node)
        → WhereDefined (with_strings lib fs parsed root i o e)
    unfolding with_strings
    with_strings-WhereDefined parsed root none o e = gives _ no-IsExecutable
    with_strings-WhereDefined parsed root (some i) none e = gives _ no-IsExecutable
    with_strings-WhereDefined parsed root (some i) (some o) none = gives _ no-IsExecutable
    with_strings-WhereDefined parsed root (some i) (some o) (some e) =
        defined-WhereDefined (lib.value_string i) _ λ a.
          defined-WhereDefined (lib.value_string o) _ λ b.
            defined-WhereDefined (lib.value_string e) _ λ c.
              specification_of-WhereDefined parsed root (record { input_type = a; output_type = b })
                c

    parse-WhereDefined : (parsed : List ℕ) → WhereDefined (parse_json_reqs lib fs parsed)
    unfolding parse_json_reqs
    parse-WhereDefined parsed = by_root (lib.parse (fs.contents parsed))
      where
        by_root :
            (o : Option lib.Node)
            → WhereDefined (elim o [
              | none ↦ some no_specification
              | some root ↦
                  with_strings lib fs parsed root
                    (lib.get_object_item root word_input_type)
                    (lib.get_object_item root word_output_type)
                    (lib.get_object_item root word_executable_name)
            ])
        by_root none = gives _ no-IsExecutable
        by_root (some root) = with_strings-WhereDefined parsed root _ _ _

    -- Whatever a file holds, if the parser yields a valid worker then the worker executes a regular file,
    -- by its canonical path.
    pub parse_json_reqs-regular :
        (parsed : List ℕ) (s : FactoryWorkerSpecification)
        → parse_json_reqs lib fs parsed ≡ some s
        → s.is_valid ≡ true
        → (path : List ℕ) × (fs.is_regular_file path ≡ true)
          × (s.execution_path ≡ fs.canonical path)
    parse_json_reqs-regular parsed s e = subst Given e (given (parse-WhereDefined parsed))

  -- What the search of a directory promises of a worker that it yields.
  abbrev pub IsFound :
      (List ℕ → FactoryWorkerSpecification) → List ℕ → FactoryWorkerSpecification → Type 0
  IsFound parser ext s =
      (s.is_valid ≡ true)
      × ((path : List ℕ) × (fs.is_regular_file path ≡ true)
          × (bytes_eq (to_upper (fs.extension path)) (to_upper ext) ≡ true)
          × (s ≡ parser path))

  abbrev pub AllFound :
      (List ℕ → FactoryWorkerSpecification) → List ℕ → List FactoryWorkerSpecification → Type 0
  AllFound parser ext [] = Unit
  AllFound parser ext (s ∷ ss) = IsFound parser ext s × AllFound parser ext ss

  module _ (parser : List ℕ → FactoryWorkerSpecification) (ext : List ℕ) where
    AllFound-append :
        (info : List FactoryWorkerSpecification) (s : FactoryWorkerSpecification)
        → AllFound parser ext info
        → IsFound parser ext s
        → AllFound parser ext (info ++ s ∷ [])
    AllFound-append [] s v h = (h, tt)
    AllFound-append (t ∷ info) s v h = (v.0, AllFound-append info s v.1 h)

    parse_file-AllFound :
        (path : List ℕ) (info : List FactoryWorkerSpecification)
        → fs.is_regular_file path ≡ true
        → bytes_eq (to_upper (fs.extension path)) (to_upper ext) ≡ true
        → AllFound parser ext info
        → AllFound parser ext (parse_file fs parser path info)
    unfolding parse_file
    parse_file-AllFound path info r x v = elim (Bool-cases (parser path).is_valid) [
      | inl e ↦
          subst (λ b. AllFound parser ext (if b then info ++ parser path ∷ [] else info)) (sym e)
            (AllFound-append info (parser path) v (e, (path, r, x, refl)))
      | inr e ↦
          subst (λ b. AllFound parser ext (if b then info ++ parser path ∷ [] else info)) (sym e) v
    ]

    parse_entries-AllFound :
        (is : List (List ℕ)) (info : List FactoryWorkerSpecification)
        → AllFound parser ext info
        → AllFound parser ext (parse_entries fs parser (to_upper ext) is info)
    unfolding parse_entries
    parse_entries-AllFound [] info v = v
    parse_entries-AllFound (i ∷ is) info v =
        parse_entries-AllFound is _ (ground (arith, v, parse_file-AllFound i info))

    -- Every worker that the search of a directory yields is valid, and is what the parser makes of some
    -- regular file with the extension that is searched for, in any case of its letters.
    pub find_workers-AllFound :
        (dir : List ℕ) → AllFound parser ext (find_workers fs parser dir ext)
    unfolding find_workers
    find_workers-AllFound dir = ground (arith, parse_entries-AllFound (fs.entries dir) [] tt)
