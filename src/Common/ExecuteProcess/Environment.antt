-- ===== src/Common/ExecuteProcess/Environment.antt =====
-- remus/common/ExecuteProcess.cxx: the variables of the process around `execute`.
use remus.Prelude.{ℕ, ◌≡◌, refl, ◌∙◌, Option, none, some, List, [], ◌∷◌, arith, if◌then◌else◌}
use remus.Std.Order.{bytes_eq, bytes_ord}
use remus.Std.OrderedMap.{
  find, assign, IsSorted, find-assign, assign-IsSorted, Above-find, find_cong, same-eq,
}
use remus.Common.ExecuteProcess.{ExecuteProcess, Variables, save, set_all, reset_all, execute}

-- `first` where it has a value.
abbrev pub or_else {ℓ} : {A : Type ℓ} → Option A → Option A → Option A
or_else none second = second
or_else (some a) second = some a

-- A variable that `execute` saves.
abbrev pub non_empty : Option (List ℕ) → Option (List ℕ)
non_empty none = none
non_empty (some []) = none
non_empty (some (c ∷ cs)) = some (c ∷ cs)

abbrev pub non_empty_if {ℓ} : {A : Type ℓ} → Option A → Option (List ℕ) → Option (List ℕ)
non_empty_if none v = none
non_empty_if (some a) v = non_empty v

find-save :
    (name sought : List ℕ) (value : Option (List ℕ)) (saved : Variables)
    → find sought (save name value saved) ≡ (
        if bytes_eq name sought
        then or_else (non_empty value) (find sought saved)
        else find sought saved)
unfolding save
find-save name sought none saved = ground arith
find-save name sought (some []) saved = ground arith
find-save name sought (some (c ∷ cs)) saved = find-assign name sought (c ∷ cs) saved ∙ ground arith

save-IsSorted :
    (name : List ℕ) (value : Option (List ℕ)) (saved : Variables)
    → IsSorted saved
    → IsSorted (save name value saved)
unfolding save
save-IsSorted name none saved s = s
save-IsSorted name (some []) saved s = s
save-IsSorted name (some (c ∷ cs)) saved s = assign-IsSorted name (c ∷ cs) saved s

-- What is saved is a map again.
saved-IsSorted : (env vars saved : Variables) → IsSorted saved → IsSorted (set_all env vars saved).1
unfolding set_all
saved-IsSorted [] vars saved s = s
saved-IsSorted (e ∷ env) vars saved s =
    saved-IsSorted env (assign e.0 e.1 vars) (save e.0 (find e.0 vars) saved)
      (save-IsSorted e.0 (find e.0 vars) saved s)

-- A variable of the process while the command runs.
find-set_all :
    (name : List ℕ) (env vars saved : Variables)
    → IsSorted env
    → find name (set_all env vars saved).0 ≡ or_else (find name env) (find name vars)
unfolding set_all find
find-set_all name [] vars saved s = refl
find-set_all name ((k, v) ∷ env) vars saved s =
    find-set_all name env (assign k v vars) (save k (find k vars) saved) s.1
    ∙ ground (
      arith,
      find-assign k name v vars,
      same-eq k name,
      find_cong k name env,
      Above-find k env s.0,
    )

-- What is saved of it.
find-saved :
    (name : List ℕ) (env vars saved : Variables)
    → IsSorted env
    → find name (set_all env vars saved).1
      ≡ or_else (non_empty_if (find name env) (find name vars)) (find name saved)
unfolding set_all find
find-saved name [] vars saved s = refl
find-saved name ((k, v) ∷ env) vars saved s =
    find-saved name env (assign k v vars) (save k (find k vars) saved) s.1
    ∙ ground (
      arith,
      find-assign k name v vars,
      find-save k name (find k vars) saved,
      same-eq k name,
      find_cong k name env,
      find_cong k name vars,
      Above-find k env s.0,
    )

find-reset_all :
    (name : List ℕ) (saved vars : Variables)
    → IsSorted saved
    → find name (reset_all saved vars) ≡ or_else (find name saved) (find name vars)
unfolding reset_all find
find-reset_all name [] vars s = refl
find-reset_all name ((k, v) ∷ saved) vars s =
    find-reset_all name saved (assign k v vars) s.1
    ∙ ground (
      arith,
      find-assign k name v vars,
      same-eq k name,
      find_cong k name saved,
      Above-find k saved s.0,
    )

-- `execute` with the variables `env`, a map of the C++ library, in a process with the variables `vars`:
-- the command sees those of `env` and else those of `vars`. Afterwards a variable that `env` names has
-- its old value again if it had one that was not empty; else it keeps the value that `env` gave it. A
-- variable that `env` does not name is as before.
pub execute-variables :
    (p : ExecuteProcess) (vars : Variables) (name : List ℕ)
    → IsSorted p.env
    → (find name (execute p vars).1.inherited ≡ or_else (find name p.env) (find name vars))
      × (find name (execute p vars).1.left
          ≡ or_else
              (non_empty_if (find name p.env) (find name vars))
              (or_else (find name p.env) (find name vars)))
unfolding execute find
execute-variables p vars name s = (
  find-set_all name p.env vars [] s,
  find-reset_all name (set_all p.env vars []).1 (set_all p.env vars []).0
        (saved-IsSorted p.env vars [] tt)
      ∙ rw (find-saved name p.env vars [] s, find-set_all name p.env vars [] s)
          (or_else_none (non_empty_if (find name p.env) (find name vars))
            (or_else (find name p.env) (find name vars))),
)
  where
    or_else_none :
        {A : Type 0} (first second : Option A)
        → or_else (or_else first none) second ≡ or_else first second
    or_else_none none second = refl
    or_else_none (some a) second = refl
