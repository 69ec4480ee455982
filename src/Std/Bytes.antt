-- ===== src/Std/Bytes.antt =====
-- Parts of `std::string`, as lists of bytes.
use remus.Prelude.{ℕ, zero, suc, Bool, true, false, ◌&&◌, List, [], ◌∷◌, ◌==◌}

-- Whether the bytes start with `w`, as `strncmp` with the length of `w` tells.
unfoldable pub starts_with : List ℕ → List ℕ → Bool
starts_with [] cs = true
starts_with (x ∷ w) [] = false
starts_with (x ∷ w) (c ∷ cs) = x == c && starts_with w cs

unfoldable pub drop : ℕ → List ℕ → List ℕ
drop zero cs = cs
drop (suc n) [] = []
drop (suc n) (c ∷ cs) = drop n cs
