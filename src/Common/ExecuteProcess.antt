-- ===== src/Common/ExecuteProcess.antt =====
-- remus/common/ExecuteProcess.h and ExecuteProcess.cxx, on systems with `getenv` and `setenv`: the
-- commands that are handed to the library RemusSysTools, and the variables of the process around its
-- call. The states that the library reports are arguments.
use remus.Prelude.{Bool, true, false, Option, none, some, List, [], ◌∷◌, ◌++◌, ℕ}
use remus.Std.Order.{bytes_ord}
use remus.Std.OrderedMap.{find, assign}
pub mod Environment

pub record Command : Type 0 where
  pub cmd : List ℕ
  pub args : List (List ℕ)

abbrev pub Variables : Type 0
Variables = List (List ℕ × List ℕ)

-- `created` is that of `ExternalProcess`.
pub record ExecuteProcess : Type 0 where
  pub command_queue : List Command
  pub env : Variables
  pub created : Bool

unfoldable pub make : List ℕ → List (List ℕ) → Variables → ExecuteProcess
make command args env = record {
  command_queue = record { cmd = command; args = args } ∷ [];
  env = env;
  created = false;
}

unfoldable pub append_process : ExecuteProcess → List ℕ → List (List ℕ) → ExecuteProcess
append_process p command args = record p {
  command_queue = p.command_queue ++ record { cmd = command; args = args } ∷ [];
}

-- The arrays of `SetCommand` and `AddCommand`, without the null pointer at their end.
unfoldable pub command_lines : List Command → List (List (List ℕ))
command_lines [] = []
command_lines (c ∷ cs) = (c.cmd ∷ c.args) ∷ command_lines cs

-- `if (buf && buf[0]) TmpEnv[it->first] = buf;`
unfoldable pub save : List ℕ → Option (List ℕ) → Variables → Variables
unfolding assign
save name none saved = saved
save name (some []) saved = saved
save name (some (c ∷ cs)) saved = assign name (c ∷ cs) saved

-- The loop over `Env`: the variables afterwards, and what was saved.
unfoldable pub set_all : Variables → Variables → Variables → Variables × Variables
unfolding save find
set_all [] vars saved = (vars, saved)
set_all (e ∷ env) vars saved = set_all env (assign e.0 e.1 vars) (save e.0 (find e.0 vars) saved)

unfoldable pub reset_all : Variables → Variables → Variables
unfolding assign
reset_all [] vars = vars
reset_all (e ∷ saved) vars = reset_all saved (assign e.0 e.1 vars)

-- What `RemusSysToolsProcess_Execute` is given, and the variables that `execute` leaves behind.
pub record Execution : Type 0 where
  pub lines : List (List (List ℕ))
  pub inherited : Variables
  pub left : Variables

unfoldable pub execute : ExecuteProcess → Variables → ExecuteProcess × Execution
unfolding command_lines set_all reset_all
execute p vars =
    let r = set_all p.env vars [] in
    (
      record p { created = true },
      record { lines = command_lines p.command_queue; inherited = r.0; left = reset_all r.1 r.0 },
    )

-- `RemusSysToolsProcess_State_e`, as far as the code tells its values apart.
pub data State : Type 0 where
  executing exited not_running : State

-- `state` is what `RemusSysToolsProcess_GetState` returns after the poll.
unfoldable pub is_alive : ExecuteProcess → State → Bool
is_alive p executing = p.created
is_alive p exited = false
is_alive p not_running = false

unfoldable pub exited_normally : ExecuteProcess → State → Bool
exited_normally p executing = false
exited_normally p exited = p.created
exited_normally p not_running = false

-- Whether the process is killed, which is also the result.
unfoldable pub kill : ExecuteProcess → State → Bool
unfolding is_alive
kill p state = is_alive p state
