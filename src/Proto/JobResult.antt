-- ===== src/Proto/JobResult.antt =====
-- remus/proto/JobResult.h and JobResult.cxx: what a worker made, as bytes.
use remus.Prelude.{ℕ, Bool, not, List, [], is_nil}
use remus.Proto.JobRequirements.{ContentFormat, user}

pub record JobResult : Type 0 where
  pub id : ℕ
  pub format_type : ContentFormat
  pub contents : List ℕ

-- `JobResult(jid)`, an invalid result.
abbrev pub no_result : ℕ → JobResult
no_result jid = record { id = jid; format_type = user; contents = [] }

unfoldable pub valid : JobResult → Bool
valid r = not (is_nil r.contents)
