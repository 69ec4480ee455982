-- ===== src/Proto/WorkerJob.antt =====
-- remus/proto/WorkerJob.h and WorkerJob.cxx: a job as the worker gets it.
use remus.Prelude.{ℕ, Bool, true, false, ◌&&◌, none, some, List, []}
use remus.Std.Order.{bytes_ord}
use remus.Std.OrderedMap.{find}
use remus.Common.MeshIoType
use remus.Proto.JobContent.{JobContent}
pub use remus.Proto.JobSubmission.{JobSubmission, no_submission}

pub data JobValidity : Type 0 where
  invalid valid_job terminate_worker : JobValidity

pub record WorkerJob : Type 0 where
  pub id : ℕ
  pub submission : JobSubmission
  pub validity : JobValidity

-- `WorkerJob()`: the null id, an empty submission, not valid.
abbrev pub no_job : WorkerJob
no_job = record { id = 0; submission = no_submission; validity = invalid }

unfoldable pub make_job : ℕ → JobSubmission → WorkerJob
make_job jid sub = record { id = jid; submission = sub; validity = valid_job }

abbrev pub is_valid_job : JobValidity → Bool
is_valid_job valid_job = true
is_valid_job _ = false

unfoldable pub valid : WorkerJob → Bool
valid j = is_valid_job j.validity && MeshIoType.valid j.submission.mesh_type

-- `details(key)`: the bytes of a content, none where there is no such key.
unfoldable pub details : WorkerJob → List ℕ → List ℕ
unfolding find
details j key = elim (find key j.submission.content) [ none ↦ [] | some c ↦ c.contents ]

-- `details(key, value)`: the content that is there, or the value as it was.
unfoldable pub details_into : WorkerJob → List ℕ → JobContent → JobContent × Bool
unfolding find
details_into j key value = elim (find key j.submission.content) [
  | none ↦ (value, false)
  | some c ↦ (c, true)
]
