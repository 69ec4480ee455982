-- ===== src/Server/ActiveJobs/Expiry.antt =====
-- `markExpiredJobs`: which jobs it marks, and what it reports.
use remus.Prelude.{
  ℕ, suc, ◌≡◌, refl, ◌⊎◌, inl, inr, none, some, List, [], ◌∷◌, arith, ◌==◌, if◌then◌else◌,
  Bool-cases, ◌&&◌, ◌||◌, Bool, true, false, ap, ◌∙◌, ◌+◌, Option-cases,
}
use remus.Std.Map
use remus.Common.StatusTypes.{StatusType, queued, in_progress, expired, is_status}
use remus.Proto.JobStatus
use remus.Proto.JobStatus.{JobStatus}
use remus.Proto.JobProgress.{no_progress}
use remus.Server.SocketMonitor.{SocketMonitor, is_unresponsive}
use remus.Server.ActiveJobs.{
  JobState, ActiveJobs, expires, expire, mark_expired_from, mark_expired_jobs,
}

-- What the loop makes of a job at the time when it reaches it.
abbrev pub marked : SocketMonitor → ℕ → JobState → JobState
marked monitor now item = if expires monitor now item then expire item else item

-- The jobs that are expired after the loop and were good before it.
abbrev pub newly_expired : ActiveJobs → ActiveJobs → List JobStatus
newly_expired ((j, old) ∷ before) ((k, new) ∷ after) =
    let rest = newly_expired before after in
    if JobStatus.good old.jstatus.status && is_status new.jstatus.status expired
    then new.jstatus ∷ rest
    else rest
newly_expired _ _ = []

module _ (monitor : SocketMonitor) (now : ℕ → ℕ) where
  lookup-mark_from :
      (i j : ℕ) (info : ActiveJobs)
      → ((Map.lookup j info ≡ none)
          × (Map.lookup j (mark_expired_from monitor now i info).0 ≡ none))
        ⊎ ((item : JobState) × (t : ℕ) × (Map.lookup j info ≡ some item)
            × (Map.lookup j (mark_expired_from monitor now i info).0
                ≡ some (marked monitor (now t) item)))
  unfolding mark_expired_from Map.lookup
  lookup-mark_from i j [] = inl (refl, refl)
  lookup-mark_from i j ((k, item) ∷ info) = elim (Bool-cases (k == j)) [
    | inl e ↦ inr (item, i, rw e, ground arith)
    | inr e ↦ elim (lookup-mark_from (suc i) j info) [
      | inl (a, b) ↦ inl (rw (e, a), ground arith)
      | inr (it, t, a, b) ↦ inr (it, t, rw (e, a), ground arith)
    ]
  ]

  -- The loop touches no key, and each job is as the test leaves it at some turn of the loop.
  pub lookup-marked :
      (j : ℕ) (info : ActiveJobs)
      → ((Map.lookup j info ≡ none) × (Map.lookup j (mark_expired_jobs info monitor now).0 ≡ none))
        ⊎ ((item : JobState) × (t : ℕ) × (Map.lookup j info ≡ some item)
            × (Map.lookup j (mark_expired_jobs info monitor now).0
                ≡ some (marked monitor (now t) item)))
  unfolding mark_expired_jobs
  lookup-marked j info = lookup-mark_from 0 j info

  reports_from :
      (i : ℕ) (info : ActiveJobs)
      → (mark_expired_from monitor now i info).1
        ≡ newly_expired info (mark_expired_from monitor now i info).0
  unfolding mark_expired_from expires expire JobStatus.of_status
  reports_from i [] = refl
  reports_from i ((k, item) ∷ info) = ground (arith, reports_from (suc i) info)

  -- The statuses that the loop reports are those of the jobs that it expired, each once, in the order
  -- of the map: they were queued or in progress before and are expired after.
  pub mark_expired_jobs_reports :
      (info : ActiveJobs)
      → (mark_expired_jobs info monitor now).1
        ≡ newly_expired info (mark_expired_jobs info monitor now).0
  unfolding mark_expired_jobs
  mark_expired_jobs_reports info = reports_from 0 info

-- How many jobs the map has before the job `j`.
abbrev pub position : ℕ → ActiveJobs → ℕ
position j [] = 0
position j ((k, item) ∷ info) = if k == j then 0 else suc (position j info)

-- A job that is neither failed, finished nor expired and has a status.
abbrev pub is_pending : StatusType → Bool
is_pending queued = true
is_pending in_progress = true
is_pending _ = false

pending_lem :
    (status : StatusType)
    → (JobStatus.queued status || JobStatus.in_progress? status) ≡ is_pending status
pending_lem queued = refl
pending_lem in_progress = refl
pending_lem _ = refl

-- The job with its status replaced.
abbrev pub expired_job : JobState → JobState
expired_job item = record item {
  jstatus = record { id = item.jstatus.id; status = expired; progress = no_progress };
}

module _ (monitor : SocketMonitor) (now : ℕ → ℕ) where
  marked_lem :
      (t : ℕ) (item : JobState)
      → marked monitor t item ≡ (
          if is_pending item.jstatus.status && is_unresponsive monitor t item.worker_address
          then expired_job item
          else item)
  unfolding expires expire JobStatus.of_status remus.Proto.JobProgress.of_status
  marked_lem t item =
      ap
        (λ b. if b && is_unresponsive monitor t item.worker_address then expired_job item else item)
        (pending_lem item.jstatus.status)

  mark_from_position :
      (i j : ℕ) (info : ActiveJobs) (item : JobState)
      → Map.lookup j info ≡ some item
      → Map.lookup j (mark_expired_from monitor now i info).0
        ≡ some (marked monitor (now (i + position j info)) item)
  unfolding mark_expired_from Map.lookup
  mark_from_position i j [] item e = absurd (ground (arith, e))
  mark_from_position i j ((k, it) ∷ info) item e = elim (Bool-cases (k == j)) [
    | inl same ↦
        ground
          (arith, same, e, ap (λ t. marked monitor (now t) item) {x = i} {y = i + 0} (omega arith))
    | inr other ↦ ground (
      arith,
      other,
      mark_from_position (suc i) j info item (ground (arith, other, e)),
      ap (λ t. marked monitor (now t) item) {x = suc i + position j info}
          {y = i + suc (position j info)} (omega arith),
    )
  ]

  -- A job that is queued or in progress, and whose worker is unresponsive at the time that the clock
  -- shows when the loop reaches the job, in the order of the map, has the status EXPIRED after it, without
  -- a message, and is otherwise as before; every other job is as before; and no job is added.
  pub lookup-mark_expired_jobs :
      (j : ℕ) (info : ActiveJobs)
      → Map.lookup j (mark_expired_jobs info monitor now).0 ≡ (elim (Map.lookup j info) [
        | none ↦ none
        | some item ↦ some (
            if is_pending item.jstatus.status
              && is_unresponsive monitor (now (position j info)) item.worker_address
            then expired_job item
            else item)
      ])
  unfolding mark_expired_jobs
  lookup-mark_expired_jobs j info = elim (Option-cases (Map.lookup j info)) [
    | inl e ↦ ground (arith, e, lookup-mark_from monitor now 0 j info)
    | inr (item, e) ↦ rw e (
        mark_from_position 0 j info item e
        ∙ ap (λ t. some (marked monitor (now t) item)) {x = 0 + position j info}
            {y = position j info} (omega arith)
        ∙ ap some (marked_lem (now (position j info)) item))
  ]
