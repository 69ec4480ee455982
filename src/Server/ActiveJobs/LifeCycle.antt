-- ===== src/Server/ActiveJobs/LifeCycle.antt =====
-- The states that an active job goes through, as a relation, and what every history of calls keeps.
use remus.Prelude.{
  ℕ, ◌≡◌, refl, ◌⊎◌, inl, inr, true, not, ◌&&◌, ◌||◌, some, arith, if◌then◌else◌, Bool-cases, ◌≢◌,
}
use remus.Std.Map
use remus.Common.StatusTypes.{
  StatusType, invalid_status, queued, in_progress, finished, failed, expired, is_status,
}
use remus.Proto.JobStatus
use remus.Proto.JobStatus.{JobStatus, merge_status, clear_progress}
use remus.Proto.JobResult.{JobResult}
use remus.Server.SocketMonitor.{SocketMonitor}
use remus.Server.ActiveJobs.{
  JobState, ActiveJobs, can_update_status_to, accept_status, accept_result, expires, expire,
}

-- An edge of the diagram of states.
infix 40 ◌⟶◌
pub data ◌⟶◌ : StatusType → StatusType → Type 0 where
  stay : {s : StatusType} → s ⟶ s
  start : {s : StatusType} → JobStatus.good s ≡ true → s ⟶ in_progress
  break : {s t : StatusType} → JobStatus.good s ≡ true → JobStatus.failed t ≡ true → s ⟶ t
  finish : {s : StatusType} → s ≢ failed → s ⟶ finished

-- What holds of a job under its id: its parts bear the id, and it has a result exactly from the
-- moment it is finished, or has failed and yet sent one.
pub record IsConsistent (id : ℕ) (item : JobState) : Type 0 where
  pub status_id : item.jstatus.id ≡ id
  pub result_id : item.jresult.id ≡ id
  pub finished_result : item.jstatus.status ≡ finished → item.have_result ≡ true
  pub result_done :
      item.have_result ≡ true → (item.jstatus.status ≡ finished) ⊎ (item.jstatus.status ≡ failed)

abbrev pub AllConsistent : ActiveJobs → Type 0
AllConsistent info =
    (id : ℕ) (item : JobState) → Map.lookup id info ≡ some item → IsConsistent id item

-- What one call does to one job that it leaves in the map.
pub record Changes (id : ℕ) (old new : JobState) : Type 0 where
  pub moves : old.jstatus.status ⟶ new.jstatus.status
  pub keeps : IsConsistent id old → IsConsistent id new
  pub same_worker : new.worker_address ≡ old.worker_address
  pub has_result : old.have_result ≡ true → new.have_result ≡ true

pub unchanged : (id : ℕ) (item : JobState) → Changes id item item
unchanged id item = record { moves = stay; keeps = λ v. v; same_worker = refl; has_result = λ h. h }

accept_status_edge :
    (item : JobState) (s : JobStatus)
    → can_update_status_to item s ≡ true
    → item.jstatus.status ⟶ s.status
unfolding can_update_status_to
accept_status_edge item s h = edge item.jstatus.status s.status h
  where
    edge :
        (a b : StatusType)
        → (JobStatus.good a
            && not (JobStatus.finished b)
            && (JobStatus.failed b || JobStatus.in_progress? b))
          ≡ true
        → a ⟶ b
    edge a invalid_status h = break (ground arith) refl
    edge a queued h = absurd (ground arith)
    edge a in_progress h = start (ground arith)
    edge a finished h = absurd (ground arith)
    edge a failed h = break (ground arith) refl
    edge a expired h = break (ground arith) refl

pub accept_status-Changes :
    (id : ℕ) (item : JobState) (s : JobStatus) → Changes id item (accept_status s item)
unfolding accept_status merge_status
accept_status-Changes id item s = elim (Bool-cases (can_update_status_to item s)) [
  | inr e ↦ rw e (unchanged id item)
  | inl e ↦ rw e (record {
    moves = accept_status_edge item s e;
    keeps = λ v. kept v (unfold can_update_status_to in e);
    same_worker = refl;
    has_result = λ h. h;
  })
]
  where
    kept :
        IsConsistent id item
        → (JobStatus.good item.jstatus.status
            && not (JobStatus.finished s.status)
            && (JobStatus.failed s.status || JobStatus.in_progress? s.status))
          ≡ true
        → IsConsistent id (record item { jstatus = merge_status item.jstatus s })
    kept v h = ground arith

pub accept_result-Changes :
    (id : ℕ) (item : JobState) (r : JobResult) → r.id ≡ id → Changes id item (accept_result r item)
unfolding accept_result JobStatus.of_status
accept_result-Changes id item r e = record {
  moves = edge item.jstatus;
  keeps = λ v. ground arith;
  same_worker = refl;
  has_result = λ h. refl;
}
  where
    edge :
        (s : JobStatus)
        → s.status
          ⟶ (if not (is_status s.status failed)
              then JobStatus.of_status r.id finished
              else s).status
    edge s = elim (Bool-cases (is_status s.status failed)) [
      | inl h ↦ rw h stay
      | inr h ↦ rw h (finish (λ (k : s.status ≡ failed). ground arith))
    ]

pub clear-Changes :
    (id : ℕ) (item : JobState)
    → Changes id item (record item { jstatus = clear_progress item.jstatus })
unfolding clear_progress
clear-Changes id item = record {
  moves = stay;
  keeps = λ v. ground arith;
  same_worker = refl;
  has_result = λ h. h;
}

pub expire-Changes :
    (id : ℕ) (item : JobState) (m : SocketMonitor) (now : ℕ)
    → Changes id item (if expires m now item then expire item else item)
unfolding expires expire JobStatus.of_status
expire-Changes id item m now = elim (Bool-cases (expires m now item)) [
  | inr e ↦ rw e (unchanged id item)
  | inl e ↦ rw e (record {
    moves = break (ground arith) refl;
    keeps = λ v. ground arith;
    same_worker = refl;
    has_result = λ h. h;
  })
]
