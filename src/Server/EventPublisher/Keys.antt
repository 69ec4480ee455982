-- ===== src/Server/EventPublisher/Keys.antt =====
-- remus/server/detail/EventPublisher.cxx: the keys under which subscribers find events.
use remus.Prelude.{
  ℕ, ◌≡◌, refl, sym, ◌⊎◌, inl, inr, Bool, true, false, List, [], ◌∷◌, ◌++◌, if◌then◌else◌,
}
use remus.Std.Order.{bytes_eq}
use remus.Std.Stream.{c_string}
use remus.Server.Message.{
  Output, to_client, to_worker, job_queued, queued_job_terminated, active_job_terminated,
  worker_registered, worker_ready, status_published, job_finished, worker_heartbeat,
  worker_terminated, job_sent_to_worker, jobs_expired,
}
use remus.Server.EventPublisher.Words.{
  field_job_id, field_msg_type, field_worker_id, job_prefix, worker_prefix, queued_event,
  job_status_event, terminated_event, completed_event, assigned_to_worker, register, asking_for_job,
  heartbeat_event, worker_state, terminate_worker_service,
}
use remus.Server.EventPublisher.{
  Published, event, plain, Root, Value, string, object, create_string, pub_job, pub_worker, publish,
  job_queued_event, job_status, job_terminated, queued_terminated, job_finished_event, job_sent,
  worker_ready_event, worker_registered_event, worker_heartbeat_event, worker_state_event,
  worker_terminated_event, job_root, worker_root,
}

abbrev pub of_value : Value → List ℕ
of_value (string s) = s
of_value (object fields) = []

-- The string in a field of an object.
unfoldable pub field : List ℕ → Root → List ℕ
field n [] = []
field n (e ∷ root) = if bytes_eq e.0 n then of_value e.1 else field n root

-- The key of a message is made of the type and the id that its object has.
pub Agrees : Published → Type 0
Agrees (event key root) =
    (key ≡ job_prefix ++ field field_msg_type root ++ 58 ∷ field field_job_id root)
    ⊎ (key ≡ worker_prefix ++ field field_msg_type root ++ 58 ∷ field field_worker_id root)
Agrees (plain key value) = Unit

pub AllAgree : List Published → Type 0
AllAgree [] = Unit
AllAgree (p ∷ ps) = Agrees p × AllAgree ps

abbrev pub is_expiry : Output → Bool
is_expiry (jobs_expired ss) = true
is_expiry _ = false

job-Agrees :
    (suid serv_t work_t : List ℕ) (rest : Root)
    → c_string suid ≡ suid
    → c_string serv_t ≡ serv_t
    → Agrees (pub_job serv_t suid (job_root suid serv_t work_t rest))
unfolding Agrees pub_job field create_string
job-Agrees suid serv_t work_t rest h k = inl (sym (rw (h, k) refl))

job_worker-Agrees :
    (suid serv_t work_t : List ℕ) (rest : Root)
    → c_string work_t ≡ work_t
    → c_string serv_t ≡ serv_t
    → Agrees (pub_worker serv_t work_t (job_root suid serv_t work_t rest))
unfolding Agrees pub_worker field create_string
job_worker-Agrees suid serv_t work_t rest h k = inr (sym (rw (h, k) refl))

worker-Agrees :
    (work_t serv_t : List ℕ) (rest : Root)
    → c_string work_t ≡ work_t
    → c_string serv_t ≡ serv_t
    → Agrees (pub_worker serv_t work_t (worker_root work_t serv_t rest))
unfolding Agrees pub_worker field create_string
worker-Agrees work_t serv_t rest h k = inr (sym (rw (h, k) refl))

-- If no uuid's text and no name of a socket has a zero byte, then every message that is published of an
-- output of the server, other than that jobs have expired, has a key made of the type and of the id of
-- the job, or of the worker, that the message's object holds.
pub publish-AllAgree :
    (text name : ℕ → List ℕ)
    → ((u : ℕ) → c_string (text u) ≡ text u)
    → ((si : ℕ) → c_string (name si) ≡ name si)
    → (o : Output) → is_expiry o ≡ false
    → AllAgree (publish text name o)
unfolding AllAgree publish c_string job_queued_event job_status job_terminated queued_terminated
    job_finished_event job_sent worker_ready_event worker_registered_event worker_heartbeat_event
    worker_state_event worker_terminated_event
publish-AllAgree text name t n (to_client client service data') h = tt
publish-AllAgree text name t n (to_worker worker service data') h = tt
publish-AllAgree text name t n (job_queued j reqs) h =
    (job-Agrees (text j) queued_event [] _ (t j) refl, tt)
publish-AllAgree text name t n (queued_job_terminated s) h =
    (job-Agrees (text s.id) terminated_event [] _ (t s.id) refl, tt)
publish-AllAgree text name t n (active_job_terminated s si) h = (
  job-Agrees (text s.id) terminated_event (name si) _ (t s.id) refl,
  (job_worker-Agrees (text s.id) terminated_event (name si) _ (n si) refl, tt),
)
publish-AllAgree text name t n (worker_registered si reqs) h =
    (worker-Agrees (name si) asking_for_job _ (n si) refl, tt)
publish-AllAgree text name t n (worker_ready si reqs) h =
    (worker-Agrees (name si) register _ (n si) refl, tt)
publish-AllAgree text name t n (status_published s si) h = (
  job-Agrees (text s.id) job_status_event (name si) _ (t s.id) refl,
  (job_worker-Agrees (text s.id) job_status_event (name si) _ (n si) refl, tt),
)
publish-AllAgree text name t n (job_finished r si) h = (
  job-Agrees (text r.id) completed_event (name si) _ (t r.id) refl,
  (job_worker-Agrees (text r.id) completed_event (name si) _ (n si) refl, tt),
)
publish-AllAgree text name t n (worker_heartbeat si) h =
    (worker-Agrees (name si) heartbeat_event _ (n si) refl, tt)
publish-AllAgree text name t n (worker_terminated si) h = (
  worker-Agrees (name si) terminate_worker_service _ (n si) refl,
  (worker-Agrees (name si) worker_state _ (n si) refl, tt),
)
publish-AllAgree text name t n (job_sent_to_worker j si) h = (
  job-Agrees (text j.id) assigned_to_worker (name si) _ (t j.id) refl,
  (job_worker-Agrees (text j.id) assigned_to_worker (name si) _ (n si) refl, tt),
)
publish-AllAgree text name t n (jobs_expired ss) h = absurd (cc)
