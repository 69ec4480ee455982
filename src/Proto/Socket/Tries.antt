-- ===== src/Proto/Socket/Tries.antt =====
-- remus/proto/zmqHelper.cxx: the loops that try five times.
use remus.Prelude.{
  ℕ, zero, suc, ◌≡◌, refl, ap, ◌∙◌, Bool, true, false, ◌||◌, Option, some, List, [], ◌∷◌, ◌++◌,
  arith, if◌then◌else◌, inl, inr, Bool-cases,
}
use mathlib.Core.List.{append-nil, append_assoc}
use remus.Proto.Socket.{
  Socket, Frame, send_once, send_tries, send_harder, recv_once, recv_tries, recv_harder,
  attach_req_header, remove_req_header,
}

-- Whether one of the calls from `n` on, `left` of them, goes through.
abbrev pub some_call : ℕ → (ℕ → Bool) → ℕ → Bool
some_call zero accepts n = false
some_call (suc left) accepts n = accepts n || some_call left accepts (suc n)

-- A socket on which no five calls in a row fail.
unfoldable pub IsPatient : Socket → Type 0
IsPatient s = (n : ℕ) → some_call 5 s.accepts n ≡ true

-- What sending leaves of the rest of a socket.
abbrev pub SameSocket : Socket → Socket → Type 0
SameSocket s t =
    (t.is_req_or_rep ≡ s.is_req_or_rep)
    × (t.accepts ≡ s.accepts)
    × (t.incoming ≡ s.incoming)
    × (t.more_to_receive ≡ s.more_to_receive)

abbrev pub Sent : Socket → Frame → Bool → Socket × Bool → Type 0
Sent s m done r =
    (r.1 ≡ done)
    × (r.0.outgoing ≡ (if done then s.outgoing ++ m ∷ [] else s.outgoing))
    × SameSocket s r.0

send_tries-Sent :
    (left : ℕ) (s : Socket) (m : Frame)
    → Sent s m (some_call left s.accepts s.calls) (send_tries left s m)
unfolding send_tries send_once
send_tries-Sent zero s m = (refl, refl, (refl, refl, refl, refl))
send_tries-Sent (suc left) s m =
    ground (arith, send_tries-Sent left (record s { calls = suc s.calls }) m)

-- `send_harder` succeeds if and only if one of the next five calls goes through, and the frame is sent
-- exactly once then, after those sent before; else nothing is sent.
pub send_harder-Sent :
    (s : Socket) (m : Frame) → Sent s m (some_call 5 s.accepts s.calls) (send_harder s m)
unfolding send_harder
send_harder-Sent s m = send_tries-Sent 5 s m

abbrev pub Received : Socket → Frame → List Frame → Socket × Option Frame → Type 0
Received s m ms r =
    (r.1 ≡ some m)
    × (r.0.incoming ≡ ms)
    × (r.0.more_to_receive ≡ m.more)
    × (r.0.is_req_or_rep ≡ s.is_req_or_rep)
    × (r.0.accepts ≡ s.accepts)

recv_tries-Received :
    (left : ℕ) (s : Socket) (m : Frame) (ms : List Frame)
    → s.incoming ≡ m ∷ ms
    → some_call left s.accepts s.calls ≡ true
    → Received s m ms (recv_tries left s)
unfolding recv_tries recv_once
recv_tries-Received zero s m ms e h = absurd (ground (arith, h))
recv_tries-Received (suc left) s m ms e h =
    ground (arith, e, h, recv_tries-Received left (record s { calls = suc s.calls }) m ms e)

-- A frame that is there is received on a patient socket.
pub recv_harder-Received :
    (s : Socket) (m : Frame) (ms : List Frame)
    → s.incoming ≡ m ∷ ms
    → IsPatient s
    → Received s m ms (recv_harder s)
unfolding recv_harder IsPatient
recv_harder-Received s m ms e p = recv_tries-Received 5 s m ms e (p s.calls)

pub same-IsPatient : (s t : Socket) → t.accepts ≡ s.accepts → IsPatient s → IsPatient t
unfolding IsPatient
same-IsPatient s t e p n = rw e (p n)

-- The frame of the header where the library does not make one.
unfoldable pub header : Bool → List Frame
header true = []
header false = record { bytes = []; more = true } ∷ []

-- On a patient socket the header is attached.
pub attach-header :
    (s : Socket)
    → IsPatient s
    → ((attach_req_header s).1 ≡ true)
      × ((attach_req_header s).0.outgoing ≡ s.outgoing ++ header s.is_req_or_rep)
      × SameSocket s (attach_req_header s).0
unfolding attach_req_header header IsPatient
attach-header s p = ground (
  arith,
  p s.calls,
  append-nil s.outgoing,
  send_harder-Sent s (record { bytes = []; more = true }),
)

-- A header that is there is removed on a patient socket.
pub remove-header :
    (s : Socket) (ms : List Frame)
    → s.incoming ≡ header s.is_req_or_rep ++ ms
    → IsPatient s
    → ((remove_req_header s).1 ≡ true)
      × ((remove_req_header s).0.incoming ≡ ms)
      × ((remove_req_header s).0.accepts ≡ s.accepts)
unfolding remove_req_header header
remove-header s ms e p = elim (Bool-cases s.is_req_or_rep) [
  | inl k ↦ ground (arith, k, e)
  | inr k ↦
      let r =
        recv_harder-Received s (record { bytes = []; more = true }) ms
          (e ∙ ap (λ b. header b ++ ms) k) p in
      ground (arith, k, r)
]

-- On a patient socket a frame is sent.
pub send_harder-patient :
    (s : Socket) (m : Frame)
    → IsPatient s
    → ((send_harder s m).1 ≡ true)
      × ((send_harder s m).0.outgoing ≡ s.outgoing ++ m ∷ [])
      × ((send_harder s m).0.accepts ≡ s.accepts)
      × ((send_harder s m).0.is_req_or_rep ≡ s.is_req_or_rep)
unfolding IsPatient
send_harder-patient s m p = ground (arith, p s.calls, send_harder-Sent s m)

pub append_two :
    (xs ys : List Frame) (a b : Frame) → ((xs ++ ys) ++ a ∷ []) ++ b ∷ [] ≡ xs ++ (ys ++ a ∷ b ∷ [])
append_two xs ys a b = append_assoc (xs ++ ys) (a ∷ []) (b ∷ []) ∙ append_assoc xs ys (a ∷ b ∷ [])

pub append_three :
    (xs ys : List Frame) (a b c : Frame)
    → (((xs ++ ys) ++ a ∷ []) ++ b ∷ []) ++ c ∷ [] ≡ xs ++ (ys ++ a ∷ b ∷ c ∷ [])
append_three xs ys a b c =
    append_assoc ((xs ++ ys) ++ a ∷ []) (b ∷ []) (c ∷ [])
    ∙ append_assoc (xs ++ ys) (a ∷ []) (b ∷ c ∷ [])
    ∙ append_assoc xs ys (a ∷ b ∷ c ∷ [])
