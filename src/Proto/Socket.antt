-- ===== src/Proto/Socket.antt =====
-- The functions of remus/proto/zmqHelper.cxx that send and receive frames. A socket keeps what was sent
-- and what is there to be received; `accepts n` says whether its call `n` goes through, where a call
-- that returns false and one that throws are the same to the source.
pub mod Tries
use remus.Prelude.{
  ℕ, zero, suc, Bool, true, false, Option, none, some, List, [], ◌∷◌, ◌++◌, if◌then◌else◌,
}

-- `more` is the flag ZMQ_SNDMORE.
pub record Frame : Type 0 where
  pub bytes : List ℕ
  pub more : Bool

-- `more_to_receive` is the option ZMQ_RCVMORE, that of the last frame received.
pub record Socket : Type 0 where
  pub is_req_or_rep : Bool
  pub accepts : ℕ → Bool
  pub calls : ℕ
  pub outgoing : List Frame
  pub incoming : List Frame
  pub more_to_receive : Bool

-- `socket_t::send`.
unfoldable pub send_once : Socket → Frame → Socket × Bool
send_once s m =
    if s.accepts s.calls
    then (record s { calls = suc s.calls; outgoing = s.outgoing ++ m ∷ [] }, true)
    else (record s { calls = suc s.calls }, false)

-- The loop of `send_harder` with the tries that are left.
unfoldable pub send_tries : ℕ → Socket → Frame → Socket × Bool
unfolding send_once
send_tries zero s m = (s, false)
send_tries (suc left) s m =
    let r = send_once s m in elim r.1 [ true ↦ (r.0, true) | false ↦ send_tries left r.0 m ]

unfoldable pub send_harder : Socket → Frame → Socket × Bool
unfolding send_tries
send_harder s m = send_tries 5 s m

-- `socket_t::recv` with ZMQ_DONTWAIT.
unfoldable pub recv_once : Socket → Socket × Option Frame
recv_once s =
    if s.accepts s.calls
    then elim s.incoming [
      | [] ↦ (record s { calls = suc s.calls }, none)
      | m ∷ ms ↦ (record s { calls = suc s.calls; incoming = ms; more_to_receive = m.more }, some m)
    ]
    else (record s { calls = suc s.calls }, none)

unfoldable pub recv_tries : ℕ → Socket → Socket × Option Frame
unfolding recv_once
recv_tries zero s = (s, none)
recv_tries (suc left) s =
    let r = recv_once s in elim r.1 [ some m ↦ (r.0, some m) | none ↦ recv_tries left r.0 ]

unfoldable pub recv_harder : Socket → Socket × Option Frame
unfolding recv_tries
recv_harder s = recv_tries 5 s

-- Requesting and replying sockets have their header from the library.
unfoldable pub attach_req_header : Socket → Socket × Bool
unfolding send_harder
attach_req_header s =
    if s.is_req_or_rep then (s, true) else send_harder s (record { bytes = []; more = true })

abbrev pub is_received : Option Frame → Bool
is_received none = false
is_received (some m) = true

unfoldable pub remove_req_header : Socket → Socket × Bool
unfolding recv_harder
remove_req_header s =
    if s.is_req_or_rep then (s, true) else let r = recv_harder s in (r.0, is_received r.1)

-- `valid && send_harder(...)`.
unfoldable pub send_if : Bool → Socket → Frame → Socket × Bool
unfolding send_harder
send_if true s m = send_harder s m
send_if false s m = (s, false)
