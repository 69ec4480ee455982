-- ===== src/Proto/Response.antt =====
-- remus/proto/Response.h and Response.cxx: the answers of the server. `client` holds the bytes of the
-- socket's identity, none where there is nobody to route to.
pub mod Delivery
use remus.Prelude.{
  ℕ, Bool, true, false, Option, none, some, List, [], ◌∷◌, ltb, length, if◌then◌else◌,
}
use remus.Proto.Socket.{
  Socket, Frame, attach_req_header, remove_req_header, send_harder, send_if, recv_harder,
}
use remus.Proto.Message.{service_bytes, service_at}

pub record Response : Type 0 where
  pub stype : ℕ
  pub is_valid : Bool
  pub storage : List ℕ

unfoldable pub send_address : List ℕ → Socket → Socket × Bool
unfolding send_harder
send_address client s =
    if ltb 0 (length client)
    then send_harder s (record { bytes = client; more = true })
    else (s, true)

-- Each frame after one that was sent. The data that was sent is empty afterwards.
unfoldable pub send_impl : Response → List ℕ → Socket → Response × (Socket × Bool)
unfolding send_address attach_req_header send_harder send_if service_bytes
send_impl r client s =
    let a = send_address client s in
    let h = if a.1 then attach_req_header a.0 else (a.0, false) in
    let t = send_if h.1 h.0 (record { bytes = service_bytes r.stype; more = true }) in
    let d = send_if t.1 t.0 (record { bytes = r.storage; more = false }) in
    (if d.1 then record r { storage = [] } else r, d)

-- `send_Response` and `send_NonBlockingResponse`.
unfoldable pub send_response : ℕ → List ℕ → Socket → List ℕ → Response × Socket
unfolding send_impl
send_response stype rdata s client =
    let r = send_impl (record { stype = stype; is_valid = true; storage = rdata }) client s in
    (record r.0 { is_valid = r.1.1 }, r.1.0)

unfoldable pub receive_storage : Response → Socket × Option Frame → Response × Socket
receive_storage r (s, none) = (r, s)
receive_storage r (s, some d) = (record r { is_valid = true; storage = d.bytes }, s)

unfoldable pub receive_service : (ℕ → ℕ) → Response → Socket × Option Frame → Response × Socket
unfolding receive_storage recv_harder service_at
receive_service beyond r (s, none) = (r, s)
receive_service beyond r (s, some t) =
    receive_storage (record r { stype = service_at beyond t.bytes }) (recv_harder s)

-- The constructor that reads a socket; the service is INVALID_SERVICE until it is read.
unfoldable pub receive_response : (ℕ → ℕ) → Socket → Response × Socket
unfolding receive_service remove_req_header recv_harder
receive_response beyond s =
    let r : Response = record { stype = 0; is_valid = false; storage = [] } in
    let h = remove_req_header s in
    if h.1 then receive_service beyond r (recv_harder h.0) else (r, h.0)
