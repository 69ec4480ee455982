-- ===== src/Proto/Response/Delivery.antt =====
-- remus/proto/Response.cxx: the frames of a response, and what is made of them at the other end.
use mathlib.Core.List.{append_assoc, append-nil}
use remus.Prelude.{ℕ, ◌<◌, ◌≡◌, refl, ap, sym, ◌∙◌, true, false, List, [], ◌∷◌, ◌++◌, arith}
use remus.Proto.Socket.{
  Socket, Frame, attach_req_header, remove_req_header, send_harder, send_if, recv_harder,
}
use remus.Proto.Socket.Tries.{
  IsPatient, same-IsPatient, header, attach-header, remove-header, recv_harder-Received,
  send_harder-patient, append_two,
}
use remus.Proto.Message.{service_bytes}
use remus.Proto.Message.Delivery.{service_at-bytes}
use remus.Proto.Response.{
  Response, send_address, send_impl, send_response, receive_storage, receive_service,
  receive_response,
}

-- The frame that routes a response.
unfoldable pub address : List ℕ → List Frame
address [] = []
address (c ∷ cs) = record { bytes = c ∷ cs; more = true } ∷ []

unfoldable pub body : ℕ → List ℕ → List Frame
body stype data' =
    record { bytes = service_bytes stype; more = true }
    ∷ record { bytes = data'; more = false }
    ∷ []

send_address-lem :
    (client : List ℕ) (s : Socket)
    → IsPatient s
    → ((send_address client s).1 ≡ true)
      × ((send_address client s).0.outgoing ≡ s.outgoing ++ address client)
      × ((send_address client s).0.accepts ≡ s.accepts)
      × ((send_address client s).0.is_req_or_rep ≡ s.is_req_or_rep)
unfolding send_address address
send_address-lem [] s p = (refl, sym (append-nil s.outgoing), refl, refl)
send_address-lem (c ∷ cs) s p =
    ground (arith, send_harder-patient s (record { bytes = c ∷ cs; more = true }) p)

-- The two frames of the body, on the socket `s` behind the header.
send_body :
    (first last : Frame) (s : Socket)
    → IsPatient s
    → ((send_if (send_harder s first).1 (send_harder s first).0 last).1 ≡ true)
      × ((send_if (send_harder s first).1 (send_harder s first).0 last).0.outgoing
          ≡ (s.outgoing ++ first ∷ []) ++ last ∷ [])
unfolding send_if
send_body first last s p =
    let t = send_harder-patient s first p in
    let st = (send_harder s first).0 in
    ground (arith, t, send_harder-patient st last (same-IsPatient s st t.2 p))

send_impl-sent :
    (r : Response) (client : List ℕ) (s : Socket)
    → IsPatient s
    → ((send_impl r client s).1.1 ≡ true)
      × ((send_impl r client s).1.0.outgoing
          ≡ s.outgoing ++ (address client ++ (header s.is_req_or_rep ++ body r.stype r.storage)))
      × ((send_impl r client s).0.storage ≡ [])
unfolding send_impl body send_if
send_impl-sent r client s p =
    let a = send_address-lem client s p in
    let sa = (send_address client s).0 in
    let h = attach-header sa (same-IsPatient s sa a.2 p) in
    let sh = (attach_req_header sa).0 in
    let first : Frame = record { bytes = service_bytes r.stype; more = true } in
    let last : Frame = record { bytes = r.storage; more = false } in
    let d = send_body first last sh (same-IsPatient sa sh h.2.1 (same-IsPatient s sa a.2 p)) in
    let before : sh.outgoing ≡ (s.outgoing ++ address client) ++ header s.is_req_or_rep =
      h.1
      ∙ ap (λ o. o ++ header sa.is_req_or_rep) a.1
      ∙ ap (λ k. (s.outgoing ++ address client) ++ header k) a.3 in
    let joined =
      ap (λ o. (o ++ first ∷ []) ++ last ∷ []) before
      ∙ append_two (s.outgoing ++ address client) (header s.is_req_or_rep) first last
      ∙ append_assoc s.outgoing (address client) (header s.is_req_or_rep ++ first ∷ last ∷ []) in
    rw (a.0, h.0) (d.0, d.1 ∙ joined, rw d.0 refl)

receive-body :
    (beyond : ℕ → ℕ) (stype : ℕ) (data' : List ℕ) (s : Socket) (rest : List Frame)
    → stype < 4294967296
    → s.incoming ≡ header s.is_req_or_rep ++ (body stype data' ++ rest)
    → IsPatient s
    → ((receive_response beyond s).0 ≡ record { stype = stype; is_valid = true; storage = data' })
      × ((receive_response beyond s).1.incoming ≡ rest)
unfolding receive_response receive_service receive_storage body
receive-body beyond stype data' s rest fits e p =
    let h = remove-header s _ e p in
    let a = (remove_req_header s).0 in
    let pa = same-IsPatient s a h.2 p in
    let last : Frame = record { bytes = data'; more = false } in
    let r =
      recv_harder-Received a (record { bytes = service_bytes stype; more = true }) (last ∷ rest) h.1
        pa in
    let b = (recv_harder a).0 in
    let q = recv_harder-Received b last rest r.1 (same-IsPatient a b r.4 pa) in
    ground (arith, h, r, q, service_at-bytes beyond stype fits)

-- A response to a client, or to nobody in particular, with any service and data, sent on a socket of
-- which no five calls in a row fail: it is valid, and the client's address, the header and the frames
-- stand behind what was sent before. Where its header and frames come in, under the header of the
-- receiving socket and before any others, and no five calls in a row fail, the response that is
-- received is valid and has the same service and data, and the frames after it are left.
pub receive-send_response :
    (beyond : ℕ → ℕ) (stype : ℕ) (rdata client : List ℕ) (s t : Socket) (rest : List Frame)
    → stype < 4294967296
    → IsPatient s
    → IsPatient t
    → t.incoming ≡ header t.is_req_or_rep ++ (body stype rdata ++ rest)
    → ((send_response stype rdata s client).0.is_valid ≡ true)
      × ((send_response stype rdata s client).1.outgoing
          ≡ s.outgoing ++ (address client ++ (header s.is_req_or_rep ++ body stype rdata)))
      × ((receive_response beyond t).0 ≡ record { stype = stype; is_valid = true; storage = rdata })
      × ((receive_response beyond t).1.incoming ≡ rest)
unfolding send_response
receive-send_response beyond stype rdata client s t rest fits p q e =
    let a =
      send_impl-sent (record { stype = stype; is_valid = true; storage = rdata }) client s p in
    let b = receive-body beyond stype rdata t rest fits e q in (a.0, a.1, b.0, b.1)
