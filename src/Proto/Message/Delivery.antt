-- ===== src/Proto/Message/Delivery.antt =====
-- remus/proto/Message.cxx: the frames of a message, and what is made of them at the other end.
use remus.Prelude.{
  ℕ, ◌<◌, ◌≡◌, refl, ap, Bool, true, false, Option, none, some, List, [], ◌∷◌, ◌++◌, arith, length,
}
use remus.Common.MeshIoType.{MeshIoType, no_mesh_io_type}
use remus.Proto.Socket.{
  Socket, Frame, attach_req_header, remove_req_header, send_harder, send_if, recv_harder,
}
use remus.Proto.Socket.Tries.{
  IsPatient, same-IsPatient, header, attach-header, remove-header, recv_harder-Received,
  send_harder-patient, append_two, append_three,
}
use remus.Proto.Wire.{put_mesh_type, max_size}
use remus.Proto.Wire.RoundTrip.{get-put_mesh_type}
use remus.Proto.Message.{
  Message, data_of, data_size, service_bytes, service_at, byte_at, send_data, send_impl,
  send_message, typed, receive_data, finish, receive_service, receive_type, receive_message,
}

-- The frames of a message after its header: the data only where there is some.
pub body : MeshIoType → ℕ → List ℕ → List Frame
body mtype stype [] =
    record { bytes = put_mesh_type mtype []; more = true }
    ∷ record { bytes = service_bytes stype; more = false }
    ∷ []
body mtype stype (c ∷ cs) =
    record { bytes = put_mesh_type mtype []; more = true }
    ∷ record { bytes = service_bytes stype; more = true }
    ∷ record { bytes = c ∷ cs; more = false }
    ∷ []

-- The integer of the service is read back from its bytes.
pub service_at-bytes :
    (beyond : ℕ → ℕ) (n : ℕ) → n < 4294967296 → service_at beyond (service_bytes n) ≡ n
unfolding service_at service_bytes byte_at
service_at-bytes beyond n h = omega (arith, h)

typed-put :
    (garbled : List ℕ → MeshIoType) (t : MeshIoType)
    → length t.input_type < max_size
    → length t.output_type < max_size
    → typed garbled (put_mesh_type t []) ≡ t
typed-put garbled t h k =
    ap (λ o. elim o [ none ↦ garbled (put_mesh_type t []) | some r ↦ r.0 ])
      (get-put_mesh_type t [] h k)

module _ (garbled : List ℕ → MeshIoType) (beyond : ℕ → ℕ) (mtype : MeshIoType) (stype : ℕ)
    (short : (length mtype.input_type < max_size) × (length mtype.output_type < max_size))
    (fits : stype < 4294967296) where
  -- What is read after the mesh type, at each of the two forms of a message.
  receive-last :
      (m : Message) (s : Socket) (rest : List Frame)
      → s.incoming ≡ record { bytes = service_bytes stype; more = false } ∷ rest
      → IsPatient s
      → ((receive_service beyond m s).0 ≡ record m { stype = stype; is_valid = true })
        × ((receive_service beyond m s).1.incoming ≡ rest)
  unfolding receive_service receive_data finish
  receive-last m s rest e p =
      let r =
        recv_harder-Received s (record { bytes = service_bytes stype; more = false }) rest e p in
      ground (arith, r, service_at-bytes beyond stype fits)

  receive-service_and_data :
      (m : Message) (s : Socket) (data' : List ℕ) (rest : List Frame)
      → s.incoming
        ≡ record { bytes = service_bytes stype; more = true }
          ∷ record { bytes = data'; more = false }
          ∷ rest
      → IsPatient s
      → ((receive_service beyond m s).0
          ≡ record m { stype = stype; is_valid = true; storage = some data' })
        × ((receive_service beyond m s).1.incoming ≡ rest)
  unfolding receive_service receive_data finish
  receive-service_and_data m s data' rest e p =
      let second : Frame = record { bytes = data'; more = false } in
      let r =
        recv_harder-Received s (record { bytes = service_bytes stype; more = true }) (second ∷ rest)
          e p in
      let q = recv_harder-Received (recv_harder s).0 second rest r.1 (same-IsPatient s _ r.4 p) in
      ground (arith, r, q, service_at-bytes beyond stype fits)

  receive-body :
      (m : Message) (s : Socket) (data' : List ℕ) (rest : List Frame)
      → s.incoming ≡ body mtype stype data' ++ rest
      → IsPatient s
      → m.storage ≡ some []
      → ((receive_type garbled beyond m s).0
          ≡ record { mtype = mtype; stype = stype; is_valid = true; storage = some data' })
        × ((receive_type garbled beyond m s).1.incoming ≡ rest)
  unfolding receive_type body
  receive-body m s [] rest e p k =
      let r = recv_harder-Received s _ _ e p in
      let q =
        receive-last (record m { mtype = typed garbled (put_mesh_type mtype []) }) (recv_harder s).0
          rest r.1 (same-IsPatient s _ r.4 p) in
      ground (arith, r, q, k, typed-put garbled mtype short.0 short.1)
  receive-body m s (c ∷ cs) rest e p k =
      let r = recv_harder-Received s _ _ e p in
      let q =
        receive-service_and_data (record m { mtype = typed garbled (put_mesh_type mtype []) })
          (recv_harder s).0 (c ∷ cs) rest r.1 (same-IsPatient s _ r.4 p) in
      ground (arith, r, q, typed-put garbled mtype short.0 short.1)

  pub receive_message-body :
      (s : Socket) (data' : List ℕ) (rest : List Frame)
      → s.incoming ≡ header s.is_req_or_rep ++ (body mtype stype data' ++ rest)
      → IsPatient s
      → ((receive_message garbled beyond s).0
          ≡ record { mtype = mtype; stype = stype; is_valid = true; storage = some data' })
        × ((receive_message garbled beyond s).1.incoming ≡ rest)
  unfolding receive_message
  receive_message-body s data' rest e p =
      let h = remove-header s _ e p in
      let q =
        receive-body
          (record { mtype = no_mesh_io_type; stype = 0; is_valid = false; storage = some [] })
          (remove_req_header s).0 data' rest h.1 (same-IsPatient s _ h.2 p) refl in
      ground (arith, h, q)

-- What is sent of a message, its frames behind those sent before; nothing is left of its data.
SentAs : Socket → List Frame → Message × (Socket × Bool) → Type 0
SentAs s ms r = (r.1.1 ≡ true) × (r.1.0.outgoing ≡ s.outgoing ++ ms) × (data_of r.0.storage ≡ [])

send_data-SentAs :
    (m : Message) (s : Socket)
    → IsPatient s
    → ((send_data m s).1.1 ≡ true)
      × ((send_data m s).1.0.outgoing
          ≡ (s.outgoing ++ record { bytes = service_bytes m.stype; more = true } ∷ [])
            ++ record { bytes = data_of m.storage; more = false } ∷ [])
      × (data_of (send_data m s).0.storage ≡ [])
unfolding send_data send_if data_of
send_data-SentAs m s p =
    let second : Frame = record { bytes = service_bytes m.stype; more = true } in
    let u = send_harder-patient s second p in
    let t = (send_harder s second).0 in
    ground (
      arith,
      u,
      send_harder-patient t (record { bytes = data_of m.storage; more = false })
          (same-IsPatient s t u.2 p),
    )

module _ (mtype : MeshIoType) (stype : ℕ) (s : Socket) (p : IsPatient s) where
  abbrev sent : Option (List ℕ) → Message
  sent storage = record { mtype = mtype; stype = stype; is_valid = true; storage = storage }

  first : Frame
  first = record { bytes = put_mesh_type mtype []; more = true }

  -- The socket after the header and the mesh type.
  typed_socket : Socket × Bool
  typed_socket = send_if (attach_req_header s).1 (attach_req_header s).0 first

  typed_socket_lem :
      (typed_socket.1 ≡ true)
      × (typed_socket.0.outgoing ≡ (s.outgoing ++ header s.is_req_or_rep) ++ first ∷ [])
      × IsPatient typed_socket.0
  unfolding typed_socket send_if
  typed_socket_lem =
      let h = attach-header s p in
      let a = (attach_req_header s).0 in
      let pa = same-IsPatient s a h.2.1 p in
      let t = send_harder-patient a first pa in
      let pb = same-IsPatient a (send_harder a first).0 t.2 pa in ground (arith, h, t, pb)

  without_data :
      (storage : Option (List ℕ))
      → data_of storage ≡ []
      → SentAs s (header s.is_req_or_rep ++ body mtype stype []) (send_impl (sent storage) s)
  unfolding SentAs send_impl data_size body first typed_socket
  without_data storage e =
      let last : Frame = record { bytes = service_bytes stype; more = false } in
      ground (
        arith,
        e,
        typed_socket_lem,
        send_harder-patient typed_socket.0 last typed_socket_lem.2,
        append_two s.outgoing (header s.is_req_or_rep) first last,
      )

  with_data :
      (storage : Option (List ℕ)) (x : ℕ) (xs : List ℕ)
      → data_of storage ≡ x ∷ xs
      → SentAs s (header s.is_req_or_rep ++ body mtype stype (x ∷ xs)) (send_impl (sent storage) s)
  unfolding SentAs send_impl data_size body first typed_socket
  with_data storage x xs e = ground (
    arith,
    e,
    typed_socket_lem,
    send_data-SentAs (sent storage) typed_socket.0 typed_socket_lem.2,
    append_three s.outgoing (header s.is_req_or_rep) first
        (record { bytes = service_bytes stype; more = true })
        (record { bytes = data_of storage; more = false }),
  )

  send_impl-SentAs :
      (storage : Option (List ℕ))
      → SentAs s
          (header s.is_req_or_rep ++ body mtype stype (data_of storage))
          (send_impl (sent storage) s)
  unfolding data_of
  send_impl-SentAs none = without_data none refl
  send_impl-SentAs (some []) = without_data (some []) refl
  send_impl-SentAs (some (x ∷ xs)) = with_data (some (x ∷ xs)) x xs refl

-- A message with a mesh type whose names are shorter than 2 ^ 64 bytes and any service, sent on a
-- socket of which no five calls in a row fail: it is valid, its header and frames stand behind what was
-- sent before, and none of its data is left in it. Where such frames come in, under the header of the
-- receiving socket and before any others, and no five calls in a row fail, the message that is received
-- is valid and has the same mesh type, service and data, and the frames after it are left.
pub receive-send_message :
    (garbled : List ℕ → MeshIoType) (beyond : ℕ → ℕ) (mtype : MeshIoType) (stype : ℕ)
    (storage : Option (List ℕ)) (s t : Socket) (rest : List Frame)
    → length mtype.input_type < max_size
    → length mtype.output_type < max_size
    → stype < 4294967296
    → IsPatient s
    → IsPatient t
    → t.incoming ≡ header t.is_req_or_rep ++ (body mtype stype (data_of storage) ++ rest)
    → ((send_message mtype stype storage s).0.is_valid ≡ true)
      × ((send_message mtype stype storage s).1.outgoing
          ≡ s.outgoing ++ (header s.is_req_or_rep ++ body mtype stype (data_of storage)))
      × (data_of (send_message mtype stype storage s).0.storage ≡ [])
      × ((receive_message garbled beyond t).0 ≡ record {
        mtype = mtype;
        stype = stype;
        is_valid = true;
        storage = some (data_of storage);
      })
      × ((receive_message garbled beyond t).1.incoming ≡ rest)
unfolding send_message SentAs
receive-send_message garbled beyond mtype stype storage s t rest h k fits p q e =
    let a = send_impl-SentAs mtype stype s p storage in
    let b =
      receive_message-body garbled beyond mtype stype (h, k) fits t (data_of storage) rest e q in
    (a.0, a.1, a.2, b.0, b.1)
