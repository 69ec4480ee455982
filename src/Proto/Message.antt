-- ===== src/Proto/Message.antt =====
-- remus/proto/Message.h and Message.cxx: messages of several frames. `garbled` is the mesh type that a
-- stream leaves which fails, and `beyond` what stands in memory after a frame that is too short.
pub mod Delivery
use remus.Prelude.{
  ℕ, zero, suc, ◌+◌, ◌*◌, ◌/◌, ◌%◌, Bool, true, false, not, ◌&&◌, Option, none, some, List, [], ◌∷◌,
  ltb, length, if◌then◌else◌,
}
use remus.Common.MeshIoType.{MeshIoType, no_mesh_io_type}
use remus.Proto.Socket.{
  Socket, Frame, attach_req_header, remove_req_header, send_harder, send_if, recv_harder,
}
use remus.Proto.Wire.{put_mesh_type, get_mesh_type}

-- `SType` is the enumeration's integer, of 32 bits.
pub record Message : Type 0 where
  pub mtype : MeshIoType
  pub stype : ℕ
  pub is_valid : Bool
  pub storage : Option (List ℕ)

-- `data()` as far as `dataSize()`.
unfoldable pub data_of : Option (List ℕ) → List ℕ
data_of none = []
data_of (some bytes) = bytes

unfoldable pub data_size : Option (List ℕ) → ℕ
unfolding data_of
data_size storage = length (data_of storage)

-- The bytes of the integer in memory, least first.
unfoldable pub service_bytes : ℕ → List ℕ
service_bytes n = n % 256 ∷ n / 256 % 256 ∷ n / 65536 % 256 ∷ n / 16777216 % 256 ∷ []

unfoldable pub byte_at : (ℕ → ℕ) → ℕ → List ℕ → ℕ
byte_at beyond i [] = beyond i
byte_at beyond zero (b ∷ bs) = b
byte_at beyond (suc i) (b ∷ bs) = byte_at beyond i bs

-- `*(reinterpret_cast<SERVICE_TYPE*>(servType.data()))`.
unfoldable pub service_at : (ℕ → ℕ) → List ℕ → ℕ
unfolding byte_at
service_at beyond bs =
    byte_at beyond 0 bs
    + 256 * byte_at beyond 1 bs
    + 65536 * byte_at beyond 2 bs
    + 16777216 * byte_at beyond 3 bs

-- The frames after the mesh type. A frame that was sent is empty afterwards, as `zmq_msg_send` has it.
unfoldable pub send_data : Message → Socket → Message × (Socket × Bool)
unfolding send_if service_bytes
send_data m s =
    let service = send_harder s (record { bytes = service_bytes m.stype; more = true }) in
    let r = send_if service.1 service.0 (record { bytes = data_of m.storage; more = false }) in
    (if r.1 then record m { storage = some [] } else m, r)

-- The two modes differ in the flags of the library's calls alone.
unfoldable pub send_impl : Message → Socket → Message × (Socket × Bool)
unfolding attach_req_header send_if send_data put_mesh_type data_size service_bytes
send_impl m s =
    if not m.is_valid
    then (m, (s, false))
    else let h = attach_req_header s in
      let t = send_if h.1 h.0 (record { bytes = put_mesh_type m.mtype []; more = true }) in
      if ltb 0 (data_size m.storage) && t.1
      then send_data m t.0
      else if t.1
      then (m, send_harder t.0 (record { bytes = service_bytes m.stype; more = false }))
      else (m, t)

-- `send_Message` and `send_NonBlockingMessage`, with data or without.
unfoldable pub send_message : MeshIoType → ℕ → Option (List ℕ) → Socket → Message × Socket
unfolding send_impl
send_message mtype stype storage s =
    let r =
      send_impl (record { mtype = mtype; stype = stype; is_valid = true; storage = storage }) s in
    (record r.0 { is_valid = r.1.1 }, r.1.0)

-- `forward_Message`.
unfoldable pub forward_message : Message → Socket → Message × (Socket × Bool)
unfolding send_impl
forward_message m s = send_impl m s

abbrev pub typed : (List ℕ → MeshIoType) → List ℕ → MeshIoType
typed garbled bytes = elim (get_mesh_type bytes) [ none ↦ garbled bytes | some r ↦ r.0 ]

-- The data that was received, and the test that nothing else is left to read.
unfoldable pub finish : Message → Socket × Option Frame → Message × Socket
finish m (s, none) = (record m { is_valid = false }, s)
finish m (s, some d) = (record m { is_valid = not s.more_to_receive; storage = some d.bytes }, s)

-- The optional data.
unfoldable pub receive_data : Message → Socket → Message × Socket
unfolding recv_harder finish
receive_data m s =
    if s.more_to_receive then finish m (recv_harder s) else (record m { is_valid = true }, s)

unfoldable pub receive_service : (ℕ → ℕ) → Message → Socket → Message × Socket
unfolding recv_harder receive_data service_at
receive_service beyond m s =
    let r = recv_harder s in
    elim r.1 [
      | none ↦ (m, r.0)
      | some t ↦ receive_data (record m { stype = service_at beyond t.bytes }) r.0
    ]

unfoldable pub receive_type : (List ℕ → MeshIoType) → (ℕ → ℕ) → Message → Socket → Message × Socket
unfolding recv_harder receive_service get_mesh_type
receive_type garbled beyond m s =
    let r = recv_harder s in
    elim r.1 [
      | none ↦ (m, r.0)
      | some t ↦ receive_service beyond (record m { mtype = typed garbled t.bytes }) r.0
    ]

-- The constructor that reads a socket. Until all is read the message is not valid.
unfoldable pub receive_message : (List ℕ → MeshIoType) → (ℕ → ℕ) → Socket → Message × Socket
unfolding remove_req_header receive_type
receive_message garbled beyond s =
    let m : Message = record {
      mtype = no_mesh_io_type;
      stype = 0;
      is_valid = false;
      storage = some [];
    } in
    let h = remove_req_header s in if h.1 then receive_type garbled beyond m h.0 else (m, h.0)
