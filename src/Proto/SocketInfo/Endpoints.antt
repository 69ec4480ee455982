-- ===== src/Proto/SocketInfo/Endpoints.antt =====
-- `make_ServerConnection` of remus/worker/ServerConnection.cxx and remus/client/ServerConnection.cxx on
-- what `endpoint` of remus/proto/zmqSocketInfo.h writes.
use remus.Prelude.{
  ℕ, zero, suc, ◌+◌, ◌/◌, ◌%◌, ◌<◌, ◌≡◌, refl, Bool, true, false, not, ◌&&◌, Option, none, some,
  List, [], ◌∷◌, ◌++◌, arith, length, ◌==◌, is_nil,
}
use remus.Std.Bytes.{starts_with, drop}
use remus.Std.Stream.{put_nat, digits_from}
use remus.Proto.SocketInfo.{
  SocketInfo, tcp, ipc, inproc, endpoint, split_scheme, split_port, tcp_connection, of_scheme,
  make_server_connection,
}

abbrev no_colon : List ℕ → Bool
no_colon [] = true
no_colon (c ∷ cs) = not (c == 58) && no_colon cs

digits-no_colon :
    (fuel n : ℕ) (ds : List ℕ) → no_colon ds ≡ true → no_colon (digits_from fuel n ds) ≡ true
unfolding digits_from
digits-no_colon zero n ds h = h
digits-no_colon (suc fuel) n ds h =
    ground (arith, h, digits-no_colon fuel (n / 10) ((48 + n % 10) ∷ ds))

split_port-none : (cs : List ℕ) → no_colon cs ≡ true → split_port cs ≡ none
unfolding split_port
split_port-none [] h = refl
split_port-none (c ∷ cs) h = ground (arith, h, split_port-none cs)

split_port-append :
    (host port : List ℕ) → no_colon port ≡ true → split_port (host ++ 58 ∷ port) ≡ some (host, port)
unfolding split_port
split_port-append [] port h = ground (arith, split_port-none port h)
split_port-append (c ∷ cs) port h = ground (arith, split_port-append cs port h)

put_nat-no_colon : (n : ℕ) → no_colon (put_nat n []) ≡ true
unfolding put_nat
put_nat-no_colon n = digits-no_colon (suc n) n [] refl

length-positive : (xs : List ℕ) (c : ℕ) (ys : List ℕ) → 0 < length (xs ++ c ∷ ys)
length-positive [] c ys = omega arith
length-positive (x ∷ xs) c ys = omega arith

-- What the text of an end point must satisfy: a port that the cast reads back, and a host for `ipc`.
abbrev pub IsAddress : (List ℕ → Option ℕ) → SocketInfo → Type 0
IsAddress cast (tcp host port) = cast (put_nat port []) ≡ some port
IsAddress cast (ipc host) = is_nil host ≡ false
IsAddress cast (inproc host) = Unit

-- A client or a worker that is given the text of an end point connects to that end point: with a host
-- that may hold colons itself, and a port that the cast reads back, or by one of the other transports,
-- where the host of `ipc` is not empty.
pub make_server_connection-endpoint :
    (cast : List ℕ → Option ℕ) (default_port : ℕ) (info : SocketInfo)
    → IsAddress cast info
    → make_server_connection cast default_port (endpoint info) ≡ some info
unfolding make_server_connection of_scheme tcp_connection split_scheme endpoint starts_with drop
make_server_connection-endpoint cast default_port (tcp host port) h = ground (
  arith,
  split_port-append host (put_nat port []) (put_nat-no_colon port),
  h,
  length-positive host 58 (put_nat port []),
)
make_server_connection-endpoint cast default_port (ipc []) h = absurd (ground (arith, h))
make_server_connection-endpoint cast default_port (ipc (c ∷ host)) h = ground arith
make_server_connection-endpoint cast default_port (inproc host) h = ground arith
