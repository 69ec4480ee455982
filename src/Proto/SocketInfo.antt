-- ===== src/Proto/SocketInfo.antt =====
-- remus/proto/zmqSocketInfo.h, the binding of remus/proto/zmqHelper.h and remus/server/ServerPorts.cxx,
-- and `make_ServerConnection` of remus/worker/ServerConnection.cxx and remus/client/ServerConnection.cxx,
-- which are the same. `cast` is `lexical_cast` to an `int`, `none` where it throws.
pub mod Endpoints
pub mod Binding
use remus.Prelude.{
  ℕ, zero, suc, ◌+◌, ◌-◌, Bool, true, false, not, ◌||◌, Option, none, some, List, [], ◌∷◌, ◌++◌,
  length, ltb, ◌==◌, if◌then◌else◌,
}
use remus.Std.Order.{bytes_eq}
use remus.Std.Stream.{put_nat}
use remus.Std.Bytes.{starts_with, drop}

abbrev pub tcp_scheme : List ℕ
tcp_scheme = 116 ∷ 99 ∷ 112 ∷ []

abbrev pub ipc_scheme : List ℕ
ipc_scheme = 105 ∷ 112 ∷ 99 ∷ []

abbrev pub inproc_scheme : List ℕ
inproc_scheme = 105 ∷ 110 ∷ 112 ∷ 114 ∷ 111 ∷ 99 ∷ []

abbrev pub separator : List ℕ
separator = 58 ∷ 47 ∷ 47 ∷ []

abbrev pub local_host : List ℕ
local_host = 49 ∷ 50 ∷ 55 ∷ 46 ∷ 48 ∷ 46 ∷ 48 ∷ 46 ∷ 49 ∷ []

-- `socketInfo` at the three transports.
pub data SocketInfo : Type 0 where
  tcp : List ℕ → ℕ → SocketInfo
  ipc inproc : List ℕ → SocketInfo

unfoldable pub endpoint : SocketInfo → List ℕ
unfolding put_nat
endpoint (tcp host port) = tcp_scheme ++ separator ++ host ++ 58 ∷ put_nat port []
endpoint (ipc host) = ipc_scheme ++ separator ++ host
endpoint (inproc host) = inproc_scheme ++ separator ++ host

unfoldable pub is_local_endpoint : SocketInfo → Bool
is_local_endpoint (tcp host port) = bytes_eq host local_host
is_local_endpoint (ipc host) = true
is_local_endpoint (inproc host) = true

-- The part before the first "://" and the part behind it; `none` where it does not occur.
unfoldable pub split_scheme : List ℕ → Option (List ℕ × List ℕ)
unfolding starts_with drop
split_scheme [] = none
split_scheme (c ∷ cs) =
    let later = split_scheme cs in
    if starts_with separator (c ∷ cs)
    then some ([], drop 3 (c ∷ cs))
    else elim later [ none ↦ none | some (before, rest) ↦ some (c ∷ before, rest) ]

-- The parts before and behind the last colon.
unfoldable pub split_port : List ℕ → Option (List ℕ × List ℕ)
split_port [] = none
split_port (c ∷ cs) = elim (split_port cs) [
  | none ↦ if c == 58 then some ([], cs) else none
  | some (before, rest) ↦ some (c ∷ before, rest)
]

-- The connection where nothing else is made of the text.
abbrev pub default_connection : ℕ → SocketInfo
default_connection port = tcp local_host port

module _ (cast : List ℕ → Option ℕ) (default_port : ℕ) where
  unfoldable pub tcp_connection : Option (List ℕ × List ℕ) → Option SocketInfo
  tcp_connection none = some (default_connection default_port)
  tcp_connection (some (host, port)) = elim (cast port) [ none ↦ none | some p ↦ some (tcp host p) ]

  unfoldable pub of_scheme : Option (List ℕ × List ℕ) → Option SocketInfo
  unfolding tcp_connection split_port
  of_scheme none = some (default_connection default_port)
  of_scheme (some (protocol, rest)) =
      if bytes_eq protocol tcp_scheme
      then tcp_connection (split_port rest)
      else if bytes_eq protocol ipc_scheme
      then some (ipc rest)
      else if bytes_eq protocol inproc_scheme
      then some (inproc rest)
      else some (default_connection default_port)

  unfoldable pub make_server_connection : List ℕ → Option SocketInfo
  unfolding of_scheme split_scheme
  make_server_connection dest =
      if ltb 6 (length dest)
      then of_scheme (split_scheme dest)
      else some (default_connection default_port)

-- The loop of `bindToAddress` with the ports that are left; `accepts` says which can be bound.
unfoldable pub bind_from : (ℕ → Bool) → ℕ → ℕ → Option ℕ
bind_from accepts zero i = none
bind_from accepts (suc left) i =
    let later = bind_from accepts left (i + 1) in if accepts i then some i else later

-- `detail::bind`; `none` is the exception. The other transports are bound as they are.
unfoldable pub bind : (ℕ → Bool) → Bool → SocketInfo → Option SocketInfo
unfolding bind_from
bind accepts binds (tcp host port) = elim (bind_from accepts (65535 - port) port) [
  | none ↦ none
  | some p ↦ some (tcp host p)
]
bind accepts binds (ipc host) = if binds then some (ipc host) else none
bind accepts binds (inproc host) = if binds then some (inproc host) else none
