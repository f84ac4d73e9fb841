-- ===== src/InetAddr.antt =====
-- yvent/InetAddr.h and yvent/InetAddr.cpp: an IPv4 address and a port, as they stand in a `sockaddr_in` on a
-- little-endian host: the bytes of both are in network order. `inet_pton` and `inet_ntop` are parameters.
pub mod Order
use yvent.Prelude.{ℕ, ◌+◌, ◌*◌, ◌/◌, ◌%◌, List, Bool, if◌then◌else◌, Option, none, some}
use yvent.Fault.{Result, ok, err, fatal}
use yvent.Codec.{swap32}

pub record InetAddr : Type 0 where
  pub s_addr : ℕ
  pub sin_port : ℕ

-- `htons` and `ntohs`.
abbrev pub swap16 : ℕ → ℕ
swap16 u = u % 256 * 256 + u / 256 % 256

-- The constructor for a port, at the loopback address or at any.
unfoldable pub make : ℕ → Bool → InetAddr
make port loopback = record {
  s_addr = swap32 (if loopback then 0x7f000001 else 0);
  sin_port = swap16 port;
}

-- The constructor for the text of an address.
unfoldable pub of_text : (List ℕ → Option ℕ) → List ℕ → ℕ → Result InetAddr
of_text inet_pton text port = elim (inet_pton text) [
  | none ↦ err fatal
  | some s_addr ↦ ok (record { s_addr = s_addr; sin_port = swap16 port })
]

unfoldable pub port : InetAddr → ℕ
port a = swap16 a.sin_port

unfoldable pub ip : (ℕ → List ℕ) → InetAddr → List ℕ
ip inet_ntop a = inet_ntop a.s_addr
