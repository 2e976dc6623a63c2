-- ===== src/SocksProxy.antt =====
-- proxy/socks5/socks5.go: the proxy that dials through the SOCKS5 client of Socks5.
pub mod Datagrams
mod Tests
use tun_flow.Base.{
  ℕ, suc, ◌+◌, ◌-◌, ℤ, pos, negsuc, Bool, true, false, not, ◌&&◌, List, [], ◌∷◌, ◌++◌, Option, none,
  some, ltb, leb, ◌==◌, if◌then◌else◌, Bytes, length, take, drop, is_empty, Result, ok, err, panic,
  ◌>>=◌, index, slice_from, min,
}
use tun_flow.Base.Net.{Conn}
use tun_flow.Netip
use tun_flow.Socks5
use tun_flow.Socks5.{User, Command, connect, udp_associate, atyp_ipv4}
use tun_flow.Socks5.Addr.{UdpAddr, udp_addr, serialize_addr, decode_udp_packet, encode_udp_packet}
use tun_flow.Socks5.Handshake.{client_handshake}

pub data Error : Type 0 where
  not_dialed unix_unsupported listen_failed bad_bind unresolved read_failed no_udp_addr : Error
  socks : Socks5.Error → Error

-- `Socks5`.
pub record Proxy : Type 0 where
  pub addr : Bytes
  pub user : Bytes
  pub pass : Bytes
  pub unix : Bool

abbrev starts_path : Bytes → Bool
starts_path [] = false
starts_path (c ∷ cs) = c == b'/'

-- The two cases of the test for the abstract namespace: `&&` binds tighter than `||`.
abbrev at_sign : Bytes → Result Error Bool
at_sign addr = if ltb 2 (length addr) then (do c ← index addr 1; ok (c == b'@')) else ok false

abbrev is_abstract : Bytes → Result Error Bool
is_abstract addr = do a ← at_sign addr; if a then ok true else (do c ← index addr 1; ok (c == 0))

-- `New`.
unfoldable pub new : Bytes → Bytes → Bytes → Result Error Proxy
new addr user pass = do
  b ← is_abstract addr
  addr' ← (if b then slice_from addr 1 else ok addr)
  ok (record { addr = addr'; user = user; pass = pass; unix = starts_path addr })

abbrev user_of : Proxy → Option User
user_of ss =
    if is_empty ss.user then none else some (record { username = ss.user; password = ss.pass })

-- The part of `Metadata` that the proxy reads.
pub record Metadata : Type 0 where
  pub dst_host : Bytes
  pub dst_ip : Netip.Addr
  pub dst_port : ℕ

-- `utils.SerializeSocksAddr`; nil is no address.
abbrev pub serialize_socks_addr : Metadata → Option Bytes
serialize_socks_addr m = serialize_addr m.dst_host m.dst_ip m.dst_port

abbrev pub or_nil : Option Bytes → Bytes
or_nil none = []
or_nil (some a) = a

abbrev of_socks {ℓ} : {A : Type ℓ} → Result Socks5.Error A → Result Error A
of_socks (ok a) = ok a
of_socks (err e) = err (socks e)
of_socks panic = panic

-- `DialContext` with the connection to the server, if it is made: the result, and whether the
-- connection is closed.
abbrev dialed : Result Socks5.Error Bytes × Conn → Result Error Conn × Bool
dialed (ok a, c) = (ok c, false)
dialed (err e, c) = (err (socks e), true)
dialed (panic, c) = (panic, false)

unfoldable pub dial_context : Proxy → Metadata → Option Conn → Result Error Conn × Bool
dial_context ss m none = (err not_dialed, false)
dial_context ss m (some c) =
    dialed (client_handshake (or_nil (serialize_socks_addr m)) connect (user_of ss) c)

-- The association's address of all zeros.
abbrev target_addr : Bytes
target_addr = atyp_ipv4 ∷ 0 ∷ 0 ∷ 0 ∷ 0 ∷ 0 ∷ 0 ∷ []

-- What the system answers in `DialUDP`: the connection, the packet connection, and the server's address.
pub record System : Type 0 where
  pub dial_tcp : Option Conn
  pub listens : Bool
  pub resolve_ip : Option Bytes
  pub is_unspecified : Bytes → Bool

-- The address that packets are sent to, and what is closed.
pub record UdpDial : Type 0 where
  pub bound : Result Error UdpAddr
  pub closes_tcp : Bool
  pub closes_packet : Bool

abbrev gives_up : Error → Bool → UdpDial
gives_up e packet = record { bound = err e; closes_tcp = true; closes_packet = packet }

abbrev bound_to : UdpAddr → UdpDial
bound_to u = record { bound = ok u; closes_tcp = false; closes_packet = false }

abbrev crashes : UdpDial
crashes = record { bound = panic; closes_tcp = false; closes_packet = false }

abbrev resolved : Option Bytes → UdpAddr → UdpDial
resolved none u = gives_up unresolved true
resolved (some ip) u = bound_to (record u { ip = ip })

abbrev bind : System → Result Socks5.Error (Option UdpAddr) → UdpDial
bind sys (ok none) = gives_up bad_bind true
bind sys (ok (some u)) = if sys.is_unspecified u.ip then resolved sys.resolve_ip u else bound_to u
bind sys (err e) = gives_up (socks e) true
bind sys panic = crashes

abbrev associated : System → Result Socks5.Error Bytes × Conn → UdpDial
associated sys (ok addr, c) =
    if not sys.listens then gives_up listen_failed false else bind sys (udp_addr addr)
associated sys (err e, c) = gives_up (socks e) false
associated sys (panic, c) = crashes

abbrev not_made : Error → UdpDial
not_made e = record { bound = err e; closes_tcp = false; closes_packet = false }

abbrev dial_udp_on : Proxy → System → Option Conn → UdpDial
dial_udp_on ss sys none = not_made not_dialed
dial_udp_on ss sys (some c) =
    associated sys (client_handshake target_addr udp_associate (user_of ss) c)

-- `DialUDP`.
unfoldable pub dial_udp : Proxy → System → UdpDial
dial_udp ss sys = if ss.unix then not_made unix_unsupported else dial_udp_on ss sys sys.dial_tcp

-- `socksPacketConn.WriteTo`: the datagram for the association's address, of a destination as SOCKS5
-- spells it, which may be nil.
unfoldable pub write_to : Bytes → Option Bytes → Result Error Bytes
write_to b addr = of_socks (encode_udp_packet addr b)

-- The buffer behind a read of a datagram into what it held.
abbrev pub overwritten : Bytes → Bytes → Bytes
overwritten d old = take (length old) d ++ drop (length d) old

-- `n - len(addr) - 3`.
abbrev pub count_of : ℕ → ℕ → ℤ
count_of n len = if leb (len + 3) n then pos (n - (len + 3)) else negsuc (len + 3 - n - 1)

abbrev pub Read : Type 0
Read = Result Error (ℤ × UdpAddr) × Bytes

abbrev moved_up : ℕ → Bytes → Bytes → Bytes → Result Socks5.Error (Option UdpAddr) → Read
moved_up n b addr payload (ok none) = (err no_udp_addr, b)
moved_up n b addr payload (ok (some u)) =
    (ok (count_of n (length addr), u), payload ++ drop (length payload) b)
moved_up n b addr payload (err e) = (err (socks e), b)
moved_up n b addr payload panic = (panic, b)

abbrev decoded : ℕ → Bytes → Result Socks5.Error (Bytes × Bytes) → Read
decoded n b (ok (addr, payload)) = moved_up n b addr payload (udp_addr addr)
decoded n b (err e) = (err (socks e), b)
decoded n b panic = (panic, b)

-- `socksPacketConn.ReadFrom` into a buffer that holds `old`: the count and the sender, and the buffer.
-- The whole buffer is decoded, not only what was read.
unfoldable pub read_from : Option Bytes → Bytes → Read
read_from none old = (err read_failed, old)
read_from (some d) old =
    let b = overwritten d old in decoded (min (length d) (length old)) b (decode_udp_packet b)
