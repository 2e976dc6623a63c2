-- ===== src/Socks4.antt =====
-- transport/socks4/socks4.go: the handshake of the SOCKS4 and SOCKS4A client.
pub mod Laws
mod Tests
use tun_flow.Base.{
  ℕ, ◌+◌, Bool, true, false, not, ◌&&◌, List, [], ◌∷◌, ◌++◌, Option, none, some, ltb, ◌==◌,
  if◌then◌else◌, Bytes, be_bytes16, Result, ok, err, panic, index,
}
use tun_flow.Base.Net.{IoError, Net, ◌>>=◌, ◌>>◌, return, fail, refuse_if, lift, read_full, write}
use tun_flow.Netip.{Addr, no_addr, v4, v6, is_4_in_6, unmap, as_slice}

abbrev pub version : ℕ
version = 0x04

abbrev pub cmd_connect : ℕ
cmd_connect = 0x01

abbrev pub cmd_bind : ℕ
cmd_bind = 0x02

abbrev pub request_granted : ℕ
request_granted = 90

abbrev pub request_rejected : ℕ
request_rejected = 91

abbrev pub request_identd_failed : ℕ
request_identd_failed = 92

abbrev pub request_identd_mismatched : ℕ
request_identd_mismatched = 93

pub data Error : Type 0 where
  version_mismatched ipv6_not_supported cmd_not_supported bad_host_port : Error
  rejected identd_failed identd_mismatched unknown_code : Error
  io : IoError → Error

-- The switch on the parsed host; an address that is not valid stands for a host name.
unfoldable pub destination : Addr → Result Error Addr
destination no_addr = ok (v4 1)
destination (v4 n) = ok (v4 n)
destination (v6 n) = if is_4_in_6 (v6 n) then ok (unmap (v6 n)) else err ipv6_not_supported

-- `isReservedIP`: 0.0.0.x with x not zero.
unfoldable pub is_reserved_ip : Addr → Bool
is_reserved_ip (v4 n) = not (n == 0) && ltb n 256
is_reserved_ip _ = false

-- The name that SOCKS4A adds.
abbrev pub host_field : Addr → Bytes → Bytes
host_field ip host = if is_reserved_ip ip then host ++ 0 ∷ [] else []

abbrev pub request : ℕ → ℕ → Addr → Bytes → Bytes → Bytes
request command port ip user host =
    version ∷ command ∷ (be_bytes16 port ++ as_slice ip ++ user ++ 0 ∷ host_field ip host)

-- The switch on the reply's code.
unfoldable pub outcome : ℕ → Result Error (Unit {0})
outcome code =
    if code == request_granted
    then ok tt
    else if code == request_rejected
    then err rejected
    else if code == request_identd_failed
    then err identd_failed
    else if code == request_identd_mismatched
    then err identd_mismatched
    else err unknown_code

abbrev or_bad : Option (Bytes × ℕ) → Result Error (Bytes × ℕ)
or_bad none = err bad_host_port
or_bad (some p) = ok p

abbrev host_of : Bytes × ℕ → Bytes
host_of (host, port) = host

abbrev port_of : Bytes × ℕ → ℕ
port_of (host, port) = port

-- `ClientHandshake`, where `split_host_port` is net.SplitHostPort and strconv.ParseUint and
-- `parse_addr` is netip.ParseAddr.
unfoldable pub client_handshake :
    (split_host_port : Bytes → Option (Bytes × ℕ)) (parse_addr : Bytes → Addr)
    → Bytes
    → ℕ
    → Bytes
    → Net Error (Unit {0})
client_handshake split_host_port parse_addr addr command user = do
  refuse_if (command == cmd_bind) cmd_not_supported
  target ← lift (or_bad (split_host_port addr))
  ip ← lift (destination (parse_addr (host_of target)))
  write io (request command (port_of target) ip user (host_of target))
  reply ← read_full io 8
  first ← lift (index reply 0)
  refuse_if (not (first == 0)) version_mismatched
  code ← lift (index reply 1)
  lift (outcome code)
