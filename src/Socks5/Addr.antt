-- ===== src/Socks5/Addr.antt =====
-- The SOCKS5 address: its validity test, its conversions, and its place at the head of a packet.
mod Split
pub mod Format
pub mod Bounds
pub mod RoundTrip
use tun_flow.Base.{
  ℕ, ◌+◌, Bool, true, false, not, ◌&&◌, List, [], ◌∷◌, ◌++◌, Option, none, some, ltb, ◌==◌,
  if◌then◌else◌, Bytes, length, drop, is_empty, be_bytes16, be_word16, Result, ok, err, panic,
  ◌>>=◌, index, slice, slice_from, ◌%◌,
}
use tun_flow.Netip.{as_slice, is_4}
use tun_flow.Netip
use tun_flow.Socks5.{
  Error, atyp_ipv4, atyp_domain_name, atyp_ipv6, ipv4_len, ipv6_len, insufficient_length,
  reserved_not_zero, fragmented, addr_is_nil, invalid_address,
}

-- `Addr.Valid`.
unfoldable pub valid : Bytes → Result Error Bool
valid a = if ltb (length a) (1 + 1 + 2) then ok false else do
  t ← index a 0
  if t == atyp_domain_name
      then (do n ← index a 1; ok (not (ltb (length a) (1 + 1 + n + 2))))
      else if t == atyp_ipv4
      then ok (not (ltb (length a) (1 + ipv4_len + 2)))
      else if t == atyp_ipv6
      then ok (not (ltb (length a) (1 + ipv6_len + 2)))
      else ok false

-- binary.BigEndian.Uint16, which panics on fewer than two bytes.
unfoldable pub read_word16 : Bytes → Result Error ℕ
read_word16 b = do lo ← index b 1; hi ← index b 0; ok (be_word16 hi lo)

-- net.UDPAddr.
pub record UdpAddr : Type 0 where
  pub ip : Bytes
  pub port : ℕ

-- The branch of `Addr.UDPAddr` for an IP of n bytes.
unfoldable pub ip_and_port : Bytes → ℕ → Result Error (Option UdpAddr)
ip_and_port a n = do
  ip ← slice a 1 (1 + n)
  rest ← slice_from a (1 + n)
  port ← read_word16 rest
  ok (some (record { ip = ip; port = port }))

-- `Addr.UDPAddr`; none is nil.
unfoldable pub udp_addr : Bytes → Result Error (Option UdpAddr)
udp_addr a = do
  v ← valid a
  if not v then ok none else do
    t ← index a 0
    if t == atyp_domain_name
        then ok none
        else if t == atyp_ipv4
        then ip_and_port a ipv4_len
        else ip_and_port a ipv6_len

-- The host and port bytes that `Addr.String` formats.
pub data HostPort : Type 0 where
  domain ip_text : Bytes → ℕ → HostPort

unfoldable pub host_port : Bytes → ℕ → ℕ → (Bytes → ℕ → HostPort) → Result Error (Option HostPort)
host_port a from n make = do
  host ← slice a from (from + n)
  rest ← slice_from a (from + n)
  port ← read_word16 rest
  ok (some (make host port))

-- `Addr.String` up to the formatting of the address and the port; none is the empty string.
unfoldable pub string_parts : Bytes → Result Error (Option HostPort)
string_parts a = do
  v ← valid a
  if not v then ok none else do
    t ← index a 0
    if t == atyp_domain_name
        then (do n ← index a 1; host_port a 2 n domain)
        else if t == atyp_ipv4
        then host_port a 1 ipv4_len ip_text
        else host_port a 1 ipv6_len ip_text

-- The switch of `SplitAddr`: the length of the address, none where it returns nil.
unfoldable pub addr_len : Bytes → Result Error (Option ℕ)
addr_len b = do
  t ← index b 0
  if t == atyp_domain_name
      then if ltb (length b) 2 then ok none else (do n ← index b 1; ok (some (1 + 1 + n + 2)))
      else if t == atyp_ipv4
      then ok (some (1 + ipv4_len + 2))
      else if t == atyp_ipv6
      then ok (some (1 + ipv6_len + 2))
      else ok none

-- The check and the slice at the end of `SplitAddr`.
unfoldable pub cut : Bytes → Option ℕ → Result Error (Option Bytes)
cut b none = ok none
cut b (some n) = if ltb (length b) n then ok none else (do a ← slice b 0 n; ok (some a))

-- `SplitAddr`; none is nil.
unfoldable pub split_addr : Bytes → Result Error (Option Bytes)
split_addr b = if ltb (length b) 1 then ok none else (do n ← addr_len b; cut b n)

-- `SerializeAddr`; none is nil.
unfoldable pub serialize_addr : Bytes → Netip.Addr → ℕ → Option Bytes
serialize_addr domain_name dst_ip dst_port =
    if not (is_empty domain_name)
    then if ltb 255 (length domain_name)
      then none
      else some (atyp_domain_name ∷ length domain_name % 256 ∷ (domain_name ++ be_bytes16 dst_port))
    else if is_4 dst_ip
    then some (atyp_ipv4 ∷ (as_slice dst_ip ++ be_bytes16 dst_port))
    else some (atyp_ipv6 ∷ (as_slice dst_ip ++ be_bytes16 dst_port))

-- The end of `DecodeUDPPacket`: the address, and the payload behind it.
unfoldable pub with_payload : Bytes → Option Bytes → Result Error (Bytes × Bytes)
with_payload packet none = err addr_is_nil
with_payload packet (some a) = do payload ← slice_from packet (3 + length a); ok (a, payload)

-- `DecodeUDPPacket`.
unfoldable pub decode_udp_packet : Bytes → Result Error (Bytes × Bytes)
decode_udp_packet packet = if ltb (length packet) 5 then err insufficient_length else do
  r0 ← index packet 0
  r1 ← index packet 1
  if not (r0 == 0 && r1 == 0) then err reserved_not_zero else do
    frag ← index packet 2
    if not (frag == 0)
        then err fragmented
        else do rest ← slice_from packet 3; addr ← split_addr rest; with_payload packet addr

-- `EncodeUDPPacket`, of an address that may be nil.
unfoldable pub encode_udp_packet : Option Bytes → Bytes → Result Error Bytes
encode_udp_packet none payload = err invalid_address
encode_udp_packet (some a) payload = ok (0 ∷ 0 ∷ 0 ∷ (a ++ payload))
