-- ===== src/Socks5/Addr/Bounds.antt =====
-- No index and no slice of the address code of transport/socks5/socks5.go leaves its bytes.
use tun_flow.Base.{
  ℕ, ◌+◌, ◌≤◌, ◌≡◌, ◌≢◌, refl, inl, inr, [], ◌∷◌, Option, none, some, Result-cases, arith, Bytes,
  length, drop, length-drop, ok, panic, slice-ok, slice_from-ok,
}
use tun_flow.Socks5.{Error}
use tun_flow.Socks5.Addr.Split.{split_addr-ne-panic, split_addr-take}
use tun_flow.Socks5.Addr.{
  valid, udp_addr, string_parts, split_addr, decode_udp_packet, HostPort, domain, ip_text,
  host_port, ip_and_port, read_word16, with_payload,
}

pub valid-ne-panic : (a : Bytes) → valid a ≢ panic
unfolding valid
valid-ne-panic [] = ground arith
valid-ne-panic (x ∷ []) = ground arith
valid-ne-panic (x ∷ y ∷ r) = ground arith

read_word16-ok : (b : Bytes) → 2 ≤ length b → (n : ℕ) × (read_word16 b ≡ ok n)
unfolding read_word16
read_word16-ok [] h = absurd (omega arith)
read_word16-ok (x ∷ []) h = absurd (omega arith)
read_word16-ok (x ∷ y ∷ r) h = (_, refl)

-- A port stands behind the first n bytes.
port_behind :
    (a : Bytes) (n : ℕ) → n + 2 ≤ length a → (port : ℕ) × (read_word16 (drop n a) ≡ ok port)
port_behind a n h = read_word16-ok (drop n a) (omega (arith, length-drop {0} n a))

ip_and_port-ne-panic : (a : Bytes) (n : ℕ) → 1 + n + 2 ≤ length a → ip_and_port a n ≢ panic
unfolding ip_and_port
ip_and_port-ne-panic a n h =
    let (port, read) = port_behind a (1 + n) (omega arith) in
    ground (arith, slice-ok {E = Error} a 1 (1 + n), slice_from-ok {E = Error} a (1 + n), read)

host_port-ne-panic :
    (a : Bytes) (from n : ℕ) (make : Bytes → ℕ → HostPort)
    → from + n + 2 ≤ length a
    → host_port a from n make ≢ panic
unfolding host_port
host_port-ne-panic a from n make h =
    let (port, read) = port_behind a (from + n) (omega arith) in
    ground
      (arith, slice-ok {E = Error} a from (from + n), slice_from-ok {E = Error} a (from + n), read)

udp_addr-ne-panic : (a : Bytes) → udp_addr a ≢ panic
unfolding udp_addr valid
udp_addr-ne-panic [] = ground arith
udp_addr-ne-panic (x ∷ []) = ground arith
udp_addr-ne-panic (x ∷ y ∷ r) =
    ground (arith, ip_and_port-ne-panic (x ∷ y ∷ r) 4, ip_and_port-ne-panic (x ∷ y ∷ r) 16)

string_parts-ne-panic : (a : Bytes) → string_parts a ≢ panic
unfolding string_parts valid
string_parts-ne-panic [] = ground arith
string_parts-ne-panic (x ∷ []) = ground arith
string_parts-ne-panic (x ∷ y ∷ r) = ground (
  arith,
  host_port-ne-panic (x ∷ y ∷ r) 2 y domain,
  host_port-ne-panic (x ∷ y ∷ r) 1 4 ip_text,
  host_port-ne-panic (x ∷ y ∷ r) 1 16 ip_text,
)

with_payload-ne-panic :
    (p r : Bytes)
    → length p ≡ 3 + length r
    → (o : Option Bytes) → split_addr r ≡ ok o
    → with_payload p o ≢ panic
unfolding with_payload
with_payload-ne-panic p r size none e = ground arith
with_payload-ne-panic p r size (some a) e =
    ground (arith, split_addr-take r e, slice_from-ok {E = Error} p (3 + length a))

decode_udp_packet-ne-panic : (p : Bytes) → decode_udp_packet p ≢ panic
unfolding decode_udp_packet
decode_udp_packet-ne-panic (x ∷ y ∷ z ∷ r) = elim (Result-cases (split_addr r)) [
  | inl (inl (o, e)) ↦ ground (arith, e, with_payload-ne-panic (x ∷ y ∷ z ∷ r) r (omega arith) o e)
  | inl (inr (w, e)) ↦ ground (arith, e)
  | inr e ↦ absurd (split_addr-ne-panic r e)
]
decode_udp_packet-ne-panic _ = ground arith

-- No index and no slice of the address code leaves its bytes: `Addr.Valid`, `Addr.UDPAddr`,
-- `Addr.String`, `SplitAddr` and `DecodeUDPPacket` return on every input without a run-time panic.
pub addr-ne-panic :
    (b : Bytes)
    → (valid b ≢ panic)
      × (udp_addr b ≢ panic)
      × (string_parts b ≢ panic)
      × (split_addr b ≢ panic)
      × (decode_udp_packet b ≢ panic)
addr-ne-panic b = (
  valid-ne-panic b,
  udp_addr-ne-panic b,
  string_parts-ne-panic b,
  split_addr-ne-panic b,
  decode_udp_packet-ne-panic b,
)
