-- ===== src/Socks5/Addr/RoundTrip.antt =====
-- Serialized addresses are read back: field by field, and out of a UDP packet.
use tun_flow.Base.{
  subst, ℕ, ◌+◌, ◌<◌, ◌≡◌, refl, sym, ap, ◌∙◌, true, [], ◌∷◌, ◌++◌, Option, none, some, arith,
  Bytes, length, length-append, be_bytes16, ok, slice_from-ok, slice-ok, take-append-drop, take,
  drop, Result-cases, inl, inr, take-append_of_eq, drop-append_of_eq, drop-append, drop_add, ◌-◌,
  be_word16-be_bytes16, ◌↔◌,
}
use tun_flow.Netip.{v4, v6, no_addr, as_slice, is_valid}
use tun_flow.Netip.Laws.{length-as_slice_v4, length-as_slice_v6}
use tun_flow.Netip
use tun_flow.Socks5.{Error}
use tun_flow.Socks5.Addr.Format.{
  split_addr-found, IsAddr-length, domain_form, ipv4_form, ipv6_form, IsAddr-valid,
  serialize_domain, Serializable, IsAddr, split_addr-IsAddr, serialize_addr-IsAddr,
}
use tun_flow.Socks5.Addr.Split.{split_addr-take}
use tun_flow.Socks5.Addr.{
  valid, udp_addr, split_addr, serialize_addr, decode_udp_packet, encode_udp_packet, read_word16,
  with_payload, host_port, HostPort, domain, ip_text, ip_and_port, string_parts,
}

-- The port behind a host of known length.
port_behind :
    (host : Bytes) (n port : ℕ)
    → n ≡ length host
    → port < 65536
    → read_word16 (drop n (host ++ be_bytes16 port)) ≡ ok port
unfolding read_word16
port_behind host n port e h =
    ground (arith, drop-append_of_eq {0} n host (be_bytes16 port) e, be_word16-be_bytes16 port h)

-- The two slices of the branches that read a host of n bytes and a port behind `from` bytes.
module _ (front host : Bytes) (n port : ℕ) (e : n ≡ length host) (h : port < 65536) where
  abbrev whole : Bytes
  whole = front ++ (host ++ be_bytes16 port)

  length-whole : length whole ≡ length front + n + 2
  length-whole = omega (
    arith,
    length-append {0} front (host ++ be_bytes16 port),
    length-append {0} host (be_bytes16 port),
  )

  host_slice : take (length front + n - length front) (drop (length front) whole) ≡ host
  host_slice =
      let size : length front + n - length front ≡ n = omega arith in
      rw (size, drop-append front (host ++ be_bytes16 port))
        (take-append_of_eq n host (be_bytes16 port) e)

  port_slice : read_word16 (drop (length front + n) whole) ≡ ok port
  port_slice =
      rw (drop_add (length front) n whole, drop-append front (host ++ be_bytes16 port))
        (port_behind host n port e h)

  host_port-append :
      (make : Bytes → ℕ → HostPort)
      → host_port whole (length front) n make ≡ ok (some (make host port))
  unfolding host_port
  host_port-append make = ground (
    arith,
    length-whole,
    slice-ok {E = Error} whole (length front) (length front + n),
    slice_from-ok {E = Error} whole (length front + n),
    host_slice,
    port_slice,
  )

decode-packet :
    (a payload : Bytes)
    → IsAddr a
    → decode_udp_packet (0 ∷ 0 ∷ 0 ∷ (a ++ payload)) ≡ ok (a, payload)
unfolding decode_udp_packet with_payload
decode-packet a payload form = ground (
  arith,
  IsAddr-length form,
  length-append {0} a payload,
  split_addr-IsAddr payload form,
  slice_from-ok {E = Error} (0 ∷ 0 ∷ 0 ∷ (a ++ payload)) (3 + length a),
  drop-append {0} a payload,
)

-- What `with_payload` returns of a packet whose address stands at the head of r.
with_payload-inv :
    (x y z : ℕ) (r : Bytes) (o : Option Bytes) {a d : Bytes}
    → with_payload (x ∷ y ∷ z ∷ r) o ≡ ok (a, d)
    → (o ≡ some a) × (d ≡ drop (length a) r)
unfolding with_payload
with_payload-inv x y z r none h = cc
with_payload-inv x y z r (some b) h = ground arith

decode-inv :
    (x y z : ℕ) (r : Bytes) {a d : Bytes}
    → decode_udp_packet (x ∷ y ∷ z ∷ r) ≡ ok (a, d)
    → (x ≡ 0) × (y ≡ 0) × (z ≡ 0) × (split_addr r ≡ ok (some a)) × (d ≡ drop (length a) r)
unfolding decode_udp_packet
decode-inv x y z r {a} {d} h = elim (Result-cases (split_addr r)) [
  | inl (inl (o, e)) ↦ ground (arith, e, with_payload-inv x y z r o {a = a} {d = d})
  | inl (inr (w, e)) ↦ ground (arith, e)
  | inr e ↦ ground (arith, e)
]

decode-packet-inv :
    (p : Bytes) {a d : Bytes}
    → decode_udp_packet p ≡ ok (a, d)
    → IsAddr a × (p ≡ 0 ∷ 0 ∷ 0 ∷ (a ++ d))
decode-packet-inv [] h = absurd (unfold decode_udp_packet in ground arith)
decode-packet-inv (x ∷ []) h = absurd (unfold decode_udp_packet in ground arith)
decode-packet-inv (x ∷ y ∷ []) h = absurd (unfold decode_udp_packet in ground arith)
decode-packet-inv (x ∷ y ∷ z ∷ r) {a} {d} h =
    let (ex, ey, ez, found, ed) = decode-inv x y z r h in
    let r_is : a ++ d ≡ r = rw ed (
      ap (λ t. t ++ drop (length a) r) (split_addr-take r found).0
      ∙ take-append-drop (length a) r) in
    (split_addr-found r found, ground (arith, r_is))

-- Decoding and encoding of UDP packets are inverse: `DecodeUDPPacket` returns the address a and the
-- payload d exactly when a has the form of a SOCKS5 address and `EncodeUDPPacket` makes the packet of
-- a and d.
pub decode_udp_packet_iff :
    (packet a d : Bytes)
    → (decode_udp_packet packet ≡ ok (a, d))
      ↔ (IsAddr a × (encode_udp_packet (some a) d ≡ ok packet))
unfolding encode_udp_packet
decode_udp_packet_iff packet a d = (
  λ h. let (form, e) = decode-packet-inv packet h in (form, ap ok (sym e)),
  λ (form, h).
      let e : 0 ∷ 0 ∷ 0 ∷ (a ++ d) ≡ packet = ground arith in rw (← e) (decode-packet a d form),
)

-- What `Addr.String` and `Addr.UDPAddr` read out of a serialized address.
abbrev Fields : Bytes → Netip.Addr → ℕ → Bytes → Type 0
Fields [] ip port a =
    (string_parts a ≡ ok (some (ip_text (as_slice ip) port)))
    × (udp_addr a ≡ ok (some (record { ip = as_slice ip; port = port })))
Fields (c ∷ name) ip port a =
    (string_parts a ≡ ok (some (domain (c ∷ name) port))) × (udp_addr a ≡ ok none)

fields-domain :
    (n : ℕ) (host : Bytes) (port : ℕ)
    → n ≡ length host
    → port < 65536
    → (string_parts (3 ∷ n ∷ (host ++ be_bytes16 port)) ≡ ok (some (domain host port)))
      × (udp_addr (3 ∷ n ∷ (host ++ be_bytes16 port)) ≡ ok none)
unfolding string_parts udp_addr
fields-domain n host port e h =
    let v = IsAddr-valid (
      domain_form n (host ++ be_bytes16 port)
        (omega (arith, length-append {0} host (be_bytes16 port)))) in
    ground (arith, v, host_port-append (3 ∷ n ∷ []) host n port e h domain)

ip_and_port-append :
    (t n port : ℕ) (host : Bytes)
    → n ≡ length host
    → port < 65536
    → ip_and_port (t ∷ (host ++ be_bytes16 port)) n ≡ ok (some (record { ip = host; port = port }))
unfolding ip_and_port
ip_and_port-append t n port host e h = ground (
  arith,
  length-whole (t ∷ []) host n port e h,
  slice-ok {E = Error} (t ∷ (host ++ be_bytes16 port)) 1 (1 + n),
  slice_from-ok {E = Error} (t ∷ (host ++ be_bytes16 port)) (1 + n),
  host_slice (t ∷ []) host n port e h,
  port_slice (t ∷ []) host n port e h,
)

Fields-v4 :
    (n port : ℕ) → port < 65536 → Fields [] (v4 n) port (1 ∷ (as_slice (v4 n) ++ be_bytes16 port))
unfolding string_parts udp_addr
Fields-v4 n port h =
    let size = sym (length-as_slice_v4 n) in
    let host = as_slice (v4 n) in
    ground (
      arith,
      IsAddr-valid (
          ipv4_form (host ++ be_bytes16 port)
            (omega (arith, length-append {0} host (be_bytes16 port), size))),
      host_port-append (1 ∷ []) host 4 port size h ip_text,
      ip_and_port-append 1 4 port host size h,
    )

Fields-v6 :
    (n port : ℕ) → port < 65536 → Fields [] (v6 n) port (4 ∷ (as_slice (v6 n) ++ be_bytes16 port))
unfolding string_parts udp_addr
Fields-v6 n port h =
    let size = sym (length-as_slice_v6 n) in
    let host = as_slice (v6 n) in
    ground (
      arith,
      IsAddr-valid (
          ipv6_form (host ++ be_bytes16 port)
            (omega (arith, length-append {0} host (be_bytes16 port), size))),
      host_port-append (4 ∷ []) host 16 port size h ip_text,
      ip_and_port-append 4 16 port host size h,
    )

-- The fields come back: from what `SerializeAddr` writes, `Addr.String` reads the domain name or the
-- IP's bytes, and the port; `Addr.UDPAddr` reads the IP's bytes and the port, and is nil for a domain.
-- The arguments are a domain name or a valid IP, and a port below 65536.
pub Fields-serialize_addr :
    (name : Bytes) (ip : Netip.Addr) (port : ℕ) {a : Bytes}
    → Serializable name ip
    → port < 65536
    → serialize_addr name ip port ≡ some a
    → Fields name ip port a
Fields-serialize_addr (c ∷ name) ip port s h e =
    let (small, ea) = serialize_domain c name ip port e in
    rw ea (fields-domain (length (c ∷ name)) (c ∷ name) port refl h)
Fields-serialize_addr [] no_addr port (inl s) h e = absurd (s refl)
Fields-serialize_addr [] no_addr port (inr s) h e = cc
Fields-serialize_addr [] (v4 n) port {a} s h e =
    let ea : 1 ∷ (as_slice (v4 n) ++ be_bytes16 port) ≡ a = unfold serialize_addr in ground arith in
    subst (Fields [] (v4 n) port) ea (Fields-v4 n port h)
Fields-serialize_addr [] (v6 n) port {a} s h e =
    let ea : 4 ∷ (as_slice (v6 n) ++ be_bytes16 port) ≡ a = unfold serialize_addr in ground arith in
    subst (Fields [] (v6 n) port) ea (Fields-v6 n port h)

-- An address that `SerializeAddr` writes for a domain name or a valid IP passes `Addr.Valid`, and
-- `SplitAddr` finds it whatever bytes follow it.
pub split_addr-serialize_addr :
    (name : Bytes) (ip : Netip.Addr) (port : ℕ) (rest : Bytes) {a : Bytes}
    → Serializable name ip
    → serialize_addr name ip port ≡ some a
    → (valid a ≡ ok true) × (split_addr (a ++ rest) ≡ ok (some a))
split_addr-serialize_addr name ip port rest s e =
    let form = serialize_addr-IsAddr name ip port s e in
    (IsAddr-valid form, split_addr-IsAddr rest form)
