-- ===== src/Endpoint/Loopback.antt =====
-- What one endpoint of core/device/iobased/endpoint.go writes, another with the same offset injects.
use tun_flow.Base.{
  ℕ, ◌+◌, ◌-◌, ◌/◌, ◌≤◌, ◌<◌, ◌≡◌, refl, sym, inl, inr, Bool-cases, true, false, List, [], ◌∷◌,
  ◌++◌, Option, none, some, append_assoc, ◌||◌, arith, ltb, leb, ◌==◌, Bytes, length, take,
  replicate, length-append, length-replicate, take_all, take-append, drop-append_of_eq, All, ok,
  slice-ok, slice_from-ok,
}
use tun_flow.Endpoint.{
  Endpoint, Protocol, ipv4, ipv6, another, Packet, Event, failed, got, Error, injected, dispatch,
  dispatch_loop, header, write_packet,
}

-- A packet of another protocol has no version, and is dropped.
abbrev only : Packet → List Packet
only p = elim p.protocol [ ipv4 ↦ p ∷ [] | ipv6 ↦ p ∷ [] | another ↦ [] ]

-- A packet whose first byte has the version of its protocol, and that fits.
abbrev version_of : Protocol → Option ℕ
version_of ipv4 = some 4
version_of ipv6 = some 6
version_of another = none

-- The version that the first byte of a packet has.
abbrev pub first_version : Bytes → Option ℕ
first_version [] = none
first_version (b ∷ bs) = some (b / 16)

-- What the stack's package documents of header.IPVersion: the version of the packet's first byte.
abbrev pub IsVersion : (Bytes → Option ℕ) → Type 0
IsVersion ip_version = (b : ℕ) (bs : Bytes) → ip_version (b ∷ bs) ≡ some (b / 16)

pub record IsIp (e : Endpoint) (p : Packet) : Type 0 where
  pub not_empty : 0 < length p.body
  pub fits : length p.body ≤ e.mtu
  pub version : first_version p.body ≡ version_of p.protocol

length-header : (af offset : ℕ) (p : Protocol) → length (header af offset p) ≡ offset
length-header af offset p = elim (Bool-cases (leb 4 offset)) [
  | inl long ↦ ground (arith, long, length-replicate {0} {A = ℕ} (offset - 4) 0)
  | inr short ↦ ground (arith, short, length-replicate {0} {A = ℕ} offset 0)
]

-- The bytes that are written are some of the length of the offset and the packet.
written :
    (af : ℕ) (e : Endpoint) (p : Packet)
    → (h : Bytes) × (length h ≡ e.offset) × (write_packet af e p ≡ h ++ p.body)
unfolding write_packet
written af e p = elim (Bool-cases (e.offset == 0)) [
  | inl none_before ↦ ([], ground (arith, none_before), rw none_before refl)
  | inr some_before ↦
      (header af e.offset p.protocol, length-header af e.offset p.protocol, rw some_before refl)
]

ip_version-append :
    (ip_version : Bytes → Option ℕ) (b pad : Bytes)
    → IsVersion ip_version
    → 0 < length b
    → ip_version (b ++ pad) ≡ first_version b
ip_version-append ip_version [] pad lawful h = absurd (omega arith)
ip_version-append ip_version (x ∷ b) pad lawful h = lawful x (b ++ pad)

same_packet : (p : Packet) → injected (version_of p.protocol) p.body ≡ only p
same_packet p = by_protocol p.protocol p.body
  where
    by_protocol :
        (q : Protocol) (b : Bytes)
        → injected (version_of q) b ≡ only (record { protocol = q; body = b })
    by_protocol ipv4 b = refl
    by_protocol ipv6 b = refl
    by_protocol another b = refl

module _ (ip_version : Bytes → Option ℕ) (af : ℕ) (e : Endpoint) where
  -- A packet that was written comes in as it was.
  dispatch-write_packet :
      (p : Packet)
      → IsVersion ip_version
      → IsIp e p
      → dispatch ip_version e (length p.body) (write_packet af e p) true ≡ ok (only p)
  unfolding dispatch
  dispatch-write_packet p lawful ip =
      let (h, size, eq) = written af e p in
      let whole = length-append {0} h p.body in
      let not_empty = ip.not_empty in
      let fits = ip.fits in
      let pad : Bytes = replicate (e.offset + e.mtu - length (h ++ p.body)) 0 in
      let full : take (e.offset + e.mtu) (h ++ p.body) ≡ h ++ p.body =
        take_all (e.offset + e.mtu) (h ++ p.body) (omega arith) in
      let shape = append_assoc h p.body pad in
      let long = length-append {0} h (p.body ++ pad) in
      let more = length-append {0} p.body pad in
      let guards : (length p.body == 0 || ltb e.mtu (length p.body)) ≡ false = ground arith in
      let n : e.offset + length p.body - e.offset ≡ length p.body = omega arith in
      rw
        (
          eq,
          full,
          shape,
          slice-ok {E = Error} (h ++ (p.body ++ pad)) e.offset (e.offset + length p.body)
              (omega arith) (omega arith),
          slice_from-ok {E = Error} (h ++ (p.body ++ pad)) e.offset (omega arith),
          drop-append_of_eq {0} e.offset h (p.body ++ pad) (sym size),
          n,
          take-append p.body pad,
          ip_version-append ip_version p.body pad lawful not_empty,
          ip.version,
          same_packet p,
          guards,
        )
        refl

  -- What a device gives back of what was written to it, until it ends.
  abbrev pub looped : List Packet → List Event
  looped [] = failed ∷ []
  looped (p ∷ ps) = got (length p.body) (write_packet af e p) true ∷ looped ps

  only-IsIp : (p : Packet) → IsIp e p → only p ≡ p ∷ []
  only-IsIp p ip = by_protocol p.protocol p.body ip.not_empty ip.version
    where
      by_protocol :
          (q : Protocol) (b : Bytes)
          → 0 < length b
          → first_version b ≡ version_of q
          → only (record { protocol = q; body = b }) ≡ record { protocol = q; body = b } ∷ []
      by_protocol ipv4 b h v = refl
      by_protocol ipv6 b h v = refl
      by_protocol another [] h v = absurd (omega arith)
      by_protocol another (x ∷ b) h v = cc

  -- What goes out comes in. Packets of IPv4 and IPv6, each with its version in its first byte and at
  -- least a byte and at most the MTU long, are sent, written by `writePacket` behind the bytes of the
  -- offset, and read again by an attached endpoint with the same offset and MTU, the device telling the
  -- packet's length without the offset. Where header.IPVersion gives the version of the first byte, `dispatchLoop` injects the same packets in their order, with
  -- no index out of range, and cancels when the device ends.
  pub dispatch_loop-looped :
      (ps : List Packet)
      → IsVersion ip_version
      → All (IsIp e) ps
      → dispatch_loop ip_version e (looped ps) ≡ ok (record { packets = ps; cancelled = true })
  unfolding dispatch_loop
  dispatch_loop-looped [] lawful h = refl
  dispatch_loop-looped (p ∷ ps) lawful h =
      rw (dispatch-write_packet p lawful h.0, only-IsIp p h.0, dispatch_loop-looped ps lawful h.1)
        refl
