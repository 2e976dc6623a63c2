-- ===== src/SocksProxy/Datagrams.antt =====
-- What `New` and `socksPacketConn.ReadFrom` of proxy/socks5/socks5.go return.
use tun_flow.Base.{
  ℕ, ◌+◌, ◌-◌, ◌≤◌, ◌<◌, ◌≡◌, refl, sym, ap, ◌∙◌, ◌↔◌, ℤ, pos, negsuc, [], ◌∷◌, ◌++◌, append_assoc,
  some, arith, Bytes, length, take, drop, ok, panic, length-append, take_all, take-append, min,
}
use tun_flow.Socks5.Addr.{UdpAddr, udp_addr, encode_udp_packet}
use tun_flow.Socks5.Addr.Format.{IsAddr}
use tun_flow.Socks5.Addr.RoundTrip.{decode_udp_packet_iff}
use tun_flow.SocksProxy.{new, read_from, overwritten, count_of}

-- `New` panics exactly for an address of fewer than two bytes.
pub new-panic_iff : (addr user pass : Bytes) → (new addr user pass ≡ panic) ↔ (length addr < 2)
unfolding new
new-panic_iff [] user pass = (λ h. omega arith, λ h. refl)
new-panic_iff (x ∷ []) user pass = (λ h. omega arith, λ h. refl)
new-panic_iff (x ∷ y ∷ zs) user pass = ground arith

module _ (d old a rest : Bytes) (u : UdpAddr) (form : IsAddr a) (known : udp_addr a ≡ ok (some u))
    (held : overwritten d old ≡ 0 ∷ 0 ∷ 0 ∷ (a ++ rest)) where
  read_from-eq : read_from (some d) old ≡ (
    ok (count_of (min (length d) (length old)) (length a), u),
    rest ++ drop (length rest) (overwritten d old),
  )
  unfolding read_from encode_udp_packet
  read_from-eq =
      let e = (decode_udp_packet_iff (overwritten d old) a rest).1 (form, ap ok (sym held)) in
      rw (e, known) refl

  -- What a datagram shorter than the header and the address that the buffer then decodes to gives: a
  -- negative count, with no error. The missing bytes are those that the buffer held before.
  pub read_from-short :
      length d < length a + 3 → (n : ℕ) × ((read_from (some d) old).0 ≡ ok (negsuc n, u))
  read_from-short short = (
    length a + 3 - min (length d) (length old) - 1,
    ap (λ r. r.0) read_from-eq ∙ ap (λ (z : ℤ). ok (z, u)) negative,
  )
    where
      negative :
          count_of (min (length d) (length old)) (length a)
          ≡ negsuc (length a + 3 - min (length d) (length old) - 1)
      negative = ground arith

count_whole : (n m la lp : ℕ) → n ≡ la + 3 + lp → n ≤ m → count_of (min n m) la ≡ pos lp
count_whole n m la lp e h =
    let whole : min n m ≡ la + 3 + lp = omega arith in rw whole (ground arith)

-- A datagram that `EncodeUDPPacket` made of an address in the form of SOCKS5 that has a UDPAddr and of a
-- payload, and that fits into the buffer, gives the payload's length as the count and the address, and
-- the buffer begins with the payload.
pub read_from-encode :
    (d old a p : Bytes) (u : UdpAddr)
    → IsAddr a
    → udp_addr a ≡ ok (some u)
    → encode_udp_packet (some a) p ≡ ok d
    → length d ≤ length old
    → ((read_from (some d) old).0 ≡ ok (pos (length p), u))
      × (take (length p) (read_from (some d) old).1 ≡ p)
unfolding encode_udp_packet
read_from-encode d old a p u form known made fits =
    let e : d ≡ 0 ∷ 0 ∷ 0 ∷ (a ++ p) = ground arith in
    let tail = drop (length d) old in
    let held : overwritten d old ≡ 0 ∷ 0 ∷ 0 ∷ (a ++ (p ++ tail)) =
      ap (λ z. z ++ tail) (take_all (length old) d fits ∙ e)
      ∙ ap (λ z. 0 ∷ 0 ∷ 0 ∷ z) (append_assoc a p tail) in
    let r = read_from-eq d old a (p ++ tail) u form known held in
    let size = ap length e in
    let parts = length-append {0} a p in
    let count : count_of (min (length d) (length old)) (length a) ≡ pos (length p) =
      count_whole (length d) (length old) (length a) (length p) (omega arith) fits in
    let behind = drop (length (p ++ tail)) (overwritten d old) in
    (
      ap (λ x. x.0) r ∙ ap (λ (z : ℤ). ok (z, u)) count,
      ap (λ x. take (length p) x.1) r
          ∙ ap (take (length p)) (append_assoc p tail behind)
          ∙ take-append p (tail ++ behind),
    )
