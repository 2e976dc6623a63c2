-- ===== src/Proxies/Shadowsocks/Packets.antt =====
-- The packets of proxy/shadowsocks/shadowsocks.go come back.
use tun_flow.Base.{
  ◌-◌, ◌≡◌, refl, ap, subst, ◌∙◌, ◌++◌, append_assoc, some, arith, Bytes, length, take, drop, ok,
  length-append, take-append, drop-append,
}
use tun_flow.Socks5.Addr.{UdpAddr, udp_addr, encode_udp_packet}
use tun_flow.Socks5.Addr.Format.{IsAddr, split_addr_iff}
use tun_flow.Proxies.Shadowsocks.{write_to, read_from}

-- What is sent is the address and the payload behind it.
write_to-eq : (b a : Bytes) → write_to b (some a) ≡ ok (a ++ b)
unfolding write_to encode_udp_packet
write_to-eq b a = ground arith

module _ (a p tail : Bytes) (u : UdpAddr) (form : IsAddr a) (known : udp_addr a ≡ ok (some u)) where
  abbrev held : Bytes
  held = (a ++ p) ++ tail

  read_from-held : read_from (some (length (a ++ p))) held ≡ (
    ok (length (a ++ p) - length a, u),
    drop (length a) held ++ drop (length held - length a) held,
  )
  unfolding read_from
  read_from-held =
      rw (take-append (a ++ p) tail, (split_addr_iff (a ++ p) a).1 (form, (p, refl)), known) refl

-- The packet that `WriteTo` makes of an address in the form of SOCKS5 that has a UDPAddr and of a
-- payload, read into a buffer of any length that holds it and whatever the buffer has behind it: the
-- count is the payload's length, the sender is the address, and the buffer begins with the payload.
pub read_from-write_to :
    (a p d tail : Bytes) (u : UdpAddr)
    → IsAddr a
    → udp_addr a ≡ ok (some u)
    → write_to p (some a) ≡ ok d
    → ((read_from (some (length d)) (d ++ tail)).0 ≡ ok (length p, u))
      × (take (length p) (read_from (some (length d)) (d ++ tail)).1 ≡ p)
read_from-write_to a p d tail u form known sent =
    let e : a ++ p ≡ d = cc (sent, write_to-eq p a) in
    let r = read_from-held a p tail u form known in
    let moved = ap (drop (length a)) (append_assoc a p tail) ∙ drop-append a (p ++ tail) in
    let behind = drop (length ((a ++ p) ++ tail) - length a) ((a ++ p) ++ tail) in
    let count : length (a ++ p) - length a ≡ length p = omega (arith, length-append {0} a p) in
    subst
      (λ z.
        ((read_from (some (length z)) (z ++ tail)).0 ≡ ok (length p, u))
        × (take (length p) (read_from (some (length z)) (z ++ tail)).1 ≡ p))
      e
      (
        ap (λ x. x.0) r ∙ ap (λ n. ok (n, u)) count,
        ap (λ x. take (length p) x.1) r
            ∙ ap (λ z. take (length p) (z ++ behind)) moved
            ∙ ap (take (length p)) (append_assoc p tail behind)
            ∙ take-append p (tail ++ behind),
      )
