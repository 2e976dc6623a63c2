-- ===== src/SocksProxy/Tests.antt =====
-- Concrete runs of the SOCKS5 proxy.
use tun_flow.Base.{
  ℕ, ◌≡◌, refl, pos, negsuc, [], ◌∷◌, ◌++◌, some, arith, Bytes, take, replicate, ok,
}
use tun_flow.Socks5.Addr.{UdpAddr, udp_addr, encode_udp_packet}
use tun_flow.Socks5.Addr.Format.{IsAddr, ipv4_form}
use tun_flow.SocksProxy.{read_from}
use tun_flow.SocksProxy.Datagrams.{read_from-short, read_from-encode}

-- 10.0.0.1, port 443.
abbrev sender : Bytes
sender = 1 ∷ 10 ∷ 0 ∷ 0 ∷ 1 ∷ 1 ∷ 187 ∷ []

sender-IsAddr : IsAddr sender
sender-IsAddr = ipv4_form (10 ∷ 0 ∷ 0 ∷ 1 ∷ 1 ∷ 187 ∷ []) refl

abbrev sender_udp : UdpAddr
sender_udp = record { ip = 10 ∷ 0 ∷ 0 ∷ 1 ∷ []; port = 443 }

sender_known : udp_addr sender ≡ ok (some sender_udp)
unfolding udp_addr tun_flow.Socks5.Addr.valid tun_flow.Socks5.Addr.ip_and_port
    tun_flow.Socks5.Addr.read_word16
sender_known = refl

abbrev packet : Bytes
packet = 0 ∷ 0 ∷ 0 ∷ (sender ++ 7 ∷ [])

packet_encoded : encode_udp_packet (some sender) (7 ∷ []) ≡ ok packet
unfolding encode_udp_packet
packet_encoded = refl

read_from-encode_example :
    ((read_from (some packet) (replicate 20 0)).0 ≡ ok (pos 1, sender_udp))
    × (take 1 (read_from (some packet) (replicate 20 0)).1 ≡ 7 ∷ [])
read_from-encode_example =
    read_from-encode packet (replicate 20 0) sender (7 ∷ []) sender_udp sender-IsAddr sender_known
      packet_encoded (omega arith)

-- Two bytes over a buffer that still holds a whole packet.
read_from-short_example :
    (n : ℕ) × ((read_from (some (0 ∷ 0 ∷ [])) packet).0 ≡ ok (negsuc n, sender_udp))
read_from-short_example =
    read_from-short (0 ∷ 0 ∷ []) packet sender (7 ∷ []) sender_udp sender-IsAddr sender_known refl
      (omega arith)
