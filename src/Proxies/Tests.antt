-- ===== src/Proxies/Tests.antt =====
-- Concrete runs of the proxies.
use tun_flow.Base.{◌≡◌, refl, [], ◌∷◌, ◌++◌, none, some, Bytes, take, ok}
use tun_flow.Base.Text.{codes, cut_at}
use tun_flow.Socks5.Addr.{UdpAddr, udp_addr, encode_udp_packet, valid, ip_and_port, read_word16}
use tun_flow.Socks5.Addr.Format.{ipv4_form}
use tun_flow.Proxies.Shadowsocks.{Url, user_of, read_from, write_to}
use tun_flow.Proxies.Shadowsocks.Packets.{read_from-write_to}

-- 10.0.0.1, port 443.
abbrev server : Bytes
server = 1 ∷ 10 ∷ 0 ∷ 0 ∷ 1 ∷ 1 ∷ 187 ∷ []

abbrev server_udp : UdpAddr
server_udp = record { ip = 10 ∷ 0 ∷ 0 ∷ 1 ∷ []; port = 443 }

server_known : udp_addr server ≡ ok (some server_udp)
unfolding udp_addr valid ip_and_port read_word16
server_known = refl

read_from-write_to_example :
    ((read_from (some 9) (server ++ 7 ∷ 8 ∷ 5 ∷ 5 ∷ [])).0 ≡ ok (2, server_udp))
    × (take 2 (read_from (some 9) (server ++ 7 ∷ 8 ∷ 5 ∷ 5 ∷ [])).1 ≡ 7 ∷ 8 ∷ [])
unfolding write_to encode_udp_packet
read_from-write_to_example =
    read_from-write_to server (7 ∷ 8 ∷ []) (server ++ 7 ∷ 8 ∷ []) (5 ∷ 5 ∷ []) server_udp
      (ipv4_form (10 ∷ 0 ∷ 0 ∷ 1 ∷ 1 ∷ 187 ∷ []) refl) server_known sent
  where
    sent : write_to (7 ∷ 8 ∷ []) (some server) ≡ ok (server ++ 7 ∷ 8 ∷ [])
    sent = refl

-- The method stands before the first colon, and the password may have more of them.
abbrev url : Url
url = record {
  host = codes "h:1";
  user_text = codes "rot13:a:b";
  username = codes "rot13:a:b";
  password = none;
  raw_query = codes "obfs=tls;obfs-host=x=y";
}

user_cut : user_of (λ b. b) url ≡ (codes "rot13", codes "a:b")
unfolding user_of cut_at
user_cut = refl
