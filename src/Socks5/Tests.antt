-- ===== src/Socks5/Tests.antt =====
-- Concrete runs of the SOCKS5 client.
use tun_flow.Base.{◌≡◌, refl, ◌≢◌, [], ◌∷◌, ◌++◌, none, some, arith, Bytes, ok, err, panic, ◌↔◌}
use tun_flow.Base.Net.{Conn, write, read_full}
use tun_flow.Base.Net.Steps.{Ends, AllBytes}
use tun_flow.Socks5.{User, connect, version_mismatched}
use tun_flow.Socks5.Addr.{
  valid, split_addr, decode_udp_packet, encode_udp_packet, udp_addr, string_parts,
}
use tun_flow.Socks5.Addr.Format.{IsAddr, ipv4_form, domain_form, split_addr_iff}
use tun_flow.Socks5.Addr.RoundTrip.{decode_udp_packet_iff}
use tun_flow.Socks5.Addr.Bounds.{addr-ne-panic}
use tun_flow.Socks5.Handshake.{
  client_handshake, negotiate, authenticate, request, greeting, auth_message,
}
use tun_flow.Socks5.Handshake.Traffic.{Transcript, Fits, client_handshake-Ends}
use tun_flow.Socks5.Handshake.Success.{user_pass, client_handshake-granted}

-- 10.0.0.1, port 443.
abbrev gateway : Bytes
gateway = 1 ∷ 10 ∷ 0 ∷ 0 ∷ 1 ∷ 1 ∷ 187 ∷ []

-- The domain name "a.b", port 80.
abbrev site : Bytes
site = 3 ∷ 3 ∷ 97 ∷ 46 ∷ 98 ∷ 0 ∷ 80 ∷ []

abbrev site_name : Bytes
site_name = 97 ∷ 46 ∷ 98 ∷ []

abbrev root : User
root = record { username = 114 ∷ []; password = 119 ∷ 119 ∷ [] }

root-Fits : Fits root
root-Fits = record {
  name_pos = omega arith;
  name_le = omega arith;
  pass_pos = omega arith;
  pass_le = omega arith;
}

-- A server that asks for a password, accepts it, and grants the request.
abbrev friendly : Conn
friendly = record {
  input = 5 ∷ 2 ∷ 1 ∷ 0 ∷ 5 ∷ 0 ∷ 0 ∷ (gateway ++ 42 ∷ []);
  arrivals = [];
  writes_left = 3;
  output = [];
}

split_addr_iff_example :
    (split_addr (gateway ++ 7 ∷ []) ≡ ok (some gateway))
    ↔ (IsAddr gateway × ((rest : Bytes) × (gateway ++ 7 ∷ [] ≡ gateway ++ rest)))
split_addr_iff_example = split_addr_iff (gateway ++ 7 ∷ []) gateway

decode_udp_packet_iff_example :
    (decode_udp_packet (0 ∷ 0 ∷ 0 ∷ (site ++ 7 ∷ [])) ≡ ok (site, 7 ∷ []))
    ↔ (IsAddr site × (encode_udp_packet (some site) (7 ∷ []) ≡ ok (0 ∷ 0 ∷ 0 ∷ (site ++ 7 ∷ []))))
decode_udp_packet_iff_example = decode_udp_packet_iff (0 ∷ 0 ∷ 0 ∷ (site ++ 7 ∷ [])) site (7 ∷ [])

addr-ne-panic_example :
    (valid (3 ∷ 200 ∷ []) ≢ panic)
    × (udp_addr (3 ∷ 200 ∷ []) ≢ panic)
    × (string_parts (3 ∷ 200 ∷ []) ≢ panic)
    × (split_addr (3 ∷ 200 ∷ []) ≢ panic)
    × (decode_udp_packet (3 ∷ 200 ∷ []) ≢ panic)
addr-ne-panic_example = addr-ne-panic (3 ∷ 200 ∷ [])

friendly-bytes : AllBytes friendly.input
friendly-bytes = ground arith

client_handshake-Ends_example :
    Ends
      (Transcript site connect (some root))
      (λ b s. IsAddr b × ((front : Bytes) × (s ≡ front ++ request connect site)))
      []
      (client_handshake site connect (some root) friendly)
client_handshake-Ends_example =
    client_handshake-Ends site connect (some root) friendly friendly-bytes

gateway-IsAddr : IsAddr gateway
gateway-IsAddr = ipv4_form (10 ∷ 0 ∷ 0 ∷ 1 ∷ 1 ∷ 187 ∷ []) refl

site-IsAddr : IsAddr site
site-IsAddr = domain_form 3 (97 ∷ 46 ∷ 98 ∷ 0 ∷ 80 ∷ []) refl

client_handshake-granted_example : client_handshake site connect (some root) friendly ≡ (
  ok gateway,
  record friendly {
    input = 42 ∷ [];
    writes_left = 0;
    output = (greeting (some root) ++ auth_message root) ++ request connect site;
  },
)
client_handshake-granted_example =
    client_handshake-granted site connect (some root) {bound = gateway} (42 ∷ []) 0 0 friendly
      site-IsAddr (user_pass root 1 refl root-Fits refl refl refl) gateway-IsAddr (ground arith)
      refl refl

-- A SOCKS4 reply ends the handshake behind the greeting.
wrong_version : client_handshake site connect none (record friendly { input = 0 ∷ 90 ∷ [] }) ≡ (
  err version_mismatched,
  record friendly { input = []; writes_left = 2; output = 5 ∷ 1 ∷ 0 ∷ [] },
)
unfolding client_handshake negotiate valid write read_full authenticate
wrong_version = refl
