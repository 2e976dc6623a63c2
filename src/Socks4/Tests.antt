-- ===== src/Socks4/Tests.antt =====
-- Concrete runs of the SOCKS4 client.
use tun_flow.Base.{ℕ, ◌≡◌, ◌↔◌, refl, [], ◌∷◌, Option, some, arith, Bytes, ok}
use tun_flow.Base.Net.{Conn}
use tun_flow.Netip.{Addr, no_addr, v4}
use tun_flow.Socks4.{destination, request, client_handshake}
use tun_flow.Socks4.Laws.{verdict, client_handshake-verdict}

abbrev first_byte : ℕ
first_byte = 0

abbrev code_byte : ℕ
code_byte = 90

-- A server that grants the request.
abbrev granting : Conn
granting = record {
  input = 0 ∷ 90 ∷ 1 ∷ 2 ∷ 3 ∷ 4 ∷ 5 ∷ 6 ∷ 7 ∷ [];
  arrivals = [];
  writes_left = 1;
  output = [];
}

abbrev name_80 : Bytes → Option (Bytes × ℕ)
name_80 s = some (s, 80)

abbrev no_ip : Bytes → Addr
no_ip s = no_addr

client_handshake-verdict_example :
    (client_handshake name_80 no_ip (97 ∷ []) 1 (98 ∷ []) granting ≡ (
      verdict 0 90,
      record granting {
        input = 7 ∷ [];
        writes_left = 0;
        output = request 1 80 (v4 1) (98 ∷ []) (97 ∷ []);
      },
    ))
    × ((verdict 0 90 ≡ ok tt) ↔ ((first_byte ≡ 0) × (code_byte ≡ 90)))
client_handshake-verdict_example =
    client_handshake-verdict name_80 no_ip (97 ∷ []) (98 ∷ []) (97 ∷ []) (7 ∷ [])
      (1 ∷ 2 ∷ 3 ∷ 4 ∷ 5 ∷ 6 ∷ []) 1 80 0 90 0 granting (omega arith) refl named refl refl refl
  where
    named : destination no_addr ≡ ok (v4 1)
    named = unfold destination in refl
