-- ===== src/Socks5/Handshake/Success.antt =====
-- The handshake with a server that agrees.
use tun_flow.Base.{
  ℕ, ◌+◌, ◌<◌, ◌≡◌, refl, ap, ◌∙◌, [], ◌∷◌, ◌++◌, Option, some, arith, Bytes, ok, append_assoc, All,
  suc,
}
use tun_flow.Base.Net.{Conn, read_full-append, write-suc}
use tun_flow.Socks5.Addr.Format.{IsAddr, IsAddr-valid}
use tun_flow.Socks5.{User, Command, io}
use tun_flow.Socks5.Handshake.Reading.{read_addr-append}
use tun_flow.Socks5.Handshake.Traffic.{Fits}
use tun_flow.Socks5.Handshake.{
  greeting, auth_message, request, subnegotiate, with_user, authenticate, negotiate, send_request,
  client_handshake,
}

send_request-granted :
    (addr : Bytes) (command : Command) {bound : Bytes} (rest : Bytes) (rsv k : ℕ) (c : Conn)
    → IsAddr bound
    → All (λ b. b < 256) bound
    → c.input ≡ 5 ∷ 0 ∷ rsv ∷ (bound ++ rest)
    → c.writes_left ≡ suc k
    → send_request addr command c ≡ (
      ok bound,
      record c { input = rest; writes_left = k; output = c.output ++ request command addr },
    )
unfolding send_request
send_request-granted addr command {bound} rest rsv k c form small i w =
    let c1 = record c { writes_left = k; output = c.output ++ request command addr } in
    let c2 = record c1 { input = bound ++ rest } in
    ground (
      arith,
      write-suc io (request command addr) c k w,
      read_full-append io 3 (5 ∷ 0 ∷ rsv ∷ []) (bound ++ rest) c1 refl i,
      read_addr-append rest c2 form small refl,
    )

negotiate-open :
    (user : Option User) (rest : Bytes) (k : ℕ) (c : Conn)
    → c.input ≡ 5 ∷ 0 ∷ rest
    → c.writes_left ≡ suc k
    → negotiate user c
      ≡ (ok tt, record c { input = rest; writes_left = k; output = c.output ++ greeting user })
unfolding negotiate authenticate
negotiate-open user rest k c i w =
    let c1 = record c { writes_left = k; output = c.output ++ greeting user } in
    ground
      (arith, write-suc io (greeting user) c k w, read_full-append io 2 (5 ∷ 0 ∷ []) rest c1 refl i)

subnegotiate-accepted :
    (u : User) (ver : ℕ) (rest : Bytes) (k : ℕ) (c : Conn)
    → Fits u
    → c.input ≡ ver ∷ 0 ∷ rest
    → c.writes_left ≡ suc k
    → subnegotiate u c
      ≡ (ok tt, record c { input = rest; writes_left = k; output = c.output ++ auth_message u })
unfolding subnegotiate
subnegotiate-accepted u ver rest k c fits i w =
    let c1 = record c { writes_left = k; output = c.output ++ auth_message u } in
    ground (
      arith,
      write-suc io (auth_message u) c k w,
      read_full-append io 2 (ver ∷ 0 ∷ []) rest c1 refl i,
    )

negotiate-user :
    (u : User) (ver : ℕ) (rest : Bytes) (k : ℕ) (c : Conn)
    → Fits u
    → c.input ≡ 5 ∷ 2 ∷ ver ∷ 0 ∷ rest
    → c.writes_left ≡ suc (suc k)
    → negotiate (some u) c ≡ (
      ok tt,
      record c {
        input = rest;
        writes_left = k;
        output = (c.output ++ greeting (some u)) ++ auth_message u;
      },
    )
unfolding negotiate authenticate with_user
negotiate-user u ver rest k c fits i w =
    let c1 = record c { writes_left = suc k; output = c.output ++ greeting (some u) } in
    let c2 = record c1 { input = ver ∷ 0 ∷ rest } in
    ground (
      arith,
      write-suc io (greeting (some u)) c (suc k) w,
      read_full-append io 2 (5 ∷ 2 ∷ []) (ver ∷ 0 ∷ rest) c1 refl i,
      subnegotiate-accepted u ver rest k c2 fits refl refl,
    )

-- How the server answers the greeting of a user, and what the client writes until the request.
pub data Accepts (user : Option User) (answer sent : Bytes) (writes : ℕ) : Type 0 where
  no_auth :
      answer ≡ 5 ∷ 0 ∷ [] → sent ≡ greeting user → writes ≡ 1 → Accepts user answer sent writes
  user_pass :
      (u : User) (ver : ℕ)
      → user ≡ some u
      → Fits u
      → answer ≡ 5 ∷ 2 ∷ ver ∷ 0 ∷ []
      → sent ≡ greeting user ++ auth_message u
      → writes ≡ 2
      → Accepts user answer sent writes

negotiate-Accepts :
    (user : Option User) {answer sent : Bytes} {writes : ℕ} (rest : Bytes) (k : ℕ) (c : Conn)
    → Accepts user answer sent writes
    → c.input ≡ answer ++ rest
    → c.writes_left ≡ writes + k
    → negotiate user c
      ≡ (ok tt, record c { input = rest; writes_left = k; output = c.output ++ sent })
negotiate-Accepts user rest k c (no_auth ea es ew) i w =
    rw es (negotiate-open user rest k c (i ∙ ap (λ t. t ++ rest) ea) (omega arith))
negotiate-Accepts user rest k c (user_pass u ver eu fits ea es ew) i w = ground (
  arith,
  negotiate-user u ver rest k c fits (i ∙ ap (λ t. t ++ rest) ea) (omega arith),
  append_assoc c.output (greeting user) (auth_message u),
)

-- With a server that accepts the greeting by either method and grants the request, `ClientHandshake`
-- returns the server's bound address, has consumed the server's messages and nothing behind them, and
-- has written the greeting, the credentials if the server asked for them, and the request.
pub client_handshake-granted :
    (addr : Bytes) (command : Command) (user : Option User) {answer sent bound : Bytes} {writes : ℕ}
    (rest : Bytes) (rsv k : ℕ) (c : Conn)
    → IsAddr addr
    → Accepts user answer sent writes
    → IsAddr bound
    → All (λ b. b < 256) bound
    → c.input ≡ answer ++ 5 ∷ 0 ∷ rsv ∷ (bound ++ rest)
    → c.writes_left ≡ writes + suc k
    → client_handshake addr command user c ≡ (
      ok bound,
      record c {
        input = rest;
        writes_left = k;
        output = (c.output ++ sent) ++ request command addr;
      },
    )
unfolding client_handshake
client_handshake-granted addr command user {sent = sent} {bound = bound} rest rsv k c form acc fb
      small i w =
    let c1 = record c {
      input = 5 ∷ 0 ∷ rsv ∷ (bound ++ rest);
      writes_left = suc k;
      output = c.output ++ sent;
    } in
    ground (
      arith,
      IsAddr-valid form,
      negotiate-Accepts user (5 ∷ 0 ∷ rsv ∷ (bound ++ rest)) (suc k) c acc i w,
      send_request-granted addr command rest rsv k c1 fb small refl refl,
    )
