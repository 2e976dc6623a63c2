-- ===== src/Socks4/Laws.antt =====
-- What the SOCKS4 client sends, and what it makes of the reply.
use tun_flow.Base.{
  ℕ, suc, ◌%◌, ◌^◌, ◌<◌, ◌≡◌, ◌≢◌, ◌↔◌, inl, inr, true, ◌∷◌, ◌++◌, Option, some, arith, ◌==◌,
  if◌then◌else◌, Bytes, Bool-cases, length, Result, ok, err,
}
use tun_flow.Base.Net.{Conn, read_full-append, write-suc}
use tun_flow.Netip.{Addr, no_addr, v4, v6, unmap, is_4_in_6}
use tun_flow.Socks4.{
  Error, io, version_mismatched, destination, is_reserved_ip, request, outcome, client_handshake,
}

-- The result of a reply that begins with the two bytes.
abbrev pub verdict : ℕ → ℕ → Result Error (Unit {0})
verdict first code = if first == 0 then outcome code else err version_mismatched

-- The code 90 grants the request, and no other does.
outcome_iff : (code : ℕ) → (outcome code ≡ ok tt) ↔ (code ≡ 90)
unfolding outcome
outcome_iff code = ground arith

verdict_iff : (first code : ℕ) → (verdict first code ≡ ok tt) ↔ ((first ≡ 0) × (code ≡ 90))
verdict_iff first code = ground (arith, outcome_iff code)

-- For a target that parses and a command that is not BIND, on a connection that takes one write and
-- carries a reply of eight bytes, `ClientHandshake` writes one request, for the destination of the
-- host, reads the eight bytes and no more, and returns the verdict of the first two: version
-- mismatched if the first is not 0, else what the code says. That is success exactly for 0 and 90.
pub client_handshake-verdict :
    (split_host_port : Bytes → Option (Bytes × ℕ)) (parse_addr : Bytes → Addr)
    (addr user host rest ignored : Bytes) (command port first code k : ℕ) {ip : Addr} (c : Conn)
    → command ≢ 2
    → split_host_port addr ≡ some (host, port)
    → destination (parse_addr host) ≡ ok ip
    → length ignored ≡ 6
    → c.input ≡ first ∷ code ∷ (ignored ++ rest)
    → c.writes_left ≡ suc k
    → (client_handshake split_host_port parse_addr addr command user c ≡ (
      verdict first code,
      record c {
        input = rest;
        writes_left = k;
        output = c.output ++ request command port ip user host;
      },
    ))
      × ((verdict first code ≡ ok tt) ↔ ((first ≡ 0) × (code ≡ 90)))
unfolding client_handshake
client_handshake-verdict split_host_port parse_addr addr user host rest ignored command port first
      code k {ip} c h s d l i w =
    let c1 = record c { writes_left = k; output = c.output ++ request command port ip user host } in
    (
      ground (
        arith,
        s,
        d,
        write-suc io (request command port ip user host) c k w,
        read_full-append io 8 (first ∷ code ∷ ignored) rest c1 (omega (arith, l)) i,
      ),
      verdict_iff first code,
    )

-- What is no IP address, or one of 0.0.0.1 to 0.0.0.255.
abbrev pub Nameable : Addr → Type 0
Nameable no_addr = Unit
Nameable (v4 n) = (0 < n) × (n < 256)
Nameable (v6 n) = ⊥

-- The request carries the host's name, as SOCKS4A has it, exactly when the host is no IP address, or
-- is an address 0.0.0.x with x from 1 to 255, plain or mapped into IPv6.
pub is_reserved_ip-destination :
    (a ip : Addr) → destination a ≡ ok ip → (is_reserved_ip ip ≡ true) ↔ Nameable (unmap a)
unfolding destination is_reserved_ip
is_reserved_ip-destination no_addr ip h = ground arith
is_reserved_ip-destination (v4 n) ip h = ground arith
is_reserved_ip-destination (v6 n) ip h = elim (Bool-cases (is_4_in_6 (v6 n))) [
  | inl mapped ↦
      let low : Addr = v4 (n % 2 ^ 32) in
      let is_low : ip ≡ low = ground (arith, mapped) in rw (mapped, is_low) (ground arith)
  | inr plain ↦ absurd (ground (arith, plain))
]
