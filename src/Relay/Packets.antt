-- ===== src/Relay/Packets.antt =====
-- The packets of a relay connection of proxy/relay/relay.go.
use tun_flow.Base.{
  ℕ, zero, suc, ◌≤◌, ◌<◌, ◌≡◌, refl, sym, ap, subst, ◌∙◌, ◌⊎◌, inl, inr, true, not, ◌&&◌, List, [],
  ◌∷◌, ◌++◌, append-nil, append_assoc, map, Option, none, some, arith, if◌then◌else◌, Bytes, length,
  take, be_bytes16, be_word16-be_bytes16, All, Bool-cases, ltb, leb, drop_all, take_all,
  length-take, leb→le, ltb→lt,
}
use tun_flow.Base.Net.{write-suc}
use tun_flow.Obfs.{fill, fill-append, read_conn}
use tun_flow.Relay.{
  RelayConn, io, exceeded, Coding, Outcome, Count, read_open, relay_read, udp_write, read_body,
  headed, taken, udp_write_with, packet_body, send, awaits_response, after_response,
  read_relay_response,
}

-- A packet on the wire: its length and its bytes.
abbrev pub framed : Bytes → Bytes
framed p = be_bytes16 (length p) ++ p

abbrev pub framed_all : List Bytes → Bytes
framed_all [] = []
framed_all (p ∷ ps) = framed p ++ framed_all ps

-- The state behind a read that leaves the rest on the connection.
abbrev pub left : Bytes → RelayConn → RelayConn
left rest rc = record rc { conn = record rc.conn { input = rest } }

read_body-packet :
    (size : ℕ) (stale p rest : Bytes) (rc : RelayConn)
    → rc.conn.input ≡ p ++ rest
    → read_body size (length p) stale rc ≡ ((take size p, none), left rest rc)
read_body-packet size stale p rest rc at = elim (Bool-cases (leb (length p) size)) [
  | inl e ↦
      let fits = leb→le (length p) size e in
      rw (e, fill-append (length p) p rest rc.conn refl at, take_all size p fits) refl
  | inr e ↦
      let none_stale =
        drop_all (length p) (take (length p) stale)
          (omega (arith, length-take {0} (length p) stale)) in
      rw (e, fill-append (length p) p rest rc.conn refl at, none_stale, append-nil p) refl
]

-- A read of a packet, into a buffer of `size` bytes.
read_open-packet :
    (size : ℕ) (stale p rest : Bytes) (rc : RelayConn)
    → rc.udp ≡ true
    → length p < 65536
    → rc.conn.input ≡ framed p ++ rest
    → read_open size stale rc ≡ ((take size p, none), left rest rc)
unfolding read_open
read_open-packet size stale p rest rc is_udp small at =
    subst
      (λ b.
        (if not b then taken (read_conn size rc.conn) rc else headed size stale (fill 2 rc.conn) rc)
        ≡ ((take size p, none), left rest rc))
      (sym is_udp)
      (rw
        (
          fill-append 2 (be_bytes16 (length p)) (p ++ rest) rc.conn refl at,
          be_word16-be_bytes16 (length p) small,
        )
        (read_body-packet size stale p rest (left (p ++ rest) rc) refl))

-- Reads into buffers of `size` bytes, until one fails.
abbrev keep_first : Bytes → List Bytes × RelayConn → List Bytes × RelayConn
keep_first p (ps, rc) = (p ∷ ps, rc)

abbrev or_stop : Outcome → (RelayConn → List Bytes × RelayConn) → List Bytes × RelayConn
or_stop ((p, none), rc) next = keep_first p (next rc)
or_stop ((p, some e), rc) next = ([], rc)

module _ (coding : Coding) (size : ℕ) (stale : Bytes) where
  pub receive : ℕ → RelayConn → List Bytes × RelayConn
  receive zero rc = ([], rc)
  receive (suc n) rc = or_stop (relay_read coding size stale rc) (λ rc'. receive n rc')

  -- A connection for packets on which the response was read, or none is awaited.
  pub record IsOpen (rc : RelayConn) : Type 0 where
    pub for_packets : rc.udp ≡ true
    pub answered : rc.responded ≡ true

  relay_read-packet :
      (p rest : Bytes) (rc : RelayConn)
      → IsOpen rc
      → length p < 65536
      → rc.conn.input ≡ framed p ++ rest
      → relay_read coding size stale rc
        ≡ ((take size p, none), record (left rest rc) { responded = true })
  unfolding relay_read
  relay_read-packet p rest rc is_open small at =
      subst
        (λ b.
          (if not b && awaits_response coding rc.wbuf
            then after_response coding size stale (read_relay_response coding rc.conn) rc
            else read_open size stale (record rc { responded = true }))
          ≡ ((take size p, none), record (left rest rc) { responded = true }))
        (sym is_open.answered)
        (read_open-packet size stale p rest (record rc { responded = true }) is_open.for_packets
          small at)

  -- As many reads as there are packets on an open connection return these packets in their order, each
  -- cut to the size of the buffer, and leave nothing of them and all that follows them.
  pub receive-framed_all :
      (ps : List Bytes) (rest : Bytes) (rc : RelayConn)
      → IsOpen rc
      → All (λ p. length p < 65536) ps
      → rc.conn.input ≡ framed_all ps ++ rest
      → ((receive (length ps) rc).0 ≡ map (take size) ps)
        × ((receive (length ps) rc).1.conn.input ≡ rest)
  unfolding receive
  receive-framed_all [] rest rc is_open small at = (refl, at)
  receive-framed_all (p ∷ ps) rest rc is_open small at =
      let e =
        relay_read-packet p (framed_all ps ++ rest) rc is_open small.0
          (at ∙ append_assoc (framed p) (framed_all ps) rest) in
      let is_open' : IsOpen (record (left (framed_all ps ++ rest) rc) { responded = true }) =
        record { for_packets = is_open.for_packets; answered = refl } in
      let (got, after) =
        receive-framed_all ps rest (record (left (framed_all ps ++ rest) rc) { responded = true })
          is_open' small.1 refl in
      rw e (ap (λ qs. take size p ∷ qs) got, after)

-- A write of a packet.
pub data Sent (p : Bytes) (rc : RelayConn) : Count → Type 0 where
  refused : 65535 < length p → Sent p rc ((0, some exceeded), rc)
  sent :
      {rc' : RelayConn} (held : Bytes)
      → (rc.wbuf ≡ some held) ⊎ ((rc.wbuf ≡ none) × (held ≡ []))
      → length p ≤ 65535
      → rc'.conn.output ≡ rc.conn.output ++ (held ++ framed p)
      → (rc'.wbuf ≡ none) ⊎ (rc'.wbuf ≡ some [])
      → Sent p rc ((length p, none), rc')

-- A packet on a connection that accepts two writes: one that is longer than 65535 bytes is refused and
-- nothing changes; else the request that is still held, if one is, is sent in front of the packet's
-- length and its bytes, nothing is held any longer, and the count is the packet's length.
pub udp_write-Sent :
    (p : Bytes) (rc : RelayConn) (k : ℕ)
    → rc.conn.writes_left ≡ suc (suc k)
    → Sent p rc (udp_write p rc)
unfolding udp_write
udp_write-Sent p rc k room = elim (Bool-cases (ltb 65535 (length p))) [
  | inl e ↦ rw e (refused (ltb→lt 65535 (length p) e))
  | inr e ↦ rw e (held_write rc.wbuf refl (ground arith))
]
  where
    two_writes : packet_body p (send (be_bytes16 (length p)) rc.conn) rc ≡ (
      (length p, none),
      record rc {
        conn = record rc.conn {
          writes_left = k;
          output = (rc.conn.output ++ be_bytes16 (length p)) ++ p;
        };
      },
    )
    two_writes =
        rw
          (
            write-suc io (be_bytes16 (length p)) rc.conn (suc k) room,
            write-suc io p
                (record rc.conn {
                  writes_left = suc k;
                  output = rc.conn.output ++ be_bytes16 (length p);
                })
                k refl,
          )
          refl

    plainly :
        (held : Bytes)
        → (rc.wbuf ≡ some held) ⊎ ((rc.wbuf ≡ none) × (held ≡ []))
        → held ≡ []
        → length p ≤ 65535
        → Sent p rc (packet_body p (send (be_bytes16 (length p)) rc.conn) rc)
    plainly held h empty le = rw two_writes (
        sent held h le
          (append_assoc rc.conn.output (be_bytes16 (length p)) p
            ∙ ap (λ z. rc.conn.output ++ (z ++ framed p)) (sym empty))
          (unheld held h empty))
      where
        unheld :
            (held : Bytes)
            → (rc.wbuf ≡ some held) ⊎ ((rc.wbuf ≡ none) × (held ≡ []))
            → held ≡ []
            → (rc.wbuf ≡ none) ⊎ (rc.wbuf ≡ some [])
        unheld held (inl e) empty = inr (e ∙ ap some empty)
        unheld held (inr (e, f)) empty = inl e

    held_write :
        (o : Option Bytes) → rc.wbuf ≡ o → length p ≤ 65535 → Sent p rc (udp_write_with o p rc)
    held_write none e le = plainly [] (inr (e, refl)) refl le
    held_write (some []) e le = plainly [] (inl e) refl le
    held_write (some (x ∷ xs)) e le =
        rw (write-suc io (x ∷ xs ++ framed p) rc.conn (suc k) room)
          (sent (x ∷ xs) (inl e) le refl (inr refl))
