-- ===== src/Aead/Connection.antt =====
-- `Conn` of stream.go: the salts that its two directions begin with.
use tun_flow.Base.{
  ℕ, suc, ◌+◌, ◌≡◌, ◌≢◌, refl, sym, [], ◌++◌, Option, none, some, arith, Bytes, length, Result, ok,
  err, panic,
}
use tun_flow.Base.Net.{Conn, read_full, read_full-append, write, write-suc}
use tun_flow.Aead.{Aead, IsAead, Error, io}
use tun_flow.Aead.Nonce.{fresh}
use tun_flow.Aead.Packet.{MetaCipher, salt_size, crypter}
use tun_flow.Aead.Stream.{Stream, Written, Reader, write_stream, read_stream}
use tun_flow.Aead.Stream.Copying as Copied
use tun_flow.Aead.Stream.RoundTrip.{wire, record_count, read_records, write_stream-read_records}

-- One direction that has begun: its AEAD and its nonce, and of a reader what its buffer holds.
pub record Direction : Type 0 where
  pub aead : Aead
  pub nonce : Bytes
  pub buffered : Option Bytes

-- `Conn`; a direction is none where `r` or `w` is nil.
pub record AeadConn : Type 0 where
  pub conn : Conn
  pub reader : Option Direction
  pub writer : Option Direction

abbrev pub begun : Aead → Direction
begun a = record { aead = a; nonce = fresh a.nonce_size; buffered = none }

module _ (hkdf : Bytes → Bytes → Bytes → ℕ → Bytes) (c : MetaCipher) where
  -- `initReader`.
  unfoldable pub init_reader : AeadConn → Result Error (Unit {0}) × AeadConn
  init_reader s =
      let got = read_full io (salt_size c) s.conn in
      elim got.0 [
        | err e ↦ (err e, record s { conn = got.1 })
        | panic ↦ (panic, s)
        | ok salt ↦ elim (crypter hkdf c salt) [
          | err e ↦ (err e, record s { conn = got.1 })
          | panic ↦ (panic, s)
          | ok a ↦ (ok tt, record s { conn = got.1; reader = some (begun a) })
        ]
      ]

  -- `initWriter`, with the salt that crypto/rand gives.
  unfoldable pub init_writer : Bytes → AeadConn → Result Error (Unit {0}) × AeadConn
  init_writer salt s = elim (crypter hkdf c salt) [
    | err e ↦ (err e, s)
    | panic ↦ (panic, s)
    | ok a ↦
        let sent = write io salt s.conn in
        elim sent.0 [
          | err e ↦ (err e, record s { conn = sent.1 })
          | panic ↦ (panic, s)
          | ok u ↦ (ok tt, record s { conn = sent.1; writer = some (begun a) })
        ]
  ]

  abbrev write_direction : Bytes → Direction → AeadConn → Written × AeadConn
  write_direction b d s =
      let (r, t) = write_stream d.aead b (record { nonce = d.nonce; conn = s.conn }) in
      (r, record s { conn = t.conn; writer = some (record d { nonce = t.nonce }) })

  abbrev write_begun : Bytes → Result Error (Unit {0}) × AeadConn → Written × AeadConn
  write_begun b (err e, s) = (record { count = 0; failed = some e }, s)
  write_begun b (panic, s) = (record { count = 0; failed = none }, s)
  write_begun b (ok u, s) = elim s.writer [
    | none ↦ (record { count = 0; failed = none }, s)
    | some d ↦ write_direction b d s
  ]

  abbrev write_with : Option Direction → Bytes → Bytes → AeadConn → Written × AeadConn
  write_with none salt b s = write_begun b (init_writer salt s)
  write_with (some d) salt b s = write_direction b d s

  -- `Conn.Write`.
  unfoldable pub conn_write : Bytes → Bytes → AeadConn → Written × AeadConn
  conn_write salt b s = write_with s.writer salt b s

  -- `Conn.Read` into n bytes.
  abbrev after_read : (a : Aead) → Reader a → AeadConn → AeadConn
  after_read a r s = record s {
    conn = r.stream.conn;
    reader = some (record { aead = a; nonce = r.stream.nonce; buffered = r.buffered });
  }

  abbrev reader_of : (d : Direction) → AeadConn → Reader d.aead
  reader_of d s = record {
    stream = record { nonce = d.nonce; conn = s.conn };
    buffered = d.buffered;
  }

  abbrev read_direction : ℕ → Direction → AeadConn → Result Error Bytes × AeadConn
  read_direction n d s =
      let (r, t) = read_stream d.aead n (reader_of d s) in (r, after_read d.aead t s)

  abbrev read_begun : ℕ → Result Error (Unit {0}) × AeadConn → Result Error Bytes × AeadConn
  read_begun n (err e, s) = (err e, s)
  read_begun n (panic, s) = (panic, s)
  read_begun n (ok u, s) = elim s.reader [ none ↦ (panic, s) | some d ↦ read_direction n d s ]

  abbrev read_with : Option Direction → ℕ → AeadConn → Result Error Bytes × AeadConn
  read_with none n s = read_begun n (init_reader s)
  read_with (some d) n s = read_direction n d s

  unfoldable pub conn_read : ℕ → AeadConn → Result Error Bytes × AeadConn
  conn_read n s = read_with s.reader n s

  -- How a copying method ends: `stuck` is a panic, `endless` is out of fuel.
  pub data Copying : Type 0 where
    ended : Written → AeadConn → Conn → Copying
    stuck endless : Copying

  abbrev took : Direction → AeadConn → Option (Written × Conn × Stream) → Copying
  took d s none = endless
  took d s (some (m, r, t)) =
      ended m (record s { conn = t.conn; writer = some (record d { nonce = t.nonce }) }) r

  abbrev copy_direction : ℕ → Conn → Direction → AeadConn → Copying
  copy_direction fuel r d s =
      took d s (Copied.read_from d.aead fuel 0 r (record { nonce = d.nonce; conn = s.conn }))

  abbrev copy_begun : ℕ → Conn → Result Error (Unit {0}) × AeadConn → Copying
  copy_begun fuel r (err e, s) = ended (record { count = 0; failed = some e }) s r
  copy_begun fuel r (panic, s) = stuck
  copy_begun fuel r (ok u, s) = elim s.writer [ none ↦ stuck | some d ↦ copy_direction fuel r d s ]

  -- `Conn.ReadFrom`, with the salt that crypto/rand gives.
  unfoldable pub conn_read_from : (fuel : ℕ) → Bytes → Conn → AeadConn → Copying
  conn_read_from fuel salt r s = elim s.writer [
    | none ↦ copy_begun fuel r (init_writer salt s)
    | some d ↦ copy_direction fuel r d s
  ]

  abbrev gave : (a : Aead) → AeadConn → Option (Written × Reader a × Conn) → Copying
  gave a s none = endless
  gave a s (some (m, r, w)) = ended m (after_read a r s) w

  abbrev pour_direction : ℕ → Conn → Direction → AeadConn → Copying
  pour_direction fuel w d s = gave d.aead s (Copied.write_to d.aead fuel (reader_of d s) w)

  abbrev pour_begun : ℕ → Conn → Result Error (Unit {0}) × AeadConn → Copying
  pour_begun fuel w (err e, s) = ended (record { count = 0; failed = some e }) s w
  pour_begun fuel w (panic, s) = stuck
  pour_begun fuel w (ok u, s) = elim s.reader [ none ↦ stuck | some d ↦ pour_direction fuel w d s ]

  -- `Conn.WriteTo`.
  unfoldable pub conn_write_to : (fuel : ℕ) → Conn → AeadConn → Copying
  conn_write_to fuel w s = elim s.reader [
    | none ↦ pour_begun fuel w (init_reader s)
    | some d ↦ pour_direction fuel w d s
  ]

-- The first `Write` of a connection reaches a peer with the same key. Where the AEAD of the salt opens
-- what it seals, p is not empty and the connection takes the salt and the records, `Write` of p writes
-- the salt and records that carry p, and returns the length of p. `initReader` of the peer that finds
-- those bytes, and any others behind them, begins with the same AEAD and the zero nonce, and reading
-- as many records then gives p.
pub conn_write-init_reader :
    (hkdf : Bytes → Bytes → Bytes → ℕ → Bytes) (c : MetaCipher) (a : Aead) (salt p rest : Bytes)
    (k : ℕ) (s peer : AeadConn)
    → IsAead a
    → crypter hkdf c salt ≡ ok a
    → length salt ≡ salt_size c
    → p ≢ []
    → s.writer ≡ none
    → s.conn.writes_left ≡ suc (record_count (length p) p + k)
    → peer.conn.input ≡ salt ++ (wire a (length p) (fresh a.nonce_size) p ++ rest)
    → ((conn_write hkdf c salt p s).0 ≡ record { count = length p; failed = none })
      × ((conn_write hkdf c salt p s).1.conn.output
          ≡ (s.conn.output ++ salt) ++ wire a (length p) (fresh a.nonce_size) p)
      × (init_reader hkdf c peer ≡ (
        ok tt,
        record peer {
          conn = record peer.conn { input = wire a (length p) (fresh a.nonce_size) p ++ rest };
          reader = some (begun a);
        },
      ))
      × ((read_records a
            (record_count (length p) p)
            (record { nonce = fresh a.nonce_size; conn = (init_reader hkdf c peer).1.conn })).0
          ≡ ok p)
unfolding conn_write init_writer init_reader
conn_write-init_reader hkdf c a salt p rest k s peer lawful key size ne fresh_writer room i =
    let c1 : Conn = record s.conn {
      writes_left = record_count (length p) p + k;
      output = s.conn.output ++ salt;
    } in
    let w : Stream = record { nonce = fresh a.nonce_size; conn = c1 } in
    let r : Stream = record {
      nonce = fresh a.nonce_size;
      conn = record peer.conn { input = wire a (length p) (fresh a.nonce_size) p ++ rest };
    } in
    let (sent, read) = write_stream-read_records a p rest k w r lawful ne refl refl refl in
    let salted = write-suc io salt s.conn (record_count (length p) p + k) room in
    let got =
      read_full-append io (salt_size c) salt (wire a (length p) (fresh a.nonce_size) p ++ rest)
        peer.conn (sym size) i in
    (
      ground (arith, key, salted, sent, fresh_writer),
      ground (arith, key, salted, sent, fresh_writer),
      ground (arith, key, got),
      ground (arith, key, got, read),
    )
