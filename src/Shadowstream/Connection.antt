-- ===== src/Shadowstream/Connection.antt =====
-- `Conn` of stream.go: the IVs that its two directions begin with.
pub mod RoundTrip
use tun_flow.Base.{
  ℕ, [], Option, none, some, ◌==◌, if◌then◌else◌, Bytes, length, Result, ok, err, panic,
}
use tun_flow.Base.Net.{Conn, read_full, write}
use tun_flow.Shadowstream.{Crypto, Cipher, Error, io, no_random, iv_size, encrypter, decrypter}
use tun_flow.Shadowstream.Stream
use tun_flow.Shadowstream.Stream.{Side, Moved, read_stream, write_stream}

-- `Conn`; a direction is none where `r` or `w` is nil, and an IV that is nil has no bytes.
pub record StreamConn (S : Type 0) : Type 0 where
  pub conn : Conn
  pub reader : Option S
  pub writer : Option S
  pub read_iv : Bytes
  pub write_iv : Bytes

-- `NewConn`.
abbrev pub new_conn : {S : Type 0} → Conn → StreamConn S
new_conn c = record { conn = c; reader = none; writer = none; read_iv = []; write_iv = [] }

abbrev pub side : {S : Type 0} → S → StreamConn S → Side S
side e s = record { stream = e; conn = s.conn }

abbrev pub after_write : {S : Type 0} → Side S → StreamConn S → StreamConn S
after_write t s = record s { conn = t.conn; writer = some t.stream }

abbrev pub after_read : {S : Type 0} → Side S → StreamConn S → StreamConn S
after_read t s = record s { conn = t.conn; reader = some t.stream }

-- How a copying method of `Conn` ends: `stuck` is a panic, `endless` is out of fuel.
pub data Copying (X : Type 0) : Type 0 where
  ended : Moved → X → Copying X
  stuck endless : Copying X

module _ {S : Type 0} (k : Crypto S) (c : Cipher) where
  -- `ObtainWriteIV`, with the bytes that crypto/rand gives.
  unfoldable pub obtain_write_iv : Option Bytes → StreamConn S → Result Error Bytes × StreamConn S
  obtain_write_iv random s =
      if length s.write_iv == iv_size c
      then (ok s.write_iv, s)
      else elim random [ none ↦ (err no_random, s) | some iv ↦ (ok iv, record s { write_iv = iv }) ]

  -- `ObtainReadIV`.
  unfoldable pub obtain_read_iv : StreamConn S → Result Error Bytes × StreamConn S
  obtain_read_iv s =
      let got = read_full io (iv_size c) s.conn in
      if length s.read_iv == iv_size c then (ok s.read_iv, s) else elim got.0 [
        | err e ↦ (err e, record s { conn = got.1 })
        | panic ↦ (panic, s)
        | ok iv ↦ (ok iv, record s { conn = got.1; read_iv = iv })
      ]

  abbrev begin_reader : Result Error Bytes × StreamConn S → Result Error S × StreamConn S
  begin_reader (err e, s) = (err e, s)
  begin_reader (panic, s) = (panic, s)
  begin_reader (ok iv, s) = elim (decrypter k c iv) [
    | err e ↦ (err e, s)
    | panic ↦ (panic, s)
    | ok d ↦ (ok d, record s { reader = some d })
  ]

  abbrev begin_writer : Result Error Bytes × StreamConn S → Result Error S × StreamConn S
  begin_writer (err e, s) = (err e, s)
  begin_writer (panic, s) = (panic, s)
  begin_writer (ok iv, s) =
      let sent = write io iv s.conn in
      elim sent.0 [
        | err e ↦ (err e, record s { conn = sent.1 })
        | panic ↦ (panic, s)
        | ok u ↦ elim (encrypter k c iv) [
          | err e ↦ (err e, record s { conn = sent.1 })
          | panic ↦ (panic, record s { conn = sent.1 })
          | ok e ↦ (ok e, record s { conn = sent.1; writer = some e })
        ]
      ]

  -- `initReader` and `initWriter`, with the stream of the direction.
  abbrev reader_of : Option S → StreamConn S → Result Error S × StreamConn S
  reader_of (some d) s = (ok d, s)
  reader_of none s = begin_reader (obtain_read_iv s)

  abbrev writer_of : Option S → Option Bytes → StreamConn S → Result Error S × StreamConn S
  writer_of (some e) random s = (ok e, s)
  writer_of none random s = begin_writer (obtain_write_iv random s)

  unfoldable pub init_reader : StreamConn S → Result Error S × StreamConn S
  init_reader s = reader_of s.reader s

  unfoldable pub init_writer : Option Bytes → StreamConn S → Result Error S × StreamConn S
  init_writer random s = writer_of s.writer random s

  -- `Conn.Write`; none is a panic.
  unfoldable pub conn_write : Option Bytes → Bytes → StreamConn S → Option Moved × StreamConn S
  conn_write random b s =
      let begun = init_writer random s in
      elim begun.0 [
        | err e ↦ (some (record { count = 0; failed = some e }), begun.1)
        | panic ↦ (none, begun.1)
        | ok e ↦ let (m, t) = write_stream k b (side e begun.1) in (some m, after_write t begun.1)
      ]

  -- `Conn.Read` into n bytes.
  unfoldable pub conn_read : ℕ → StreamConn S → Result Error Bytes × StreamConn S
  conn_read n s =
      let begun = init_reader s in
      elim begun.0 [
        | err e ↦ (err e, begun.1)
        | panic ↦ (panic, begun.1)
        | ok d ↦ let (r, t) = read_stream k n (side d begun.1) in (r, after_read t begun.1)
      ]

  abbrev wrote : StreamConn S → Option (Moved × Side S × Conn) → Copying (StreamConn S × Conn)
  wrote s none = endless
  wrote s (some (m, t, w)) = ended m (after_read t s, w)

  -- `Conn.WriteTo`.
  unfoldable pub conn_write_to : (fuel : ℕ) → StreamConn S → Conn → Copying (StreamConn S × Conn)
  conn_write_to fuel s w =
      let begun = init_reader s in
      elim begun.0 [
        | err e ↦ ended (record { count = 0; failed = some e }) (begun.1, w)
        | panic ↦ stuck
        | ok d ↦ wrote begun.1 (Stream.write_to k fuel 0 (side d begun.1) w)
      ]

  abbrev took : StreamConn S → Option (Moved × Conn × Side S) → Copying (StreamConn S × Conn)
  took s none = endless
  took s (some (m, r, t)) = ended m (after_write t s, r)

  -- `Conn.ReadFrom`.
  unfoldable pub conn_read_from :
      (fuel : ℕ) → Option Bytes → Conn → StreamConn S → Copying (StreamConn S × Conn)
  conn_read_from fuel random r s =
      let begun = init_writer random s in
      elim begun.0 [
        | err e ↦ ended (record { count = 0; failed = some e }) (begun.1, r)
        | panic ↦ stuck
        | ok e ↦ took begun.1 (Stream.read_from k fuel 0 r (side e begun.1))
      ]
