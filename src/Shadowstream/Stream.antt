-- ===== src/Shadowstream/Stream.antt =====
-- `Writer` and `Reader` of stream.go, over the stream of one direction and the connection. What ends
-- with a panic of the connection is left as it is: the connections of Base.Net have none.
pub mod Writing
pub mod Reading
use tun_flow.Base.{
  ℕ, zero, suc, ◌+◌, List, [], Option, none, some, if◌then◌else◌, Bytes, length, take, drop,
  is_empty, Result, ok, err, panic,
}
use tun_flow.Base.Net.{Conn, IoError, eof, read_some, write}
use tun_flow.Shadowstream.{Crypto, Error, io}

abbrev pub buf_size : ℕ
buf_size = 2048

-- The stream of a `Writer` or a `Reader`, and the connection under it.
pub record Side (S : Type 0) : Type 0 where
  pub stream : S
  pub conn : Conn

-- What `Write` and the copying methods return: the count and the error.
pub record Moved : Type 0 where
  pub count : ℕ
  pub failed : Option Error

abbrev failure : {A : Type 0} → Result Error A → Option Error
failure (ok a) = none
failure (err e) = some e
failure panic = none

abbrev or_nil : Result Error Bytes → Bytes
or_nil (ok b) = b
or_nil (err e) = []
or_nil panic = []

-- The error with which a copying method ends, which is nil at the end of the source.
abbrev unless_eof : Error → Option Error
unless_eof (io eof) = none
unless_eof e = some e

-- The `Write` of `WriteTo`, which is not made for no bytes.
abbrev write_some : Bytes → Conn → Result Error (Unit {0}) × Conn
write_some b w = if is_empty b then (ok tt, w) else write io b w

module _ {S : Type 0} (k : Crypto S) where
  -- XORKeyStream and the `Write` behind it.
  abbrev pub send : Bytes → Side S → Result Error (Unit {0}) × Side S
  send p s =
      let (x, t) = k.xor_key_stream s.stream p in
      let (r, c) = write io x s.conn in (r, record { stream = t; conn = c })

  -- The loop of `Writer.Write`: p is what is left, n the count.
  unfoldable pub write_loop : (fuel : ℕ) (p : Bytes) (n : ℕ) → Side S → Moved × Side S
  write_loop zero p n s = (record { count = n; failed = none }, s)
  write_loop (suc fuel) p n s =
      let sent = send (take buf_size p) s in
      let rest = write_loop fuel (drop buf_size p) (n + length (take buf_size p)) sent.1 in
      if is_empty p then (record { count = n; failed = none }, s) else elim sent.0 [
        | ok u ↦ rest
        | err e ↦ (record { count = n; failed = some e }, sent.1)
        | panic ↦ (record { count = n; failed = none }, sent.1)
      ]

  -- `Writer.Write`.
  unfoldable pub write_stream : Bytes → Side S → Moved × Side S
  write_stream p s = write_loop (length p) p 0 s

  -- `Writer.ReadFrom` of a source, which also writes what is nothing. None is out of fuel.
  unfoldable pub read_from : (fuel : ℕ) (n : ℕ) → Conn → Side S → Option (Moved × Conn × Side S)
  read_from zero n r s = none
  read_from (suc fuel) n r s =
      let got = read_some io buf_size r in
      let n' = n + length (or_nil got.0) in
      let sent = send (or_nil got.0) s in
      let rest = read_from fuel n' got.1 sent.1 in
      elim (failure sent.0) [
        | some e ↦ some (record { count = n'; failed = some e }, got.1, sent.1)
        | none ↦ elim (failure got.0) [
          | some e ↦ some (record { count = n'; failed = unless_eof e }, got.1, sent.1)
          | none ↦ rest
        ]
      ]

  -- `Reader.Read` into n bytes.
  unfoldable pub read_stream : ℕ → Side S → Result Error Bytes × Side S
  read_stream n s =
      let got = read_some io n s.conn in
      elim got.0 [
        | err e ↦ (err e, record s { conn = got.1 })
        | panic ↦ (panic, record s { conn = got.1 })
        | ok b ↦
            let (x, t) = k.xor_key_stream s.stream b in (ok x, record { stream = t; conn = got.1 })
      ]

  -- `Reader.WriteTo` a sink, in the rounds of its loop. None is out of fuel.
  unfoldable pub write_to : (fuel : ℕ) (n : ℕ) → Side S → Conn → Option (Moved × Side S × Conn)
  unfolding read_stream
  write_to zero n s w = none
  write_to (suc fuel) n s w =
      let got = read_stream buf_size s in
      let sent = write_some (or_nil got.0) w in
      let rest = write_to fuel (n + length (or_nil got.0)) got.1 sent.1 in
      elim got.0 [
        | err e ↦ some (record { count = n; failed = unless_eof e }, got.1, w)
        | panic ↦ some (record { count = n; failed = none }, got.1, w)
        | ok b ↦ elim sent.0 [
          | err e ↦ some (record { count = n; failed = some e }, got.1, sent.1)
          | panic ↦ some (record { count = n; failed = none }, got.1, sent.1)
          | ok u ↦ rest
        ]
      ]
