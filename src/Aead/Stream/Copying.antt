-- ===== src/Aead/Stream/Copying.antt =====
-- `Writer.ReadFrom` and `Reader.WriteTo` of stream.go.
pub mod Delivery
pub mod Total
use tun_flow.Base.{
  ℕ, zero, suc, true, ◌+◌, ◌≡◌, sym, ap, ◌∙◌, [], ◌++◌, append_assoc, Option, none, some, arith,
  Bytes, length, is_empty, if◌then◌else◌, be_bytes16, Result, ok, err, panic,
}
use tun_flow.Base.Net.{Conn, eof, read_some, write, write-suc, read_full-append}
use tun_flow.Aead.{Aead, IsAead, Error, io, zero_chunk, payload_size_mask}
use tun_flow.Aead.Nonce.{increment}
use tun_flow.Aead.Stream.{
  Stream, Written, Reader, frame, after_record, failure, receive, unseal_next, read_record,
}

abbrev pub bytes_of : Result Error Bytes → Bytes
bytes_of (ok b) = b
bytes_of (err e) = []
bytes_of panic = []

abbrev pub stopped_by : Result Error Bytes → Option Error
stopped_by (ok b) = none
stopped_by (err e) = some e
stopped_by panic = none

-- The error with which a copying method ends, which is nil at the end of the source.
abbrev unless_eof : Error → Option Error
unless_eof (io eof) = none
unless_eof e = some e

abbrev held : Option Bytes → Bytes
held none = []
held (some b) = b

-- A write of what is held, if there is something.
abbrev pub flush : Bytes → Conn → Result Error (Unit {0}) × Conn
flush b w = if is_empty b then (ok tt, w) else write io b w

module _ (a : Aead) where
  -- One record of what a read gave, which may be nothing.
  abbrev put : Bytes → Stream → Result Error (Unit {0}) × Stream
  put b s =
      let (r, c) = write io (frame a s.nonce b) s.conn in
      (r, record { nonce = after_record a s.nonce; conn = c })

  -- `Writer.ReadFrom`; none is out of fuel.
  unfoldable pub read_from : (fuel : ℕ) (n : ℕ) → Conn → Stream → Option (Written × Conn × Stream)
  read_from zero n r s = none
  read_from (suc fuel) n r s =
      let got = read_some io payload_size_mask r in
      let n' = n + length (bytes_of got.0) in
      let sent = put (bytes_of got.0) s in
      let rest = read_from fuel n' got.1 sent.1 in
      elim (failure a sent.0) [
        | some e ↦ some (record { count = n'; failed = some e }, got.1, sent.1)
        | none ↦ elim (stopped_by got.0) [
          | some e ↦ some (record { count = n'; failed = unless_eof e }, got.1, sent.1)
          | none ↦ rest
        ]
      ]

  -- The loop of `Reader.WriteTo` with the payload that the buffer holds; where it ends the buffer is kept,
  -- also when nothing is left in it.
  unfoldable pub write_to_loop :
      (fuel : ℕ) (n : ℕ) (pending : Bytes) → Stream → Conn → Option (Written × Reader a × Conn)
  write_to_loop zero n pending s w = none
  write_to_loop (suc fuel) n pending s w =
      let sent = flush pending w in
      let got = read_record a s in
      let rest = write_to_loop fuel (n + length pending) (bytes_of got.0) got.1 sent.1 in
      elim (failure a sent.0) [
        | some e ↦ some (
          record { count = n; failed = some e },
          record { stream = s; buffered = some pending },
          sent.1,
        )
        | none ↦ elim (stopped_by got.0) [
          | some e ↦ some (
            record { count = n + length pending; failed = unless_eof e },
            record { stream = got.1; buffered = some [] },
            sent.1,
          )
          | none ↦ rest
        ]
      ]

  -- `Reader.WriteTo`.
  unfoldable pub write_to : (fuel : ℕ) → Reader a → Conn → Option (Written × Reader a × Conn)
  write_to fuel r w = write_to_loop fuel 0 (held r.buffered) r.stream w
