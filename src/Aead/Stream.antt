-- ===== src/Aead/Stream.antt =====
-- `Writer` and `Reader` of stream.go: records of a sealed length and a sealed payload. A nonce is the
-- first NonceSize bytes of the array; the buffer holds the largest record.
pub mod RoundTrip
pub mod Copying
use tun_flow.Base.{
  ℕ, zero, suc, ◌+◌, ◌*◌, ◌%◌, ◌-◌, min, Bool, true, false, List, [], ◌∷◌, ◌++◌, Option, none, some,
  ◌==◌, ltb, leb, if◌then◌else◌, Bytes, length, take, drop, is_empty, be_bytes16, Result, ok, err,
  panic, index,
}
use tun_flow.Base.Act.{Act, chain, ◌>>=◌, ◌>>◌, return, refuse_if, lift}
use tun_flow.Base.Net.{Conn, Net, read_full, write}
use tun_flow.Aead.{Aead, Error, io, zero_chunk, not_authentic, payload_size_mask}
use tun_flow.Aead.Nonce.{increment}

-- The nonce of one direction, and the connection under it.
pub record Stream : Type 0 where
  pub nonce : Bytes
  pub conn : Conn

-- What `Write` returns: the count and the error.
pub record Written : Type 0 where
  pub count : ℕ
  pub failed : Option Error

module _ (a : Aead) where
  -- The bytes of one record.
  abbrev pub frame : Bytes → Bytes → Bytes
  frame nonce payload =
      a.seal nonce (be_bytes16 (length payload)) ++ a.seal (increment nonce) payload

  abbrev pub after_record : Bytes → Bytes
  after_record nonce = increment (increment nonce)

  -- The loop of `Write`. The count has grown by the size of the record whose write failed, too.
  unfoldable pub write_loop : (fuel : ℕ) (p : Bytes) (n : ℕ) → Stream → Written × Stream
  write_loop zero p n s = (record { count = n; failed = none }, s)
  write_loop (suc fuel) p n s =
      let nr = min payload_size_mask (length p) in
      let rest = write_loop fuel (drop nr p) (n + nr) in
      let sent = write io (frame s.nonce (take nr p)) s.conn in
      if is_empty p then (record { count = n; failed = none }, s) else elim sent.0 [
        | ok u ↦ rest (record { nonce = after_record s.nonce; conn = sent.1 })
        | err e ↦ (
          record { count = n + nr; failed = some e },
          record { nonce = after_record s.nonce; conn = sent.1 },
        )
        | panic ↦ (record { count = n; failed = none }, s)
      ]

  abbrev pub failure : Result Error (Unit {0}) → Option Error
  failure (ok u) = none
  failure (err e) = some e
  failure panic = none

  -- `Writer.Write`: an empty argument is one sealed length of zero.
  unfoldable pub write_stream : Bytes → Stream → Written × Stream
  write_stream p s =
      if is_empty p
      then (let (r, c) = write io (a.seal s.nonce (0 ∷ 0 ∷ [])) s.conn in
          (
            record { count = 0; failed = failure r },
            record { nonce = increment s.nonce; conn = c },
          ))
      else write_loop (length p) p 0 s

  -- `io.ReadFull` of the connection.
  unfoldable pub receive : ℕ → Act Stream Error Bytes
  receive n s = let (r, c) = read_full io n s.conn in (r, record s { conn = c })

  abbrev authentic : Option Bytes → Result Error Bytes
  authentic none = err not_authentic
  authentic (some b) = ok b

  -- `Open` and `increment`, which is also done where `Open` fails.
  unfoldable pub unseal_next : Bytes → Act Stream Error Bytes
  unseal_next b s = (authentic (a.unseal s.nonce b), record s { nonce = increment s.nonce })

  -- `Reader.read`.
  unfoldable pub read_record : Act Stream Error Bytes
  read_record = do
    sealed ← receive (2 + a.overhead)
    head ← unseal_next sealed
    hi ← lift (index head 0)
    lo ← lift (index head 1)
    let size = (hi * 256 + lo) % 0x4000
    refuse_if (size == 0) zero_chunk
    body ← receive (size + a.overhead)
    unseal_next body

  -- `Reader` with the payload that its buffer still holds, none where that is nil.
  pub record Reader : Type 0 where
    pub stream : Stream
    pub buffered : Option Bytes

  abbrev leftover : Bytes → ℕ → Option Bytes
  leftover b n = if is_empty (drop n b) then none else some (drop n b)

  -- The copy at the end of `Reader.Read`.
  abbrev serve : ℕ → Bytes → Stream → Result Error Bytes × Reader
  serve n b s = (ok (take n b), record { stream = s; buffered = leftover b n })

  abbrev filled : ℕ → Result Error Bytes × Stream → Result Error Bytes × Reader
  filled n (ok b, s) =
      if leb (payload_size_mask + a.overhead) n
      then (ok b, record { stream = s; buffered = none })
      else serve n b s
  filled n (err e, s) = (err e, record { stream = s; buffered = none })
  filled n (panic, s) = (panic, record { stream = s; buffered = none })

  abbrev read_from : Option Bytes → ℕ → Stream → Result Error Bytes × Reader
  read_from (some b) n s = serve n b s
  read_from none n s = filled n (read_record s)

  -- `Reader.Read` into n bytes.
  unfoldable pub read_stream : ℕ → Reader → Result Error Bytes × Reader
  read_stream n r = read_from r.buffered n r.stream
