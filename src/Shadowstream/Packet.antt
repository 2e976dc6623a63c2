-- ===== src/Shadowstream/Packet.antt =====
-- packet.go: packets under a fresh IV, and the packet connection over one that is a parameter.
use tun_flow.Base.{
  ℕ, ◌+◌, ◌-◌, ◌≤◌, ◌≡◌, sym, ◌++◌, Option, some, ltb, if◌then◌else◌, Bytes, length, take,
  length-append, take-append_of_eq, drop-append_of_eq, Result, ok, err, panic, ◌>>=◌, slice,
  slice_from, slice-ok, slice_from-ok, arith, ltb,
}
use tun_flow.Base.Act.{require}
use tun_flow.Shadowstream.{
  Crypto, IsCrypto, Cipher, Error, short_packet, short_buffer, no_random, iv_size, encrypter,
  decrypter, HasKey, cipher-Streams,
}

abbrev pub max_packet_size : ℕ
max_packet_size = 65536

module _ {S : Type 0} (k : Crypto S) where
  -- `Pack` into `room` bytes, with the IV that crypto/rand gives.
  unfoldable pub pack :
      (room : ℕ) (random : Option Bytes) (plaintext : Bytes) → Cipher → Result Error Bytes
  pack room random plaintext c =
      if ltb room (iv_size c + length plaintext) then err short_buffer else do
        iv ← require random no_random
        e ← encrypter k c iv
        ok (iv ++ (k.xor_key_stream e plaintext).0)

  -- `Unpack` into `room` bytes.
  unfoldable pub unpack : (room : ℕ) (pkt : Bytes) → Cipher → Result Error Bytes
  unpack room pkt c =
      if ltb (length pkt) (iv_size c)
      then err short_packet
      else if ltb room (length pkt - iv_size c)
      then err short_buffer
      else do
        iv ← slice pkt 0 (iv_size c)
        d ← decrypter k c iv
        sealed ← slice_from pkt (iv_size c)
        ok (k.xor_key_stream d sealed).0

  -- `PacketConn.WriteTo` over `send_to`, the `WriteTo` of the connection below: the error of packing
  -- and otherwise that of the connection, with the count of b.
  unfoldable pub write_to :
      (send_to : Bytes → Option Error) (random : Option Bytes) (b : Bytes)
      → Cipher
      → Result Error (ℕ × Option Error)
  write_to send_to random b c = elim (pack max_packet_size random b c) [
    | ok buf ↦ ok (length b, send_to buf)
    | err e ↦ ok (0, some e)
    | panic ↦ panic
  ]

  -- `PacketConn.ReadFrom` into `room` bytes of a packet that has arrived there. The count
  -- beside an error is left out.
  unfoldable pub read_from : (room : ℕ) (arrived : Bytes) → Cipher → Result Error Bytes
  read_from room arrived c =
      if ltb room (iv_size c) then panic else unpack (room - iv_size c) (take room arrived) c

-- A packet that `Pack` makes under an IV of the cipher's size comes back out of `Unpack` with the same
-- cipher, into any buffer that holds the payload, and is as long as both; where the key is one that
-- the cipher's constructor lets through and the buffer of `Pack` holds the packet.
pub unpack-pack_stream :
    {S : Type 0} (k : Crypto S) (c : Cipher) (iv plaintext : Bytes) (room room' : ℕ)
    → IsCrypto k
    → HasKey c
    → length iv ≡ iv_size c
    → iv_size c + length plaintext ≤ room
    → length plaintext ≤ room'
    → (pkt : Bytes) × (pack k room (some iv) plaintext c ≡ ok pkt)
      × (length pkt ≡ iv_size c + length plaintext)
      × (unpack k room' pkt c ≡ ok plaintext)
unfolding pack unpack
unpack-pack_stream k c iv plaintext room room' lawful has size fits fits' =
    let s = cipher-Streams k c iv lawful has size in
    let sealed = (k.xor_key_stream s.e plaintext).0 in
    let long = length-append {0} iv sealed in
    let same = lawful.length-xor s.e plaintext in
    let iv_back = take-append_of_eq {0} (iv_size c) iv sealed (sym size) in
    let rest_back = drop-append_of_eq {0} (iv_size c) iv sealed (sym size) in
    let plain = s.opposite plaintext in
    (
      iv ++ sealed,
      ground (arith, s.encrypts),
      omega (arith, long, same, size),
      ground (
        arith,
        s.decrypts,
        long,
        same,
        size,
        slice-ok {E = Error} (iv ++ sealed) 0 (iv_size c),
        slice_from-ok {E = Error} (iv ++ sealed) (iv_size c),
        iv_back,
        rest_back,
        plain,
      ),
    )
