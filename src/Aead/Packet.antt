-- ===== src/Aead/Packet.antt =====
-- packet.go and cipher.go: packets under a fresh salt, and the ciphers of a pre-shared key.
use tun_flow.Base.{
  ℕ, ◌+◌, ◌-◌, take, ◌≤◌, ◌≡◌, sym, ◌||◌, ◌++◌, Option, none, some, ltb, ◌==◌, not, if◌then◌else◌,
  Bytes, length, replicate, length-append, take-append_of_eq, drop-append_of_eq, Result, ok, err,
  panic, ◌>>=◌, slice, slice_from, slice-ok, slice_from-ok, arith, ltb,
}
use tun_flow.Base.Act.{require}
use tun_flow.Base.Text.{codes}
use tun_flow.Aead.{Aead, IsAead, Error, short_packet, short_buffer, bad_key, not_authentic}

-- `metaCipher`, with `make_aead` of the crypto packages.
pub record MetaCipher : Type 0 where
  pub psk : Bytes
  pub make_aead : Bytes → Option Aead

-- `KeySize` and `SaltSize`.
abbrev pub key_size : MetaCipher → ℕ
key_size c = length c.psk

abbrev pub salt_size : MetaCipher → ℕ
salt_size c = if ltb 16 (key_size c) then key_size c else 16

-- `AESGCM`.
abbrev pub aes_gcm : (Bytes → Option Aead) → Bytes → Option MetaCipher
aes_gcm make psk =
    if length psk == 16 || length psk == 24 || length psk == 32
    then some (record { psk = psk; make_aead = make })
    else none

-- `Chacha20Poly1305` and `XChacha20Poly1305`, which differ in `make`.
abbrev pub chacha20_poly1305 : (Bytes → Option Aead) → Bytes → Option MetaCipher
chacha20_poly1305 make psk =
    if not (length psk == 32) then none else some (record { psk = psk; make_aead = make })

-- `hkdf secret salt info n` is HKDF with SHA-1, of golang.org/x/crypto.
module _ (hkdf : Bytes → Bytes → Bytes → ℕ → Bytes) where
  -- `Encrypter` and `Decrypter`, which are the same.
  unfoldable pub crypter : MetaCipher → Bytes → Result Error Aead
  crypter c salt = require (c.make_aead (hkdf c.psk salt (codes "ss-subkey") (key_size c))) bad_key

  -- `Pack` into `room` bytes, with the salt that crypto/rand gives.
  unfoldable pub pack : (room : ℕ) (salt plaintext : Bytes) → MetaCipher → Result Error Bytes
  pack room salt plaintext c = if ltb room (salt_size c) then panic else do
    a ← crypter c salt
    if ltb room (salt_size c + length plaintext + a.overhead)
        then err short_buffer
        else ok (salt ++ a.seal (replicate a.nonce_size 0) plaintext)

  -- `Unpack` into `room` bytes.
  unfoldable pub unpack : (room : ℕ) (pkt : Bytes) → MetaCipher → Result Error Bytes
  unpack room pkt c = if ltb (length pkt) (salt_size c) then err short_packet else do
    salt ← slice pkt 0 (salt_size c)
    a ← crypter c salt
    if ltb (length pkt) (salt_size c + a.overhead)
        then err short_packet
        else if ltb (salt_size c + room + a.overhead) (length pkt)
        then err short_buffer
        else do
          sealed ← slice_from pkt (salt_size c)
          require (a.unseal (replicate a.nonce_size 0) sealed) not_authentic

  -- `PacketConn.WriteTo` over `send_to`, the `WriteTo` of the connection below: the error of packing,
  -- and otherwise that of the connection with the count of b.
  unfoldable pub write_to :
      (send_to : Bytes → Option Error) (salt b : Bytes)
      → MetaCipher
      → Result Error (ℕ × Option Error)
  write_to send_to salt b c = elim (pack 65536 salt b c) [
    | ok buf ↦ ok (length b, send_to buf)
    | err e ↦ ok (0, some e)
    | panic ↦ panic
  ]

  -- `PacketConn.ReadFrom` into `room` bytes of a packet that has arrived there. The count beside an
  -- error is left out.
  unfoldable pub read_from : (room : ℕ) (arrived : Bytes) → MetaCipher → Result Error Bytes
  read_from room arrived c =
      if ltb room (salt_size c) then panic else unpack (room - salt_size c) (take room arrived) c

-- A packet that `Pack` makes under a salt of the cipher's size comes back out of `Unpack` with the
-- same key, into any buffer that holds the payload, where the AEAD of the key opens what it seals.
pub unpack-pack :
    (hkdf : Bytes → Bytes → Bytes → ℕ → Bytes) (c : MetaCipher) (a : Aead) (salt plaintext : Bytes)
    (room room' : ℕ)
    → IsAead a
    → length salt ≡ salt_size c
    → crypter hkdf c salt ≡ ok a
    → salt_size c + length plaintext + a.overhead ≤ room
    → length plaintext ≤ room'
    → (pkt : Bytes) × (pack hkdf room salt plaintext c ≡ ok pkt)
      × (unpack hkdf room' pkt c ≡ ok plaintext)
unfolding pack unpack
unpack-pack hkdf c a salt plaintext room room' lawful size made fits fits' =
    let sealed = a.seal (replicate a.nonce_size 0) plaintext in
    (
      salt ++ sealed,
      ground (arith, made),
      ground (
        arith,
        made,
        length-append {0} salt sealed,
        lawful.length-seal (replicate a.nonce_size 0) plaintext,
        slice-ok {E = Error} (salt ++ sealed) 0 (salt_size c),
        slice_from-ok {E = Error} (salt ++ sealed) (salt_size c),
        take-append_of_eq {0} (salt_size c) salt sealed (sym size),
        drop-append_of_eq {0} (salt_size c) salt sealed (sym size),
        lawful.unseal-seal (replicate a.nonce_size 0) plaintext,
      ),
    )
