-- ===== src/Aead.antt =====
-- transport/shadowsocks/shadowaead: nonces, and the AEAD, a cipher.AEAD of the standard library or of
-- golang.org/x/crypto, which is a parameter with what it documents.
pub mod Nonce
pub mod Stream
pub mod Packet
pub mod Connection
mod Tests
use tun_flow.Base.{ℕ, ◌+◌, ◌≡◌, Option, some, Bytes, length}
use tun_flow.Base.Net.{IoError}

-- payloadSizeMask and _zerononce's use: the greatest payload of a record.
abbrev pub payload_size_mask : ℕ
payload_size_mask = 0x3FFF

-- `seal nonce plaintext` and `unseal nonce ciphertext`, without additional data.
pub record Aead : Type 0 where
  pub nonce_size : ℕ
  pub overhead : ℕ
  pub seal : Bytes → Bytes → Bytes
  pub unseal : Bytes → Bytes → Option Bytes

pub record IsAead (a : Aead) : Type 0 where
  pub unseal-seal : (nonce b : Bytes) → a.unseal nonce (a.seal nonce b) ≡ some b
  pub length-seal : (nonce b : Bytes) → length (a.seal nonce b) ≡ length b + a.overhead

pub data Error : Type 0 where
  zero_chunk not_authentic short_packet short_buffer bad_key : Error
  io : IoError → Error
