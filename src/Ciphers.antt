-- ===== src/Ciphers.antt =====
-- transport/shadowsocks/core/cipher.go: the choice of a cipher by its name, and the key of a password.
pub mod Kdf
pub mod Choice
mod Tests
use tun_flow.Base.{
  ℕ, zero, suc, ◌-◌, ◌&&◌, Bool, true, false, not, List, [], ◌∷◌, ◌++◌, map, Option, none, some,
  ltb, leb, ◌==◌, if◌then◌else◌, Bytes, length, take, drop, is_empty, Result, ok, err, panic, ◌>>=◌,
}
use tun_flow.Base.Act.{require}
use tun_flow.Base.Text.{codes, bytes_eq}
use tun_flow.Aead.{Aead}
use tun_flow.Aead.Packet.{MetaCipher, aes_gcm, chacha20_poly1305}
use tun_flow.Shadowstream
use tun_flow.Shadowstream.{aes_ctr, aes_cfb, chacha20_key, chacha20_ietf, xchacha20, rc4_md5_key}

pub data Error : Type 0 where
  cipher_not_supported key_size endless : Error

-- The AEADs of the crypto packages, for a key of the size that `New` asks for, and MD5.
pub record Makers : Type 0 where
  pub gcm : Bytes → Option Aead
  pub chacha20 : Bytes → Option Aead
  pub xchacha20 : Bytes → Option Aead
  pub md5 : Bytes → Bytes

-- The entries of `aeadList` and `streamList` by their constructors.
pub data Kind : Type 0 where
  aead_gcm aead_chacha20 aead_xchacha20 : Kind
  stream_rc4 stream_ctr stream_cfb stream_chacha20 stream_xchacha20 : Kind

pub record Entry : Type 0 where
  pub name : Bytes
  pub size : ℕ
  pub kind : Kind

abbrev entry : Bytes → ℕ → Kind → Entry
entry name size kind = record { name = name; size = size; kind = kind }

abbrev pub aead_list : List Entry
aead_list =
    entry (codes "AEAD_AES_128_GCM") 16 aead_gcm
    ∷ entry (codes "AEAD_AES_192_GCM") 24 aead_gcm
    ∷ entry (codes "AEAD_AES_256_GCM") 32 aead_gcm
    ∷ entry (codes "AEAD_CHACHA20_POLY1305") 32 aead_chacha20
    ∷ entry (codes "AEAD_XCHACHA20_POLY1305") 32 aead_xchacha20
    ∷ []

abbrev pub stream_list : List Entry
stream_list =
    entry (codes "RC4-MD5") 16 stream_rc4
    ∷ entry (codes "AES-128-CTR") 16 stream_ctr
    ∷ entry (codes "AES-192-CTR") 24 stream_ctr
    ∷ entry (codes "AES-256-CTR") 32 stream_ctr
    ∷ entry (codes "AES-128-CFB") 16 stream_cfb
    ∷ entry (codes "AES-192-CFB") 24 stream_cfb
    ∷ entry (codes "AES-256-CFB") 32 stream_cfb
    ∷ entry (codes "CHACHA20-IETF") 32 stream_chacha20
    ∷ entry (codes "XCHACHA20") 32 stream_xchacha20
    ∷ []

abbrev pub find_entry : Bytes → List Entry → Option Entry
find_entry name [] = none
find_entry name (e ∷ es) = if bytes_eq e.name name then some e else find_entry name es

-- `dummy`, `AeadCipher` and `StreamCipher`.
pub data Picked : Type 0 where
  dummy : Picked
  aead_cipher : MetaCipher → Bytes → Picked
  stream_cipher : Shadowstream.Cipher → Bytes → Picked

-- strings.ToUpper, over bytes below 128.
abbrev upper : ℕ → ℕ
upper c = if leb b'a' c && leb c b'z' then c - 32 else c

abbrev pub to_upper : Bytes → Bytes
to_upper = map upper

-- The names that stand for others.
unfoldable pub canonical : Bytes → Bytes
unfolding bytes_eq
canonical name =
    if bytes_eq name (codes "CHACHA20-IETF-POLY1305")
    then codes "AEAD_CHACHA20_POLY1305"
    else if bytes_eq name (codes "XCHACHA20-IETF-POLY1305")
    then codes "AEAD_XCHACHA20_POLY1305"
    else if bytes_eq name (codes "AES-128-GCM")
    then codes "AEAD_AES_128_GCM"
    else if bytes_eq name (codes "AES-192-GCM")
    then codes "AEAD_AES_192_GCM"
    else if bytes_eq name (codes "AES-256-GCM")
    then codes "AEAD_AES_256_GCM"
    else name

-- The loop of `Kdf`: b are the bytes so far, prev the last digest. None is out of fuel.
unfoldable pub kdf_loop :
    (md5 : Bytes → Bytes) (password : Bytes) (key_len fuel : ℕ) (b prev : Bytes) → Option Bytes
kdf_loop md5 password key_len zero b prev = none
kdf_loop md5 password key_len (suc fuel) b prev =
    let digest = md5 (prev ++ password) in
    let rest =
      kdf_loop md5 password key_len fuel (b ++ digest)
        (drop (length (b ++ digest) - length digest) (b ++ digest)) in
    if ltb (length b) key_len then rest else some (take key_len b)

-- `Kdf`: every round adds a digest, so one round more than the key has bytes is enough.
unfoldable pub kdf : (Bytes → Bytes) → Bytes → ℕ → Option Bytes
unfolding kdf_loop
kdf md5 password key_len = kdf_loop md5 password key_len (suc key_len) [] []

module _ (m : Makers) where
  abbrev of_aead : Bytes → Option MetaCipher → Result Error Picked
  of_aead key none = err key_size
  of_aead key (some c) = ok (aead_cipher c key)

  abbrev of_stream : Bytes → Result Shadowstream.Error Shadowstream.Cipher → Result Error Picked
  of_stream key (ok c) = ok (stream_cipher c key)
  of_stream key (err e) = err key_size
  of_stream key panic = panic

  -- `choice.New`, in the cipher that is returned.
  unfoldable pub make : Kind → Bytes → Result Error Picked
  make aead_gcm key = of_aead key (aes_gcm m.gcm key)
  make aead_chacha20 key = of_aead key (chacha20_poly1305 m.chacha20 key)
  make aead_xchacha20 key = of_aead key (chacha20_poly1305 m.xchacha20 key)
  make stream_rc4 key = of_stream key (rc4_md5_key key)
  make stream_ctr key = of_stream key (aes_ctr key)
  make stream_cfb key = of_stream key (aes_cfb key)
  make stream_chacha20 key = of_stream key (chacha20_key chacha20_ietf key)
  make stream_xchacha20 key = of_stream key (chacha20_key xchacha20 key)

  -- What is done with an entry: the key is derived where none is given, and its length is checked.
  unfoldable pub choose : Entry → (key password : Bytes) → Result Error Picked
  unfolding make
  choose e key password = do
    key' ← (if is_empty key then require (kdf m.md5 password e.size) endless else ok key)
    if not (length key' == e.size) then err key_size else make e.kind key'

  abbrev pub pick_listed :
      Option Entry → Option Entry → (key password : Bytes) → Result Error Picked
  pick_listed (some e) s key password = choose e key password
  pick_listed none (some e) key password = choose e key password
  pick_listed none none key password = err cipher_not_supported

  -- `PickCipher`.
  unfoldable pub pick_cipher : (name key password : Bytes) → Result Error Picked
  unfolding choose canonical bytes_eq
  pick_cipher name key password =
      if bytes_eq (to_upper name) (codes "DUMMY")
      then ok dummy
      else (pick_listed (find_entry (canonical (to_upper name)) aead_list)
          (find_entry (canonical (to_upper name)) stream_list) key password)
