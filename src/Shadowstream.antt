-- ===== src/Shadowstream.antt =====
-- transport/shadowsocks/shadowstream: the ciphers of cipher.go. A cipher.Stream of the crypto packages
-- is a parameter, with what these packages document.
pub mod Stream
pub mod Packet
pub mod Connection
mod Tests
use tun_flow.Base.{
  ℕ, ◌≡◌, refl, ◌≢◌, ◌⊎◌, inl, inr, ◌||◌, not, List, [], ◌++◌, Option, none, some, ◌==◌,
  if◌then◌else◌, Bytes, length, Result, ok, err, panic, arith,
}
use tun_flow.Base.Net.{IoError}

pub data Error : Type 0 where
  short_packet short_buffer bad_key_size no_random : Error
  io : IoError → Error

-- The crypto packages; S is the states of cipher.Stream, and none is a refusal or a panic.
pub record Crypto (S : Type 0) : Type 0 where
  pub xor_key_stream : S → Bytes → Bytes × S
  pub new_ctr : Bytes → Bytes → Option S
  pub new_cfb_encrypter : Bytes → Bytes → Option S
  pub new_cfb_decrypter : Bytes → Bytes → Option S
  pub new_unauthenticated_cipher : Bytes → Bytes → Option S
  pub new_rc4 : Bytes → S
  pub md5 : Bytes → Bytes

-- One stream undoes the other.
abbrev pub Opposite : {S : Type 0} → Crypto S → S → S → Type 0
Opposite k e d = (p : Bytes) → (k.xor_key_stream d (k.xor_key_stream e p).0).0 ≡ p

-- Several calls of XORKeyStream are as one call of the bytes together. The modes take an IV of the
-- block's size, and ChaCha20 a key of 32 bytes with a nonce of 12 or 24.
pub record IsCrypto {S : Type 0} (k : Crypto S) : Type 0 where
  pub xor-append :
      (s : S) (a b : Bytes)
      → (k.xor_key_stream s (a ++ b)).0
        ≡ (k.xor_key_stream s a).0 ++ (k.xor_key_stream (k.xor_key_stream s a).1 b).0
  pub length-xor : (s : S) (a : Bytes) → length (k.xor_key_stream s a).0 ≡ length a
  pub ctr_takes : (key iv : Bytes) → length iv ≡ 16 → k.new_ctr key iv ≢ none
  pub cfb_encrypter_takes : (key iv : Bytes) → length iv ≡ 16 → k.new_cfb_encrypter key iv ≢ none
  pub cfb_decrypter_takes : (key iv : Bytes) → length iv ≡ 16 → k.new_cfb_decrypter key iv ≢ none
  pub chacha20_takes :
      (key iv : Bytes)
      → length key ≡ 32
      → (length iv ≡ 12) ⊎ (length iv ≡ 24)
      → k.new_unauthenticated_cipher key iv ≢ none
  pub ctr_self : (key iv : Bytes) (s : S) → k.new_ctr key iv ≡ some s → Opposite k s s
  pub cfb_pair :
      (key iv : Bytes) (e d : S)
      → k.new_cfb_encrypter key iv ≡ some e
      → k.new_cfb_decrypter key iv ≡ some d
      → Opposite k e d
  pub chacha20_self :
      (key iv : Bytes) (s : S) → k.new_unauthenticated_cipher key iv ≡ some s → Opposite k s s
  pub rc4_self : (key : Bytes) → Opposite k (k.new_rc4 key) (k.new_rc4 key)

-- `ctrStream`, `cfbStream`, `chacha20ietfkey`, `xchacha20key` and `rc4Md5Key`, by their keys.
pub data Cipher : Type 0 where
  ctr cfb chacha20_ietf xchacha20 rc4_md5 : Bytes → Cipher

-- `IVSize`.
abbrev pub iv_size : Cipher → ℕ
iv_size (ctr key) = 16
iv_size (cfb key) = 16
iv_size (chacha20_ietf key) = 12
iv_size (xchacha20 key) = 24
iv_size (rc4_md5 key) = 16

-- The constructors, with the key sizes of aes.NewCipher.
abbrev new_aes : (Bytes → Cipher) → Bytes → Result Error Cipher
new_aes make key =
    if length key == 16 || length key == 24 || length key == 32
    then ok (make key)
    else err bad_key_size

abbrev pub aes_ctr : Bytes → Result Error Cipher
aes_ctr = new_aes ctr

abbrev pub aes_cfb : Bytes → Result Error Cipher
aes_cfb = new_aes cfb

abbrev pub chacha20_key : (Bytes → Cipher) → Bytes → Result Error Cipher
chacha20_key make key = if not (length key == 32) then err bad_key_size else ok (make key)

abbrev pub rc4_md5_key : Bytes → Result Error Cipher
rc4_md5_key key = ok (rc4_md5 key)

module _ {S : Type 0} (k : Crypto S) where
  abbrev or_panic : Option S → Result Error S
  or_panic none = panic
  or_panic (some s) = ok s

  -- `Encrypter`.
  unfoldable pub encrypter : Cipher → Bytes → Result Error S
  encrypter (ctr key) iv = or_panic (k.new_ctr key iv)
  encrypter (cfb key) iv = or_panic (k.new_cfb_encrypter key iv)
  encrypter (chacha20_ietf key) iv = or_panic (k.new_unauthenticated_cipher key iv)
  encrypter (xchacha20 key) iv = or_panic (k.new_unauthenticated_cipher key iv)
  encrypter (rc4_md5 key) iv = ok (k.new_rc4 (k.md5 (key ++ iv)))

  -- `Decrypter`: only CFB has one of its own.
  unfoldable pub decrypter : Cipher → Bytes → Result Error S
  unfolding encrypter
  decrypter (ctr key) iv = encrypter (ctr key) iv
  decrypter (cfb key) iv = or_panic (k.new_cfb_decrypter key iv)
  decrypter (chacha20_ietf key) iv = encrypter (chacha20_ietf key) iv
  decrypter (xchacha20 key) iv = encrypter (xchacha20 key) iv
  decrypter (rc4_md5 key) iv = encrypter (rc4_md5 key) iv

-- The key that the constructor of the cipher has let through.
abbrev pub HasKey : Cipher → Type 0
HasKey (ctr key) = Unit {0}
HasKey (cfb key) = Unit {0}
HasKey (chacha20_ietf key) = length key ≡ 32
HasKey (xchacha20 key) = length key ≡ 32
HasKey (rc4_md5 key) = Unit {0}

-- A pair of streams of the cipher that undo one another.
pub record Streams {S : Type 0} (k : Crypto S) (c : Cipher) (iv : Bytes) : Type 0 where
  pub e : S
  pub d : S
  pub encrypts : encrypter k c iv ≡ ok e
  pub decrypts : decrypter k c iv ≡ ok d
  pub opposite : Opposite k e d

made : {S : Type 0} (o : Option S) → o ≢ none → (s : S) × (o ≡ some s)
made none h = absurd (h refl)
made (some s) h = (s, refl)

-- With an IV of the cipher's size and a key of its constructor both directions have their streams, so
-- the panics of cipher.go that should never happen do not, and decryption undoes encryption.
pub cipher-Streams :
    {S : Type 0} (k : Crypto S) (c : Cipher) (iv : Bytes)
    → IsCrypto k
    → HasKey c
    → length iv ≡ iv_size c
    → Streams k c iv
unfolding encrypter decrypter
cipher-Streams k (ctr key) iv lawful has size =
    let (s, q) = made (k.new_ctr key iv) (lawful.ctr_takes key iv size) in
    record { e = s; d = s; encrypts = rw q; decrypts = rw q; opposite = lawful.ctr_self key iv s q }
cipher-Streams k (cfb key) iv lawful has size =
    let (s, q) = made (k.new_cfb_encrypter key iv) (lawful.cfb_encrypter_takes key iv size) in
    let (t, r) = made (k.new_cfb_decrypter key iv) (lawful.cfb_decrypter_takes key iv size) in
    record {
      e = s;
      d = t;
      encrypts = rw q;
      decrypts = rw r;
      opposite = lawful.cfb_pair key iv s t q r;
    }
cipher-Streams k (chacha20_ietf key) iv lawful has size =
    let (s, q) =
      made (k.new_unauthenticated_cipher key iv) (lawful.chacha20_takes key iv has (inl size)) in
    record {
      e = s;
      d = s;
      encrypts = rw q;
      decrypts = rw q;
      opposite = lawful.chacha20_self key iv s q;
    }
cipher-Streams k (xchacha20 key) iv lawful has size =
    let (s, q) =
      made (k.new_unauthenticated_cipher key iv) (lawful.chacha20_takes key iv has (inr size)) in
    record {
      e = s;
      d = s;
      encrypts = rw q;
      decrypts = rw q;
      opposite = lawful.chacha20_self key iv s q;
    }
cipher-Streams k (rc4_md5 key) iv lawful has size = record {
  e = k.new_rc4 (k.md5 (key ++ iv));
  d = k.new_rc4 (k.md5 (key ++ iv));
  encrypts = refl;
  decrypts = refl;
  opposite = lawful.rc4_self (k.md5 (key ++ iv));
}
