-- ===== src/Ciphers/Choice.antt =====
-- `PickCipher` of transport/shadowsocks/core/cipher.go: which names and keys it accepts.
use tun_flow.Base.{
  All, subst, not, take, ◌||◌, ℕ, ◌≡◌, refl, ap, ◌∙◌, ◌⊎◌, inl, inr, ◌≢◌, true, List, [], ◌∷◌,
  Option, none, some, arith, ◌==◌, if◌then◌else◌, Bytes, length, is_empty, Result, ok, err,
  Bool-cases,
}
use tun_flow.Base.Text.{codes, bytes_eq, bytes_eq_iff}
use tun_flow.Shadowstream.{ctr, cfb, chacha20_ietf, xchacha20, rc4_md5}
use tun_flow.Ciphers.{
  Error, cipher_not_supported, key_size, Makers, Kind, Entry, Picked, dummy, aead_cipher,
  stream_cipher, aead_list, stream_list, find_entry, make, choose, pick_listed, pick_cipher,
  canonical, to_upper, aead_gcm, aead_chacha20, aead_xchacha20, stream_rc4, stream_ctr, stream_cfb,
  stream_chacha20, stream_xchacha20,
}
use tun_flow.Ciphers.Kdf.{digests, kdf-digests}

abbrev first_of : Option Entry → Option Entry → Option Entry
first_of (some e) s = some e
first_of none s = s

-- The entry of a name that is not DUMMY.
abbrev pub entry_of : Bytes → Option Entry
entry_of name =
    first_of (find_entry (canonical (to_upper name)) aead_list)
      (find_entry (canonical (to_upper name)) stream_list)

-- The sizes that the constructor of a kind takes.
abbrev pub Takes : Kind → ℕ → Type 0
Takes aead_gcm n = (n ≡ 16) ⊎ (n ≡ 24) ⊎ (n ≡ 32)
Takes aead_chacha20 n = n ≡ 32
Takes aead_xchacha20 n = n ≡ 32
Takes stream_rc4 n = n ≡ 16
Takes stream_ctr n = (n ≡ 16) ⊎ (n ≡ 24) ⊎ (n ≡ 32)
Takes stream_cfb n = (n ≡ 16) ⊎ (n ≡ 24) ⊎ (n ≡ 32)
Takes stream_chacha20 n = n ≡ 32
Takes stream_xchacha20 n = n ≡ 32

-- The cipher of a kind with its key.
abbrev pub cipher_of : Makers → Kind → Bytes → Picked
cipher_of m aead_gcm key = aead_cipher (record { psk = key; make_aead = m.gcm }) key
cipher_of m aead_chacha20 key = aead_cipher (record { psk = key; make_aead = m.chacha20 }) key
cipher_of m aead_xchacha20 key = aead_cipher (record { psk = key; make_aead = m.xchacha20 }) key
cipher_of m stream_rc4 key = stream_cipher (rc4_md5 key) key
cipher_of m stream_ctr key = stream_cipher (ctr key) key
cipher_of m stream_cfb key = stream_cipher (cfb key) key
cipher_of m stream_chacha20 key = stream_cipher (chacha20_ietf key) key
cipher_of m stream_xchacha20 key = stream_cipher (xchacha20 key) key

-- How `PickCipher` ends for an entry and the key that is used.
pub data Chosen (m : Makers) (e : Entry) (key : Bytes) : Result Error Picked → Type 0 where
  chosen : length key ≡ e.size → Takes e.kind e.size → Chosen m e key (ok (cipher_of m e.kind key))
  refused : length key ≢ e.size → Chosen m e key (err key_size)

abbrev HasTaken : Entry → Type 0
HasTaken e = Takes e.kind e.size

aead_list-HasTaken : All HasTaken aead_list
aead_list-HasTaken = omega arith

stream_list-HasTaken : All HasTaken stream_list
stream_list-HasTaken = omega arith

find_entry-HasTaken :
    (name : Bytes) (es : List Entry) {e : Entry}
    → All HasTaken es
    → find_entry name es ≡ some e
    → HasTaken e
find_entry-HasTaken name [] h found = cc
find_entry-HasTaken name (x ∷ es) {e} h found = elim (Bool-cases (bytes_eq x.name name)) [
  | inl same ↦ let eq : x ≡ e = ground (arith, same, found) in subst HasTaken eq h.0
  | inr other ↦ find_entry-HasTaken name es {e = e} h.1 (ground (arith, other, found))
]

is_aes :
    (key : Bytes) (size : ℕ)
    → (size ≡ 16) ⊎ (size ≡ 24) ⊎ (size ≡ 32)
    → length key ≡ size
    → (length key == 16 || length key == 24 || length key == 32) ≡ true
is_aes key size takes h = ground arith

is_chacha : (key : Bytes) (size : ℕ) → size ≡ 32 → length key ≡ size → (length key == 32) ≡ true
is_chacha key size takes h = ground arith

-- The key that is used: the one given, or as many bytes of the password's digests.
abbrev pub key_used : Makers → ℕ → (key password : Bytes) → Bytes
key_used m size key password = if is_empty key then take size (digests m.md5 password size) else key

module _ (m : Makers) (sized : (b : Bytes) → length (m.md5 b) ≡ 16) where
  make-cipher_of :
      (kind : Kind) (size : ℕ) (key : Bytes)
      → Takes kind size
      → length key ≡ size
      → make m kind key ≡ ok (cipher_of m kind key)
  unfolding make
  make-cipher_of aead_gcm size key takes h = rw (is_aes key size takes h) refl
  make-cipher_of aead_chacha20 size key takes h = rw (is_chacha key size takes h) refl
  make-cipher_of aead_xchacha20 size key takes h = rw (is_chacha key size takes h) refl
  make-cipher_of stream_rc4 size key takes h = refl
  make-cipher_of stream_ctr size key takes h = rw (is_aes key size takes h) refl
  make-cipher_of stream_cfb size key takes h = rw (is_aes key size takes h) refl
  make-cipher_of stream_chacha20 size key takes h = rw (is_chacha key size takes h) refl
  make-cipher_of stream_xchacha20 size key takes h = rw (is_chacha key size takes h) refl

  checked-Chosen :
      (e : Entry) (key : Bytes)
      → HasTaken e
      → Chosen m e key (if not (length key == e.size) then err key_size else make m e.kind key)
  checked-Chosen e key takes = elim (Bool-cases (length key == e.size)) [
    | inl same ↦
        let h : length key ≡ e.size = ground (arith, same) in
        rw (same, make-cipher_of e.kind e.size key takes h) (chosen h takes)
    | inr other ↦ rw other (refused (ground (arith, other)))
  ]

  choose-Chosen :
      (e : Entry) (key password : Bytes)
      → HasTaken e
      → Chosen m e (key_used m e.size key password) (choose m e key password)
  unfolding choose
  choose-Chosen e [] password takes =
      rw (kdf-digests m.md5 password sized e.size e.size (omega arith)).0
        (checked-Chosen e (take e.size (digests m.md5 password e.size)) takes)
  choose-Chosen e (x ∷ key) password takes = checked-Chosen e (x ∷ key) takes

-- How `PickCipher` ends.
pub data Outcome (m : Makers) (name key password : Bytes) : Result Error Picked → Type 0 where
  plain : to_upper name ≡ codes "DUMMY" → Outcome m name key password (ok dummy)
  unknown :
      to_upper name ≢ codes "DUMMY"
      → entry_of name ≡ none
      → Outcome m name key password (err cipher_not_supported)
  listed :
      {e : Entry} {r : Result Error Picked}
      → to_upper name ≢ codes "DUMMY"
      → entry_of name ≡ some e
      → Chosen m e (key_used m e.size key password) r
      → Outcome m name key password r

module _ (m : Makers) (sized : (b : Bytes) → length (m.md5 b) ≡ 16) where
  listed-Outcome :
      (name key password : Bytes) (a s : Option Entry)
      → to_upper name ≢ codes "DUMMY"
      → find_entry (canonical (to_upper name)) aead_list ≡ a
      → find_entry (canonical (to_upper name)) stream_list ≡ s
      → Outcome m name key password (pick_listed m a s key password)
  listed-Outcome name key password (some e) s other ea es = listed {e = e} other (rw ea refl) (
      choose-Chosen m sized e key password
        (find_entry-HasTaken (canonical (to_upper name)) aead_list aead_list-HasTaken ea))
  listed-Outcome name key password none (some e) other ea es =
      listed {e = e} other (rw (ea, es) refl) (
        choose-Chosen m sized e key password
          (find_entry-HasTaken (canonical (to_upper name)) stream_list stream_list-HasTaken es))
  listed-Outcome name key password none none other ea es =
      unknown other
        (ap (λ o. first_of o (find_entry (canonical (to_upper name)) stream_list)) ea ∙ es)

  -- Every way in which `PickCipher` ends, whatever the name, the key and the password are. The name
  -- DUMMY, in letters of either case, gives the cipher that does nothing. A name that is in neither
  -- list, also not as another name of an AEAD, is not supported. Otherwise the key is the one given,
  -- or, where that is empty, the first bytes of the digests of the password; a key of another length
  -- than the entry's is refused, and else the cipher is the one of the entry's kind with that key, which is
  -- of a size that the kind takes.
  pub pick_cipher-Outcome :
      (name key password : Bytes) → Outcome m name key password (pick_cipher m name key password)
  unfolding pick_cipher
  pick_cipher-Outcome name key password =
      elim (Bool-cases (bytes_eq (to_upper name) (codes "DUMMY"))) [
        | inl same ↦ rw same (plain ((bytes_eq_iff (to_upper name) (codes "DUMMY")).0 same))
        | inr other ↦ rw other (
            listed-Outcome name key password (find_entry (canonical (to_upper name)) aead_list)
              (find_entry (canonical (to_upper name)) stream_list)
              (λ e. cc (other, (bytes_eq_iff (to_upper name) (codes "DUMMY")).1 e)) refl refl)
      ]
