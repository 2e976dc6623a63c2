-- ===== src/Ciphers/Tests.antt =====
-- Concrete runs of the choice of a cipher.
use tun_flow.Base.{
  ◌≡◌, refl, [], ◌∷◌, none, some, length, take, replicate, length-replicate, arith, ok, err,
}
use tun_flow.Base.Text.{codes}
use tun_flow.Shadowstream.{chacha20_ietf}
use tun_flow.Ciphers.{
  Makers, pick_cipher, kdf, dummy, stream_cipher, cipher_not_supported, key_size,
}
use tun_flow.Ciphers.Kdf.{digests, kdf-digests}
use tun_flow.Ciphers.Choice.{Outcome, pick_cipher-Outcome}

abbrev zeros : Makers
zeros = record {
  gcm = λ key. none;
  chacha20 = λ key. none;
  xchacha20 = λ key. none;
  md5 = λ b. replicate 16 (length b);
}

kdf_two : kdf zeros.md5 (codes "ab") 18 ≡ some (take 18 (digests zeros.md5 (codes "ab") 2))
unfolding kdf
kdf_two = refl

pick_dummy : pick_cipher zeros (codes "dummy") [] [] ≡ ok dummy
unfolding pick_cipher
pick_dummy = refl

pick_short : pick_cipher zeros (codes "aes-128-gcm") (1 ∷ []) [] ≡ err key_size
unfolding pick_cipher
pick_short = refl

pick_chacha :
    pick_cipher zeros (codes "chacha20-ietf") (replicate 32 1) []
    ≡ ok (stream_cipher (chacha20_ietf (replicate 32 1)) (replicate 32 1))
unfolding pick_cipher
pick_chacha = refl

pick_unknown : pick_cipher zeros (codes "rot13") [] [] ≡ err cipher_not_supported
unfolding pick_cipher
pick_unknown = refl

kdf-digests_example :
    (kdf zeros.md5 (codes "ab") 18 ≡ some (take 18 (digests zeros.md5 (codes "ab") 2)))
    × (length (take 18 (digests zeros.md5 (codes "ab") 2)) ≡ 18)
kdf-digests_example =
    kdf-digests zeros.md5 (codes "ab") (λ b. length-replicate 16 (length b)) 18 2 (omega arith)

pick_cipher-Outcome_example :
    Outcome zeros
      (codes "AES-256-CTR")
      []
      (codes "ab")
      (pick_cipher zeros (codes "AES-256-CTR") [] (codes "ab"))
pick_cipher-Outcome_example =
    pick_cipher-Outcome zeros (λ b. length-replicate 16 (length b)) (codes "AES-256-CTR") []
      (codes "ab")
