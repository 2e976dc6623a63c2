-- ===== src/Ciphers/Kdf.antt =====
-- `Kdf` of transport/shadowsocks/core/cipher.go makes the digests of the original Shadowsocks.
use tun_flow.Base.{
  ℕ, zero, suc, ◌+◌, ◌*◌, ◌-◌, ◌≤◌, ◌<◌, ◌≡◌, refl, sym, ap, ◌∙◌, inl, inr, [], ◌∷◌, ◌++◌, some,
  arith, ltb, ltb→lt, Bytes, length, take, drop, length-append, length-take, drop-append_of_eq,
  Bool-cases,
}
use tun_flow.Ciphers.{kdf, kdf_loop}

module _ (md5 : Bytes → Bytes) (password : Bytes) where
  -- The first digest is of the password, and each other of the one before it with the password behind.
  abbrev pub digest : ℕ → Bytes
  digest zero = md5 password
  digest (suc i) = md5 (digest i ++ password)

  abbrev pub before : ℕ → Bytes
  before zero = []
  before (suc i) = digest i

  -- The digests one behind another.
  abbrev pub digests : ℕ → Bytes
  digests zero = []
  digests (suc i) = digests i ++ digest i

  digest-before : (i : ℕ) → md5 (before i ++ password) ≡ digest i
  digest-before zero = refl
  digest-before (suc i) = refl

take-append_le : (n : ℕ) (xs ys : Bytes) → n ≤ length xs → take n (xs ++ ys) ≡ take n xs
take-append_le zero xs ys h = refl
take-append_le (suc n) [] ys h = absurd (omega arith)
take-append_le (suc n) (x ∷ xs) ys h = ap (◌∷◌ x) (take-append_le n xs ys (omega arith))

module _ (md5 : Bytes → Bytes) (password : Bytes) (sized : (b : Bytes) → length (md5 b) ≡ 16) where
  length-digests : (i : ℕ) → length (digests md5 password i) ≡ 16 * i
  length-digests zero = refl
  length-digests (suc zero) = omega (arith, sized password)
  length-digests (suc (suc i)) = omega (
    arith,
    length-digests (suc i),
    length-append {0} (digests md5 password (suc i)) (digest md5 password (suc i)),
    sized (digest md5 password i ++ password),
  )

  -- More digests do not change the bytes of the key.
  take-digests_add :
      (n i d : ℕ)
      → n ≤ 16 * i
      → take n (digests md5 password (d + i)) ≡ take n (digests md5 password i)
  take-digests_add n i zero h =
      let e : 0 + i ≡ i = omega arith in ap (λ m. take n (digests md5 password m)) e
  take-digests_add n i (suc d) h =
      let e : suc d + i ≡ suc (d + i) = omega arith in
      rw e (
        take-append_le n (digests md5 password (d + i)) (digest md5 password (d + i))
          (omega (arith, length-digests (d + i)))
        ∙ take-digests_add n i d h)

  take-digests :
      (n i j : ℕ)
      → n ≤ 16 * i
      → n ≤ 16 * j
      → take n (digests md5 password i) ≡ take n (digests md5 password j)
  take-digests n i j h k =
      let e : j + i ≡ i + j = omega arith in
      sym (take-digests_add n i j h)
      ∙ ap (λ m. take n (digests md5 password m)) e
      ∙ take-digests_add n j i k

  -- What a round hands on.
  round-digests :
      (n fuel i : ℕ)
      → kdf_loop md5 password n fuel
          (digests md5 password i ++ md5 (before md5 password i ++ password))
          (drop
            (length (digests md5 password i ++ md5 (before md5 password i ++ password))
              - length (md5 (before md5 password i ++ password)))
            (digests md5 password i ++ md5 (before md5 password i ++ password)))
        ≡ kdf_loop md5 password n fuel (digests md5 password (suc i)) (before md5 password (suc i))
  round-digests n fuel i = rw (
    digest-before md5 password i,
    drop-append_of_eq {0}
        (length (digests md5 password i ++ digest md5 password i) - length (digest md5 password i))
        (digests md5 password i) (digest md5 password i)
        (omega (arith, length-append {0} (digests md5 password i) (digest md5 password i))),
  )

  kdf_loop-digests :
      (n fuel i j : ℕ)
      → 0 < fuel
      → n < 16 * i + fuel
      → n ≤ 16 * j
      → kdf_loop md5 password n fuel (digests md5 password i) (before md5 password i)
        ≡ some (take n (digests md5 password j))
  unfolding kdf_loop
  kdf_loop-digests n zero i j pos h k = absurd (omega arith)
  kdf_loop-digests n (suc fuel) i j pos h k =
      let size = length-digests i in
      elim (Bool-cases (ltb (length (digests md5 password i)) n)) [
        | inl short ↦
            let lt = ltb→lt (length (digests md5 password i)) n short in
            rw short (
              round-digests n fuel i
              ∙ kdf_loop-digests n fuel (suc i) j (omega (arith, size, lt)) (omega arith) k)
        | inr long ↦ rw long (ap some (take-digests n i j (ground (arith, size, long)) k))
      ]

  -- `Kdf` ends, and for every n its key is the first bytes of the digests D1, D2, … one behind another,
  -- where D1 is the MD5 of the password and each other is that of the one before it with the password
  -- behind; as many digests as hold the key are enough. The key has the length that was asked for.
  pub kdf-digests :
      (n j : ℕ)
      → n ≤ 16 * j
      → (kdf md5 password n ≡ some (take n (digests md5 password j)))
        × (length (take n (digests md5 password j)) ≡ n)
  unfolding kdf
  kdf-digests n j h = (
    kdf_loop-digests n (suc n) 0 j (omega arith) (omega arith) h,
    omega (arith, length-take {0} n (digests md5 password j), length-digests j),
  )
