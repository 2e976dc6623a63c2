-- ===== src/Aead/Nonce.antt =====
-- `increment` of stream.go: a nonce counts, and no nonce comes twice.
use tun_flow.Base.{
  ℕ, zero, suc, ◌+◌, ◌*◌, ◌%◌, ◌^◌, ◌<◌, ◌≡◌, ◌≢◌, sym, ap, ◌∙◌, [], ◌∷◌, ◌⊎◌, inl, inr, arith,
  Bytes, All, length, replicate, ◌==◌, if◌then◌else◌, not,
}

-- `increment`, from the first byte on.
unfoldable pub increment : Bytes → Bytes
increment [] = []
increment (b ∷ bs) =
    let rest = increment bs in
    let b' = (b + 1) % 256 in if not (b' == 0) then b' ∷ bs else b' ∷ rest

-- The number that the bytes write, the first the least.
abbrev pub le_value : Bytes → ℕ
le_value [] = 0
le_value (b ∷ bs) = b + 256 * le_value bs

abbrev IsFull : Bytes → Type 0
IsFull b = le_value b + 1 ≡ 256 ^ length b

increment-step :
    (b : Bytes)
    → All (λ x. x < 256) b
    → All (λ x. x < 256) (increment b)
      × (length (increment b) ≡ length b)
      × ((le_value (increment b) ≡ le_value b + 1) ⊎ (IsFull b × (le_value (increment b) ≡ 0)))
unfolding increment
increment-step [] h = ground arith
increment-step (x ∷ b) h = ground (arith, increment-step b h.1)

-- The nonce after k steps from b.
abbrev pub steps : ℕ → Bytes → Bytes
steps zero b = b
steps (suc k) b = increment (steps k b)

-- All zero bytes, as a new array is.
abbrev pub fresh : ℕ → Bytes
fresh n = replicate n 0

fresh-bytes :
    (n : ℕ) → All (λ x. x < 256) (fresh n) × (le_value (fresh n) ≡ 0) × (length (fresh n) ≡ n)
fresh-bytes zero = ground arith
fresh-bytes (suc n) = ground (arith, fresh-bytes n)

steps-value :
    (n k : ℕ)
    → k < 256 ^ n
    → All (λ x. x < 256) (steps k (fresh n))
      × (length (steps k (fresh n)) ≡ n)
      × (le_value (steps k (fresh n)) ≡ k)
steps-value n zero h = let (a, v, l) = fresh-bytes n in (a, l, v)
steps-value n (suc k) h =
    let (all, size, v) = steps-value n k (omega arith) in
    let (all', size', count) = increment-step (steps k (fresh n)) all in
    (
      all',
      size' ∙ size,
      (elim count [
        | inl up ↦ omega (arith, up, v)
        | inr (full, back) ↦ absurd (omega (arith, full, v, ap (λ m. 256 ^ m) size))
      ]),
    )

-- No nonce comes twice: of the nonces of n bytes that `increment` makes one after another from the zero
-- nonce, the i-th and the j-th differ for all i < j below 256 ^ n.
pub steps-ne : (n i j : ℕ) → i < j → j < 256 ^ n → steps i (fresh n) ≢ steps j (fresh n)
steps-ne n i j h k e =
    let (a, l, v) = steps-value n i (omega arith) in
    let (b, m, w) = steps-value n j k in omega (arith, sym v ∙ ap le_value e ∙ w)
