-- ===== src/Allocator/Bits.antt =====
-- `msb` is the position of the highest bit.
use tun_flow.Base.{
  ℕ, zero, suc, ◌+◌, ◌-◌, ◌*◌, ◌/◌, ◌%◌, ◌^◌, ◌≤◌, ◌<◌, ◌≡◌, ◌⊎◌, leb, leb→le, ap, ◌∙◌, refl, arith,
  ◌==◌, Bool-cases, inl, inr,
}
use tun_flow.Allocator.{len_bits, msb, shl}

-- One more bit.
one_more :
    (n l : ℕ)
    → 1 ≤ n
    → n / 2 < 2 ^ l
    → (2 ^ l ≤ 2 * (n / 2)) ⊎ ((n / 2 ≡ 0) × (l ≡ 0))
    → (n < 2 ^ suc l) × (2 ^ suc l ≤ 2 * n)
one_more n l h a (inl high) = (omega arith, omega arith)
one_more n zero h a (inr low) = (omega arith, omega arith)
one_more n (suc l) h a (inr low) = absurd (omega (arith, low.1))

len_bits-bounds :
    (fuel n : ℕ)
    → n < 2 ^ fuel
    → (n < 2 ^ len_bits fuel n)
      × ((2 ^ len_bits fuel n ≤ 2 * n) ⊎ ((n ≡ 0) × (len_bits fuel n ≡ 0)))
      × (len_bits fuel n ≤ fuel)
unfolding len_bits
len_bits-bounds zero n h = (omega arith, inr (omega arith, refl), omega arith)
len_bits-bounds (suc fuel) n h = elim (Bool-cases (n == 0)) [
  | inl e ↦ rw e (ground arith, inr (ground arith, refl), omega arith)
  | inr e ↦
      let (a, b, c) = len_bits-bounds fuel (n / 2) (omega arith) in
      let (up, high) = one_more n (len_bits fuel (n / 2)) (ground arith) a b in
      rw e (up, inl high, omega (arith, c))
]

pow_le : (m k j : ℕ) → j ≡ m + k → 2 ^ m ≤ 2 ^ j
pow_le m zero j e = omega (arith, ap (λ x. 2 ^ x) (e ∙ add_nothing m))
  where
    add_nothing : (x : ℕ) → x + 0 ≡ x
    add_nothing x = omega arith
pow_le m (suc k) zero e = absurd (omega arith)
pow_le m (suc k) (suc j) e = omega (arith, pow_le m k j (omega arith))

-- A number up to 65536 has at most 17 bits.
few_bits : (l n : ℕ) → 2 ^ l ≤ 2 * n → n ≤ 65536 → l ≤ 17
few_bits l n h hi = elim (Bool-cases (leb l 17)) [
  | inl few ↦ leb→le l 17 few
  | inr many ↦ absurd (omega (arith, pow_le 18 (l - 18) l (ground arith)))
]

from_bits :
    (n l : ℕ)
    → 1 ≤ n
    → n ≤ 65536
    → n < 2 ^ l
    → 2 ^ l ≤ 2 * n
    → (m : ℕ) × ((l + 65535) % 65536 ≡ m)
      × (2 ^ m ≤ n)
      × (n < 2 ^ suc m)
      × (m ≤ 16)
      × (shl m ≡ 2 ^ m)
from_bits n zero lo hi a b = absurd (omega arith)
from_bits n (suc m) lo hi a b =
    let few = few_bits (suc m) n b hi in
    let small : 2 ^ m ≤ 65536 = omega arith in
    (m, omega (arith, few), omega arith, a, omega (arith, few), ground (arith, few, small))

-- The power of two at `msb` is the greatest one that is not over the size.
pub msb-bounds :
    (n : ℕ)
    → 1 ≤ n
    → n ≤ 65536
    → (2 ^ msb n ≤ n) × (n < 2 ^ suc (msb n)) × (msb n ≤ 16) × (shl (msb n) ≡ 2 ^ msb n)
unfolding msb
msb-bounds n lo hi =
    let small : n % 2 ^ 32 ≡ n = omega arith in
    let (a, b, c) = len_bits-bounds 32 n (omega arith) in
    elim b [
      | inr (z, e) ↦ absurd (omega (arith, z))
      | inl high ↦
          let (m, e, lo', hi', few, power) = from_bits n (len_bits 32 n) lo hi a high in
          rw (small, e) (lo', hi', few, power)
    ]
