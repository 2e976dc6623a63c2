-- ===== src/Socks5/Addr/Split.antt =====
-- What `SplitAddr` cuts off: the head of its argument, and a whole address where one stands there.
use tun_flow.Base.{
  ℕ, ◌≤◌, ◌≡◌, ◌≢◌, refl, sym, ap, ◌⊎◌, [], ◌∷◌, ◌++◌, none, some, arith, Bytes, length, take,
  length-take, length-append, take-append, ok, panic, slice-ok, inl, inr,
}
use tun_flow.Socks5.{Error}
use tun_flow.Socks5.Addr.{split_addr, addr_len, cut}

-- The switch is right where it can look at the first byte.
addr_len-ok :
    (x : ℕ) (r : Bytes)
    → (addr_len (x ∷ r) ≡ ok none) ⊎ ((n : ℕ) × (addr_len (x ∷ r) ≡ ok (some n)) × (1 ≤ n))
unfolding addr_len
addr_len-ok x [] = ground arith
addr_len-ok x (y ∷ r) = ground arith

cut_lem :
    (b : Bytes) (n : ℕ)
    → (cut b (some n) ≡ ok none) ⊎ ((n ≤ length b) × (cut b (some n) ≡ ok (some (take n b))))
unfolding cut
cut_lem b n = ground (arith, slice-ok {E = Error} b 0 n)

cut-none : (b : Bytes) → cut b none ≡ ok none
unfolding cut
cut-none b = refl

-- `SplitAddr` finds nothing, or the head of its argument, of at least one byte.
pub split_addr-cases :
    (b : Bytes)
    → (split_addr b ≡ ok none)
      ⊎ ((n : ℕ) × (split_addr b ≡ ok (some (take n b))) × (n ≤ length b) × (1 ≤ n))
unfolding split_addr
split_addr-cases [] = inl refl
split_addr-cases (x ∷ r) = elim (addr_len-ok x r) [
  | inl e ↦ inl (ground (arith, e, cut-none (x ∷ r)))
  | inr (n, e, pos) ↦ elim (cut_lem (x ∷ r) n) [
    | inl c ↦ inl (ground (arith, e, c))
    | inr (fits, c) ↦ inr (n, ground (arith, e, c), fits, pos)
  ]
]

-- The length that the switch gave to an address that was found.
pub split_addr-addr_len :
    (x : ℕ) (r : Bytes) {a : Bytes}
    → split_addr (x ∷ r) ≡ ok (some a)
    → (n : ℕ) × (addr_len (x ∷ r) ≡ ok (some n)) × (a ≡ take n (x ∷ r)) × (n ≤ length (x ∷ r))
unfolding split_addr
split_addr-addr_len x r {a} h = elim (addr_len-ok x r) [
  | inl e ↦ absurd (ground (arith, e, cut-none (x ∷ r)))
  | inr (n, e, pos) ↦ elim (cut_lem (x ∷ r) n) [
    | inl c ↦ absurd (ground (arith, e, c))
    | inr (fits, c) ↦ (n, e, ground (arith, e, c), fits)
  ]
]

pub split_addr-ne-panic : (b : Bytes) → split_addr b ≢ panic
split_addr-ne-panic b = ground (arith, split_addr-cases b)

-- The address that `SplitAddr` finds is the head of its argument.
pub split_addr-take :
    (b : Bytes) {a : Bytes}
    → split_addr b ≡ ok (some a)
    → (a ≡ take (length a) b) × (length a ≤ length b) × (1 ≤ length a)
split_addr-take b {a} h = elim (split_addr-cases b) [
  | inl e ↦ absurd (ground (arith, e))
  | inr (n, e, fits, pos) ↦
      let head : take n b ≡ a = ground arith in
      let size : length a ≡ n = omega (arith, ap (length {0}) head, length-take {0} n b) in
      (rw size (sym head), omega arith, omega arith)
]

cut-append : (a rest : Bytes) → cut (a ++ rest) (some (length a)) ≡ ok (some a)
unfolding cut
cut-append a rest = ground (
  arith,
  length-append {0} a rest,
  slice-ok {E = Error} (a ++ rest) 0 (length a),
  take-append {0} a rest,
)

-- Where the switch knows the length of `a`, `SplitAddr` gets `a` back with anything behind it.
pub split_addr-append :
    (x : ℕ) (r rest : Bytes)
    → addr_len (x ∷ (r ++ rest)) ≡ ok (some (length (x ∷ r)))
    → split_addr (x ∷ (r ++ rest)) ≡ ok (some (x ∷ r))
unfolding split_addr
split_addr-append x r rest h = ground (arith, h, cut-append (x ∷ r) rest)
