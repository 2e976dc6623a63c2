-- ===== src/Allocator/Laws.antt =====
-- What `Get` returns, and that the pools keep buffers of their size.
use tun_flow.Base.{
  ℕ, zero, suc, pos, ◌+◌, ◌*◌, ◌^◌, ◌≤◌, ◌<◌, ◌≡◌, ◌≢◌, refl, sym, ap, subst, ◌∙◌, ◌⊎◌, inl, inr,
  false, List, [], ◌∷◌, some, ltb, ◌==◌, ==_iff, if◌then◌else◌, get_elem?, length, All, ok, err,
  arith, Bool-cases,
}
use tun_flow.Allocator.{Buffer, Pools, msb, shl, pick_from, picked, set_at, pool_get, get, put}
use tun_flow.Allocator.Bits.{msb-bounds}

-- The pool at the index i, counted from k, holds buffers of 2 ^ i bytes.
abbrev pub Sorted : ℕ → Pools → Type 0
Sorted k [] = Unit
Sorted k (p ∷ ps) = All (λ c. c ≡ 2 ^ k) p × Sorted (suc k) ps

-- There are 17 of them.
pub record IsPools (ps : Pools) : Type 0 where
  pub sorted : Sorted 0 ps
  pub seventeen : length ps ≡ 17

Sorted-get :
    (k b i : ℕ) (ps : Pools)
    → i ≡ b + k
    → b < length ps
    → Sorted k ps
    → (p : List ℕ) × (get_elem? ps b ≡ some p) × All (λ c. c ≡ 2 ^ i) p
Sorted-get k b i [] e h s = absurd (omega arith)
Sorted-get k zero i (p ∷ ps) e h s =
    let same : k ≡ i = omega arith in (p, refl, subst (λ j. All (λ c. c ≡ 2 ^ j) p) same s.0)
Sorted-get k (suc b) i (p ∷ ps) e h s = Sorted-get (suc k) b i ps (omega arith) (omega arith) s.1

Sorted-set :
    (k b i : ℕ) (q : List ℕ) (ps : Pools)
    → i ≡ b + k
    → All (λ c. c ≡ 2 ^ i) q
    → Sorted k ps
    → Sorted k (set_at b q ps) × (length (set_at b q ps) ≡ length ps)
Sorted-set k b i q [] e h s = (tt, refl)
Sorted-set k zero i q (p ∷ ps) e h s =
    let same : i ≡ k = omega arith in ((subst (λ j. All (λ c. c ≡ 2 ^ j) q) same h, s.1), refl)
Sorted-set k (suc b) i q (p ∷ ps) e h s =
    let (sorted, size) = Sorted-set (suc k) b i q ps (omega arith) h s.1 in
    ((s.0, sorted), ap suc size)

-- A buffer that a pool of buffers of 2 ^ i bytes hands out, and those that stay.
pick_from-All :
    (i choice : ℕ) (p : List ℕ)
    → All (λ c. c ≡ 2 ^ i) p
    → ((picked i (pick_from p choice).0).cap ≡ 2 ^ i) × All (λ c. c ≡ 2 ^ i) (pick_from p choice).1
pick_from-All i choice [] h = (refl, tt)
pick_from-All i zero (c ∷ p) h = (h.0, h.1)
pick_from-All i (suc k) (c ∷ p) h = let (a, b) = pick_from-All i k p h.1 in (a, (h.0, b))

pool_get-ok :
    (b choice : ℕ) (ps : Pools)
    → b ≤ 16
    → IsPools ps
    → (buf : Buffer) × (ps' : Pools) × (pool_get b choice ps ≡ ok (buf, ps'))
      × (buf.cap ≡ 2 ^ b)
      × IsPools ps'
unfolding pool_get
pool_get-ok b choice ps h w =
    let (p, found, all) = Sorted-get 0 b b ps (omega arith) (omega (arith, w.seventeen)) w.sorted in
    let (cap_is, rest) = pick_from-All b choice p all in
    let (sorted, size) = Sorted-set 0 b b (pick_from p choice).1 ps (omega arith) rest w.sorted in
    rw found (_, _, refl, cap_is, record { sorted = sorted; seventeen = size ∙ w.seventeen })

different : {a b : ℕ} → (a == b) ≡ false → a ≢ b
different h e = ground arith

over_half :
    (n m : ℕ)
    → 2 ^ m ≤ n
    → n < 2 ^ suc m
    → m ≤ 16
    → n ≤ 65536
    → n ≢ 2 ^ m
    → (n ≤ 2 ^ suc m) × (2 ^ suc m < 2 * n) × (suc m ≤ 16)
over_half n m a b c hi ne = (
  omega arith,
  omega (arith, ne),
  (elim (Bool-cases (m == 16)) [
    | inl top ↦
        let is_16 : m ≡ 16 = ground arith in absurd (omega (arith, ne, ap (λ j. 2 ^ j) is_16))
    | inr below ↦ let other : m ≢ 16 = ground arith in omega (arith, other)
  ]),
)

-- The pool that `Get` takes a buffer of n bytes from is the smallest that has one.
abbrev pool_for : ℕ → ℕ
pool_for n = if n == shl (msb n) then msb n else suc (msb n)

pool_for-bounds :
    (n : ℕ)
    → 1 ≤ n
    → n ≤ 65536
    → (n ≤ 2 ^ pool_for n) × (2 ^ pool_for n < 2 * n) × (pool_for n ≤ 16)
pool_for-bounds n lo hi =
    let (a, b, c, e) = msb-bounds n lo hi in
    elim (Bool-cases (n == shl (msb n))) [
      | inl power ↦
          let same : n ≡ shl (msb n) = (==_iff n (shl (msb n))).0 power in
          rw power (omega (arith, same, e), omega (arith, same, e), c)
      | inr other ↦
          rw other (over_half n (msb n) a b c hi (λ q. absurd (different other (q ∙ sym e))))
    ]

-- `Get` of a size from 1 to 65536 returns, whatever the pools hold and hand out, a buffer of that
-- length whose capacity is a power of two less than twice the size, so that less than half of it is
-- waste, and the pools keep buffers of their own size only.
pub get-fits :
    (n choice : ℕ) (ps : Pools)
    → 1 ≤ n
    → n ≤ 65536
    → IsPools ps
    → (buf : Buffer) × (ps' : Pools) × (k : ℕ) × (get (pos n) choice ps ≡ ok (some buf, ps'))
      × (buf.len ≡ n)
      × (n ≤ buf.cap)
      × (buf.cap < 2 * n)
      × (buf.cap ≡ 2 ^ k)
      × IsPools ps'
unfolding get
get-fits n choice ps lo hi w =
    let (fits, tight, few) = pool_for-bounds n lo hi in
    let (buf, ps', e, c, w') = pool_get-ok (pool_for n) choice ps few w in
    (
      record buf { len = n },
      ps',
      pool_for n,
      ground (arith, e, fits, c, lo, hi),
      refl,
      omega (arith, c),
      omega (arith, c),
      c,
      w',
    )

-- `Put` never panics. It takes a buffer whose capacity is a power of two up to 65536, and the pools
-- still keep buffers of their own size only; it refuses one whose capacity is 0, over 65536, or
-- strictly between two neighbouring powers of two.
pub put-cases :
    (buf : Buffer) (ps : Pools)
    → IsPools ps
    → ((ps' : Pools) × (k : ℕ) × (put buf ps ≡ ok ps') × (buf.cap ≡ 2 ^ k) × (k ≤ 16) × IsPools ps')
      ⊎ ((put buf ps ≡ err tt)
          × ((buf.cap ≡ 0)
              ⊎ ((65536 < buf.cap) ⊎ ((k : ℕ) × (2 ^ k < buf.cap) × (buf.cap < 2 ^ suc k)))))
unfolding put
put-cases buf ps w = elim (Bool-cases (buf.cap == 0)) [
  | inl none_held ↦ inr (ground (arith, none_held), inl (ground arith))
  | inr held ↦ elim (Bool-cases (ltb 65536 buf.cap)) [
    | inl large ↦ inr (ground (arith, held, large), inr (inl (ground arith)))
    | inr fits ↦
        let (a, b, c, e) = msb-bounds buf.cap (ground (arith, held)) (ground (arith, fits)) in
        elim (Bool-cases (buf.cap == shl (msb buf.cap))) [
          | inl power ↦
              let cap_is : buf.cap ≡ 2 ^ msb buf.cap =
                (==_iff buf.cap (shl (msb buf.cap))).0 power ∙ e in
              let (p, found, all) =
                Sorted-get 0 (msb buf.cap) (msb buf.cap) ps (omega arith)
                  (omega (arith, w.seventeen, c)) w.sorted in
              let (sorted, size) =
                Sorted-set 0 (msb buf.cap) (msb buf.cap) (buf.cap ∷ p) ps (omega arith)
                  (cap_is, all) w.sorted in
              inl (
                _,
                msb buf.cap,
                ground (arith, held, fits, power, found),
                cap_is,
                c,
                record { sorted = sorted; seventeen = size ∙ w.seventeen },
              )
          | inr other ↦
              let differs : buf.cap ≢ 2 ^ msb buf.cap = λ q. different other (q ∙ sym e) in
              inr (
                ground (arith, held, fits, other),
                inr (inr (msb buf.cap, omega (arith, differs), b)),
              )
        ]
  ]
]
