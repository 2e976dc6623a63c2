-- ===== src/Allocator.antt =====
-- buffer/allocator/allocator.go over internal/pool/pool.go: buffers by powers of two.
pub mod Bits
pub mod Laws
mod Tests
use tun_flow.Base.{
  ℕ, zero, suc, ℤ, pos, negsuc, ◌+◌, ◌-◌, ◌/◌, ◌%◌, ◌^◌, Bool, ◌||◌, true, false, not, List, [],
  ◌∷◌, Option, none, some, ltb, leb, ◌==◌, if◌then◌else◌, get_elem?, replicate, Result, ok, err,
  panic, ◌>>=◌,
}

-- A byte slice: its length and its capacity.
pub record Buffer : Type 0 where
  pub len : ℕ
  pub cap : ℕ

-- bits.Len32: how many bits a number below 2 ^ fuel has.
unfoldable pub len_bits : (fuel : ℕ) → ℕ → ℕ
len_bits zero n = 0
len_bits (suc fuel) n = let rest = len_bits fuel (n / 2) in if n == 0 then 0 else suc rest

-- `msb`, whose result is a uint16.
unfoldable pub msb : ℕ → ℕ
msb size = (len_bits 32 (size % 2 ^ 32) + 65535) % 65536

-- `1 << b` of an int.
abbrev pub shl : ℕ → ℕ
shl b = if ltb b 64 then 2 ^ b % 2 ^ 64 else 0

-- The pools, each the capacities of the buffers it holds. A sync.Pool may hand out any of them, or
-- none and make one: `choice` says which.
abbrev pub Pools : Type 0
Pools = List (List ℕ)

-- `pool.New`'s buffers at the index b.
abbrev pub made : ℕ → Buffer
made b = record { len = 2 ^ b; cap = 2 ^ b }

abbrev pub pick_from : List ℕ → ℕ → Option ℕ × List ℕ
pick_from [] choice = (none, [])
pick_from (c ∷ cs) zero = (some c, cs)
pick_from (c ∷ cs) (suc k) = let (found, rest) = pick_from cs k in (found, c ∷ rest)

abbrev picked : ℕ → Option ℕ → Buffer
picked b none = made b
picked b (some c) = record { len = c; cap = c }

abbrev pub set_at : ℕ → List ℕ → Pools → Pools
set_at b p [] = []
set_at zero p (q ∷ ps) = p ∷ ps
set_at (suc b) p (q ∷ ps) = q ∷ set_at b p ps

abbrev get_from : ℕ → ℕ → Pools → Option (List ℕ) → Result (Unit {0}) (Buffer × Pools)
get_from b choice ps none = panic
get_from b choice ps (some p) =
    let (found, rest) = pick_from p choice in ok (picked b found, set_at b rest ps)

-- `alloc.buffers[b].Get()`.
unfoldable pub pool_get : ℕ → ℕ → Pools → Result (Unit {0}) (Buffer × Pools)
pool_get b choice ps = get_from b choice ps (get_elem? ps b)

-- `buf[:size]`, which may grow into the capacity.
abbrev pub resliced : ℕ → Buffer × Pools → Result (Unit {0}) (Option Buffer × Pools)
resliced size (buf, ps) =
    if leb size buf.cap then ok (some (record buf { len = size }), ps) else panic

abbrev get_sized : ℕ → ℕ → Pools → Result (Unit {0}) (Option Buffer × Pools)
get_sized size choice ps = if size == 0 || ltb 65536 size then ok (none, ps) else do
  r ← pool_get (if size == shl (msb size) then msb size else suc (msb size)) choice ps
  resliced size r

-- `Get`; none is nil.
unfoldable pub get : ℤ → ℕ → Pools → Result (Unit {0}) (Option Buffer × Pools)
get (negsuc n) choice ps = ok (none, ps)
get (pos n) choice ps = get_sized n choice ps

abbrev put_in : ℕ → ℕ → Pools → Option (List ℕ) → Result (Unit {0}) Pools
put_in b c ps none = panic
put_in b c ps (some p) = ok (set_at b (c ∷ p) ps)

-- `Put`; its error is `err tt`.
unfoldable pub put : Buffer → Pools → Result (Unit {0}) Pools
put buf ps =
    let b = msb buf.cap in
    if buf.cap == 0 || ltb 65536 buf.cap || not (buf.cap == shl b)
    then err tt
    else put_in b buf.cap ps (get_elem? ps b)

-- `New`.
abbrev pub new : Pools
new = replicate 17 []
