-- ===== src/Base/Numbers.antt =====
-- Signed integers over the native numbers, and 16-bit big-endian words.
use Prim.Native.Nat.{ℕ, ◌+◌, ◌*◌, ◌/◌, ◌%◌, ◌<◌}
use mathlib.Core.Path.{◌≡◌}
use mathlib.Core.List.{[], ◌∷◌}
use native.Mathlib.Omega.{arith}
use tun_flow.Base.Lists.{Bytes}

-- `negsuc n` is -(n + 1).
pub data ℤ : Type 0 where
  pos : ℕ → ℤ
  negsuc : ℕ → ℤ

-- `uint16(n)` as the two bytes that binary.BigEndian.PutUint16 writes.
abbrev pub be_bytes16 : ℕ → Bytes
be_bytes16 n = n / 256 % 256 ∷ n % 256 ∷ []

-- binary.BigEndian.Uint16 of two bytes.
abbrev pub be_word16 : ℕ → ℕ → ℕ
be_word16 hi lo = hi * 256 + lo

pub be_word16-be_bytes16 : (n : ℕ) → n < 65536 → be_word16 (n / 256 % 256) (n % 256) ≡ n
be_word16-be_bytes16 n h = omega arith
