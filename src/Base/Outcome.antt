-- ===== src/Base/Outcome.antt =====
-- The outcome of a Go function: a value with a nil error, an error, or a run-time panic. Indexing
-- and slicing are written with their bounds checks.
use Prim.Native.Nat.{ℕ, ◌-◌, ◌≤◌}
use mathlib.Core.Path.{◌≡◌, refl}
use mathlib.Core.Logic.{◌⊎◌, inl, inr}
use mathlib.Core.Bool.{◌&&◌}
use mathlib.Core.Option.{Option, none, some}
use native.Mathlib.Omega.{arith}
use tun_flow.Base.Lists.{Bytes, length, take, drop, get_elem?}
use tun_flow.Base.Tests.{leb, if◌then◌else◌}

pub data Result {ℓ} (E : Type 0) (A : Type ℓ) : Type ℓ where
  ok : A → Result E A
  err : E → Result E A
  panic : Result E A

infixl 5 ◌>>=◌
abbrev pub ◌>>=◌ {ℓ κ} :
    {E : Type 0} {A : Type ℓ} {B : Type κ} → Result E A → (A → Result E B) → Result E B
ok a >>= f = f a
err e >>= f = err e
panic >>= f = panic

abbrev or_panic {ℓ} : {E : Type 0} {A : Type ℓ} → Option A → Result E A
or_panic none = panic
or_panic (some a) = ok a

-- `b[i]`.
abbrev pub index : {E : Type 0} → Bytes → ℕ → Result E ℕ
index b i = or_panic (get_elem? b i)

-- `b[i:j]`, refused past the length also where Go would look into the capacity.
abbrev pub slice : {E : Type 0} → Bytes → ℕ → ℕ → Result E Bytes
slice b i j = if leb i j && leb j (length b) then ok (take (j - i) (drop i b)) else panic

-- `b[i:]`.
abbrev pub slice_from : {E : Type 0} → Bytes → ℕ → Result E Bytes
slice_from b i = if leb i (length b) then ok (drop i b) else panic

pub slice-ok :
    {E : Type 0} (b : Bytes) (i j : ℕ)
    → i ≤ j
    → j ≤ length b
    → slice {E = E} b i j ≡ ok (take (j - i) (drop i b))
slice-ok b i j h k = ground arith

pub slice_from-ok :
    {E : Type 0} (b : Bytes) (i : ℕ) → i ≤ length b → slice_from {E = E} b i ≡ ok (drop i b)
slice_from-ok b i h = ground arith

pub Result-cases {ℓ} :
    {E : Type 0} {A : Type ℓ} (r : Result E A)
    → (((a : A) × (r ≡ ok a)) ⊎ ((e : E) × (r ≡ err e))) ⊎ (r ≡ panic)
Result-cases (ok a) = inl (inl (a, refl))
Result-cases (err e) = inl (inr (e, refl))
Result-cases panic = inr refl
