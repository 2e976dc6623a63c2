-- ===== src/Netip/Laws.antt =====
-- Addresses survive the way through their bytes.
use native.Mathlib.Nat.{pow-suc}
use tun_flow.Base.{
  ℕ, zero, suc, ◌+◌, ◌*◌, ◌/◌, ◌%◌, ◌^◌, ◌<◌, ◌≡◌, refl, [], ◌∷◌, ◌++◌, arith, Bytes, length,
  length-append, ◌∙◌, ap,
}
use tun_flow.Netip.{Addr, no_addr, v4, v6, be_bytes, be_value, as_slice, addr_from_slice, InRange}

pub length-be_bytes : (k n : ℕ) → length (be_bytes k n) ≡ k
unfolding be_bytes
length-be_bytes zero n = refl
length-be_bytes (suc k) n =
    omega (arith, length-append (be_bytes k (n / 256)) (n % 256 ∷ []), length-be_bytes k (n / 256))

be_value-append :
    (acc : ℕ) (bs : Bytes) (b : ℕ) → be_value acc (bs ++ b ∷ []) ≡ be_value acc bs * 256 + b
unfolding be_value
be_value-append acc [] b = refl
be_value-append acc (x ∷ bs) b = be_value-append (acc * 256 + x) bs b

be_value-be_bytes : (k n : ℕ) → n < 256 ^ k → be_value 0 (be_bytes k n) ≡ n
unfolding be_bytes be_value
be_value-be_bytes zero n h = omega arith
be_value-be_bytes (suc k) n h =
    be_value-append 0 (be_bytes k (n / 256)) (n % 256)
    ∙ omega (arith, be_value-be_bytes k (n / 256) (omega (arith, pow-suc 256 k)))

pub addr_from_slice-as_slice : (a : Addr) → InRange a → addr_from_slice (as_slice a) ≡ a
unfolding addr_from_slice as_slice
addr_from_slice-as_slice no_addr h = refl
addr_from_slice-as_slice (v4 n) h = ap v4 (be_value-be_bytes 4 n h)
addr_from_slice-as_slice (v6 n) h = ap v6 (be_value-be_bytes 16 n h)

pub length-as_slice_v4 : (n : ℕ) → length (as_slice (v4 n)) ≡ 4
unfolding as_slice
length-as_slice_v4 n = refl

pub length-as_slice_v6 : (n : ℕ) → length (as_slice (v6 n)) ≡ 16
unfolding as_slice
length-as_slice_v6 n = refl
