-- ===== src/Routing/Geo/Total.antt =====
-- The loops of the GeoIP reader end within their fuel, and what the CIDR parser accepts.
use tun_flow.Base.{
  ℕ, zero, suc, ◌≤◌, ◌<◌, ◌≡◌, ◌≢◌, refl, true, false, [], ◌∷◌, Option, none, some, arith, Bytes,
  length, drop, length-drop, Bool-cases, Option-cases, inl, inr, ◌==◌, ltb, ◌^◌, ◌/◌,
}
use tun_flow.Netip.{
  Addr, Prefix, v4, v6, no_addr, addr_from_slice, is_4_in_6, is_valid, unmap, bit_len, contains,
}
use tun_flow.Routing.Geo.{
  Wire, IsProgressive, cidr_field, cidr_loop, fields_loop, parse_geo_cidr, parse_geo_entry,
  load_geo_ip, cidr_result, accept,
}

length-drop-le : (n : ℕ) (b : Bytes) → length (drop n b) ≤ length b
length-drop-le n b = omega (arith, length-drop {0} n b)

-- The switch leaves at most what stood behind the tag.
cidr_field-le :
    (w : Wire) (field wt : ℕ) (rest ip : Bytes) (bits : Option ℕ)
    → length (cidr_field w field wt rest ip bits).0 ≤ length rest
unfolding cidr_field
cidr_field-le w field wt rest ip bits = grind (arith, length-drop-le)

cidr_loop_total :
    (w : Wire)
    → IsProgressive w
    → (fuel : ℕ) (b ip : Bytes) (bits : Option ℕ) → length b < fuel
    → cidr_loop w fuel b ip bits ≢ none
unfolding cidr_loop
cidr_loop_total w p zero b ip bits h = absurd (omega arith)
cidr_loop_total w p (suc fuel) [] ip bits h = ground arith
cidr_loop_total w p (suc fuel) (x ∷ b) ip bits h = elim (Option-cases (w.consume_tag (x ∷ b))) [
  | inl e ↦ rw (e, cidr_loop) (λ q. cc)
  | inr ((field, wt, n), e) ↦
      let (rest, ip', bits') = cidr_field w field wt (drop n (x ∷ b)) ip bits in
      rw (e, cidr_loop)
        (cidr_loop_total w p fuel rest ip' bits' (
          omega (
            arith,
            cidr_field-le w field wt (drop n (x ∷ b)) ip bits,
            length-drop {0} n (x ∷ b),
            p.tag_pos (x ∷ b) field wt n e,
          )))
]

fields_loop_total {ℓ} :
    {S : Type ℓ} (w : Wire) (handle : ℕ → Bytes → S → S)
    → IsProgressive w
    → (fuel : ℕ) (b : Bytes) (s : S) → length b < fuel
    → fields_loop w handle fuel b s ≢ none
unfolding fields_loop
fields_loop_total w handle p zero b s h = absurd (omega arith)
fields_loop_total w handle p (suc fuel) [] s h = λ q. cc
fields_loop_total w handle p (suc fuel) (x ∷ b) s h = elim (Option-cases (w.consume_tag (x ∷ b))) [
  | inl e ↦ rw (e, fields_loop) (λ q. cc)
  | inr ((field, wt, n), e) ↦
      let rest = drop n (x ∷ b) in
      let shorter = λ (m : ℕ).
        let fits : length (drop m rest) < fuel = omega (
          arith,
          length-drop-le m rest,
          length-drop {0} n (x ∷ b),
          p.tag_pos (x ∷ b) field wt n e,
        ) in
        fits in
      elim (Bool-cases (wt == 2)) [
        | inl is_bytes ↦ elim (Option-cases (w.consume_bytes rest)) [
          | inl f ↦ rw (e, is_bytes, f, fields_loop) (λ q. cc)
          | inr ((v, m), f) ↦
              rw (e, is_bytes, f, fields_loop)
                (fields_loop_total w handle p fuel (drop m rest) (handle field v s) (shorter m))
        ]
        | inr other ↦ elim (Option-cases (w.consume_field_value field wt rest)) [
          | inl f ↦ rw (e, other, f, fields_loop) (λ q. cc)
          | inr (m, f) ↦
              rw (e, other, f, fields_loop)
                (fields_loop_total w handle p fuel (drop m rest) s (shorter m))
        ]
      ]
]

-- With consumers that make progress, the loops of the GeoIP reader end on every file: `LoadGeoIP`
-- and `parseGeoEntry` return, and so does the loop of `parseGeoCIDR`, which goes on behind a value
-- that it cannot consume.
pub geo-ne-none :
    (w : Wire)
    → IsProgressive w
    → (b : Bytes)
    → (load_geo_ip w b ≢ none)
      × (parse_geo_entry w b ≢ none)
      × (cidr_loop w (suc (length b)) b [] none ≢ none)
unfolding load_geo_ip parse_geo_entry
geo-ne-none w p b = (
  fields_loop_total w _ p (suc (length b)) b [] (omega arith),
  fields_loop_total w _ p (suc (length b)) b ([], []) (omega arith),
  cidr_loop_total w p (suc (length b)) b [] none (omega arith),
)

contains_invalid : (p : Prefix) (a : Addr) → p.bits ≡ none → contains p a ≡ false
unfolding contains
contains_invalid p a e = rw e

-- What becomes of an address and a length that a CIDR message gives: a prefix of that length of the
-- unmapped address, where the length fits the unmapped address too, or one that contains nothing.
pub data Accepted (addr : Addr) (n : ℕ) (p : Prefix) : Type 0 where
  usable :
      n ≤ bit_len addr
      → n ≤ bit_len (unmap addr)
      → p.addr ≡ unmap addr
      → p.bits ≡ some n
      → Accepted addr n p
  broken :
      is_4_in_6 addr ≡ true
      → 32 < n
      → n ≤ 128
      → ((a : Addr) → contains p a ≡ false)
      → Accepted addr n p

accept-Accepted :
    (a : Addr) (n : ℕ) {p : Prefix} → accept a n ≡ some p → is_valid a ≡ true × Accepted a n p
unfolding accept
accept-Accepted no_addr n h = cc
accept-Accepted (v4 m) n h =
    (refl, usable (ground arith) (ground arith) (ground arith) (ground arith))
accept-Accepted (v6 m) n {p} h = elim (Bool-cases (m / 2 ^ 32 == 0xffff)) [
  | inl mapped ↦ elim (Bool-cases (ltb 32 n)) [
    | inl long ↦ (
      refl,
      broken mapped (ground arith) (ground arith) (λ a. contains_invalid p a (ground arith)),
    )
    | inr short ↦ (
      refl,
      usable (ground arith) (ground (arith, mapped)) (ground (arith, mapped))
          (ground (arith, mapped)),
    )
  ]
  | inr plain ↦ (
    refl,
    usable (ground arith) (ground (arith, plain)) (ground (arith, plain)) (ground (arith, plain)),
  )
]

-- What the loop of `parseGeoCIDR` reads out of a message: the bytes of the address, and the length.
abbrev pub message : Wire → Bytes → Option (Bytes × Option ℕ)
message w b = cidr_loop w (suc (length b)) b [] none

-- Which prefix `parseGeoCIDR` makes of a message that it accepts. The message gives bytes that are an
-- address and a length that fits this address. The prefix is that of the unmapped address with this
-- length, which fits the unmapped address, with one exception: for an IPv4-mapped address and a length
-- over 32 it contains no address.
pub parse_geo_cidr-Accepted :
    (w : Wire) (b : Bytes) {p : Prefix}
    → parse_geo_cidr w b ≡ some p
    → (ip : Bytes) × (n : ℕ) × (message w b ≡ some (ip, some n))
      × (is_valid (addr_from_slice ip) ≡ true)
      × Accepted (addr_from_slice ip) n p
unfolding parse_geo_cidr cidr_result
parse_geo_cidr-Accepted w b {p} h = go (message w b) refl
  where
    go :
        (r : Option (Bytes × Option ℕ))
        → message w b ≡ r
        → (ip : Bytes) × (n : ℕ) × (message w b ≡ some (ip, some n))
          × (is_valid (addr_from_slice ip) ≡ true)
          × Accepted (addr_from_slice ip) n p
    go none e = absurd (ground (arith, e))
    go (some (ip, none)) e = absurd (ground (arith, e))
    go (some (ip, some n)) e =
        let (valid, a) = accept-Accepted (addr_from_slice ip) n (ground (arith, e)) in
        (ip, n, e, valid, a)
