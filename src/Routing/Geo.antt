-- ===== src/Routing/Geo.antt =====
-- routing/routing.go: the reader of the GeoIP file. protowire is a third-party package: its three
-- consumers are parameters, with what they document: on success they consume at least one byte and
-- no more than there are.
pub mod Total
use tun_flow.Base.{
  ℕ, zero, suc, ◌+◌, ◌≤◌, ◌<◌, ◌≡◌, Bool, true, false, not, ◌&&◌, ◌||◌, List, [], ◌∷◌, ◌++◌, Option,
  none, some, leb, ltb, ◌==◌, if◌then◌else◌, Bytes, length, drop, is_empty, ◌^◌, take,
}
use tun_flow.Base.Text.{to_lower, bytes_eq}
use tun_flow.Netip.{Addr, Prefix, prefix_from, is_4, is_valid, unmap, addr_from_slice}
use tun_flow.Routing.{GeoIpMatcher}

-- protowire's wire types for lengths and varints.
abbrev pub bytes_type : ℕ
bytes_type = 2

abbrev pub varint_type : ℕ
varint_type = 0

-- The consumers; none where the result's length is not positive.
pub record Wire : Type 0 where
  pub consume_tag : Bytes → Option (ℕ × ℕ × ℕ)
  pub consume_bytes : Bytes → Option (Bytes × ℕ)
  pub consume_varint : Bytes → Option (ℕ × ℕ)
  pub consume_field_value : ℕ → ℕ → Bytes → Option ℕ

-- What a consumer takes is at least one byte.
pub record IsProgressive (w : Wire) : Type 0 where
  pub tag_pos : (b : Bytes) (field wt n : ℕ) → w.consume_tag b ≡ some (field, wt, n) → 0 < n
  pub tag_le : (b : Bytes) (field wt n : ℕ) → w.consume_tag b ≡ some (field, wt, n) → n ≤ length b

-- `int(v)` of a uint64: none where it is negative.
abbrev int_of : ℕ → Option ℕ
int_of v = if ltb v (2 ^ 63) then some v else none

module _ (w : Wire) where
  -- What `parseGeoCIDR` has read: the address bytes and the prefix length, none while negative. A
  -- value that cannot be consumed ends the switch, not the loop, which goes on behind the tag.
  unfoldable pub cidr_field : ℕ → ℕ → Bytes → Bytes → Option ℕ → Bytes × Bytes × Option ℕ
  cidr_field field wt rest ip bits =
      if wt == bytes_type
      then (elim (w.consume_bytes rest) [
        | none ↦ (rest, ip, bits)
        | some (v, n) ↦ (drop n rest, (if field == 1 then v else ip), bits)
      ])
      else if wt == varint_type
      then (elim (w.consume_varint rest) [
        | none ↦ (rest, ip, bits)
        | some (v, n) ↦ (drop n rest, ip, (if field == 2 then int_of v else bits))
      ])
      else (elim (w.consume_field_value field wt rest) [
        | none ↦ (rest, ip, bits)
        | some n ↦ (drop n rest, ip, bits)
      ])

  -- The loop of `parseGeoCIDR` on fuel; none if that runs out.
  unfoldable pub cidr_loop : ℕ → Bytes → Bytes → Option ℕ → Option (Bytes × Option ℕ)
  cidr_loop zero b ip bits = none
  cidr_loop (suc fuel) b ip bits = if is_empty b then some (ip, bits) else (elim (w.consume_tag b) [
    | none ↦ some (ip, bits)
    | some (field, wt, n) ↦
        let (rest, ip', bits') = cidr_field field wt (drop n b) ip bits in
        cidr_loop fuel rest ip' bits'
  ])

-- The checks at the end of `parseGeoCIDR`, the length against the address as it was read, and the
-- prefix of the unmapped address.
unfoldable pub accept : Addr → ℕ → Option Prefix
accept addr n =
    if not (is_valid addr)
    then none
    else if ltb (if is_4 addr then 32 else 128) n
    then none
    else some (prefix_from (unmap addr) n)

-- The end of `parseGeoCIDR`.
unfoldable pub cidr_result : Bytes → Option ℕ → Option Prefix
cidr_result ip none = none
cidr_result ip (some n) = if is_empty ip then none else accept (addr_from_slice ip) n

-- The loop that `parseGeoEntry` and `LoadGeoIP` share, on fuel: it skips the fields that are not
-- bytes, hands the others to `handle`, and ends where something cannot be consumed.
unfoldable pub fields_loop {ℓ} :
    {S : Type ℓ} (w : Wire) (handle : ℕ → Bytes → S → S) → ℕ → Bytes → S → Option S
fields_loop w handle zero b s = none
fields_loop w handle (suc fuel) b s = if is_empty b then some s else (elim (w.consume_tag b) [
  | none ↦ some s
  | some (field, wt, n) ↦
      if not (wt == bytes_type)
      then (elim (w.consume_field_value field wt (drop n b)) [
        | none ↦ some s
        | some m ↦ fields_loop w handle fuel (drop m (drop n b)) s
      ])
      else (elim (w.consume_bytes (drop n b)) [
        | none ↦ some s
        | some (v, m) ↦ fields_loop w handle fuel (drop m (drop n b)) (handle field v s)
      ])
])

module _ (w : Wire) where
  abbrev read_result : Option (Bytes × Option ℕ) → Option Prefix
  read_result none = none
  read_result (some (ip, bits)) = cidr_result ip bits

  -- `parseGeoCIDR`; none where its second result is false.
  unfoldable pub parse_geo_cidr : Bytes → Option Prefix
  parse_geo_cidr b = read_result (cidr_loop w (suc (length b)) b [] none)

  abbrev snoc : List Prefix → Option Prefix → List Prefix
  snoc ps none = ps
  snoc ps (some p) = ps ++ p ∷ []

  -- The switch of `parseGeoEntry`.
  unfoldable pub entry_field : ℕ → Bytes → Bytes × List Prefix → Bytes × List Prefix
  entry_field field v (country, ps) =
      if field == 1
      then (to_lower v, ps)
      else if field == 2
      then (country, snoc ps (parse_geo_cidr v))
      else (country, ps)

  -- `parseGeoEntry`.
  unfoldable pub parse_geo_entry : Bytes → Option (Bytes × List Prefix)
  parse_geo_entry b = fields_loop w entry_field (suc (length b)) b ([], [])

  -- `m.countries[country] = append(m.countries[country], prefixes...)`.
  unfoldable pub add_country : Bytes → List Prefix → GeoIpMatcher → GeoIpMatcher
  add_country k ps [] = (k, ps) ∷ []
  add_country k ps ((j, qs) ∷ m) =
      if bytes_eq j k then (j, qs ++ ps) ∷ m else (j, qs) ∷ add_country k ps m

  abbrev add_entry : Option (Bytes × List Prefix) → GeoIpMatcher → GeoIpMatcher
  add_entry none m = m
  add_entry (some (country, ps)) m = if is_empty country then m else add_country country ps m

  -- `LoadGeoIP` of the bytes of the file.
  unfoldable pub load_geo_ip : Bytes → Option GeoIpMatcher
  load_geo_ip b = fields_loop w (λ field v m. add_entry (parse_geo_entry v) m) (suc (length b)) b []
