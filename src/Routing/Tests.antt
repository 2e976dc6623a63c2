-- ===== src/Routing/Tests.antt =====
-- Concrete runs of the rules, the counters and the GeoIP reader.
use tun_flow.Base.{
  ℕ, ◌+◌, ◌/◌, ◌^◌, ◌*◌, ◌<◌, ◌≤◌, ◌≡◌, refl, ◌≢◌, ◌↔◌, ◌⊎◌, inl, inr, List, [], ◌∷◌, ◌++◌, Option,
  none, some, arith, Bytes, true, false, Result, ok, err, ltb, if◌then◌else◌, length, ◌%◌, pos,
  take, drop, min, suc, ℤ,
}
use tun_flow.Base.Text.{codes, contains_text}
use tun_flow.Netip.{
  Addr, Prefix, v4, v6, no_addr, prefix_from, unmap, InRange, contains, is_valid, addr_from_slice,
}
use tun_flow.Routing.{
  Rule, Proxy, cidr, private, use_direct, route_ip, route_rules, route_proxied, mode_rules,
  mode_direct, mode_global, parse_network, match_ip, is_private,
}
use tun_flow.Routing.Decision.{ByRules, use_direct_iff}
use tun_flow.Routing.Private.{quad}
use tun_flow.Routing.Stats.{Counter}
use tun_flow.Routing.Stats.Conservation.{
  System, Conserved, Reach, unmoved, moved, upload_begins, upload_ends, upload_swaps,
  Reach-Conserved,
}
use tun_flow.Routing.Geo.{
  Wire, IsProgressive, load_geo_ip, parse_geo_entry, cidr_loop, parse_geo_cidr,
}
use tun_flow.Routing.Geo.Total.{Accepted, message, geo-ne-none, parse_geo_cidr-Accepted}

-- 10.0.0.0/8 goes directly, 10.1.0.0/16 too, private addresses by the proxy.
abbrev split : Proxy
split = record {
  mode = mode_rules;
  default_d = true;
  direct_r =
      record {
        type = cidr;
        value = codes "10.0.0.0/8";
        prefix = prefix_from (v4 (quad 10 0 0 0)) 8;
        cid = [];
      }
      ∷ [];
  proxy_r =
      record {
        type = private;
        value = codes "geoip:private";
        prefix = record { addr = no_addr; bits = none };
        cid = [];
      }
      ∷ [];
  geoip = none;
}

use_direct_iff_example : (use_direct split (some (v4 (quad 192 168 1 1))) ≡ true) ↔ (
    (split.mode ≡ mode_direct)
    ⊎ ((split.mode ≢ mode_global) × ByRules split (some (v4 (quad 192 168 1 1)))))
use_direct_iff_example = use_direct_iff split (some (v4 (quad 192 168 1 1)))

-- A private address that no direct rule names goes by the proxy, though the default is direct.
home_proxied : use_direct split (some (v4 (quad 192 168 1 1))) ≡ false
unfolding use_direct tun_flow.Base.Text.bytes_eq route_ip route_rules match_ip contains
    route_proxied is_private tun_flow.Netip.is_private_net
home_proxied = refl

-- ::ffff:0:1, as both parsers of the standard library would return it.
abbrev mapped_one : ℕ
mapped_one = 0xffff * 2 ^ 32 + 1

abbrev parse_mapped : Bytes → Option Addr
parse_mapped b = some (v6 mapped_one)

abbrev parse_nothing : Bytes → Option Prefix
parse_nothing b = none

abbrev fresh : Counter
fresh = record {
  upload_total = 0;
  download_total = 0;
  upload_temp = 0;
  download_temp = 0;
  upload_rate = 0;
  download_rate = 0;
  last_sample = none;
}

abbrev start : System
start = record {
  counter = fresh;
  uploading = [];
  downloading = [];
  uploads_taken = 0;
  downloads_taken = 0;
}

start-Conserved : Conserved start
start-Conserved = record { uploads = refl; downloads = refl }

-- A sample falls between the two additions of an upload of 7 bytes.
abbrev begun : System
begun = record start { counter = record fresh { upload_total = 7 }; uploading = 7 ∷ [] }

abbrev after_race : System
after_race = record begun {
  counter = record fresh { upload_total = 7; upload_temp = 7 };
  uploading = [];
}

race : Reach start after_race
race =
    moved (moved (moved unmoved (upload_begins 7 (omega arith))) upload_swaps)
      (upload_ends 7 [] [] refl)

Reach-Conserved_example : Conserved after_race
Reach-Conserved_example = Reach-Conserved start-Conserved race

-- A wire format with one-byte tags and lengths.
abbrev tag_at : Bytes → Option (ℕ × ℕ × ℕ)
tag_at [] = none
tag_at (x ∷ b) = some (x / 8, x % 8, 1)

abbrev bytes_at : Bytes → Option (Bytes × ℕ)
bytes_at [] = none
bytes_at (n ∷ b) = if ltb (length b) n then none else some (take n b, suc n)

abbrev varint_at : Bytes → Option (ℕ × ℕ)
varint_at [] = none
varint_at (x ∷ b) = some (x, 1)

abbrev value_at : ℕ → ℕ → Bytes → Option ℕ
value_at field wt [] = none
value_at field wt (x ∷ b) = some 1

abbrev small_wire : Wire
small_wire = record {
  consume_tag = tag_at;
  consume_bytes = bytes_at;
  consume_varint = varint_at;
  consume_field_value = value_at;
}

tag_at_pos : (b : Bytes) (field wt n : ℕ) → tag_at b ≡ some (field, wt, n) → 0 < n
tag_at_pos [] field wt n h = cc
tag_at_pos (x ∷ b) field wt n h = ground arith

tag_at_le : (b : Bytes) (field wt n : ℕ) → tag_at b ≡ some (field, wt, n) → n ≤ length b
tag_at_le [] field wt n h = cc
tag_at_le (x ∷ b) field wt n h = ground arith

small_wire-IsProgressive : IsProgressive small_wire
small_wire-IsProgressive = record { tag_pos = tag_at_pos; tag_le = tag_at_le }

-- The country "a" with 10.0.0.0/8.
abbrev one_country : Bytes
one_country = 10 ∷ 13 ∷ 10 ∷ 1 ∷ 65 ∷ 18 ∷ 8 ∷ 10 ∷ 4 ∷ 10 ∷ 0 ∷ 0 ∷ 0 ∷ 16 ∷ 8 ∷ []

geo-ne-none_example :
    (load_geo_ip small_wire one_country ≢ none)
    × (parse_geo_entry small_wire one_country ≢ none)
    × (cidr_loop small_wire 16 one_country [] none ≢ none)
geo-ne-none_example = geo-ne-none small_wire small_wire-IsProgressive one_country

-- ::ffff:0:1/40 is accepted and its prefix is not valid.
abbrev mapped_cidr : Bytes
mapped_cidr =
    10 ∷ 16 ∷ 0 ∷ 0 ∷ 0 ∷ 0 ∷ 0 ∷ 0 ∷ 0 ∷ 0 ∷ 0 ∷ 0 ∷ 255 ∷ 255 ∷ 0 ∷ 0 ∷ 0 ∷ 1 ∷ 16 ∷ 40 ∷ []

abbrev broken_prefix : Prefix
broken_prefix = record { addr = v4 1; bits = none }

mapped_cidr_accepted : parse_geo_cidr small_wire mapped_cidr ≡ some broken_prefix
unfolding parse_geo_cidr cidr_loop tun_flow.Routing.Geo.cidr_field tun_flow.Routing.Geo.cidr_result
    tun_flow.Routing.Geo.accept addr_from_slice
mapped_cidr_accepted = refl

parse_geo_cidr-Accepted_example :
    (ip : Bytes) × (n : ℕ) × (message small_wire mapped_cidr ≡ some (ip, some n))
    × (is_valid (addr_from_slice ip) ≡ true)
    × Accepted (addr_from_slice ip) n broken_prefix
parse_geo_cidr-Accepted_example =
    parse_geo_cidr-Accepted small_wire mapped_cidr {p = broken_prefix} mapped_cidr_accepted
