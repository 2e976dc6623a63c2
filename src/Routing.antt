-- ===== src/Routing.antt =====
-- routing/routing.go: the rules, their parser, and the choice between the direct and the proxied way.
pub mod Geo
pub mod Stats
pub mod Decision
pub mod Private
mod Tests
use tun_flow.Base.{
  ℕ, ◌+◌, Bool, true, false, not, ◌&&◌, ◌||◌, List, [], ◌∷◌, ◌++◌, Option, none, some, leb, ◌==◌,
  if◌then◌else◌, Bytes, length, drop, is_empty, Result, ok, err, ◌>>=◌, ◌/◌, ◌^◌, ◌%◌,
}
use tun_flow.Base.Text.{codes, bytes_eq, trim_space, to_lower, has_prefix, contains_text}
use tun_flow.Netip.{
  Addr, no_addr, v4, v6, Prefix, prefix_from, is_4, is_valid, unmap, contains, is_private_net,
  is_loopback, is_link_local_unicast, is_link_local_multicast,
}

abbrev pub mode_global : Bytes
mode_global = codes "global"

abbrev pub mode_direct : Bytes
mode_direct = codes "direct"

abbrev pub mode_rules : Bytes
mode_rules = codes "rules"

abbrev pub default_proxy : Bytes
default_proxy = codes "proxy"

abbrev pub default_direct : Bytes
default_direct = codes "direct"

pub data RuleType : Type 0 where
  cidr geo_ip domain geo_site private : RuleType

pub record Rule : Type 0 where
  pub type : RuleType
  pub value : Bytes
  pub prefix : Prefix
  pub cid : Bytes

pub data Error : Type 0 where
  upstream_nil invalid_default unsupported_mode geosite_unsupported domain_unsupported : Error
  invalid_cidr invalid_rule geoip_unreadable : Error

pub record Config : Type 0 where
  pub mode : Bytes
  pub direct_rules : List Bytes
  pub proxy_rules : List Bytes
  pub default_route : Bytes
  pub geoip_file : Bytes

-- GeoIPMatcher: the prefixes of each country.
abbrev pub GeoIpMatcher : Type 0
GeoIpMatcher = List (Bytes × List Prefix)

-- The routing fields of `Proxy`.
pub record Proxy : Type 0 where
  pub mode : Bytes
  pub default_d : Bool
  pub direct_r : List Rule
  pub proxy_r : List Rule
  pub geoip : Option GeoIpMatcher

abbrev no_prefix : Prefix
no_prefix = record { addr = no_addr; bits = none }

abbrev or_error {ℓ} : {A : Type ℓ} → Option A → Error → Result Error A
or_error none e = err e
or_error (some a) e = ok a

-- netip.ParsePrefix and netip.ParseAddr.
module _ (parse_prefix : Bytes → Option Prefix) (parse_addr : Bytes → Option Addr) where
  -- The end of `parseRule`: a CIDR or a single address.
  unfoldable pub parse_network : Bytes → Result Error (Option Rule)
  parse_network raw =
      if contains_text raw (codes "/")
      then (do
        pfx ← or_error (parse_prefix raw) invalid_cidr
        ok (some (record { type = cidr; value = raw; prefix = pfx; cid = [] })))
      else (do
        addr ← or_error (parse_addr raw) invalid_rule
        let bits = if is_4 addr then 32 else 128
        ok (some (record { type = cidr; value = raw; prefix = prefix_from addr bits; cid = [] })))

  -- `parseRule`; none where its second result is false.
  unfoldable pub parse_rule : Bytes → Result Error (Option Rule)
  parse_rule text =
      let raw = trim_space text in
      let low = to_lower raw in
      if is_empty raw
      then ok none
      else if bytes_eq low (codes "private") || bytes_eq low (codes "geoip:private")
      then ok (
          some (record {
            type = private;
            value = codes "geoip:private";
            prefix = no_prefix;
            cid = [];
          }))
      else if has_prefix low (codes "geoip:")
      then ok (
          some (record {
            type = geo_ip;
            value = raw;
            prefix = no_prefix;
            cid = to_lower (trim_space (drop 6 raw));
          }))
      else if has_prefix low (codes "geosite:")
      then err geosite_unsupported
      else if has_prefix low (codes "domain:")
      then err domain_unsupported
      else parse_network raw

  abbrev keep : Option Rule → List Rule → List Rule
  keep none rules = rules
  keep (some r) rules = r ∷ rules

  -- A loop of `NewWithConfig` over the texts of rules.
  unfoldable pub parse_rules : List Bytes → Result Error (List Rule)
  parse_rules [] = ok []
  parse_rules (t ∷ ts) = do r ← parse_rule t; rs ← parse_rules ts; ok (keep r rs)

  abbrev or_default : Bytes → Bytes → Bytes
  or_default s d = if is_empty s then d else s

  abbrev is_geo_ip : RuleType → Bool
  is_geo_ip geo_ip = true
  is_geo_ip _ = false

  -- `hasGeoIPRule` of one group.
  unfoldable pub has_geoip_rule : List Rule → Bool
  has_geoip_rule [] = false
  has_geoip_rule (r ∷ rs) = is_geo_ip r.type || has_geoip_rule rs

  -- `NewWithConfig`; `upstream` is false where the upstream proxy is nil, and `load` is `LoadGeoIP`.
  unfoldable pub new_with_config :
      (load : Bytes → Option GeoIpMatcher) (upstream : Bool) → Config → Result Error Proxy
  new_with_config load upstream cfg =
      let mode = or_default cfg.mode mode_global in
      let route = or_default cfg.default_route default_proxy in
      if not upstream
      then err upstream_nil
      else if not (bytes_eq route default_proxy) && not (bytes_eq route default_direct)
      then err invalid_default
      else if not (bytes_eq mode mode_global)
          && not (bytes_eq mode mode_direct)
          && not (bytes_eq mode mode_rules)
      then err unsupported_mode
      else do
        direct ← parse_rules cfg.direct_rules
        proxied ← parse_rules cfg.proxy_rules
        geo ←
            (if not (is_empty cfg.geoip_file) && (has_geoip_rule direct || has_geoip_rule proxied)
              then (do m ← or_error (load cfg.geoip_file) geoip_unreadable; ok (some m))
              else ok none)
        ok (record {
          mode = mode;
          default_d = bytes_eq route default_direct;
          direct_r = direct;
          proxy_r = proxied;
          geoip = geo;
        })

-- The IPv4 test at the end of `isPrivate`, on the first two bytes.
unfoldable pub is_carrier_grade : Addr → Bool
is_carrier_grade (v4 n) =
    n / 2 ^ 24 == 100 && leb 64 (n / 2 ^ 16 % 256) && leb (n / 2 ^ 16 % 256) 127
is_carrier_grade _ = false

-- `isPrivate`.
unfoldable pub is_private : Addr → Bool
is_private addr =
    let ip = unmap addr in
    is_private_net ip
    || is_loopback ip
    || is_link_local_unicast ip
    || is_link_local_multicast ip
    || is_carrier_grade ip

unfoldable pub any_contains : List Prefix → Addr → Bool
any_contains [] ip = false
any_contains (p ∷ ps) ip = contains p ip || any_contains ps ip

abbrev lookup_country : Bytes → GeoIpMatcher → Option (List Prefix)
lookup_country k [] = none
lookup_country k ((j, ps) ∷ m) = if bytes_eq j k then some ps else lookup_country k m

abbrev in_country : Option (List Prefix) → Addr → Bool
in_country none ip = false
in_country (some ps) ip = any_contains ps (unmap ip)

-- `ContainsCountry` of a matcher that is not nil.
unfoldable pub contains_country : GeoIpMatcher → Addr → Bytes → Bool
contains_country m ip country = in_country (lookup_country (to_lower (trim_space country)) m) ip

abbrev match_geo : Option GeoIpMatcher → Addr → Bytes → Bool
match_geo none ip cid = false
match_geo (some m) ip cid = contains_country m ip cid

abbrev match_type : RuleType → Proxy → Rule → Addr → Bool
match_type cidr r rule ip = contains rule.prefix ip
match_type private r rule ip = is_private ip
match_type geo_ip r rule ip = match_geo r.geoip ip rule.cid
match_type geo_site r rule ip = false
match_type domain r rule ip = false

-- `matchIP`.
unfoldable pub match_ip : Proxy → Rule → Addr → Bool
match_ip r rule ip = match_type rule.type r rule ip

-- The two loops of `routeIP`.
unfoldable pub route_proxied : Proxy → List Rule → Addr → Bool
route_proxied r [] ip = r.default_d
route_proxied r (rule ∷ rules) ip =
    let rest = route_proxied r rules ip in if match_ip r rule ip then false else rest

unfoldable pub route_rules : Proxy → List Rule → Addr → Bool
route_rules r [] ip = route_proxied r r.proxy_r ip
route_rules r (rule ∷ rules) ip =
    let rest = route_rules r rules ip in if match_ip r rule ip then true else rest

-- `routeIP`: true for the direct way.
unfoldable pub route_ip : Proxy → Addr → Bool
route_ip r ip = route_rules r r.direct_r (unmap ip)

abbrev route_metadata : Proxy → Option Addr → Bool
route_metadata r none = r.default_d
route_metadata r (some dst) = if not (is_valid dst) then r.default_d else route_ip r dst

-- `useDirect`, of the destination in the metadata, which may be nil.
unfoldable pub use_direct : Proxy → Option Addr → Bool
use_direct r metadata =
    if bytes_eq r.mode mode_direct
    then true
    else if bytes_eq r.mode mode_global
    then false
    else route_metadata r metadata
