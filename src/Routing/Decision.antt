-- ===== src/Routing/Decision.antt =====
-- Which way a destination goes: the precedence of the rules, and rules that can never match.
use tun_flow.Base.{
  ℕ, ◌/◌, ◌^◌, ◌≡◌, ◌≢◌, ◌↔◌, refl, ◌⊎◌, inr, true, false, List, [], ◌∷◌, Option, none, some, arith,
  Bytes, ok,
}
use tun_flow.Base.Text.{codes, bytes_eq_iff, contains_text}
use tun_flow.Netip.{Addr, no_addr, v4, v6, Prefix, prefix_from, unmap, contains, InRange}
use tun_flow.Routing.{
  Proxy, Rule, cidr, match_ip, route_proxied, route_rules, route_ip, use_direct, mode_direct,
  mode_global, parse_network,
}

-- Some rule of the list matches the address.
abbrev pub SomeMatch : Proxy → List Rule → Addr → Type 0
SomeMatch r [] ip = ⊥
SomeMatch r (rule ∷ rules) ip = (match_ip r rule ip ≡ true) ⊎ SomeMatch r rules ip

route_proxied_iff :
    (r : Proxy) (rules : List Rule) (ip : Addr)
    → (route_proxied r rules ip ≡ true) ↔ ((¬ SomeMatch r rules ip) × (r.default_d ≡ true))
unfolding route_proxied
route_proxied_iff r [] ip = (λ h. (λ e. e, h), λ h. h.1)
route_proxied_iff r (rule ∷ rules) ip = ground (arith, route_proxied_iff r rules ip)

route_rules_iff :
    (r : Proxy) (rules : List Rule) (ip : Addr)
    → (route_rules r rules ip ≡ true)
      ↔ (SomeMatch r rules ip ⊎ (route_proxied r r.proxy_r ip ≡ true))
unfolding route_rules
route_rules_iff r [] ip = (λ h. inr h, λ h. ground arith)
route_rules_iff r (rule ∷ rules) ip = ground (arith, route_rules_iff r rules ip)

-- `routeIP` takes the direct way exactly when some direct rule matches the unmapped address, or no
-- proxy rule matches it and the default is direct.
pub route_ip_iff :
    (r : Proxy) (ip : Addr)
    → (route_ip r ip ≡ true) ↔ (
        SomeMatch r r.direct_r (unmap ip)
        ⊎ ((¬ SomeMatch r r.proxy_r (unmap ip)) × (r.default_d ≡ true)))
unfolding route_ip
route_ip_iff r ip =
    ground
      (arith, route_rules_iff r r.direct_r (unmap ip), route_proxied_iff r r.proxy_r (unmap ip))

-- Where the traffic of a destination in rules mode goes: to the default where no valid destination is known.
abbrev pub ByRules : Proxy → Option Addr → Type 0
ByRules r none = r.default_d ≡ true
ByRules r (some no_addr) = r.default_d ≡ true
ByRules r (some (v4 n)) =
    SomeMatch r r.direct_r (v4 n) ⊎ ((¬ SomeMatch r r.proxy_r (v4 n)) × (r.default_d ≡ true))
ByRules r (some (v6 n)) =
    SomeMatch r r.direct_r (unmap (v6 n))
    ⊎ ((¬ SomeMatch r r.proxy_r (unmap (v6 n))) × (r.default_d ≡ true))

-- `useDirect` takes the direct way exactly when the mode is direct, or the mode is neither direct nor
-- global and either no valid destination is known and the default is direct, or the rules say so:
-- direct rules before proxy rules before the default, on the unmapped address.
pub use_direct_iff :
    (r : Proxy) (metadata : Option Addr)
    → (use_direct r metadata ≡ true)
      ↔ ((r.mode ≡ mode_direct) ⊎ ((r.mode ≢ mode_global) × ByRules r metadata))
unfolding use_direct
use_direct_iff r none =
    ground (arith, bytes_eq_iff r.mode mode_direct, bytes_eq_iff r.mode mode_global)
use_direct_iff r (some no_addr) =
    ground (arith, bytes_eq_iff r.mode mode_direct, bytes_eq_iff r.mode mode_global)
use_direct_iff r (some (v4 n)) =
    ground (
      arith,
      bytes_eq_iff r.mode mode_direct,
      bytes_eq_iff r.mode mode_global,
      route_ip_iff r (v4 n),
    )
use_direct_iff r (some (v6 n)) =
    ground (
      arith,
      bytes_eq_iff r.mode mode_direct,
      bytes_eq_iff r.mode mode_global,
      route_ip_iff r (v6 n),
    )

-- An unmapped address is not IPv4-mapped.
mapped_differs :
    (p : ℕ) (ip : Addr)
    → p / 2 ^ 32 ≡ 0xffff
    → InRange ip
    → contains (prefix_from (v6 p) 128) (unmap ip) ≡ false
unfolding contains
mapped_differs p no_addr e h = refl
mapped_differs p (v4 n) e h = refl
mapped_differs p (v6 n) e h = ground arith

abbrev pub mapped_rule : Bytes → ℕ → Rule
mapped_rule raw p = record { type = cidr; value = raw; prefix = prefix_from (v6 p) 128; cid = [] }

-- A text without "/" that is a single IPv4-mapped IPv6 address is accepted by `parseRule` as a rule,
-- and that rule matches no address that `routeIP` looks up, its own included.
pub parse_network_mapped :
    (parse_prefix : Bytes → Option Prefix) (parse_addr : Bytes → Option Addr) (raw : Bytes) (p : ℕ)
    → contains_text raw (codes "/") ≡ false
    → parse_addr raw ≡ some (v6 p)
    → p / 2 ^ 32 ≡ 0xffff
    → (r : Proxy) (ip : Addr) → InRange ip
    → (parse_network parse_prefix parse_addr raw ≡ ok (some (mapped_rule raw p)))
      × (match_ip r (mapped_rule raw p) (unmap ip) ≡ false)
unfolding parse_network match_ip
parse_network_mapped parse_prefix parse_addr raw p single parsed mapped r ip h =
    (ground arith, mapped_differs p ip mapped h)
