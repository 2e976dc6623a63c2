-- ===== src/Desktop/Regular/Valid.antt =====
-- What `normalizeConfig` of desktop/app.go leaves, and what the engine makes of its key.
use tun_flow.Base.{
  ℕ, ◌≡◌, ◌≢◌, ◌≤◌, refl, ◌⊎◌, inl, inr, true, false, List, [], Option, arith, Bytes, is_empty, ok,
  err, ℤ, pos, negsuc, ◌*◌, leb→le, if◌then◌else◌, ◌∷◌,
}
use tun_flow.Base.Text.{codes, trim_space, trim_left, trim_right, bytes_eq, bytes_eq_iff}
use tun_flow.Netip.{Addr, Prefix}
use tun_flow.Routing
use tun_flow.Routing.{GeoIpMatcher, Rule, new_with_config, parse_rules, parse_rule, parse_network}
use tun_flow.Engine
use tun_flow.Engine.{Engine, Outside, Key}
use tun_flow.Engine.Run.{general, new_routing, routing_config, find_interface}
use tun_flow.Desktop.{Config, Library}
use tun_flow.Desktop.Regular.{
  normalize_proxy, normalize_config, within, seconds, clone_config, known_mode, regular_mode,
  regular_route, build_engine_key,
}

-- A configuration that the engine is given.
pub record IsRegular (cfg : Config) : Type 0 where
  pub a_device : is_empty (trim_space cfg.device) ≡ false
  pub a_mode :
      (cfg.mode ≡ codes "global") ⊎ (cfg.mode ≡ codes "rules") ⊎ (cfg.mode ≡ codes "direct")
  pub a_route : (cfg.default_route ≡ codes "proxy") ⊎ (cfg.default_route ≡ codes "direct")
  pub a_file : cfg.geoip_file ≢ []
  pub an_mtu : within 65535 cfg.mtu ≡ true
  pub a_timeout : within 3600 cfg.udp_timeout ≡ true
  pub a_proxy : normalize_proxy cfg.proxy ≡ cfg.proxy

known_mode-regular :
    (m : Bytes)
    → known_mode m ≡ true
    → (regular_mode m ≡ codes "global")
      ⊎ (regular_mode m ≡ codes "rules")
      ⊎ (regular_mode m ≡ codes "direct")
known_mode-regular m h = ground (
  arith,
  bytes_eq_iff m (codes "global"),
  bytes_eq_iff m (codes "rules"),
  bytes_eq_iff m (codes "bypass"),
  bytes_eq_iff m (codes "direct"),
)

regular_route-cases :
    (r : Bytes) → (regular_route r ≡ codes "proxy") ⊎ (regular_route r ≡ codes "direct")
regular_route-cases r =
    ground (arith, bytes_eq_iff r (codes "direct"), bytes_eq_iff r (codes "proxy"))

pub normalize_config-IsRegular :
    (cfg : Config)
    → (normalize_config cfg).0 ≡ ok tt
    → normalize_proxy cfg.proxy ≡ cfg.proxy
    → IsRegular (normalize_config cfg).1
unfolding normalize_config
normalize_config-IsRegular cfg h p = record {
  a_device = ground arith;
  a_mode = ground (arith, known_mode-regular cfg.mode);
  a_route = ground (arith, regular_route-cases cfg.default_route);
  a_file = ground arith;
  an_mtu = ground arith;
  a_timeout = ground arith;
  a_proxy = ground arith;
}

pub clone_config-IsRegular : (cfg : Config) → IsRegular cfg → IsRegular (clone_config cfg)
clone_config-IsRegular cfg reg = record {
  a_device = reg.a_device;
  a_mode = reg.a_mode;
  a_route = reg.a_route;
  a_file = reg.a_file;
  an_mtu = reg.an_mtu;
  a_timeout = reg.a_timeout;
  a_proxy = reg.a_proxy;
}

-- A regular configuration stays regular.
pub normalize_config-ok : (cfg : Config) → IsRegular cfg → (normalize_config cfg).0 ≡ ok tt
unfolding normalize_config
normalize_config-ok cfg reg = ground (
  arith,
  bytes_eq_iff cfg.mode (codes "global"),
  bytes_eq_iff cfg.mode (codes "rules"),
  bytes_eq_iff cfg.mode (codes "direct"),
)

pub normalize_config_again : (cfg : Config) → IsRegular cfg → IsRegular (normalize_config cfg).1
normalize_config_again cfg reg =
    normalize_config-IsRegular cfg (normalize_config-ok cfg reg) reg.a_proxy

regular_mode_again : (m : Bytes) → regular_mode (regular_mode m) ≡ regular_mode m
unfolding bytes_eq
regular_mode_again m = ground (arith, bytes_eq_iff m (codes "bypass"))

regular_route_again : (r : Bytes) → regular_route (regular_route r) ≡ regular_route r
unfolding bytes_eq
regular_route_again r = ground arith

-- To make it regular again changes nothing.
pub normalize_config_fixed :
    (cfg : Config)
    → (normalize_config cfg).0 ≡ ok tt
    → (normalize_config (normalize_config cfg).1).1 ≡ (normalize_config cfg).1
unfolding normalize_config
normalize_config_fixed cfg h =
    ground (arith, regular_mode_again cfg.mode, regular_route_again cfg.default_route)

-- The errors of the policy for a mode and for a default route.
abbrev Settled : Routing.Error → Type 0
Settled e = (e ≢ Routing.invalid_default) × (e ≢ Routing.unsupported_mode)

module _ (parse_prefix : Bytes → Option Prefix) (parse_addr : Bytes → Option Addr) where
  parse_rule-Settled :
      (t : Bytes) (e : Routing.Error) → parse_rule parse_prefix parse_addr t ≡ err e → Settled e
  unfolding parse_rule parse_network
  parse_rule-Settled t e h = ground arith

  parse_rules-Settled :
      (ts : List Bytes) (e : Routing.Error)
      → parse_rules parse_prefix parse_addr ts ≡ err e
      → Settled e
  unfolding parse_rules
  parse_rules-Settled [] e h = absurd (ground arith)
  parse_rules-Settled (t ∷ ts) e h =
      ground (arith, parse_rule-Settled t e, parse_rules-Settled ts e)

  new_with_config-Settled :
      (load : Bytes → Option GeoIpMatcher) (cfg : Routing.Config) (e : Routing.Error)
      → (cfg.mode ≡ codes "global") ⊎ (cfg.mode ≡ codes "rules") ⊎ (cfg.mode ≡ codes "direct")
      → (cfg.default_route ≡ codes "proxy") ⊎ (cfg.default_route ≡ codes "direct")
      → new_with_config parse_prefix parse_addr load true cfg ≡ err e
      → Settled e
  unfolding new_with_config
  new_with_config-Settled load cfg e m r h = ground (
    arith,
    parse_rules-Settled cfg.direct_rules e,
    parse_rules-Settled cfg.proxy_rules e,
    bytes_eq_iff cfg.mode (codes "global"),
    bytes_eq_iff cfg.mode (codes "rules"),
    bytes_eq_iff cfg.mode (codes "direct"),
    bytes_eq_iff cfg.default_route (codes "proxy"),
    bytes_eq_iff cfg.default_route (codes "direct"),
  )

key_mode :
    (m : Bytes)
    → (m ≡ codes "global") ⊎ (m ≡ codes "rules") ⊎ (m ≡ codes "direct")
    → let k = if is_empty (trim_space m) then codes "global" else trim_space m in
      (k ≡ codes "global") ⊎ (k ≡ codes "rules") ⊎ (k ≡ codes "direct")
unfolding trim_space trim_left trim_right
key_mode m (inl e) = rw e (inl refl)
key_mode m (inr (inl e)) = rw e (inr (inl refl))
key_mode m (inr (inr e)) = rw e (inr (inr refl))

-- A timeout of whole seconds does not wrap.
seconds-within : (t : ℤ) → within 3600 t ≡ true → (n : ℕ) × (seconds t ≡ pos (n * 1000000000))
seconds-within (pos n) h = (n, small (leb→le n 3600 h))
  where
    small : n ≤ 3600 → seconds (pos n) ≡ pos (n * 1000000000)
    small b = ground arith
seconds-within (negsuc n) h = absurd (ground arith)

module _ (out : Outside) (lib : Library) (interface : Bytes) where
  abbrev pub key_of : Config → Key
  key_of cfg = build_engine_key lib interface cfg

  new_routing-Settled :
      (cfg : Config) (e : Routing.Error)
      → IsRegular cfg
      → new_routing out (key_of cfg) ≡ err (Engine.routing e)
      → Settled e
  unfolding new_routing build_engine_key
  new_routing-Settled cfg e reg h =
      let mode = key_mode cfg.mode reg.a_mode in
      new_with_config-Settled out.parse_prefix out.parse_addr out.read_geoip
        (routing_config (key_of cfg)) e mode reg.a_route (ground arith)

  general-timeout :
      (cfg : Config) (e : Engine)
      → IsRegular cfg
      → (general out (key_of cfg) e).0 ≢ err Engine.bad_timeout
  unfolding general build_engine_key find_interface
  general-timeout cfg e reg =
      let (n, whole) = seconds-within cfg.udp_timeout reg.a_timeout in ground (arith, whole)

  -- The engine refuses neither the mode nor the default route nor the timeout of the key that is made
  -- of a regular configuration, whatever the outside answers.
  pub build_engine_key-accepted :
      (cfg : Config) (e : Engine)
      → IsRegular cfg
      → (new_routing out (key_of cfg) ≢ err (Engine.routing Routing.invalid_default))
        × (new_routing out (key_of cfg) ≢ err (Engine.routing Routing.unsupported_mode))
        × ((general out (key_of cfg) e).0 ≢ err Engine.bad_timeout)
  build_engine_key-accepted cfg e reg = (
    λ h. (new_routing-Settled cfg _ reg h).0 refl,
    λ h. (new_routing-Settled cfg _ reg h).1 refl,
    general-timeout cfg e reg,
  )
