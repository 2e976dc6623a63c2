-- ===== src/Engine/Run/Frames.antt =====
-- What the steps of the engine leave alone, and that none of them panics.
use tun_flow.Base.{ℕ, ◌≡◌, ◌≢◌, Bool, true, List, [], ◌∷◌, Option, arith, Bytes, Result, panic}
use tun_flow.Netip.{Addr, Prefix}
use tun_flow.Routing.{Config, GeoIpMatcher, new_with_config, parse_rules, parse_rule, parse_network}
use tun_flow.Engine.{Key, Error, Outside, Engine}
use tun_flow.Engine.Parse.{parse_proxy, parse_rest_api, parse_device, parse_multicast_groups, parse}
use tun_flow.Engine.Run.{
  general, rest_api, set_routing, new_routing, routing_config, find_interface,
}

module _ (parse_prefix : Bytes → Option Prefix) (parse_addr : Bytes → Option Addr) where
  parse_rule-ne-panic : (t : Bytes) → parse_rule parse_prefix parse_addr t ≢ panic
  unfolding parse_rule parse_network
  parse_rule-ne-panic t = grind arith

  parse_rules-ne-panic : (ts : List Bytes) → parse_rules parse_prefix parse_addr ts ≢ panic
  unfolding parse_rules
  parse_rules-ne-panic [] = ground arith
  parse_rules-ne-panic (t ∷ ts) = ground (arith, parse_rule-ne-panic t, parse_rules-ne-panic ts)

  pub new_with_config-ne-panic :
      (load : Bytes → Option GeoIpMatcher) (upstream : Bool) (cfg : Config)
      → new_with_config parse_prefix parse_addr load upstream cfg ≢ panic
  unfolding new_with_config
  new_with_config-ne-panic load upstream cfg =
      ground (arith, parse_rules-ne-panic cfg.direct_rules, parse_rules-ne-panic cfg.proxy_rules)

module _ (out : Outside) where
  pub new_routing-ne-panic : (k : Key) → new_routing out k ≢ panic
  unfolding new_routing
  new_routing-ne-panic k = ground (
    arith,
    new_with_config-ne-panic out.parse_prefix out.parse_addr out.read_geoip true (routing_config k),
  )

  pub parse_proxy-ne-panic : (s : Bytes) → parse_proxy out s ≢ panic
  unfolding parse_proxy parse
  parse_proxy-ne-panic s = ground arith

  pub parse_rest_api-ne-panic : (s : Bytes) → parse_rest_api out s ≢ panic
  unfolding parse_rest_api
  parse_rest_api-ne-panic s = ground arith

  pub parse_device-ne-panic : (s : Bytes) (mtu : ℕ) → parse_device out s mtu ≢ panic
  unfolding parse_device
  parse_device-ne-panic s mtu = ground arith

  pub parse_multicast_groups-ne-panic : (ss : List Bytes) → parse_multicast_groups out ss ≢ panic
  unfolding parse_multicast_groups
  parse_multicast_groups-ne-panic [] = ground arith
  parse_multicast_groups-ne-panic (s ∷ ss) = ground (arith, parse_multicast_groups-ne-panic ss)

  pub find_interface-ne-panic : (k : Key) → find_interface out k ≢ panic
  unfolding find_interface
  find_interface-ne-panic k = ground arith

-- A step ends without a panic, with the same device, stack, key and open devices as e.
pub record Keeps (e : Engine) (x : Result Error (Unit {0}) × Engine) : Type 0 where
  pub no_panic : x.0 ≢ panic
  pub same_device : x.1.device ≡ e.device
  pub same_stack : x.1.stack ≡ e.stack
  pub same_open : x.1.open_devices ≡ e.open_devices

pub general-Keeps : (out : Outside) (k : Key) (e : Engine) → Keeps e (general out k e)
unfolding general
general-Keeps out k e = record {
  no_panic = ground (arith, find_interface-ne-panic out k);
  same_device = ground (arith, find_interface-ne-panic out k);
  same_stack = ground (arith, find_interface-ne-panic out k);
  same_open = ground (arith, find_interface-ne-panic out k);
}

pub rest_api-Keeps : (out : Outside) (k : Key) (e : Engine) → Keeps e (rest_api out k e)
unfolding rest_api
rest_api-Keeps out k e = record {
  no_panic = ground (arith, parse_rest_api-ne-panic out k.rest_api);
  same_device = ground (arith, parse_rest_api-ne-panic out k.rest_api);
  same_stack = ground (arith, parse_rest_api-ne-panic out k.rest_api);
  same_open = ground (arith, parse_rest_api-ne-panic out k.rest_api);
}

pub set_routing-Keeps : (out : Outside) (k : Key) (e : Engine) → Keeps e (set_routing out k e)
unfolding set_routing
set_routing-Keeps out k e = record {
  no_panic = ground (arith, parse_proxy-ne-panic out k.proxy, new_routing-ne-panic out k);
  same_device = ground (arith, parse_proxy-ne-panic out k.proxy, new_routing-ne-panic out k);
  same_stack = ground (arith, parse_proxy-ne-panic out k.proxy, new_routing-ne-panic out k);
  same_open = ground (arith, parse_proxy-ne-panic out k.proxy, new_routing-ne-panic out k);
}
