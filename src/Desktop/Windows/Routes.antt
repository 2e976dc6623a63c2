-- ===== src/Desktop/Windows/Routes.antt =====
-- desktop/platform_windows.go: reading and restoring the configuration of the TUN interface, and the
-- routes, set up and torn down.
pub mod Safe
pub mod Setup
use tun_flow.Base.{
  ℕ, ℤ, ltb, leb, ◌-◌, Bool, true, false, not, ◌&&◌, ◌||◌, List, [], ◌∷◌, ◌++◌, Option, none, some,
  ◌==◌, if◌then◌else◌, Bytes, length, drop, get_elem?, is_empty, Result, ok, err, panic,
}
use tun_flow.Base.Act.{Act, chain, ◌>>=◌, ◌>>◌, return, refuse_if, lift, require, get, modify}
use tun_flow.Base.Text.{bytes_eq, trim_space, codes, has_prefix, split_by}
use tun_flow.Desktop.{Error, Fault, App, Platform, bad_output, not_ready, system}
use tun_flow.Desktop.Windows.{
  Shell, TunConfig, RouteState, no_config, no_routes, tun_config, run_windows, default_gateway,
  physical_interface_name, physical_interface_index, current_network_signature, interface_index,
  resolve_proxy_ips, of_fault, is_some, ignoring,
}
use tun_flow.Desktop.Windows.Text.{ps_quote, fields}

abbrev tun_address : Bytes
tun_address = codes "198.18.0.1"

abbrev zeros : Bytes
zeros = codes "0.0.0.0"

abbrev host_mask : Bytes
host_mask = codes "255.255.255.255"

-- The commands.
abbrev pub add_proxy_route : (ip gateway index : Bytes) → List Bytes
add_proxy_route ip gateway index =
    codes "route"
    ∷ codes "ADD"
    ∷ ip
    ∷ codes "MASK"
    ∷ host_mask
    ∷ gateway
    ∷ codes "METRIC"
    ∷ codes "1"
    ∷ codes "IF"
    ∷ index
    ∷ []

abbrev pub delete_proxy_route : (ip index : Bytes) → List Bytes
delete_proxy_route ip index =
    codes "route" ∷ codes "DELETE" ∷ ip ∷ codes "MASK" ∷ host_mask ∷ codes "IF" ∷ index ∷ []

abbrev pub add_default_route : (index : Bytes) → List Bytes
add_default_route index =
    codes "route"
    ∷ codes "ADD"
    ∷ zeros
    ∷ codes "MASK"
    ∷ zeros
    ∷ tun_address
    ∷ codes "METRIC"
    ∷ codes "1"
    ∷ codes "IF"
    ∷ index
    ∷ []

abbrev pub delete_default_route : (index : Bytes) → List Bytes
delete_default_route index =
    codes "route"
    ∷ codes "DELETE"
    ∷ zeros
    ∷ codes "MASK"
    ∷ zeros
    ∷ tun_address
    ∷ codes "IF"
    ∷ index
    ∷ []

-- `netsh interface ipv4 set`.
abbrev netsh_set : List Bytes → List Bytes
netsh_set args = codes "netsh" ∷ codes "interface" ∷ codes "ipv4" ∷ codes "set" ∷ args

abbrev pub set_dhcp : Bytes → List Bytes
set_dhcp name = netsh_set (codes "address" ∷ (codes "name=" ++ name) ∷ codes "source=dhcp" ∷ [])

abbrev pub set_static : (name address mask gateway : Bytes) → List Bytes
set_static name address mask gateway = netsh_set (
    codes "address"
    ∷ (codes "name=" ++ name)
    ∷ codes "source=static"
    ∷ (codes "addr=" ++ address)
    ∷ (codes "mask=" ++ mask)
    ∷ (codes "gateway=" ++ gateway)
    ∷ [])

abbrev pub set_dns : Bytes → List Bytes
set_dns name = netsh_set (
    codes "dns"
    ∷ (codes "name=" ++ name)
    ∷ codes "source=static"
    ∷ codes "addr=8.8.8.8"
    ∷ codes "register=primary"
    ∷ [])

abbrev trim_prefix : Bytes → Bytes → Bytes
trim_prefix s p = if has_prefix s p then drop (length p) s else s

-- The name of the TUN interface.
abbrev tun_name_of : Bytes → Bytes
tun_name_of device = trim_prefix (trim_prefix device (codes "tun://")) (codes "tun:")

abbrev or_default : Bytes → Bytes
or_default name = if is_empty name then codes "TunFlow" else name

abbrev row_ready : List Bytes → Bool
row_ready (a ∷ b ∷ c ∷ d ∷ more) =
    bytes_eq a zeros && bytes_eq b zeros && (bytes_eq c tun_address || bytes_eq d tun_address)
row_ready short = false

abbrev any_ready : List Bytes → Bool
any_ready [] = false
any_ready (l ∷ ls) = row_ready (fields l) || any_ready ls

module _ {S : Type 0} (shell : Shell S) where
  abbrev tun_fields : List Bytes → Option TunConfig
  tun_fields (dhcp ∷ address ∷ prefix ∷ gateway ∷ more) = elim (shell.atoi prefix) [
    | none ↦ none
    | some n ↦ some (record {
      dhcp = bytes_eq dhcp (codes "true");
      address = address;
      prefix_length = n;
      gateway = gateway;
    })
  ]
  tun_fields short = none

  -- The end of `readTunConfig`, from the output of the script, that `runPowerShellText` trims.
  unfoldable pub parse_tun_config : Bytes → Option TunConfig
  parse_tun_config out = tun_fields (split_by (λ c. c == 9) (trim_space out))

  -- `readTunConfig`, where an error gives the empty configuration, as in `setupRoutesLocked`.
  unfoldable pub original_config : Bytes → S → TunConfig × S
  original_config name s =
      let (r, t) = shell.query (tun_config (ps_quote name)) s in
      elim r [
        | ok out ↦ elim (parse_tun_config out) [ none ↦ (no_config, t) | some c ↦ (c, t) ]
        | err e ↦ (no_config, t)
        | panic ↦ (no_config, t)
      ]

  abbrev gateway_text : Bytes → Bytes
  gateway_text gateway = if is_some (shell.parse_ip gateway) then gateway else codes "none"

  -- A mask that is nil has no first byte.
  abbrev pub set_mask : Bytes → TunConfig → Option Bytes → Act S Error (Unit {0})
  set_mask name cfg none s = (panic, s)
  set_mask name cfg (some mask) s =
      run_windows shell (set_static name cfg.address mask (gateway_text cfg.gateway)) s

  -- `restoreTunConfig`.
  unfoldable pub restore_tun_config : Bytes → TunConfig → Act S Error (Unit {0})
  restore_tun_config name cfg =
      if cfg.dhcp || is_empty cfg.address
      then run_windows shell (set_dhcp name)
      else set_mask name cfg (shell.mask_text cfg.prefix_length)

  -- `windowsTunDefaultRouteReady`.
  unfoldable pub default_route_ready : Act S Error Bool
  default_route_ready s =
      let (r, t) = shell.print_routes s in
      chain (of_fault r) t (λ out. return (any_ready (split_by (λ c. c == 10) out)))

  -- The loops over the proxy's addresses that delete their routes: the one stops at an error, the other
  -- goes on.
  unfoldable pub delete_all : Bytes → List Bytes → Act S Error (Unit {0})
  delete_all index [] = return tt
  delete_all index (ip ∷ ips) = do
    run_windows shell (delete_proxy_route ip index)
    delete_all index ips

  unfoldable pub delete_each : Bytes → List Bytes → S → S
  delete_each index [] s = s
  delete_each index (ip ∷ ips) s =
      delete_each index ips (shell.run (delete_proxy_route ip index) s).1

  -- `cleanup`: what fails is left; a panic is not.
  abbrev pub after_cleanup : Error → Result Error (Unit {0}) × S → Result Error (List Bytes) × S
  after_cleanup e (ok u, s) = (err e, s)
  after_cleanup e (err f, s) = (err e, s)
  after_cleanup e (panic, s) = (panic, s)

  -- Where adding a route fails.
  abbrev pub undo :
      (name index : Bytes) → TunConfig → List Bytes → Error → S → Result Error (List Bytes) × S
  undo name index original added e s =
      after_cleanup e (restore_tun_config name original (delete_each index added s))

  abbrev pub is_loopback : Bytes → Bool
  is_loopback ip = elim (shell.parse_ip ip) [ none ↦ false | some i ↦ i.loopback ]

  -- The loop over the proxy's addresses that adds their routes.
  unfoldable pub add_all :
      (name index gateway : Bytes) → TunConfig → (ips added : List Bytes) → Act S Error (List Bytes)
  add_all name index gateway original [] added s = (ok added, s)
  add_all name index gateway original (ip ∷ ips) added s =
      let skip = add_all name index gateway original ips added s in
      let got = shell.run (add_proxy_route ip gateway index) s in
      let next = add_all name index gateway original ips (added ++ ip ∷ []) got.1 in
      if is_loopback ip then skip else elim got.0 [
        | ok u ↦ next
        | err e ↦ undo name index original added (system e) got.1
        | panic ↦ (panic, got.1)
      ]

  abbrev pub added_default :
      (name index : Bytes)
      → TunConfig
      → List Bytes
      → Result Fault (Unit {0}) × S
      → Result Error (List Bytes) × S
  added_default name index original added (ok u, s) = (ok added, s)
  added_default name index original added (err e, s) = undo name index original added (system e) s
  added_default name index original added (panic, s) = (panic, s)

  -- The routes of the proxy's addresses and the default route.
  unfoldable pub add_routes :
      (name tun_index index gateway : Bytes) → TunConfig → List Bytes → Act S Error (List Bytes)
  add_routes name tun_index index gateway original ips = do
    added ← add_all name index gateway original ips []
    λ s. added_default name index original added (shell.run (add_default_route tun_index) s)

module _ {S : Type 0} where
  abbrev on_os : {A : Type 0} → Act S Error A → Act (App RouteState × S) Error A
  on_os m (a, s) = let (r, t) = m s in (r, (a, t))

  abbrev set_up : RouteState → App RouteState × S → App RouteState × S
  set_up r (a, s) = (record a { up = r }, s)

  abbrev set_interface : Bytes → App RouteState × S → App RouteState × S
  set_interface name (a, s) = (record a { runtime_interface = name }, s)

  abbrev set_signature : Bytes → App RouteState × S → App RouteState × S
  set_signature text (a, s) = (record a { network_signature = text }, s)

  abbrev clear_up :
      Result Error (Unit {0}) × S → App RouteState → Result Error (Unit {0}) × (App RouteState × S)
  clear_up (ok u, s) a = (ok tt, (record a { up = no_routes }, s))
  clear_up (err e, s) a = (err e, (a, s))
  clear_up (panic, s) a = (panic, (a, s))

  -- Where the route does not show: the error after a teardown whose own error is not looked at.
  abbrev torn_down :
      Error
      → Result Error (Unit {0}) × (App RouteState × S)
      → Result Error (Unit {0}) × (App RouteState × S)
  torn_down e (ok u, x) = (err e, x)
  torn_down e (err f, x) = (err e, x)
  torn_down e (panic, x) = (panic, x)

  abbrev keep_signature :
      Result Error Bytes × (App RouteState × S) → Result Error (Unit {0}) × (App RouteState × S)
  keep_signature (ok text, x) = (ok tt, set_signature text x)
  keep_signature (err e, x) = (ok tt, x)
  keep_signature (panic, x) = (panic, x)

module _ {S : Type 0} (shell : Shell S) where
  -- `selectRuntimeInterfaceLocked`.
  unfoldable pub select_runtime_interface : Act (App RouteState × S) Error (Unit {0})
  select_runtime_interface x =
      let name = trim_space x.0.cfg.interface in
      if not (is_empty name)
      then (ok tt, set_interface name x)
      else (do
        gateway ← on_os (default_gateway shell [])
        found ← on_os (physical_interface_name shell gateway)
        modify (set_interface found))
          x

  -- The commands that `teardownRoutesLocked` runs, up to the first that fails.
  unfoldable pub remove_routes : RouteState → Act S Error (Unit {0})
  remove_routes up = do
    run_windows shell (delete_default_route up.tun_index)
    delete_all shell up.physical_index up.proxy_ips
    restore_tun_config shell up.tun_name up.original

  -- `teardownRoutesLocked`.
  unfoldable pub teardown_routes : Act (App RouteState × S) Error (Unit {0})
  teardown_routes (a, s) =
      if not a.up.active then (ok tt, (a, s)) else clear_up (remove_routes a.up s) a

  abbrev check_ready :
      Result Error Bool × (App RouteState × S) → Result Error (Unit {0}) × (App RouteState × S)
  check_ready (ok true, x) =
      keep_signature (on_os (current_network_signature shell x.0.cfg.interface) x)
  check_ready (ok false, x) = torn_down not_ready (teardown_routes x)
  check_ready (err e, x) = torn_down e (teardown_routes x)
  check_ready (panic, x) = (panic, x)

  -- `setupRoutesLocked`.
  unfoldable pub setup_routes : Act (App RouteState × S) Error (Unit {0})
  setup_routes = do
    select_runtime_interface
    x ← get
    let name = or_default (tun_name_of x.0.cfg.device)
    original ← on_os (λ s. let (c, t) = original_config shell name s in (ok c, t))
    gateway ← on_os (default_gateway shell x.0.runtime_interface)
    tun_index ← on_os (interface_index shell name)
    ips ← on_os (resolve_proxy_ips shell x.0.cfg.proxy)
    index ← on_os (physical_interface_index shell gateway)
    on_os (run_windows shell (set_static name tun_address (codes "255.254.0.0") (codes "none")))
    on_os (run_windows shell (set_dns name))
    added ← on_os (add_routes shell name tun_index index gateway original ips)
    modify (
        set_up (record {
          active = true;
          tun_name = name;
          tun_index = tun_index;
          physical_index = index;
          gateway = gateway;
          proxy_ips = added;
          original = original;
        }))
    λ y. check_ready (on_os (default_route_ready shell) y)

  -- The platform; registering the program for the start of Windows is in another file.
  abbrev pub windows : (Bool → Act S Fault (Unit {0})) → Platform S RouteState
  windows set_start_with_windows = record {
    active = λ r. r.active;
    select_runtime_interface = select_runtime_interface;
    setup_routes = setup_routes;
    teardown_routes = teardown_routes;
    set_start_with_windows = set_start_with_windows;
  }
