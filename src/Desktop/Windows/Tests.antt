-- ===== src/Desktop/Windows/Tests.antt =====
-- Concrete runs of the functions of Windows.
use tun_flow.Base.{
  ℕ, pos, ◌+◌, ◌≡◌, refl, ap, ◌||◌, Bool, true, false, not, List, [], ◌∷◌, none, some,
  if◌then◌else◌, Bytes, Result, ok, err, length,
}
use tun_flow.Base.Act.{Act}
use tun_flow.Base.Text.{bytes_eq, codes}
use tun_flow.Desktop.{App, Fault, World, Host, Files, io, not_exist, system}
use tun_flow.Desktop.Watch.{first_config}
use tun_flow.Desktop.Control.{stop}
use tun_flow.Desktop.Tests.{library, outside, stopped}
use tun_flow.Desktop.Windows.{Shell, RouteState, no_config, no_routes}
use tun_flow.Desktop.Windows.Routes.{
  original_config, delete_default_route, remove_routes, delete_all, setup_routes, windows,
}
use tun_flow.Desktop.Windows.Original.{tun_line}
use tun_flow.Desktop.Windows.Held
use tun_flow.Desktop.Windows.Held.{Stuck, stops, stops-failed}
use tun_flow.Desktop.Windows.Rollback
use tun_flow.Desktop.Windows.Rollback.{Route, tun_default, route_of, is_default, is_route}

-- A system that answers nothing, with the commands that are given.
abbrev with_run : {S : Type 0} → (List Bytes → Act S Fault (Unit {0})) → Shell S
with_run run = record {
  run = run;
  query = λ q s. (err io, s);
  show_interfaces = λ s. (err io, s);
  print_routes = λ s. (err io, s);
  lookup_ip = λ h s. (err io, s);
  parse_ip = λ b. some (record { v4 = some b; loopback = bytes_eq b (codes "127.0.0.1") });
  hostname = λ b. none;
  atoi = λ b. some (pos (length b));
  itoa = λ n. [];
  mask_text = λ n. some [];
}

abbrev idle : Shell ℕ
idle = with_run (λ args n. (ok tt, n + 1))

-- A system whose script tells of a static address without a gateway.
abbrev without_gateway : Shell ℕ
without_gateway = record idle {
  query = λ q s. (ok (tun_line (codes "false") (codes "10.0.0.2") (codes "24") []), s);
}

-- A system with one default route, where no other route can be deleted.
abbrev is_host : List Bytes → Bool
is_host (a ∷ b ∷ ip ∷ c ∷ mask ∷ rest) = bytes_eq mask (codes "255.255.255.255")
is_host args = false

abbrev is_delete : List Bytes → Bool
is_delete (a ∷ b ∷ rest) = bytes_eq b (codes "DELETE")
is_delete args = false

abbrev drop_default : Bool → Result Fault (Unit {0}) × Bool
drop_default true = (ok tt, false)
drop_default false = (err not_exist, false)

abbrev one_route : Shell Bool
one_route = with_run (λ args s.
    if is_host args then (err io, s) else if is_delete args then drop_default s else (ok tt, s))

one_route-IsTable : Held.IsTable one_route (λ i s. s)
unfolding bytes_eq
one_route-IsTable = record {
  deleted = λ i s ran. lost s;
  absent = λ i s gone. (not_exist, ap (λ b. (drop_default b).0) gone, lost s);
  proxy_keeps = λ i ip j s h. h;
  dhcp_keeps = λ i name s h. h;
  static_keeps = λ i name a m g s h. h;
}
  where
    lost : (s : Bool) → (drop_default s).1 ≡ false
    lost true = refl
    lost false = refl

abbrev no_files : Files Bool
no_files = record {
  look = λ p d. none;
  read_file = λ p d. (err io, d);
  rename = λ a b d. (err io, d);
  remove = λ a d. (err io, d);
  create_temp = λ a b d. (err io, d);
  write = λ p c d. (err io, d);
  sync = λ p d. (err io, d);
  close = λ p d. (err io, d);
  size = λ p d. (err io, d);
}

abbrev host : Host Bool RouteState
host = record {
  files = no_files;
  library = library;
  platform = windows one_route (λ b s. (ok tt, s));
  outside = outside;
  dial_tcp = λ h p d. (ok tt, d);
}

-- The routes are up, and one of the proxy is not to be deleted.
abbrev world : World Bool RouteState
world = record {
  app = record {
    cfg = first_config;
    last_error = none;
    up = record {
      active = true;
      tun_name = codes "TunFlow";
      tun_index = codes "7";
      physical_index = codes "3";
      gateway = codes "10.0.0.1";
      proxy_ips = codes "192.0.2.1" ∷ [];
      original = no_config;
    };
    runtime_interface = [];
    network_signature = [];
    tray_end = none;
    config_watch_stop = none;
    config_disk_checksum = [];
    config_loaded = true;
  };
  os = true;
  engine = stopped;
}

partly : (remove_routes one_route world.app.up true).0 ≡ err (system io)
unfolding remove_routes delete_all bytes_eq
partly = refl

default_deleted : (one_route.run (delete_default_route (codes "7")) true).0 ≡ ok tt
unfolding bytes_eq
default_deleted = refl

stops-failed_example :
    ((stop host world).0 ≡ err (system io)) × Stuck host world (stops host 4 world)
stops-failed_example =
    stops-failed one_route (λ i s. s) host (λ b s. (ok tt, s)) world (system io) 3 one_route-IsTable
      refl default_deleted partly

-- A table of routes.
abbrev same_route : Route → Route → Bool
same_route tun_default q = is_default q
same_route (route_of ip) q = is_route ip q

abbrev has : Route → List Route → Bool
has q [] = false
has q (x ∷ xs) = same_route x q || has q xs

abbrev without : Route → List Route → List Route
without r [] = []
without r (x ∷ xs) = if same_route r x then without r xs else x ∷ without r xs

abbrev third : List Bytes → Bytes
third (a ∷ b ∷ c ∷ rest) = c
third args = []

-- Adding a route fails where it is there already; the default route is the one of 0.0.0.0.
abbrev add_when : Bool → Route → List Route → Result Fault (Unit {0}) × List Route
add_when b r s = if b then (err io, s) else (ok tt, r ∷ s)

abbrev route_named : List Bytes → Route
route_named args = if is_host args then route_of (third args) else tun_default

abbrev is_route_command : List Bytes → Bool
is_route_command (a ∷ rest) = bytes_eq a (codes "route")
is_route_command [] = false

abbrev table_run : List Bytes → Act (List Route) Fault (Unit {0})
table_run args s =
    if not (is_route_command args)
    then (ok tt, s)
    else if is_delete args
    then (ok tt, without (route_named args) s)
    else add_when (has (route_named args) s) (route_named args) s

-- It answers every script with an address that is a number too.
abbrev table : Shell (List Route)
table = record (with_run table_run) {
  query = λ q s. (ok (codes "10.0.0.1"), s);
  show_interfaces = λ s. (ok (codes "7 25 1500 connected TunFlow"), s);
  print_routes = λ s. (ok (codes "0.0.0.0 0.0.0.0 198.18.0.1 198.18.0.1"), s);
  hostname = λ b. some (codes "192.0.2.1");
}

abbrev at_rest : App RouteState
at_rest = record world.app { up = no_routes }

-- On this system the routes come up.
set_up_ok : (setup_routes table (at_rest, [])).0 ≡ ok tt
unfolding setup_routes tun_flow.Desktop.Windows.Routes.select_runtime_interface
    tun_flow.Base.Text.trim_space tun_flow.Desktop.Windows.default_gateway
    tun_flow.Desktop.Windows.physical_interface_name tun_flow.Desktop.Windows.interface_index
    tun_flow.Base.Text.split_by tun_flow.Desktop.Windows.Text.fields bytes_eq
    tun_flow.Base.Text.has_prefix tun_flow.Desktop.Windows.resolve_proxy_ips
    tun_flow.Desktop.Windows.physical_interface_index tun_flow.Desktop.Windows.Routes.add_routes
    tun_flow.Desktop.Windows.Routes.add_all original_config
    tun_flow.Desktop.Windows.Routes.parse_tun_config
    tun_flow.Desktop.Windows.Routes.default_route_ready
    tun_flow.Desktop.Windows.current_network_signature tun_flow.Base.Text.contains_text
    tun_flow.Base.Text.trim_left tun_flow.Base.Text.trim_right tun_flow.Desktop.Regular.find_scheme
    tun_flow.Desktop.Regular.normalize_proxy delete_all tun_flow.Desktop.Windows.Routes.delete_each
    remove_routes tun_flow.Desktop.Windows.Routes.restore_tun_config
    tun_flow.Desktop.Windows.Routes.teardown_routes tun_flow.Desktop.Windows.Text.doubled
    tun_flow.Desktop.Windows.Text.ps_quote
set_up_ok = refl
