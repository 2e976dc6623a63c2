-- ===== src/Engine/Tests.antt =====
-- Concrete runs of the engine.
use tun_flow.Base.{
  ℕ, take, if◌then◌else◌, ◌≡◌, ◌≢◌, refl, ◌⊎◌, inl, inr, true, false, Bool, List, [], ◌∷◌, ◌++◌,
  Option, none, some, arith, Bytes, pos, Result, ok, err,
}
use tun_flow.Base.Text.{codes, has_prefix}
use tun_flow.Engine.{
  Key, Engine, Outside, Url, SocketOption, routing_mark, bind_to_interface, close_failed,
}
use tun_flow.Engine.Run.{start, stop, reload, general, running, find_interface, insert}
use tun_flow.Engine.Run.Start.{Starts, start-Starts}
use tun_flow.Engine.Run.Reload.{Reloads, reload-Reloads, bound, reload-mark}
use tun_flow.Engine.Run.Sessions.{
  Owned, none_open, opening, then_call, starts, reloads, Session-Owned,
}

-- A key with a proxy, a device, an interface and a firewall mark.
abbrev marked : Key
marked = record {
  mtu = 1500;
  mark = 255;
  proxy = codes "socks5://h";
  rest_api = [];
  device = codes "tun://d";
  log_level = codes "info";
  interface = codes "eth0";
  routing_mode = [];
  direct_cidrs = [];
  direct_rules = [];
  proxy_rules = [];
  default_route = [];
  geoip_file = [];
  tcp_moderate_receive_buffer = true;
  tcp_send_buffer_size = [];
  tcp_receive_buffer_size = [];
  multicast_groups = [];
  tun_pre_up = [];
  tun_post_up = codes "up";
  udp_timeout = pos 0;
}

abbrev url_at : Bytes → Option Url
url_at s =
    some (record { scheme = take (if has_prefix s (codes "tun") then 3 else 6) s; host = [] })

-- A system where everything the key names is there.
abbrev willing : Outside
willing = record {
  known_level = λ s. true;
  interface_by_name = λ s. some 2;
  parse_url = url_at;
  resolve_tcp_addr = λ s. some s;
  parse_prefix = λ s. none;
  parse_addr = λ s. none;
  is_multicast = λ a. true;
  read_geoip = λ s. none;
  protocols = (codes "socks5", λ u. some 7) ∷ [];
  open_fd = λ u m. none;
  open_tun = λ u m. some 3;
  ram_in_bytes = λ s. none;
  create_stack = λ d h gs os. some 5;
  close_fails = false;
}

-- The package's variables before anything is called, with the key inserted.
abbrev initial : Engine
initial = record {
  key = some marked;
  proxy = none;
  routing_proxy = none;
  device = none;
  stack = none;
  icmp_handler = none;
  dialer = [];
  tunnel_proxy = none;
  udp_timeout = pos 60;
  rest_begun = [];
  rest_server = none;
  open_devices = [];
  commands = [];
}

start-Starts_example : Starts willing marked [] (start willing initial)
start-Starts_example = start-Starts willing marked initial refl refl

abbrev started : Engine
started = record initial { device = some 3; stack = some 5; open_devices = 3 ∷ [] }

reload-Reloads_example : Reloads willing marked started (reload willing (some marked) started)
reload-Reloads_example = reload-Reloads willing marked started

marked_found : find_interface willing marked ≡ ok (some 2)
unfolding find_interface
marked_found = refl

general_succeeds : (general willing marked initial).0 ≡ ok tt
unfolding general find_interface
general_succeeds = refl

reload_succeeds : (reload willing (some marked) started).0 ≡ ok tt
unfolding reload tun_flow.Engine.Parse.parse_proxy tun_flow.Engine.Parse.parse
    tun_flow.Engine.Parse.pick tun_flow.Base.Text.bytes_eq has_prefix
    tun_flow.Base.Text.contains_text tun_flow.Engine.Run.new_routing
    tun_flow.Routing.new_with_config tun_flow.Routing.parse_rules find_interface
reload_succeeds = refl

reload-mark_example :
    ((general willing marked initial).1.dialer ≡ bound (some 2) ++ routing_mark 255 ∷ [])
    × ((reload willing (some marked) started).1.dialer ≡ bound (some 2))
reload-mark_example =
    reload-mark willing marked initial started (some 2) (omega arith) marked_found general_succeeds
      reload_succeeds

Session-Owned_example : Owned (reload willing none (start willing initial).1).1
Session-Owned_example =
    Session-Owned (none_open refl refl)
      (then_call (then_call opening (starts willing refl)) (reloads willing none))
