-- ===== src/Engine/Run.antt =====
-- engine/engine.go and engine/reload.go: starting, reloading and stopping.
pub mod Frames
pub mod Start
pub mod Reload
pub mod Sessions
use tun_flow.Base.{
  ℕ, ℤ, pos, negsuc, ◌+◌, ◌%◌, ◌^◌, Bool, true, false, not, ◌&&◌, List, [], ◌∷◌, ◌++◌, Option, none,
  some, ltb, ◌==◌, if◌then◌else◌, Bytes, is_empty, Result, ok, err, panic,
}
use tun_flow.Base.Act.{Act, chain, ◌>>=◌, ◌>>◌, return, refuse_if, lift, require, modify, get}
use tun_flow.Base.Text.{codes, bytes_eq}
use tun_flow.Netip.{Addr}
use tun_flow.Routing.{Config, mode_global, mode_rules, new_with_config}
use tun_flow.Routing
use tun_flow.Engine.{
  Key, Error, Outside, Engine, SocketOption, bind_to_interface, routing_mark, StackOption,
  moderate_receive_buffer, send_buffer_size, receive_buffer_size, empty_key, not_running,
  empty_proxy, empty_device, unknown_level, no_interface, bad_timeout, bad_size, stack_failed,
  close_failed, routing,
}
use tun_flow.Engine.Parse.{parse_proxy, parse_rest_api, parse_device, parse_multicast_groups}

abbrev pub Run : Type 0 → Type 0
Run A = Act Engine Error A

abbrev is_none {ℓ} : {A : Type ℓ} → Option A → Bool
is_none none = true
is_none (some a) = false

abbrev is_some {ℓ} : {A : Type ℓ} → Option A → Bool
is_some none = false
is_some (some a) = true

-- `Running`.
abbrev pub running : Engine → Bool
running e = is_some e.device && is_some e.stack

-- `Insert` and `SetICMPHandler`.
abbrev pub insert : Key → Engine → Engine
insert k e = record e { key = some k }

abbrev pub set_icmp_handler : ℕ → Engine → Engine
set_icmp_handler h e = record e { icmp_handler = some h }

abbrev pub default_mode : Key → Bytes
default_mode k = if is_empty k.routing_mode then mode_global else k.routing_mode

abbrev listed_rules : Key → List Bytes
listed_rules k = if is_empty k.direct_rules then k.direct_cidrs else k.direct_rules

abbrev default_rules : Key → List Bytes
default_rules k =
    if bytes_eq (default_mode k) mode_rules && is_empty (listed_rules k) && is_empty k.proxy_rules
    then codes "private" ∷ codes "geoip:cn" ∷ []
    else listed_rules k

-- The configuration that both `netstack` and `Reload` make of a key.
abbrev pub routing_config : Key → Config
routing_config k = record {
  mode = default_mode k;
  direct_rules = default_rules k;
  proxy_rules = k.proxy_rules;
  default_route = k.default_route;
  geoip_file = k.geoip_file;
}

abbrev of_routing {ℓ} : {A : Type ℓ} → Result Routing.Error A → Result Error A
of_routing (ok a) = ok a
of_routing (err e) = err (routing e)
of_routing panic = panic

-- The loss of a handle from a list.
abbrev pub remove : ℕ → List ℕ → List ℕ
remove h [] = []
remove h (x ∷ xs) = if x == h then xs else x ∷ remove h xs

-- `_defaultDevice.Close(); _defaultDevice = nil`, if there is one.
abbrev close_device_at : Option ℕ → Engine → Engine
close_device_at none e = e
close_device_at (some h) e = record e { device = none; open_devices = remove h e.open_devices }

unfoldable pub close_device : Engine → Engine
close_device e = close_device_at e.device e

module _ (out : Outside) where
  -- `restapi.Stop`, which closes the server that has registered itself, if one has.
  abbrev stop_server : Option Bytes → Run (Unit {0})
  stop_server none e = (ok tt, e)
  stop_server (some host) e =
      (if out.close_fails then err close_failed else ok tt, record e { rest_server = none })

  unfoldable pub rest_stop : Run (Unit {0})
  rest_stop e = stop_server e.rest_server e

  -- `routing.NewWithConfig` on the key.
  unfoldable pub new_routing : Key → Result Error Routing.Proxy
  new_routing k =
      of_routing
        (new_with_config out.parse_prefix out.parse_addr out.read_geoip true (routing_config k))

  abbrev add_option : SocketOption → Engine → Engine
  add_option o e = record e { dialer = e.dialer ++ o ∷ [] }

  -- The interface of a key, none where it names none.
  unfoldable pub find_interface : Key → Result Error (Option ℕ)
  find_interface k =
      if is_empty k.interface then ok none else elim (out.interface_by_name k.interface) [
        | none ↦ err no_interface
        | some i ↦ ok (some i)
      ]

  abbrev bind_interface : Option ℕ → Engine → Engine
  bind_interface none e = e
  bind_interface (some i) e = add_option (bind_to_interface i) e

  abbrev mark_option : Key → Engine → Engine
  mark_option k e = if k.mark == 0 then e else add_option (routing_mark k.mark) e

  abbrev set_timeout : ℤ → Run (Unit {0})
  set_timeout (negsuc n) e = (ok tt, e)
  set_timeout (pos n) e =
      if n == 0
      then (ok tt, e)
      else if ltb n 1000000000
      then (err bad_timeout, e)
      else (ok tt, record e { udp_timeout = pos n })

  -- `general`.
  unfoldable pub general : Key → Run (Unit {0})
  general k = do
    refuse_if (not (out.known_level k.log_level)) unknown_level
    modify (λ e. record e { dialer = [] })
    i ← lift (find_interface k)
    modify (bind_interface i)
    modify (mark_option k)
    set_timeout k.udp_timeout

  -- `restAPI`: the goroutine that will serve at the host.
  unfoldable pub rest_api : Key → Run (Unit {0})
  rest_api k = if is_empty k.rest_api then return tt else (do
    host ← lift (parse_rest_api out k.rest_api)
    modify (λ e. record e { rest_begun = e.rest_begun ++ host ∷ [] }))

  -- `execCommand` of a hook that is set: its error is logged only.
  abbrev hook : Bytes → Engine → Engine
  hook command e =
      if is_empty command then e else record e { commands = e.commands ++ command ∷ [] }

  -- A failure of `parseProxy` leaves nil.
  abbrev keep_proxy : Result Error ℕ → Run (Unit {0})
  keep_proxy (ok p) e = (ok tt, record e { proxy = some p })
  keep_proxy (err x) e = (err x, record e { proxy = none })
  keep_proxy panic e = (panic, e)

  -- The proxy and the rules of a key, parsed: `_defaultProxy` is set even where the rules fail.
  unfoldable pub set_routing : Key → Run (Unit {0})
  set_routing k = do
    keep_proxy (parse_proxy out k.proxy)
    r ← lift (new_routing k)
    modify (λ e. record e { routing_proxy = some r; tunnel_proxy = some r })

  -- A failure of `parseDevice` leaves nil.
  abbrev keep_device : Result Error ℕ → Run ℕ
  keep_device (ok h) e = (ok h, record e { device = some h; open_devices = h ∷ e.open_devices })
  keep_device (err x) e = (err x, record e { device = none })
  keep_device panic e = (panic, e)

  -- A size of a TCP buffer, none where the key gives none.
  abbrev buffer_size : Bytes → (ℤ → StackOption) → Result Error (List StackOption)
  buffer_size s make =
      if is_empty s
      then ok []
      else elim (out.ram_in_bytes s) [ none ↦ err bad_size | some n ↦ ok (make n ∷ []) ]

  abbrev moderate : Key → List StackOption
  moderate k = if k.tcp_moderate_receive_buffer then moderate_receive_buffer true ∷ [] else []

  -- A failure of `core.CreateStack` leaves nil.
  abbrev keep_stack : Option ℕ → Run (Unit {0})
  keep_stack none e = (err stack_failed, record e { stack = none })
  keep_stack (some s) e = (ok tt, record e { stack = some s })

  -- The end of `netstack`: the options and the stack, behind the device.
  unfoldable pub configure : Key → List Addr → ℕ → Run (Unit {0})
  configure k groups h = do
    send ← lift (buffer_size k.tcp_send_buffer_size send_buffer_size)
    receive ← lift (buffer_size k.tcp_receive_buffer_size receive_buffer_size)
    e ← get
    keep_stack (out.create_stack h e.icmp_handler groups (moderate k ++ send ++ receive))

  unfoldable pub make_stack : Key → List Addr → Run (Unit {0})
  make_stack k groups = do
    h ← keep_device (parse_device out k.device (k.mtu % 2 ^ 32))
    configure k groups h

  -- `netstack` between its checks and its deferred functions.
  unfoldable pub build : Key → Run (Unit {0})
  build k = do
    groups ← lift (parse_multicast_groups out k.multicast_groups)
    set_routing k
    make_stack k groups

  -- The two deferred functions of `netstack`.
  abbrev deferred : Key → Result Error (Unit {0}) × Engine → Result Error (Unit {0}) × Engine
  deferred k (ok u, e) = (ok u, hook k.tun_post_up e)
  deferred k (err x, e) = (err x, close_device e)
  deferred k (panic, e) = (panic, e)

  -- `netstack`.
  unfoldable pub netstack : Key → Run (Unit {0})
  netstack k = do
    refuse_if (is_empty k.proxy) empty_proxy
    refuse_if (is_empty k.device) empty_device
    modify (hook k.tun_pre_up)
    λ e. deferred k (build k e)

  abbrev steps : Key → Run (Unit {0})
  steps k = do general k; rest_api k; netstack k

  -- The REST server is stopped where a step fails, whatever that returns.
  abbrev give_up : Result Error (Unit {0}) × Engine → Result Error (Unit {0}) × Engine
  give_up (ok u, e) = (ok u, e)
  give_up (err x, e) = let (r, e') = rest_stop e in (err x, e')
  give_up (panic, e) = (panic, e)

  abbrev start_with : Option Key → Run (Unit {0})
  start_with none e = (err empty_key, e)
  start_with (some k) e = give_up (steps k e)

  -- `start`.
  unfoldable pub start : Run (Unit {0})
  start e = start_with e.key e

  -- `stop`.
  unfoldable pub stop : Run (Unit {0})
  stop = do rest_stop; modify (λ e. record (close_device e) { stack = none; routing_proxy = none })

  -- `Reload`, of a key that may be nil.
  unfoldable pub reload : Option Key → Run (Unit {0})
  reload none e = (err empty_key, e)
  reload (some k) e =
      (do
        refuse_if (not (running e)) not_running
        refuse_if (is_empty k.proxy) empty_proxy
        p ← lift (parse_proxy out k.proxy)
        r ← lift (new_routing k)
        i ← lift (find_interface k)
        modify (λ s. bind_interface i (record s { dialer = [] }))
        modify (λ s. record s {
          proxy = some p;
          routing_proxy = some r;
          key = some k;
          tunnel_proxy = some r;
        }))
        e
