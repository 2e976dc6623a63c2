-- ===== src/Engine.antt =====
-- engine: the key, what the engine keeps, and the outside that it calls.
pub mod Parse
pub mod Run
mod Tests
use tun_flow.Base.{ℕ, ℤ, Bool, List, Option, Bytes}
use tun_flow.Netip.{Addr, Prefix}
use tun_flow.Routing.{GeoIpMatcher}
use tun_flow.Routing

-- `Key`. An int is its bit pattern, a duration is in nanoseconds.
pub record Key : Type 0 where
  pub mtu : ℕ
  pub mark : ℕ
  pub proxy : Bytes
  pub rest_api : Bytes
  pub device : Bytes
  pub log_level : Bytes
  pub interface : Bytes
  pub routing_mode : Bytes
  pub direct_cidrs : List Bytes
  pub direct_rules : List Bytes
  pub proxy_rules : List Bytes
  pub default_route : Bytes
  pub geoip_file : Bytes
  pub tcp_moderate_receive_buffer : Bool
  pub tcp_send_buffer_size : Bytes
  pub tcp_receive_buffer_size : Bytes
  pub multicast_groups : List Bytes
  pub tun_pre_up : Bytes
  pub tun_post_up : Bytes
  pub udp_timeout : ℤ

pub data Error : Type 0 where
  empty_key not_running empty_proxy empty_device unknown_level no_interface bad_timeout : Error
  bad_url bad_address unsupported_scheme unsupported_driver unknown_protocol bad_proxy : Error
  bad_group bad_size device_failed stack_failed close_failed : Error
  routing : Routing.Error → Error

-- The parts of a url.URL that the engine reads.
pub record Url : Type 0 where
  pub scheme : Bytes
  pub host : Bytes

pub data SocketOption : Type 0 where
  bind_to_interface routing_mark : ℕ → SocketOption

pub data StackOption : Type 0 where
  moderate_receive_buffer : Bool → StackOption
  send_buffer_size receive_buffer_size : ℤ → StackOption

-- What the standard library, the system and the third-party packages answer during a call. Proxies,
-- devices, stacks and interfaces are handles.
pub record Outside : Type 0 where
  pub known_level : Bytes → Bool
  pub interface_by_name : Bytes → Option ℕ
  pub parse_url : Bytes → Option Url
  pub resolve_tcp_addr : Bytes → Option Bytes
  pub parse_prefix : Bytes → Option Prefix
  pub parse_addr : Bytes → Option Addr
  pub is_multicast : Addr → Bool
  pub read_geoip : Bytes → Option GeoIpMatcher
  pub protocols : List (Bytes × (Url → Option ℕ))
  pub open_fd : Url → ℕ → Option ℕ
  pub open_tun : Url → ℕ → Option ℕ
  pub ram_in_bytes : Bytes → Option ℤ
  pub create_stack : ℕ → Option ℕ → List Addr → List StackOption → Option ℕ
  pub close_fails : Bool

-- The variables of the package, the parts of dialer, tunnel and restapi that it sets, the devices
-- that are open, and the commands that were run. A REST server that was begun registers itself later.
pub record Engine : Type 0 where
  pub key : Option Key
  pub proxy : Option ℕ
  pub routing_proxy : Option Routing.Proxy
  pub device : Option ℕ
  pub stack : Option ℕ
  pub icmp_handler : Option ℕ
  pub dialer : List SocketOption
  pub tunnel_proxy : Option Routing.Proxy
  pub udp_timeout : ℤ
  pub rest_begun : List Bytes
  pub rest_server : Option Bytes
  pub open_devices : List ℕ
  pub commands : List Bytes
