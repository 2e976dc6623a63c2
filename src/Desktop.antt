-- ===== src/Desktop.antt =====
-- desktop/app.go: the configuration, the state of the application, and the outside that it calls.
pub mod Regular
pub mod Disk
pub mod Control
pub mod Watch
pub mod Elsewhere
pub mod Windows
mod Tests
use tun_flow.Base.{ℕ, ℤ, Bool, List, Option, Bytes, Result}
use tun_flow.Base.Act.{Act}
use tun_flow.Engine
use tun_flow.Engine.{Engine, Outside}

-- `Config`. A slice that may be nil is an option.
pub record Config : Type 0 where
  pub proxy : Bytes
  pub device : Bytes
  pub interface : Bytes
  pub mode : Bytes
  pub direct_cidrs : Option (List Bytes)
  pub direct_rules : Option (List Bytes)
  pub proxy_rules : Option (List Bytes)
  pub default_route : Bytes
  pub geoip_file : Bytes
  pub auto_route : Bool
  pub start_with_windows : Bool
  pub mtu : ℤ
  pub tcp_moderate_receive_buffer : Bool
  pub tcp_send_buffer_size : Bytes
  pub tcp_receive_buffer_size : Bytes
  pub udp_timeout : ℤ

-- Why a call of the operating system fails.
pub data Fault : Type 0 where
  not_exist io : Fault

pub data Error : Type 0 where
  no_device bad_mode bad_mtu bad_udp_timeout empty_file bad_json empty_proxy : Error
  bad_url no_host_or_port unreachable verification_failed bad_status empty_download : Error
  no_routes_here not_ready bad_proxy_host : Error
  no_interface bad_output ipv6_only no_ipv4 : Error
  system : Fault → Error
  engine : Engine.Error → Error

-- The files of the operating system, whose state is S. A path is what it is spelled.
pub record Files (S : Type 0) : Type 0 where
  pub look : Bytes → S → Option Bytes
  pub read_file : Bytes → Act S Fault Bytes
  pub rename : Bytes → Bytes → Act S Fault (Unit {0})
  pub remove : Bytes → Act S Fault (Unit {0})
  pub create_temp : Bytes → Bytes → Act S Fault Bytes
  pub write : Bytes → Bytes → Act S Fault (Unit {0})
  pub sync : Bytes → Act S Fault (Unit {0})
  pub close : Bytes → Act S Fault (Unit {0})
  pub size : Bytes → Act S Fault ℕ

-- An answer to a download: the body may break off.
pub record Response : Type 0 where
  pub status : ℕ
  pub body : Bytes
  pub broken : Bool

-- The functions of the standard library that only compute, and the names that stay the same while the
-- program runs.
pub record Library : Type 0 where
  pub marshal : Config → Bytes
  pub unmarshal : Bytes → Option Config
  pub checksum : Bytes → Bytes
  pub executable_dir : Option Bytes
  pub join : Bytes → Bytes → Bytes
  pub dir : Bytes → Bytes
  pub is_abs : Bytes → Bool
  pub exists : Bytes → Bool
  pub parse_host_port : Bytes → Option (Bytes × Bytes)

-- What `App` keeps. R is the platform's `routeState`; the tray's function and the watcher's channel are
-- handles.
pub record App (R : Type 0) : Type 0 where
  pub cfg : Config
  pub last_error : Option Error
  pub up : R
  pub runtime_interface : Bytes
  pub network_signature : Bytes
  pub tray_end : Option ℕ
  pub config_watch_stop : Option ℕ
  pub config_disk_checksum : Bytes
  pub config_loaded : Bool

-- The functions that have one version for each platform.
pub record Platform (S R : Type 0) : Type 0 where
  pub active : R → Bool
  pub select_runtime_interface : Act (App R × S) Error (Unit {0})
  pub setup_routes : Act (App R × S) Error (Unit {0})
  pub teardown_routes : Act (App R × S) Error (Unit {0})
  pub set_start_with_windows : Bool → Act S Fault (Unit {0})

-- The application, the operating system and the engine, which the application calls.
pub record World (S R : Type 0) : Type 0 where
  pub app : App R
  pub os : S
  pub engine : Engine

-- All that the application calls.
pub record Host (S R : Type 0) : Type 0 where
  pub files : Files S
  pub library : Library
  pub platform : Platform S R
  pub outside : Outside
  pub dial_tcp : Bytes → Bytes → Act S Fault (Unit {0})

abbrev pub Step : Type 0 → Type 0 → Type 0 → Type 0
Step S R A = Act (World S R) Error A
