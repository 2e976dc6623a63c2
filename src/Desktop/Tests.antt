-- ===== src/Desktop/Tests.antt =====
-- Concrete runs of the desktop application.
use tun_flow.Base.{
  ◌≡◌, ◌≢◌, refl, inl, true, false, Option, none, some, arith, Bytes, Result, ok, err, [], ◌∷◌,
  ◌++◌, if◌then◌else◌, pos,
}
use tun_flow.Base.Text.{codes, bytes_eq, trim_space, trim_left, trim_right, has_prefix}
use tun_flow.Engine
use tun_flow.Engine.{Engine, Outside}
use tun_flow.Engine.Run.{new_routing, general}
use tun_flow.Routing
use tun_flow.Desktop.{Fault, not_exist, Files, Library, World, Host}
use tun_flow.Desktop.Regular.{normalize_proxy, normalize_config, find_scheme}
use tun_flow.Desktop.Regular.Valid.{IsRegular, build_engine_key-accepted, key_of}
use tun_flow.Desktop.Disk.{
  replace_file_atomic, trim_bom_space, skip_spaces, cut_spaces, parse_config,
}
use tun_flow.Desktop.Disk.Replace.{
  IsFiles, Renames, moved, missing, removed, Replaced, replace_file_atomic-Replaced,
}
use tun_flow.Desktop.Watch.{first_config, reload_config_from_disk, startup}
use tun_flow.Desktop.Watch.Outcome.{Outcome, reload_config_from_disk-Outcome}
use tun_flow.Desktop.Watch.Session.{opening, then_call, looks, starts_up, Session-IsRegular}
use tun_flow.Desktop.Elsewhere.{RouteState, elsewhere, elsewhere-IsPlatform}

normalized : normalize_proxy (codes " SS://k@h:1 ") ≡ codes "ss://k@h:1"
unfolding normalize_proxy find_scheme has_prefix trim_space trim_left trim_right
normalized = refl

host_trimmed : trim_right (codes "h:1") ≡ codes "h:1"
unfolding trim_right
host_trimmed = refl

-- A disk is what each path holds.
abbrev Disk : Type 0
Disk = Bytes → Option Bytes

abbrev put_at : Bytes → Option Bytes → Disk → Disk
put_at a c d p = if bytes_eq p a then c else d p

abbrev move : Bytes → Bytes → Option Bytes → Disk → Result Fault (Unit {0}) × Disk
move a b none d = (err not_exist, d)
move a b (some c) d = (ok tt, put_at b (some c) (put_at a none d))

abbrev found : Option Bytes → Disk → Result Fault Bytes × Disk
found none d = (err not_exist, d)
found (some c) d = (ok c, d)

abbrev disk : Files Disk
disk = record {
  look = λ p d. d p;
  read_file = λ p d. found (d p) d;
  rename = λ a b d. move a b (d a) d;
  remove = λ a d. (ok tt, put_at a none d);
  create_temp = λ dir name d. (ok name, put_at name (some []) d);
  write = λ p c d. (ok tt, put_at p (some c) d);
  sync = λ p d. (ok tt, d);
  close = λ p d. (ok tt, d);
  size = λ p d. (ok 0, d);
}

move-Renames :
    (a b : Bytes) (s : Disk) (c : Option Bytes) → s a ≡ c → Renames disk a b s (move a b c s)
move-Renames a b s none e = missing e (λ p. refl)
move-Renames a b s (some c) e = moved (λ p. rw e refl)

disk-IsFiles : IsFiles disk
disk-IsFiles = record {
  renames = λ a b s. move-Renames a b s (s a) refl;
  removes = λ a s. removed (λ p. refl);
}

-- A configuration file with a newline at its end.
abbrev file : Bytes
file = codes "{}" ++ 10 ∷ []

abbrev two_files : Disk
two_files p =
    if bytes_eq p (codes "a")
    then some (1 ∷ [])
    else if bytes_eq p (codes "b")
    then some []
    else none

b_there : disk.look (codes "b") two_files ≡ some []
unfolding bytes_eq
b_there = refl

a_not_b : bytes_eq (codes "a") (codes "b") ≡ false
unfolding bytes_eq
a_not_b = refl

a_not_backup : bytes_eq (codes "a") (codes "b.bak") ≡ false
unfolding bytes_eq
a_not_backup = refl

replace_file_atomic-Replaced_example :
    Replaced disk
      (codes "a")
      (codes "b")
      two_files
      (replace_file_atomic disk (codes "a") (codes "b") two_files)
replace_file_atomic-Replaced_example =
    replace_file_atomic-Replaced disk disk-IsFiles (codes "a") (codes "b") two_files [] b_there
      a_not_b a_not_backup

abbrev pub library : Library
library = record {
  marshal = λ c. codes "{}";
  unmarshal = λ s. some first_config;
  checksum = λ s. s;
  executable_dir = none;
  join = λ a b. b;
  dir = λ a. [];
  is_abs = λ a. true;
  exists = λ a. true;
  parse_host_port = λ s. none;
}

abbrev pub outside : Outside
outside = record {
  known_level = λ s. true;
  interface_by_name = λ s. none;
  parse_url = λ s. none;
  resolve_tcp_addr = λ s. none;
  parse_prefix = λ s. none;
  parse_addr = λ s. none;
  is_multicast = λ a. false;
  read_geoip = λ s. none;
  protocols = [];
  open_fd = λ u m. none;
  open_tun = λ u m. none;
  ram_in_bytes = λ s. none;
  create_stack = λ d h gs os. none;
  close_fails = false;
}

abbrev host : Host Disk RouteState
host = record {
  files = record disk { read_file = λ p d. (ok file, d) };
  library = library;
  platform = elsewhere;
  outside = outside;
  dial_tcp = λ h p d. (ok tt, d);
}

abbrev pub stopped : Engine
stopped = record {
  key = none;
  proxy = none;
  routing_proxy = none;
  device = none;
  stack = none;
  icmp_handler = none;
  dialer = [];
  tunnel_proxy = none;
  udp_timeout = pos 60;
  rest_begun = [];
  rest_server = none;
  open_devices = [];
  commands = [];
}

abbrev world : World Disk RouteState
world = record {
  app = record {
    cfg = first_config;
    last_error = none;
    up = record { active = false };
    runtime_interface = [];
    network_signature = [];
    tray_end = none;
    config_watch_stop = none;
    config_disk_checksum = [];
    config_loaded = false;
  };
  os = two_files;
  engine = stopped;
}

first_config-IsRegular : IsRegular first_config
unfolding normalize_proxy trim_space trim_left trim_right
first_config-IsRegular = record {
  a_device = refl;
  a_mode = inl refl;
  a_route = inl refl;
  a_file = ground arith;
  an_mtu = refl;
  a_timeout = refl;
  a_proxy = refl;
}

build_engine_key-accepted_example :
    (new_routing outside (key_of outside library [] first_config)
      ≢ err (Engine.routing Routing.invalid_default))
    × (new_routing outside (key_of outside library [] first_config)
        ≢ err (Engine.routing Routing.unsupported_mode))
    × ((general outside (key_of outside library [] first_config) stopped).0
        ≢ err Engine.bad_timeout)
build_engine_key-accepted_example =
    build_engine_key-accepted outside library [] first_config stopped first_config-IsRegular

reload_config_from_disk-Outcome_example :
    Outcome host elsewhere-IsPlatform world (reload_config_from_disk host (λ a b. true) world)
reload_config_from_disk-Outcome_example =
    reload_config_from_disk-Outcome host elsewhere-IsPlatform (λ a b. true) world

Session-IsRegular_example :
    IsRegular (reload_config_from_disk host (λ a b. true) (startup host 1 world)).1.app.cfg
Session-IsRegular_example =
    Session-IsRegular host elsewhere-IsPlatform first_config-IsRegular
      (then_call (then_call opening (starts_up 1)) (looks (λ a b. true)))

file_parsed : parse_config library (trim_bom_space file) ≡ ok first_config
unfolding parse_config trim_bom_space skip_spaces cut_spaces normalize_proxy normalize_config
    trim_space trim_left trim_right bytes_eq
file_parsed = refl
