-- ===== src/Desktop/Watch.antt =====
-- desktop/config_hot_reload.go, and the start and the end of the application in desktop/app.go.
pub mod Outcome
pub mod Session
pub mod Startup
use tun_flow.Base.{
  ℕ, zero, suc, Bool, true, false, not, ◌&&◌, ◌||◌, List, Option, none, some, if◌then◌else◌, Bytes,
  is_empty, Result, ok, err, panic, ◌==◌, [], pos, ◌∷◌,
}
use tun_flow.Base.Act.{Act, chain, ◌>>=◌, ◌>>◌, return, refuse_if, lift, require, modify, get}
use tun_flow.Base.Text.{bytes_eq, codes}
use tun_flow.Engine
use tun_flow.Engine.Run
use tun_flow.Desktop.{Config, Error, Fault, App, World, Host, Step, not_exist, io, system}
use tun_flow.Desktop.Regular.{normalize_config, clone_config}
use tun_flow.Desktop.Disk.{read_config, load_config, config_path, call}
use tun_flow.Desktop.Control.{
  on_system, set_cfg, set_error, set_checksum, set_loaded, apply_running_config, stop_locked,
  write_config_locked, error_of, normalize_own,
}

-- What `emitConfigReload` tells the window.
pub data Event : Type 0 where
  applied : Event
  failed : Error → Event

-- `NewApp`'s configuration.
abbrev pub first_config : Config
first_config = record {
  proxy = [];
  device = codes "tun://TunFlow";
  interface = [];
  mode = codes "global";
  direct_cidrs = some [];
  direct_rules = some [];
  proxy_rules = some [];
  default_route = codes "proxy";
  geoip_file = codes "geoip.dat";
  auto_route = true;
  start_with_windows = false;
  mtu = pos 0;
  tcp_moderate_receive_buffer = false;
  tcp_send_buffer_size = [];
  tcp_receive_buffer_size = [];
  udp_timeout = pos 0;
}

module _ {S R : Type 0} (host : Host S R) where
  abbrev sum_of : Bytes → Bytes
  sum_of = host.library.checksum

  abbrev reloaded : Bytes → World S R → Option Event × World S R
  reloaded sum w = (some applied, set_error none (set_loaded true (set_checksum sum w)))

  abbrev reload_failed : Config → Bytes → Error → World S R → Option Event × World S R
  reload_failed old sum e w =
      (some (failed e), set_error (some e) (set_checksum sum (set_cfg old w)))

  abbrev after_apply :
      Config → Bytes → Result Error (Unit {0}) × World S R → Option Event × World S R
  after_apply old sum (ok u, w) = reloaded sum w
  after_apply old sum (err e, w) = reload_failed old sum e w
  after_apply old sum (panic, w) = (none, w)

  -- The part of `reloadConfigFromDisk` that has read the same configuration twice.
  unfoldable pub apply_read : Config → Bytes → World S R → Option Event × World S R
  apply_read cfg sum w =
      if Engine.Run.running w.engine
      then after_apply (clone_config w.app.cfg) sum
          (apply_running_config host (clone_config w.app.cfg) (set_cfg cfg w))
      else reloaded sum (set_cfg cfg w)

  -- The second read: `same` is reflect.DeepEqual.
  abbrev differs : (same : Config → Config → Bool) → Config → Bytes → Config → Bytes → Bool
  differs same cfg sum cfg2 bytes2 = not (bytes_eq (sum_of bytes2) sum) || not (same cfg cfg2)

  abbrev second_read :
      (same : Config → Config → Bool)
      → Config
      → Bytes
      → Result Error (Config × Bytes) × World S R
      → Option Event × World S R
  second_read same cfg sum (ok (cfg2, bytes2), w) =
      if differs same cfg sum cfg2 bytes2 then (none, w) else apply_read cfg sum w
  second_read same cfg sum (err e, w) = (none, w)
  second_read same cfg sum (panic, w) = (none, w)

  abbrev first_read :
      (same : Config → Config → Bool)
      → Result Error (Config × Bytes) × World S R
      → Option Event × World S R
  first_read same (ok (cfg, bytes), w) =
      if bytes_eq (sum_of bytes) w.app.config_disk_checksum
      then (none, w)
      else second_read same cfg (sum_of bytes) (on_system (read_config host.files host.library) w)
  first_read same (err e, w) = (none, w)
  first_read same (panic, w) = (none, w)

  -- `reloadConfigFromDisk`, with the event that it emits.
  unfoldable pub reload_config_from_disk :
      (same : Config → Config → Bool) → World S R → Option Event × World S R
  reload_config_from_disk same w =
      first_read same (on_system (read_config host.files host.library) w)

  -- `configWatchLoop`: one reload at each tick, until the channel is closed.
  unfoldable pub config_watch_loop :
      (same : Config → Config → Bool) → (ticks : ℕ) → World S R → World S R
  config_watch_loop same zero w = w
  config_watch_loop same (suc n) w = config_watch_loop same n (reload_config_from_disk same w).1

  -- `refreshConfigChecksumLocked`.
  abbrev keep_sum : Result Fault Bytes × S → World S R → World S R
  keep_sum (ok bytes, s) w = set_checksum (sum_of bytes) (record w { os = s })
  keep_sum (err f, s) w = record w { os = s }
  keep_sum (panic, s) w = record w { os = s }

  unfoldable pub refresh_checksum : World S R → World S R
  refresh_checksum w = keep_sum (host.files.read_file (config_path host.library) w.os) w

  abbrev settle : Result Error (Unit {0}) × World S R → World S R
  settle (ok u, w) = set_loaded true (set_error none w)
  settle (err e, w) = set_loaded false (set_error (some e) w)
  settle (panic, w) = w

  -- A configuration that is loaded leaves the error and the flag as they are.
  abbrev loaded : Result Error Config × World S R → World S R
  loaded (ok cfg, w) = set_cfg cfg w
  loaded (err (system not_exist), w) = settle ((do normalize_own host; write_config_locked host) w)
  loaded (err e, w) = settle (err e, w)
  loaded (panic, w) = w

  -- `startConfigWatcherLocked`; the channel is a new handle.
  abbrev start_config_watcher : ℕ → Option ℕ → World S R → World S R
  start_config_watcher stop none w = record w {
    app = record w.app { config_watch_stop = some stop };
  }
  start_config_watcher stop (some c) w = w

  -- `startup` up to the system tray.
  unfoldable pub startup : ℕ → World S R → World S R
  startup stop w =
      let v = refresh_checksum (loaded (on_system (load_config host.files host.library) w)) in
      start_config_watcher stop v.app.config_watch_stop v

  abbrev unwatched : World S R → World S R
  unwatched w = record w { app = record w.app { config_watch_stop = none; tray_end = none } }

  -- `shutdownNoPersist`.
  unfoldable pub shutdown : World S R → World S R
  shutdown w =
      if Engine.Run.running w.engine || host.platform.active w.app.up
      then (stop_locked host (unwatched w)).1
      else unwatched w
