-- ===== src/Desktop/Control.antt =====
-- desktop/app.go: starting and stopping the engine, and applying a configuration.
pub mod Safe
use tun_flow.Base.{
  Bool, true, false, not, ◌&&◌, ◌||◌, List, [], Option, none, some, if◌then◌else◌, Bytes, is_empty,
  Result, ok, err, panic, ◌==◌,
}
use tun_flow.Base.Act.{Act, chain, ◌>>=◌, ◌>>◌, return, refuse_if, lift, require, modify, get}
use tun_flow.Base.Text.{bytes_eq, trim_space, codes}
use tun_flow.Engine
use tun_flow.Engine.{Engine}
use tun_flow.Engine.Run
use tun_flow.Desktop.{
  Config, Error, Fault, App, World, Host, Step, empty_file, empty_proxy, bad_url, no_host_or_port,
  unreachable, bad_json, system, engine,
}
use tun_flow.Desktop.Regular.{normalize_proxy, normalize_config, clone_config, build_engine_key}
use tun_flow.Desktop.Disk.{write_config, config_path, call}

abbrev pub same_bool : Bool → Bool → Bool
same_bool true b = b
same_bool false b = not b

abbrev of_engine {ℓ} : {A : Type ℓ} → Result Engine.Error A → Result Error A
of_engine (ok a) = ok a
of_engine (err e) = err (engine e)
of_engine panic = panic

-- The error of a result, nil where there is none.
abbrev pub error_of : Result Error (Unit {0}) → Option Error
error_of (ok u) = none
error_of (err e) = some e
error_of panic = none

module _ {S R : Type 0} where
  -- The parts of the world that a step of the engine, of the system or of the platform changes.
  abbrev pub on_engine : Act Engine Engine.Error (Unit {0}) → Step S R (Unit {0})
  on_engine m w = let (r, e) = m w.engine in (of_engine r, record w { engine = e })

  abbrev pub on_system : {A : Type 0} → Act S Error A → Step S R A
  on_system m w = let (r, s) = m w.os in (r, record w { os = s })

  abbrev pub on_platform : Act (App R × S) Error (Unit {0}) → Step S R (Unit {0})
  on_platform m w = let (r, t) = m (w.app, w.os) in (r, record w { app = t.0; os = t.1 })

  abbrev pub set_cfg : Config → World S R → World S R
  set_cfg cfg w = record w { app = record w.app { cfg = cfg } }

  abbrev pub set_error : Option Error → World S R → World S R
  set_error e w = record w { app = record w.app { last_error = e } }

  abbrev pub set_checksum : Bytes → World S R → World S R
  set_checksum sum w = record w { app = record w.app { config_disk_checksum = sum } }

  abbrev pub set_loaded : Bool → World S R → World S R
  set_loaded b w = record w { app = record w.app { config_loaded = b } }

  abbrev when : Bool → Step S R (Unit {0}) → Step S R (Unit {0})
  when true m = m
  when false m = return tt

  -- `if err := m; err != nil { undo; return err }`.
  abbrev pub on_error :
      (World S R → World S R)
      → Result Error (Unit {0}) × World S R
      → Result Error (Unit {0}) × World S R
  on_error undo (ok u, w) = (ok u, w)
  on_error undo (err e, w) = (err e, undo w)
  on_error undo (panic, w) = (panic, w)

  -- The error that a call ends with is kept.
  abbrev pub keep_error : Result Error (Unit {0}) × World S R → Result Error (Unit {0}) × World S R
  keep_error (ok u, w) = (ok u, set_error none w)
  keep_error (err e, w) = (err e, set_error (some e) w)
  keep_error (panic, w) = (panic, w)

  abbrev pub keep_failure :
      Result Error (Unit {0}) × World S R → Result Error (Unit {0}) × World S R
  keep_failure x = on_error (set_error (error_of x.0)) x

module _ {S R : Type 0} (host : Host S R) where
  -- `normalizeConfig(&a.cfg)`.
  abbrev pub normalize_own : Step S R (Unit {0})
  normalize_own w = let (r, cfg) = normalize_config w.app.cfg in (r, set_cfg cfg w)

  -- `checkProxyEndpoint`.
  abbrev refuse_missing : Bytes × Bytes → Step S R (Unit {0})
  refuse_missing (h, p) = refuse_if (is_empty h || is_empty p) no_host_or_port

  unfoldable pub check_proxy_endpoint : Bytes → Step S R (Unit {0})
  check_proxy_endpoint raw = do
    hp ← lift (require (host.library.parse_host_port (normalize_proxy raw)) bad_url)
    refuse_missing hp
    on_system (call (host.dial_tcp hp.0 hp.1))

  -- `engine.Insert(a.buildEngineKeyLocked(a.cfg))`.
  abbrev insert_key : World S R → World S R
  insert_key w = record w {
    engine =
        Engine.Run.insert (build_engine_key host.library w.app.runtime_interface w.app.cfg)
          w.engine;
  }

  abbrev stop_quietly : World S R → World S R
  stop_quietly w = (on_engine (Engine.Run.stop host.outside) w).1

  -- The end of `startLocked`.
  unfoldable pub launch : Step S R (Unit {0})
  launch = do
    modify insert_key
    on_engine (Engine.Run.start host.outside)
    w ← get
    when w.app.cfg.auto_route
        (λ v. on_error stop_quietly (on_platform host.platform.setup_routes v))

  abbrev prepare : Step S R (Unit {0})
  prepare = do
    normalize_own
    w ← get
    refuse_if (is_empty (trim_space w.app.cfg.proxy)) empty_proxy
    check_proxy_endpoint w.app.cfg.proxy
    when w.app.cfg.auto_route (on_platform host.platform.select_runtime_interface)

  -- `startLocked`.
  unfoldable pub start_locked : Step S R (Unit {0})
  start_locked w = if Engine.Run.running w.engine then (ok tt, w) else (do prepare; launch) w

  -- `stopLocked`.
  unfoldable pub stop_locked : Step S R (Unit {0})
  stop_locked w =
      (do
        when (host.platform.active w.app.up) (on_platform host.platform.teardown_routes)
        on_engine (Engine.Run.stop host.outside))
        w

  -- `Start` and `Stop`.
  abbrev pub start : Step S R (Unit {0})
  start w = keep_error (start_locked w)

  abbrev pub stop : Step S R (Unit {0})
  stop w = keep_error (stop_locked w)

  -- The changes that need a restart.
  abbrev pub needs_restart : Config → Config → Bool
  needs_restart old new =
      not (bytes_eq old.device new.device)
      || not (bytes_eq old.interface new.interface)
      || not (same_bool old.auto_route new.auto_route)
      || not (bytes_eq old.proxy new.proxy)

  abbrev back_to : Config → World S R → World S R
  back_to old w = (start_locked (set_cfg old w)).1

  unfoldable pub restart : Config → Step S R (Unit {0})
  restart old = do stop_locked; λ w. on_error (back_to old) (start_locked w)

  unfoldable pub reload_engine : Config → Step S R (Unit {0})
  reload_engine old w = on_error (set_cfg old) (
      on_engine
        (Engine.Run.reload host.outside
          (some (build_engine_key host.library w.app.runtime_interface w.app.cfg)))
        w)

  -- `applyRunningConfigLocked`.
  unfoldable pub apply_running_config : Config → Step S R (Unit {0})
  apply_running_config old w =
      if not (Engine.Run.running w.engine)
      then (ok tt, w)
      else if is_empty (trim_space w.app.cfg.proxy)
      then (err empty_proxy, w)
      else if needs_restart old w.app.cfg
      then restart old w
      else reload_engine old w

  -- `writeConfigLocked`.
  unfoldable pub write_config_locked : Step S R (Unit {0})
  write_config_locked = do
    w ← get
    on_system (write_config host.files host.library w.app.cfg)
    modify (set_checksum (host.library.checksum (host.library.marshal w.app.cfg)))

  -- A configuration with the fields trimmed that `SaveConfig` trims.
  abbrev trimmed : Config → Config
  trimmed cfg = record cfg {
    proxy = normalize_proxy cfg.proxy;
    device = trim_space cfg.device;
    interface = trim_space cfg.interface;
    geoip_file = trim_space cfg.geoip_file;
  }

  abbrev store : Config → Step S R (Unit {0})
  store cfg w =
      on_error (set_cfg (clone_config w.app.cfg))
        (write_config_locked (set_cfg (clone_config cfg) w))

  abbrev apply_if_running : Config → Step S R (Unit {0})
  apply_if_running old w =
      if Engine.Run.running w.engine then keep_error (apply_running_config old w) else (ok tt, w)

  abbrev register : Bool → Step S R (Unit {0})
  register b w = keep_failure (on_system (call (host.platform.set_start_with_windows b)) w)

  abbrev save_regular : Result Error (Unit {0}) × Config → Step S R (Unit {0})
  save_regular (r, cfg) = do
    lift r
    w ← get
    store cfg
    modify (λ v. set_error none (set_loaded true v))
    register cfg.start_with_windows
    apply_if_running (clone_config w.app.cfg)

  -- `SaveConfig`.
  unfoldable pub save_config : Config → Step S R (Unit {0})
  save_config cfg = save_regular (normalize_config (trimmed cfg))

  -- `SaveConfigJSON`.
  unfoldable pub save_config_json : Bytes → Step S R (Unit {0})
  save_config_json raw = do
    refuse_if (is_empty (trim_space raw)) empty_file
    cfg ← lift (require (host.library.unmarshal (trim_space raw)) bad_json)
    refuse_if (is_empty (trim_space cfg.proxy)) empty_proxy
    save_config cfg
