-- ===== src/Desktop/Watch/Session.antt =====
-- Any sequence of calls of the application of desktop/app.go and desktop/config_hot_reload.go.
use tun_flow.Base.{
  ◌≡◌, refl, sym, subst, ◌∙◌, inl, inr, Bool, Option, none, some, arith, Bytes, Result, ok, err,
  panic, Bool-cases, ℕ, ◌||◌,
}
use tun_flow.Base.Act.{chain, lift, ◌>>◌}
use tun_flow.Engine
use tun_flow.Engine.{Engine}
use tun_flow.Engine.Run
use tun_flow.Desktop.{Config, Error, Fault, World, Host, Library, Files, system, not_exist}
use tun_flow.Desktop.Regular.{clone_config}
use tun_flow.Desktop.Regular.Valid.{IsRegular, clone_config-IsRegular, normalize_config_again}
use tun_flow.Desktop.Disk.{load_config, parse_config, read_trimmed, config_path}
use tun_flow.Desktop.Control.{
  on_system, start, stop, save_config, save_config_json, start_locked, stop_locked, normalize_own,
  write_config_locked,
}
use tun_flow.Desktop.Control.Safe.{
  IsPlatform, Regular, keep_error-Regular, chain-Regular, start_locked-Safe, stop_locked-Safe,
  apply-Safe, save_config-Safe, save_config_json-Safe, write_config-Safe,
}
use tun_flow.Desktop.Watch.{
  Event, reload_config_from_disk, startup, shutdown, refresh_checksum, loaded, settle, keep_sum,
  unwatched, start_config_watcher,
}
use tun_flow.Desktop.Watch.Outcome.{
  Outcome, ignored, took, went_back, crashed, reload_config_from_disk-Outcome, parse_config-Parsed,
}

load_config-parse :
    {S : Type 0} (files : Files S) (lib : Library) (s : S) (c : Config)
    → (load_config files lib s).0 ≡ ok c
    → IsRegular c
unfolding load_config
load_config-parse {S = S} files lib s c h = parsed (read_trimmed files lib s) h
  where
    parsed :
        (x : Result Error Bytes × S)
        → (chain {B = Config} x.0 x.1 (λ clean. lift (parse_config lib clean))).0 ≡ ok c
        → IsRegular c
    parsed (ok clean, t) k = (parse_config-Parsed lib clean c k).0
    parsed (err e, t) k = absurd (ground arith)
    parsed (panic, t) k = absurd (ground arith)

module _ {S R : Type 0} (host : Host S R) (lawful : IsPlatform host.platform) where
  abbrev Holds : World S R → Type 0
  Holds = Regular IsRegular

  -- A call of the application, or a change of the system or of the engine by others.
  pub data Call (w : World S R) : World S R → Type 0 where
    starts_up : (stop : ℕ) → Call w (startup host stop w)
    starts : Call w (start host w).1
    stops : Call w (stop host w).1
    saves : (cfg : Config) → Call w (save_config host cfg w).1
    saves_json : (raw : Bytes) → Call w (save_config_json host raw w).1
    looks : (same : Config → Config → Bool) → Call w (reload_config_from_disk host same w).1
    shuts_down : Call w (shutdown host w)
    others : (s : S) (e : Engine) → Call w (record w { os = s; engine = e })

  pub data Session (w : World S R) : World S R → Type 0 where
    opening : Session w w
    then_call : {u v : World S R} → Session w u → Call u v → Session w v

  settle-Holds : (x : Result Error (Unit {0}) × World S R) → Holds x.1 → Holds (settle host x)
  settle-Holds (ok u, w) reg = reg
  settle-Holds (err e, w) reg = reg
  settle-Holds (panic, w) reg = reg

  loaded-Holds :
      (x : Result Error Config × World S R)
      → ((c : Config) → x.0 ≡ ok c → IsRegular c)
      → Holds x.1
      → Holds (loaded host x)
  loaded-Holds (ok c, w) given reg = given c refl
  loaded-Holds (panic, w) given reg = reg
  loaded-Holds (err (system not_exist), w) given reg =
      settle-Holds ((do normalize_own host; write_config_locked host) w) (
        chain-Regular IsRegular (normalize_own host w) _ (normalize_config_again w.app.cfg reg)
          (λ _. write_config-Safe host lawful))
  loaded-Holds (err e, w) given reg = reg

  keep_sum-cfg :
      (x : Result Fault Bytes × S) (v : World S R) → (keep_sum host x v).app.cfg ≡ v.app.cfg
  keep_sum-cfg (ok bytes, s) v = refl
  keep_sum-cfg (err f, s) v = refl
  keep_sum-cfg (panic, s) v = refl

  watcher-cfg :
      (h : ℕ) (o : Option ℕ) (v : World S R) → (start_config_watcher host h o v).app.cfg ≡ v.app.cfg
  watcher-cfg h none v = refl
  watcher-cfg h (some c) v = refl

  startup-Holds : (h : ℕ) → (w : World S R) → Holds w → Holds (startup host h w)
  unfolding startup refresh_checksum
  startup-Holds h w reg =
      let v = loaded host (on_system (load_config host.files host.library) w) in
      let u = keep_sum host (host.files.read_file (config_path host.library) v.os) v in
      subst IsRegular
        (sym (
          watcher-cfg h u.app.config_watch_stop u
          ∙ keep_sum-cfg (host.files.read_file (config_path host.library) v.os) v))
        (loaded-Holds (on_system (load_config host.files host.library) w)
          (load_config-parse host.files host.library w.os) reg)

  shutdown-Holds : (w : World S R) → Holds w → Holds (shutdown host w)
  unfolding shutdown
  shutdown-Holds w reg =
      elim (Bool-cases (Engine.Run.running w.engine || host.platform.active w.app.up)) [
        | inl e ↦
            rw e
              (stop_locked-Safe IsRegular normalize_config_again host lawful (unwatched host w) reg)
        | inr e ↦ rw e reg
      ]

  Outcome-Holds :
      {w : World S R} {x : Option Event × World S R} → Outcome host lawful w x → Holds w → Holds x.1
  Outcome-Holds (ignored same_app same_engine) reg = subst (λ a. IsRegular a.cfg) (sym same_app) reg
  Outcome-Holds {w = w} (took cfg bytes p new now sum e) reg =
      subst IsRegular (sym now) (parse_config-Parsed host.library bytes cfg p).0
  Outcome-Holds {w = w} (went_back e bytes up new now sum kept) reg =
      subst IsRegular (sym now) (clone_config-IsRegular w.app.cfg reg)
  Outcome-Holds {w = w} (crashed u cfg bytes p now e) reg =
      let before = clone_config-IsRegular w.app.cfg reg in
      let c = parse_config-Parsed host.library bytes cfg p in
      subst (λ x. IsRegular x.1.app.cfg) e
        (apply-Safe host lawful (clone_config w.app.cfg) before u (subst IsRegular (sym now) c.0))

  Call-Holds : {w v : World S R} → Call w v → Holds w → Holds v
  Call-Holds {w = w} (starts_up h) reg = startup-Holds h w reg
  Call-Holds {w = w} starts reg =
      keep_error-Regular IsRegular (start_locked host w)
        (start_locked-Safe IsRegular normalize_config_again host lawful w reg)
  Call-Holds {w = w} stops reg =
      keep_error-Regular IsRegular (stop_locked host w)
        (stop_locked-Safe IsRegular normalize_config_again host lawful w reg)
  Call-Holds {w = w} (saves cfg) reg = save_config-Safe host lawful cfg w reg
  Call-Holds {w = w} (saves_json raw) reg = save_config_json-Safe host lawful raw w reg
  Call-Holds {w = w} (looks same) reg =
      Outcome-Holds (reload_config_from_disk-Outcome host lawful same w) reg
  Call-Holds {w = w} shuts_down reg = shutdown-Holds w reg
  Call-Holds (others s e) reg = reg

  -- Whatever calls are made, and whatever the system and the engine do between them: where the
  -- application begins with a regular configuration (a device, a known mode and default route, a file
  -- of the GeoIP data, an MTU and a timeout in range, a proxy that normalizeProxy leaves alone), the
  -- configuration in memory is regular.
  pub Session-IsRegular :
      {w v : World S R} → IsRegular w.app.cfg → Session w v → IsRegular v.app.cfg
  Session-IsRegular reg opening = reg
  Session-IsRegular reg (then_call calls c) = Call-Holds c (Session-IsRegular reg calls)
