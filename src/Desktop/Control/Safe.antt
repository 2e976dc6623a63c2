-- ===== src/Desktop/Control/Safe.antt =====
-- The configuration of the application stays regular: starting, stopping and saving in desktop/app.go.
use tun_flow.Base.{
  ◌≡◌, refl, sym, subst, Bool, true, false, none, some, arith, Bytes, Result, ok, err, panic, inl,
  inr, Bool-cases, is_empty,
}
use tun_flow.Base.Act.{Act, chain, refuse_if, lift, require}
use tun_flow.Base.Text.{trim_space}
use tun_flow.Engine
use tun_flow.Engine.{Engine}
use tun_flow.Engine.Run
use tun_flow.Desktop.{
  Config, Error, App, World, Host, Platform, Step, empty_file, empty_proxy, bad_json,
}
use tun_flow.Desktop.Regular.{normalize_config, clone_config, build_engine_key}
use tun_flow.Desktop.Regular.Proxy.{normalize_proxy_again}
use tun_flow.Desktop.Regular.Valid.{
  IsRegular, clone_config-IsRegular, normalize_config_again, normalize_config-IsRegular,
}
use tun_flow.Desktop.Control.{
  on_engine, on_system, on_platform, set_cfg, set_error, set_loaded, on_error, start_locked,
  stop_locked, launch, prepare, normalize_own, check_proxy_endpoint, restart, reload_engine,
  apply_running_config, write_config_locked, save_config, save_config_json, save_regular, trimmed,
  keep_error, store, back_to, when, stop_quietly, insert_key, keep_failure, apply_if_running,
  register,
}
use tun_flow.Desktop.Disk.{call}

-- The platform's functions leave the configuration alone.
pub record IsPlatform {S R : Type 0} (p : Platform S R) : Type 0 where
  pub select-cfg : (x : App R × S) → (p.select_runtime_interface x).1.0.cfg ≡ x.0.cfg
  pub setup-cfg : (x : App R × S) → (p.setup_routes x).1.0.cfg ≡ x.0.cfg
  pub teardown-cfg : (x : App R × S) → (p.teardown_routes x).1.0.cfg ≡ x.0.cfg

module _ {S R : Type 0} (P : Config → Type 0) where
  abbrev pub Regular : World S R → Type 0
  Regular w = P w.app.cfg

  -- A step that keeps what holds of the configuration.
  abbrev pub Safe : {A : Type 0} → Step S R A → Type 0
  Safe m = (w : World S R) → Regular w → Regular (m w).1

  pub chain-Regular :
      {A B : Type 0} (x : Result Error A × World S R) (f : A → Step S R B)
      → Regular x.1
      → ((a : A) → Safe (f a))
      → Regular (chain x.0 x.1 f).1
  chain-Regular (ok a, w) f reg next = next a w reg
  chain-Regular (err e, w) f reg next = reg
  chain-Regular (panic, w) f reg next = reg

  on_error-Regular :
      (undo : World S R → World S R) (x : Result Error (Unit {0}) × World S R)
      → Regular x.1
      → ((w : World S R) → Regular w → Regular (undo w))
      → Regular (on_error undo x).1
  on_error-Regular undo (ok u, w) reg back = reg
  on_error-Regular undo (err e, w) reg back = back w reg
  on_error-Regular undo (panic, w) reg back = reg

  on_platform-Safe :
      (m : Act (App R × S) Error (Unit {0}))
      → ((x : App R × S) → (m x).1.0.cfg ≡ x.0.cfg)
      → Safe (on_platform m)
  on_platform-Safe m same w reg = subst P (sym (same (w.app, w.os))) reg

  when-Safe : (b : Bool) (m : Step S R (Unit {0})) → Safe m → Safe (when b m)
  when-Safe true m safe w reg = safe w reg
  when-Safe false m safe w reg = reg

  keep_failure-Regular :
      (x : Result Error (Unit {0}) × World S R) → Regular x.1 → Regular (keep_failure x).1
  keep_failure-Regular (ok u, w) reg = reg
  keep_failure-Regular (err e, w) reg = reg
  keep_failure-Regular (panic, w) reg = reg

  refuse_if-Safe : (b : Bool) (e : Error) → Safe (refuse_if b e)
  refuse_if-Safe true e w reg = reg
  refuse_if-Safe false e w reg = reg

  lift-Safe : {A : Type 0} (r : Result Error A) → Safe (lift r)
  lift-Safe r w reg = reg

  pub keep_error-Regular :
      (x : Result Error (Unit {0}) × World S R) → Regular x.1 → Regular (keep_error x).1
  keep_error-Regular (ok u, w) reg = reg
  keep_error-Regular (err e, w) reg = reg
  keep_error-Regular (panic, w) reg = reg

module _ {S R : Type 0} (P : Config → Type 0)
    (again : (cfg : Config) → P cfg → P (normalize_config cfg).1) (host : Host S R)
    (lawful : IsPlatform host.platform) where
  check-Safe : (raw : Bytes) → Safe P (check_proxy_endpoint host raw)
  unfolding check_proxy_endpoint
  check-Safe raw w reg = subst P (ground arith) reg

  launch-Safe : Safe P (launch host)
  unfolding launch
  launch-Safe w reg =
      chain-Regular P (on_engine (Engine.Run.start host.outside) (insert_key host w)) _ reg λ _ v r.
        when-Safe P v.app.cfg.auto_route _
          (λ u q.
            on_error-Regular P (stop_quietly host) (on_platform host.platform.setup_routes u)
              (on_platform-Safe P host.platform.setup_routes lawful.setup-cfg u q) (λ t z. z))
          v r

  prepare-Safe : Safe P (prepare host)
  prepare-Safe w reg = chain-Regular P (normalize_own host w) _ (again w.app.cfg reg) λ _ v r.
      chain-Regular P (refuse_if (is_empty (trim_space v.app.cfg.proxy)) empty_proxy v) _
        (refuse_if-Safe P _ _ v r)
        λ _ u q.
          chain-Regular P (check_proxy_endpoint host v.app.cfg.proxy u) _ (check-Safe _ u q) (λ _.
            when-Safe P v.app.cfg.auto_route _
              (on_platform-Safe P host.platform.select_runtime_interface lawful.select-cfg))

  pub start_locked-Safe : Safe P (start_locked host)
  unfolding start_locked
  start_locked-Safe w reg = elim (Bool-cases (Engine.Run.running w.engine)) [
    | inl e ↦ rw e reg
    | inr e ↦ rw e (chain-Regular P (prepare host w) _ (prepare-Safe w reg) (λ _. launch-Safe))
  ]

  pub stop_locked-Safe : Safe P (stop_locked host)
  unfolding stop_locked
  stop_locked-Safe w reg =
      chain-Regular P
        (when (host.platform.active w.app.up) (on_platform host.platform.teardown_routes) w) _
        (when-Safe P (host.platform.active w.app.up) _
          (on_platform-Safe P host.platform.teardown_routes lawful.teardown-cfg) w reg)
        (λ _ v r. r)

module _ {S R : Type 0} (host : Host S R) (lawful : IsPlatform host.platform) where
  -- With success, nothing is undone.
  module _ (P : Config → Type 0) (again : (cfg : Config) → P cfg → P (normalize_config cfg).1) where
    on_error-done :
        (undo : World S R → World S R) (x : Result Error (Unit {0}) × World S R)
        → Regular P x.1
        → (on_error undo x).0 ≡ ok tt
        → Regular P (on_error undo x).1
    on_error-done undo (ok u, w) holds h = holds
    on_error-done undo (err e, w) holds h = absurd (ground arith)
    on_error-done undo (panic, w) holds h = holds

    restart-done :
        (old : Config) (w : World S R)
        → Regular P w
        → (restart host old w).0 ≡ ok tt
        → Regular P (restart host old w).1
    unfolding restart
    restart-done old w holds h =
        after (stop_locked host w) (stop_locked-Safe P again host lawful w holds) h
      where
        after :
            (x : Result Error (Unit {0}) × World S R)
            → Regular P x.1
            → (chain x.0 x.1 (λ _ v. on_error (back_to host old) (start_locked host v))).0 ≡ ok tt
            → Regular P (chain x.0 x.1 (λ _ v. on_error (back_to host old) (start_locked host v))).1
        after (ok u, v) r k =
            on_error-done (back_to host old) (start_locked host v)
              (start_locked-Safe P again host lawful v r) k
        after (err e, v) r k = r
        after (panic, v) r k = r

    pub apply_running-done :
        (old : Config) (w : World S R)
        → Regular P w
        → (apply_running_config host old w).0 ≡ ok tt
        → Regular P (apply_running_config host old w).1
    unfolding apply_running_config reload_engine
    apply_running-done old w holds h = ground (
      arith,
      restart-done old w holds,
      on_error-done (set_cfg old)
          (on_engine
            (Engine.Run.reload host.outside
              (some (build_engine_key host.library w.app.runtime_interface w.app.cfg)))
            w)
          holds,
    )

  -- Whatever the configuration to go back to.
  restart-Safe : (old : Config) → IsRegular old → Safe IsRegular (restart host old)
  unfolding restart
  restart-Safe old before w reg =
      chain-Regular IsRegular (stop_locked host w) _
        (stop_locked-Safe IsRegular normalize_config_again host lawful w reg)
        λ _ v r.
          on_error-Regular IsRegular (back_to host old) (start_locked host v)
            (start_locked-Safe IsRegular normalize_config_again host lawful v r)
            (λ u q.
              start_locked-Safe IsRegular normalize_config_again host lawful (set_cfg old u) before)

  reload_engine-Safe : (old : Config) → IsRegular old → Safe IsRegular (reload_engine host old)
  unfolding reload_engine
  reload_engine-Safe old before w reg =
      on_error-Regular IsRegular (set_cfg old) _ reg (λ u q. before)

  pub apply-Safe : (old : Config) → IsRegular old → Safe IsRegular (apply_running_config host old)
  unfolding apply_running_config
  apply-Safe old before w reg =
      ground (arith, restart-Safe old before w reg, reload_engine-Safe old before w reg)

  pub write_config-Safe : Safe IsRegular (write_config_locked host)
  unfolding write_config_locked
  write_config-Safe w reg = subst IsRegular (ground arith) reg

  -- What `normalizeConfig` made of the trimmed configuration is regular.
  trimmed-IsRegular :
      (cfg : Config)
      → (normalize_config (trimmed host cfg)).0 ≡ ok tt
      → IsRegular (normalize_config (trimmed host cfg)).1
  trimmed-IsRegular cfg h =
      normalize_config-IsRegular (trimmed host cfg) h (normalize_proxy_again cfg.proxy).0

  store-Safe : (cfg : Config) → IsRegular cfg → Safe IsRegular (store host cfg)
  store-Safe cfg given w reg =
      on_error-Regular IsRegular (set_cfg (clone_config w.app.cfg))
        (write_config_locked host (set_cfg (clone_config cfg) w))
        (write_config-Safe (set_cfg (clone_config cfg) w) (clone_config-IsRegular cfg given))
        (λ u q. clone_config-IsRegular w.app.cfg reg)

  apply_if_running-Safe :
      (old : Config) → IsRegular old → Safe IsRegular (apply_if_running host old)
  apply_if_running-Safe old before w reg = elim (Bool-cases (Engine.Run.running w.engine)) [
    | inl e ↦ rw e (keep_error-Regular IsRegular _ (apply-Safe old before w reg))
    | inr e ↦ rw e reg
  ]

  register-Safe : (b : Bool) → Safe IsRegular (register host b)
  register-Safe b w reg =
      keep_failure-Regular IsRegular (on_system (call (host.platform.set_start_with_windows b)) w)
        reg

  save_regular-Safe :
      (x : Result Error (Unit {0}) × Config)
      → (x.0 ≡ ok tt → IsRegular x.1)
      → Safe IsRegular (save_regular host x)
  save_regular-Safe (err e, cfg) given w reg = reg
  save_regular-Safe (panic, cfg) given w reg = reg
  save_regular-Safe (ok tt, cfg) given w reg =
      chain-Regular IsRegular (store host cfg w) _ (store-Safe cfg (given refl) w reg) λ _ v r.
        chain-Regular IsRegular
          (register host cfg.start_with_windows (set_error none (set_loaded true v))) _
          (register-Safe cfg.start_with_windows (set_error none (set_loaded true v)) r)
          (λ _.
            apply_if_running-Safe (clone_config w.app.cfg) (clone_config-IsRegular w.app.cfg reg))

  pub save_config-Safe : (cfg : Config) → Safe IsRegular (save_config host cfg)
  unfolding save_config
  save_config-Safe cfg =
      save_regular-Safe (normalize_config (trimmed host cfg)) (trimmed-IsRegular cfg)

  pub save_config_json-Safe : (raw : Bytes) → Safe IsRegular (save_config_json host raw)
  unfolding save_config_json
  save_config_json-Safe raw w reg =
      chain-Regular IsRegular (refuse_if (is_empty (trim_space raw)) empty_file w) _
        (refuse_if-Safe IsRegular _ _ w reg)
        λ _ v r.
          chain-Regular IsRegular (require (host.library.unmarshal (trim_space raw)) bad_json, v) _
            r
            λ cfg u q.
              chain-Regular IsRegular (refuse_if (is_empty (trim_space cfg.proxy)) empty_proxy u) _
                (refuse_if-Safe IsRegular _ _ u q) (λ _. save_config-Safe cfg)
