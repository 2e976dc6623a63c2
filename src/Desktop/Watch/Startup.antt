-- ===== src/Desktop/Watch/Startup.antt =====
-- The first look at the configuration's file after `startup` of desktop/app.go has loaded it.
use tun_flow.Base.{
  ◌≡◌, refl, inl, inr, Bool, true, false, Option, none, some, Bytes, ok, Bool-cases, ℕ,
  if◌then◌else◌,
}
use tun_flow.Base.Text.{bytes_eq, bytes_eq_refl}
use tun_flow.Engine
use tun_flow.Engine.{Engine}
use tun_flow.Engine.Run
use tun_flow.Desktop.{Config, World, Host}
use tun_flow.Desktop.Disk.{load_config, read_config, parse_config, trim_bom_space, config_path}
use tun_flow.Desktop.Control.{set_cfg, set_checksum}
use tun_flow.Desktop.Watch.{
  applied, reload_config_from_disk, startup, refresh_checksum, start_config_watcher, apply_read,
}

module _ {S R : Type 0} (host : Host S R) (raw : Bytes) (cfg : Config)
    (stable : (s : S) → host.files.read_file (config_path host.library) s ≡ (ok raw, s))
    (parsed : parse_config host.library (trim_bom_space raw) ≡ ok cfg) where
  load_config-eq : (s : S) → load_config host.files host.library s ≡ (ok cfg, s)
  unfolding load_config
  load_config-eq s = rw (stable s, parsed) refl

  read_config-eq :
      (s : S) → read_config host.files host.library s ≡ (ok (cfg, trim_bom_space raw), s)
  unfolding read_config
  read_config-eq s = rw (stable s, parsed) refl

  startup-eq :
      (h : ℕ) (w : World S R)
      → startup host h w ≡ (
          let v = set_checksum (host.library.checksum raw) (set_cfg cfg w) in
          start_config_watcher host h v.app.config_watch_stop v)
  unfolding startup refresh_checksum
  startup-eq h w = rw (load_config-eq w.os, stable w.os) refl

  watched-look :
      (same : Config → Config → Bool) (v : World S R)
      → same cfg cfg ≡ true
      → Engine.Run.running v.engine ≡ false
      → (reload_config_from_disk host same v).0 ≡ (
          if bytes_eq (host.library.checksum (trim_bom_space raw)) v.app.config_disk_checksum
          then none
          else some applied)
  unfolding reload_config_from_disk apply_read
  watched-look same v reflexive down =
      let sum = host.library.checksum (trim_bom_space raw) in
      elim (Bool-cases (bytes_eq sum v.app.config_disk_checksum)) [
        | inl e ↦ rw (read_config-eq v.os, e) refl
        | inr e ↦
            rw (read_config-eq v.os, e)
              (rw (read_config-eq v.os, bytes_eq_refl sum, reflexive, down) refl)
      ]

  -- `startup` keeps the checksum of the file's bytes, and a look compares the checksum of the trimmed
  -- bytes: with a file that is valid and does not change and the engine stopped, the first look after
  -- `startup` reports a new configuration exactly where trimming changes the checksum.
  pub startup-look :
      (h : ℕ) (same : Config → Config → Bool) (w : World S R)
      → same cfg cfg ≡ true
      → Engine.Run.running w.engine ≡ false
      → (reload_config_from_disk host same (startup host h w)).0 ≡ (
          if bytes_eq (host.library.checksum (trim_bom_space raw)) (host.library.checksum raw)
          then none
          else some applied)
  startup-look h same w reflexive down = rw (startup-eq h w) (look w.app.config_watch_stop)
    where
      v : World S R
      v = set_checksum (host.library.checksum raw) (set_cfg cfg w)

      look :
          (o : Option ℕ)
          → (reload_config_from_disk host same (start_config_watcher host h o v)).0 ≡ (
              if bytes_eq (host.library.checksum (trim_bom_space raw)) (host.library.checksum raw)
              then none
              else some applied)
      look none = watched-look same (start_config_watcher host h none v) reflexive down
      look (some c) = watched-look same v reflexive down
