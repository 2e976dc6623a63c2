-- ===== src/Desktop/Watch/Outcome.antt =====
-- How a look at the configuration's file ends: `reloadConfigFromDisk` of desktop/config_hot_reload.go.
use tun_flow.Base.{
  ◌≡◌, ◌≢◌, refl, sym, ap, subst, ◌∙◌, inl, inr, Bool, true, false, Option, none, some, arith,
  Bytes, Result, ok, err, panic, Bool-cases, Result-cases, is_empty, Option-cases,
}
use tun_flow.Base.Act.{chain, lift, return, ◌>>=◌}
use tun_flow.Base.Text.{bytes_eq, bytes_eq_iff}
use tun_flow.Engine
use tun_flow.Engine.{Engine}
use tun_flow.Engine.Run
use tun_flow.Desktop.{Config, Error, World, Host, Library, Files}
use tun_flow.Desktop.Regular.{normalize_proxy, normalize_config, clone_config}
use tun_flow.Desktop.Regular.Proxy.{normalize_proxy_again}
use tun_flow.Desktop.Regular.Valid.{IsRegular, normalize_config-IsRegular, normalize_config_fixed}
use tun_flow.Desktop.Disk.{read_config, parse_config, read_trimmed, keep_valid}
use tun_flow.Desktop.Control.{set_cfg, apply_running_config}
use tun_flow.Desktop.Control.Safe.{IsPlatform, apply_running-done}
use tun_flow.Desktop.Watch.{
  Event, applied, failed, apply_read, reload_config_from_disk, first_read, second_read, differs,
  after_apply,
}

-- What is parsed is regular, and stays what it is when it is made regular.
abbrev pub Parsed : Config → Type 0
Parsed c = IsRegular c × ((normalize_config c).1 ≡ c)

keep_valid-Parsed :
    (p c : Config)
    → normalize_proxy p.proxy ≡ p.proxy
    → keep_valid (normalize_config p) ≡ ok c
    → Parsed c
keep_valid-Parsed p c proxied h =
    let both = kept (normalize_config p) refl h in
    subst Parsed both.1
      (normalize_config-IsRegular p both.0 proxied, normalize_config_fixed p both.0)
  where
    kept :
        (x : Result Error (Unit {0}) × Config)
        → normalize_config p ≡ x
        → keep_valid x ≡ ok c
        → ((normalize_config p).0 ≡ ok tt) × ((normalize_config p).1 ≡ c)
    kept (ok u, d) e k = ground arith
    kept (err w, d) e k = absurd (ground arith)
    kept (panic, d) e k = absurd (ground arith)

pub parse_config-Parsed :
    (lib : Library) (clean : Bytes) (c : Config) → parse_config lib clean ≡ ok c → Parsed c
unfolding parse_config
parse_config-Parsed lib clean c h = elim (Bool-cases (is_empty clean)) [
  | inl e ↦ absurd (ground arith)
  | inr e ↦ elim (Option-cases (lib.unmarshal clean)) [
    | inl n ↦ absurd (ground arith)
    | inr (d, m) ↦
        keep_valid-Parsed (record d { proxy = normalize_proxy d.proxy }) c
          (normalize_proxy_again d.proxy).0 (ground arith)
  ]
]

-- What is read is what the bytes read stand for.
pub read_config-parse :
    {S : Type 0} (files : Files S) (lib : Library) (s : S) (c : Config) (bytes : Bytes)
    → (read_config files lib s).0 ≡ ok (c, bytes)
    → parse_config lib bytes ≡ ok c
unfolding read_config
read_config-parse {S = S} files lib s c bytes h = parsed (read_trimmed files lib s) h
  where
    parsed :
        (x : Result Error Bytes × S)
        → (chain {B = Config × Bytes} x.0 x.1
            (λ clean. do d ← lift (parse_config lib clean); return (d, clean))).0
          ≡ ok (c, bytes)
        → parse_config lib bytes ≡ ok c
    parsed (ok clean, t) k = ground (arith, Result-cases (parse_config lib clean))
    parsed (err e, t) k = absurd (ground arith)
    parsed (panic, t) k = absurd (ground arith)

unequal : (a b : Bytes) → bytes_eq a b ≡ false → a ≢ b
unequal a b h e = let same = (bytes_eq_iff a b).1 e in cc

module _ {S R : Type 0} (host : Host S R) (lawful : IsPlatform host.platform) where
  -- How a look at the file ends.
  pub data Outcome (w : World S R) : Option Event × World S R → Type 0 where
    ignored : {v : World S R} → v.app ≡ w.app → v.engine ≡ w.engine → Outcome w (none, v)
    took :
        {v : World S R} (cfg : Config) (bytes : Bytes)
        → parse_config host.library bytes ≡ ok cfg
        → host.library.checksum bytes ≢ w.app.config_disk_checksum
        → v.app.cfg ≡ cfg
        → v.app.config_disk_checksum ≡ host.library.checksum bytes
        → v.app.last_error ≡ none
        → Outcome w (some applied, v)
    went_back :
        {v : World S R} (e : Error) (bytes : Bytes)
        → Engine.Run.running w.engine ≡ true
        → host.library.checksum bytes ≢ w.app.config_disk_checksum
        → v.app.cfg ≡ clone_config w.app.cfg
        → v.app.config_disk_checksum ≡ host.library.checksum bytes
        → v.app.last_error ≡ some e
        → Outcome w (some (failed e), v)
    crashed :
        {v : World S R} (u : World S R) (cfg : Config) (bytes : Bytes)
        → parse_config host.library bytes ≡ ok cfg
        → u.app.cfg ≡ cfg
        → apply_running_config host (clone_config w.app.cfg) u ≡ (panic, v)
        → Outcome w (none, v)

  after_apply-Outcome :
      (w : World S R) (u : World S R) (cfg : Config) (bytes : Bytes)
      → Engine.Run.running w.engine ≡ true
      → parse_config host.library bytes ≡ ok cfg
      → host.library.checksum bytes ≢ w.app.config_disk_checksum
      → u.app.cfg ≡ cfg
      → (x : Result Error (Unit {0}) × World S R)
      → apply_running_config host (clone_config w.app.cfg) u ≡ x
      → Outcome w (after_apply host (clone_config w.app.cfg) (host.library.checksum bytes) x)
  after_apply-Outcome w u cfg bytes up p new now (ok tt, v) e =
      let fixed = (parse_config-Parsed host.library bytes cfg p).1 in
      let kept =
        apply_running-done host lawful (λ d. d ≡ cfg) (λ d same. rw same fixed)
          (clone_config w.app.cfg) u now (ap (λ y. y.0) e) in
      took cfg bytes p new (sym (ap (λ y. y.1.app.cfg) e) ∙ kept) refl refl
  after_apply-Outcome w u cfg bytes up p new now (err f, v) e =
      went_back f bytes up new refl refl refl
  after_apply-Outcome w u cfg bytes up p new now (panic, v) e = crashed u cfg bytes p now e

  apply_read-Outcome :
      (w : World S R) (s : S) (cfg : Config) (bytes : Bytes)
      → parse_config host.library bytes ≡ ok cfg
      → host.library.checksum bytes ≢ w.app.config_disk_checksum
      → Outcome w (apply_read host cfg (host.library.checksum bytes) (record w { os = s }))
  unfolding apply_read
  apply_read-Outcome w s cfg bytes p new = elim (Bool-cases (Engine.Run.running w.engine)) [
    | inl up ↦
        rw up
          (after_apply-Outcome w (set_cfg cfg (record w { os = s })) cfg bytes up p new refl _ refl)
    | inr down ↦ rw down (took cfg bytes p new refl refl refl)
  ]

  module _ (same : Config → Config → Bool) (w : World S R) where
    second_read-Outcome :
        (cfg : Config) (bytes : Bytes)
        → parse_config host.library bytes ≡ ok cfg
        → host.library.checksum bytes ≢ w.app.config_disk_checksum
        → (z : Result Error (Config × Bytes) × S)
        → Outcome w
            (second_read host same cfg (host.library.checksum bytes) (z.0, record w { os = z.1 }))
    second_read-Outcome cfg bytes p new (err e, s) = ignored refl refl
    second_read-Outcome cfg bytes p new (panic, s) = ignored refl refl
    second_read-Outcome cfg bytes p new (ok (cfg2, bytes2), s) =
        elim (Bool-cases (differs host same cfg (host.library.checksum bytes) cfg2 bytes2)) [
          | inl e ↦ rw e (ignored refl refl)
          | inr e ↦ rw e (apply_read-Outcome w s cfg bytes p new)
        ]

    first_read-Outcome :
        (y : Result Error (Config × Bytes) × S)
        → read_config host.files host.library w.os ≡ y
        → Outcome w (first_read host same (y.0, record w { os = y.1 }))
    first_read-Outcome (err e, s) r = ignored refl refl
    first_read-Outcome (panic, s) r = ignored refl refl
    first_read-Outcome (ok (cfg, bytes), s) r =
        let p = read_config-parse host.files host.library w.os cfg bytes (ap (λ y. y.0) r) in
        elim (Bool-cases (bytes_eq (host.library.checksum bytes) w.app.config_disk_checksum)) [
          | inl e ↦ rw e (ignored refl refl)
          | inr e ↦
              let new = unequal (host.library.checksum bytes) w.app.config_disk_checksum e in
              rw e (second_read-Outcome cfg bytes p new (read_config host.files host.library s))
        ]

    -- A look at the file ends in one of three ways, unless something that it calls panics. It leaves the
    -- application and the engine as they are. Or it reports that it applied a configuration, which
    -- then is what a file's bytes stand for with a checksum that is new, and keeps that configuration
    -- and that checksum and no error. Or it reports a failure; then the engine was running, and the
    -- configuration is the one before, with the new checksum and the error kept.
    pub reload_config_from_disk-Outcome : Outcome w (reload_config_from_disk host same w)
    unfolding reload_config_from_disk
    reload_config_from_disk-Outcome =
        first_read-Outcome (read_config host.files host.library w.os) refl
