-- ===== src/Desktop/Disk.antt =====
-- desktop/app.go and desktop/config_hot_reload.go: the files of the configuration and of the rules.
pub mod Replace
use tun_flow.Base.{
  ℕ, Bool, true, false, not, ◌&&◌, ◌||◌, List, [], ◌∷◌, ◌++◌, Option, none, some, ◌==◌,
  if◌then◌else◌, Bytes, is_empty, Result, ok, err, panic,
}
use tun_flow.Base.Act.{Act, chain, ◌>>=◌, ◌>>◌, return, refuse_if, lift, require}
use tun_flow.Base.Text.{codes, bytes_eq}
use tun_flow.Desktop.{
  Config, Error, Fault, Files, Library, not_exist, io, empty_file, bad_json, verification_failed,
  bad_status, empty_download, system, unreachable, Response,
}
use tun_flow.Desktop.Regular.{normalize_proxy, normalize_config}

-- The spaces of JSON.
abbrev is_json_space : ℕ → Bool
is_json_space c = c == 32 || c == 9 || c == 13 || c == 10

unfoldable pub skip_spaces : Bytes → Bytes
skip_spaces [] = []
skip_spaces (c ∷ cs) = if is_json_space c then skip_spaces cs else c ∷ cs

abbrev skip_mark : Bytes → Bytes
skip_mark (a ∷ b ∷ c ∷ cs) = if a == 0xEF && b == 0xBB && c == 0xBF then cs else a ∷ b ∷ c ∷ cs
skip_mark cs = cs

unfoldable pub cut_spaces : Bytes → Bytes
cut_spaces [] = []
cut_spaces (c ∷ cs) = let r = cut_spaces cs in if is_empty r && is_json_space c then [] else c ∷ r

-- `trimBOMSpace` and `bytesTrimBOMSpace`.
unfoldable pub trim_bom_space : Bytes → Bytes
unfolding skip_spaces cut_spaces
trim_bom_space s = cut_spaces (skip_mark (skip_spaces s))

-- `configPath`.
abbrev path_in : Library → Option Bytes → Bytes
path_in lib none = codes "config.json"
path_in lib (some dir) = lib.join dir (codes "config.json")

abbrev pub config_path : Library → Bytes
config_path lib = path_in lib lib.executable_dir

abbrev pub keep_valid : Result Error (Unit {0}) × Config → Result Error Config
keep_valid (ok u, cfg) = ok cfg
keep_valid (err e, cfg) = err e
keep_valid (panic, cfg) = panic

abbrev pub regular_config : Config → Result Error Config
regular_config cfg =
    keep_valid (normalize_config (record cfg { proxy = normalize_proxy cfg.proxy }))

abbrev pub unmarshalled : Option Config → Result Error Config
unmarshalled none = err bad_json
unmarshalled (some cfg) = regular_config cfg

-- The configuration that a file's bytes stand for, after they are trimmed.
unfoldable pub parse_config : Library → Bytes → Result Error Config
parse_config lib clean =
    if is_empty clean then err empty_file else unmarshalled (lib.unmarshal clean)

-- An error of the operating system, wrapped.
abbrev wrap {ℓ} : {A : Type ℓ} → Result Fault A → Result Error A
wrap (ok a) = ok a
wrap (err f) = err (system f)
wrap panic = panic

abbrev pub call : {S A : Type 0} → Act S Fault A → Act S Error A
call m s = let (r, s') = m s in (wrap r, s')

-- A call whose error is ignored.
abbrev pub try : {S A : Type 0} → Act S Fault A → S → S
try m s = let (r, s') = m s in s'

module _ {S : Type 0} (files : Files S) where
  abbrev pub read_trimmed : Library → Act S Error Bytes
  read_trimmed lib = do raw ← call (files.read_file (config_path lib)); return (trim_bom_space raw)

  -- `readConfig`: the configuration and the bytes that it was read from.
  unfoldable pub read_config : Library → Act S Error (Config × Bytes)
  read_config lib = do
    clean ← read_trimmed lib
    cfg ← lift (parse_config lib clean)
    return (cfg, clean)

  -- What `loadConfigLocked` stores.
  unfoldable pub load_config : Library → Act S Error Config
  load_config lib = do clean ← read_trimmed lib; lift (parse_config lib clean)

  -- `if err := os.Rename(...); err != nil { after; return err }`, with what follows a success.
  abbrev ending :
      Result Fault (Unit {0}) × S → (S → S) → Act S Fault (Unit {0}) → Result Fault (Unit {0}) × S
  ending (ok u, s) undo next = next s
  ending (err f, s) undo next = (err f, undo s)
  ending (panic, s) undo next = (panic, s)

  abbrev last_try : Bytes → Bytes → Bytes → Act S Fault (Unit {0})
  last_try source target backup s =
      ending (files.rename source target s) (try (files.rename backup target))
        (λ t. (ok tt, try (files.remove backup) t))

  abbrev past_backup :
      Bytes → Bytes → Bytes → Result Fault (Unit {0}) × S → Result Fault (Unit {0}) × S
  past_backup source target backup (ok u, s) = last_try source target backup s
  past_backup source target backup (err not_exist, s) = last_try source target backup s
  past_backup source target backup (err io, s) = (err io, s)
  past_backup source target backup (panic, s) = (panic, s)

  abbrev pub backup_of : Bytes → Bytes
  backup_of target = target ++ codes ".bak"

  abbrev by_backup : Bytes → Bytes → Result Fault (Unit {0}) × S → Result Fault (Unit {0}) × S
  by_backup source target (ok u, s) = (ok u, s)
  by_backup source target (err f, s) =
      past_backup source target (backup_of target)
        (files.rename target (backup_of target) (try (files.remove (backup_of target)) s))
  by_backup source target (panic, s) = (panic, s)

  -- `replaceFileAtomic`.
  unfoldable pub replace_file_atomic : Bytes → Bytes → Act S Fault (Unit {0})
  replace_file_atomic source target s = by_backup source target (files.rename source target s)

  -- The deferred `os.Remove(tmp)`.
  abbrev removing : {A : Type 0} → Bytes → Result Error A × S → Result Error A × S
  removing tmp (r, s) = (r, try (files.remove tmp) s)

  -- A call whose failure closes the file first.
  abbrev or_close : Bytes → Act S Fault (Unit {0}) → Act S Fault (Unit {0})
  or_close tmp m s = ending (m s) (try (files.close tmp)) (return tt)

  abbrev verify : Bytes → Bytes → Result Error (Unit {0})
  verify stored bs = if not (bytes_eq stored bs) then err verification_failed else ok tt

  abbrev fill : Bytes → Bytes → Bytes → Act S Error (Unit {0})
  fill tmp path bs = do
    call (or_close tmp (files.write tmp bs))
    call (or_close tmp (files.sync tmp))
    call (files.close tmp)
    call (replace_file_atomic tmp path)
    stored ← call (files.read_file path)
    lift (verify stored bs)

  -- `writeConfigLocked` up to the checksum.
  unfoldable pub write_config : Library → Config → Act S Error (Unit {0})
  write_config lib cfg = do
    tmp ← call (files.create_temp (lib.dir (config_path lib)) (codes ".config.json.tmp-*"))
    λ s. removing tmp (fill tmp (config_path lib) (lib.marshal cfg) s)

  -- A failure that removes the file, and one that closes it first.
  abbrev dropping : {A : Type 0} → Bytes → Result Fault A × S → Result Fault A × S
  dropping path (ok a, s) = (ok a, s)
  dropping path (err f, s) = (err f, try (files.remove path) s)
  dropping path (panic, s) = (panic, s)

  abbrev or_remove : {A : Type 0} → Bytes → Act S Fault A → Act S Fault A
  or_remove path m s = dropping path (m s)

  -- `io.Copy(tmp, resp.Body)`, which fails where the file or the body does.
  abbrev copy_body : Response → Bytes → Act S Fault (Unit {0})
  copy_body resp path = do files.write path resp.body; refuse_if resp.broken io

  abbrev refuse_empty : Bytes → ℕ → Act S Error Bytes
  refuse_empty path n s =
      if n == 0 then (err empty_download, try (files.remove path) s) else (ok path, s)

  -- `downloadRuleFile`, of the response if there is one.
  unfoldable pub download_rule_file : Option Response → Bytes → Bytes → Act S Error Bytes
  download_rule_file none dir name = lift (err unreachable)
  download_rule_file (some resp) dir name = do
    refuse_if (not (resp.status == 200)) bad_status
    path ← call (files.create_temp dir (codes "." ++ name ++ codes ".tmp-*"))
    call (or_remove path (or_close path (copy_body resp path)))
    call (or_remove path (files.close path))
    n ← call (or_remove path (files.size path))
    refuse_empty path n

  -- `updateRuleFile`, in the directory of the program.
  unfoldable pub update_rule_file :
      Library → Option Bytes → Option Response → Bytes → Act S Error (Unit {0})
  update_rule_file lib none resp name = lift (err (system io))
  update_rule_file lib (some dir) resp name = do
    tmp ← download_rule_file resp dir name
    λ s. removing tmp (call (replace_file_atomic tmp (lib.join dir name)) s)
