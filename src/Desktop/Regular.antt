-- ===== src/Desktop/Regular.antt =====
-- desktop/app.go: the configuration made regular, and the engine's key that is made of it.
pub mod Proxy
pub mod Valid
use tun_flow.Base.{
  ℕ, suc, ◌-◌, ◌*◌, ◌%◌, ◌^◌, ℤ, pos, negsuc, Bool, true, false, not, ◌&&◌, ◌||◌, List, [], ◌∷◌,
  ◌++◌, Option, none, some, ltb, leb, if◌then◌else◌, Bytes, length, drop, is_empty, Result, ok, err,
}
use tun_flow.Base.Text.{codes, bytes_eq, trim_space, to_lower, has_prefix, contains_text}
use tun_flow.Desktop.{Config, Error, Library, no_device, bad_mode, bad_mtu, bad_udp_timeout}
use tun_flow.Engine.{Key}

-- `knownProxySchemes`.
abbrev pub known_proxy_schemes : List Bytes
known_proxy_schemes =
    codes "socks5h://"
    ∷ codes "socks5://"
    ∷ codes "ss://"
    ∷ codes "http://"
    ∷ codes "https://"
    ∷ codes "ssh://"
    ∷ []

-- The first scheme that begins the text.
unfoldable pub find_scheme : List Bytes → Bytes → Option Bytes
unfolding has_prefix
find_scheme [] s = none
find_scheme (p ∷ ps) s = if has_prefix s p then some p else find_scheme ps s

abbrev pub without_scheme : Bytes → Bytes
without_scheme proxy =
    if has_prefix (to_lower proxy) (codes "s5://")
    then codes "socks5://" ++ drop 4 proxy
    else if not (contains_text proxy (codes "://"))
    then codes "socks5://" ++ proxy
    else proxy

abbrev pub respell : Option Bytes → Bytes → Bytes
respell (some scheme) proxy = scheme ++ drop (length scheme) proxy
respell none proxy = without_scheme proxy

abbrev pub with_scheme : Bytes → Bytes
with_scheme proxy =
    if is_empty proxy then [] else respell (find_scheme known_proxy_schemes (to_lower proxy)) proxy

-- `normalizeProxy`.
unfoldable pub normalize_proxy : Bytes → Bytes
normalize_proxy raw = with_scheme (trim_space raw)

abbrev pub known_mode : Bytes → Bool
known_mode m =
    is_empty m
    || bytes_eq m (codes "global")
    || bytes_eq m (codes "rules")
    || bytes_eq m (codes "bypass")
    || bytes_eq m (codes "direct")

abbrev pub regular_mode : Bytes → Bytes
regular_mode m =
    if is_empty m then codes "global" else if bytes_eq m (codes "bypass") then codes "rules" else m

abbrev pub regular_route : Bytes → Bytes
regular_route r =
    if not (bytes_eq r (codes "direct")) && not (bytes_eq r (codes "proxy"))
    then codes "proxy"
    else r

abbrev never_nil : Option (List Bytes) → Option (List Bytes)
never_nil none = some []
never_nil (some rs) = some rs

-- `n < 0 || n > limit`, refused.
abbrev pub within : ℕ → ℤ → Bool
within limit (pos n) = leb n limit
within limit (negsuc n) = false

abbrev pub regular : Config → Config
regular cfg = record cfg {
  mode = regular_mode cfg.mode;
  default_route = regular_route cfg.default_route;
  direct_rules = never_nil cfg.direct_rules;
  proxy_rules = never_nil cfg.proxy_rules;
  geoip_file = if is_empty cfg.geoip_file then codes "geoip.dat" else cfg.geoip_file;
}

-- `normalizeConfig`: the error, if there is one, and the configuration as it is left.
unfoldable pub normalize_config : Config → Result Error (Unit {0}) × Config
normalize_config cfg =
    if is_empty (trim_space cfg.device)
    then (err no_device, cfg)
    else if not (known_mode cfg.mode)
    then (err bad_mode, cfg)
    else if not (within 65535 cfg.mtu)
    then (err bad_mtu, regular cfg)
    else if not (within 3600 cfg.udp_timeout)
    then (err bad_udp_timeout, regular cfg)
    else (ok tt, regular cfg)

-- `append([]string(nil), xs...)`.
abbrev pub copied : Option (List Bytes) → Option (List Bytes)
copied none = none
copied (some []) = none
copied (some (x ∷ xs)) = some (x ∷ xs)

-- `cloneConfig`.
abbrev pub clone_config : Config → Config
clone_config cfg = record cfg {
  direct_cidrs = copied cfg.direct_cidrs;
  direct_rules = copied cfg.direct_rules;
  proxy_rules = copied cfg.proxy_rules;
}

-- `bundledDataPath`: a path, and whether the file is there.
abbrev in_dir : Library → Option Bytes → Bytes → Bytes × Bool
in_dir lib none name = (name, false)
in_dir lib (some dir) name =
    if lib.exists (lib.join dir name) then (lib.join dir name, true) else (name, false)

unfoldable pub bundled_data_path : Library → Bytes → Bytes × Bool
bundled_data_path lib name =
    if is_empty name
    then ([], false)
    else if lib.is_abs name
    then (name, lib.exists name)
    else in_dir lib lib.executable_dir name

abbrev found_or : Bytes → Bytes × Bool → Bytes
found_or name (p, there) = if there then p else name

abbrev entries : Option (List Bytes) → List Bytes
entries none = []
entries (some xs) = xs

-- The 64-bit pattern of an int, and a pattern read as an int64.
abbrev pub bits : ℤ → ℕ
bits (pos n) = n % 2 ^ 64
bits (negsuc n) = (2 ^ 64 - suc n % 2 ^ 64) % 2 ^ 64

abbrev pub of_bits : ℕ → ℤ
of_bits r = if ltb r (2 ^ 63) then pos r else negsuc (2 ^ 64 - 1 - r)

-- `time.Duration(n) * time.Second`.
abbrev pub seconds : ℤ → ℤ
seconds n = of_bits (bits n * 1000000000 % 2 ^ 64)

-- `localRestAPIAddr`.
abbrev local_rest_api_addr : Bytes
local_rest_api_addr = codes "127.0.0.1:7788"

-- `buildEngineKeyLocked`, with the interface that was found at run time.
unfoldable pub build_engine_key : Library → Bytes → Config → Key
build_engine_key lib runtime_interface cfg = record {
  mtu = bits cfg.mtu;
  mark = 0;
  proxy = normalize_proxy cfg.proxy;
  rest_api = local_rest_api_addr;
  device = trim_space cfg.device;
  log_level = codes "info";
  interface =
      if is_empty (trim_space cfg.interface) then runtime_interface else trim_space cfg.interface;
  routing_mode = trim_space cfg.mode;
  direct_cidrs = entries cfg.direct_cidrs;
  direct_rules = entries cfg.direct_rules;
  proxy_rules = entries cfg.proxy_rules;
  default_route = cfg.default_route;
  geoip_file =
      if lib.is_abs cfg.geoip_file
      then cfg.geoip_file
      else found_or cfg.geoip_file (bundled_data_path lib cfg.geoip_file);
  tcp_moderate_receive_buffer = cfg.tcp_moderate_receive_buffer;
  tcp_send_buffer_size = trim_space cfg.tcp_send_buffer_size;
  tcp_receive_buffer_size = trim_space cfg.tcp_receive_buffer_size;
  multicast_groups = [];
  tun_pre_up = [];
  tun_post_up = [];
  udp_timeout = seconds cfg.udp_timeout;
}
