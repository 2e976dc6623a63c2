-- ===== src/Desktop/Windows.antt =====
-- desktop/platform_windows.go: the commands and queries of Windows, and what is read out of their
-- output. A PowerShell script is a value of Query, with the texts that are quoted into it.
pub mod Text
pub mod Routes
pub mod Held
pub mod Rollback
pub mod Startup
mod Tests
pub mod Original
use tun_flow.Base.{
  ℕ, ℤ, pos, negsuc, ltb, ◌-◌, Bool, true, false, not, ◌&&◌, ◌||◌, List, [], ◌∷◌, ◌++◌, map, Option,
  none, some, ◌==◌, if◌then◌else◌, Bytes, length, drop, get_elem?, is_empty, Result, ok, err, panic,
}
use tun_flow.Base.Act.{Act, chain, ◌>>=◌, ◌>>◌, return, refuse_if, lift, require, get, modify}
use tun_flow.Base.Text.{bytes_eq, trim_space, codes, to_lower, has_prefix, split_by}
use tun_flow.Desktop.{
  Error, Fault, App, system, no_interface, bad_output, ipv6_only, no_ipv4, bad_url, bad_proxy_host,
}
use tun_flow.Desktop.Regular.{normalize_proxy}
use tun_flow.Desktop.Windows.Text.{ps_quote, fields, join_words}

-- `tunConfig`.
pub record TunConfig : Type 0 where
  pub dhcp : Bool
  pub address : Bytes
  pub prefix_length : ℤ
  pub gateway : Bytes

-- `routeState`.
pub record RouteState : Type 0 where
  pub active : Bool
  pub tun_name : Bytes
  pub tun_index : Bytes
  pub physical_index : Bytes
  pub gateway : Bytes
  pub proxy_ips : List Bytes
  pub original : TunConfig

abbrev pub no_config : TunConfig
no_config = record { dhcp = false; address = []; prefix_length = pos 0; gateway = [] }

abbrev pub no_routes : RouteState
no_routes = record {
  active = false;
  tun_name = [];
  tun_index = [];
  physical_index = [];
  gateway = [];
  proxy_ips = [];
  original = no_config;
}

-- The scripts, by what they ask for; a filter is the quoted name of an interface.
pub data Query : Type 0 where
  default_route signature : Option Bytes → Query
  alias_of index_of tun_config : Bytes → Query

-- A net.IP: the text of To4, and IsLoopback.
pub record Ip : Type 0 where
  pub v4 : Option Bytes
  pub loopback : Bool

-- The programs that are run, and what the standard library computes. `mask_text` is the dotted text of
-- net.CIDRMask, none where that is nil.
pub record Shell (S : Type 0) : Type 0 where
  pub run : List Bytes → Act S Fault (Unit {0})
  pub query : Query → Act S Fault Bytes
  pub show_interfaces : Act S Fault Bytes
  pub print_routes : Act S Fault Bytes
  pub lookup_ip : Bytes → Act S Fault (List Ip)
  pub parse_ip : Bytes → Option Ip
  pub hostname : Bytes → Option Bytes
  pub atoi : Bytes → Option ℤ
  pub itoa : ℤ → Bytes
  pub mask_text : ℤ → Option Bytes

abbrev is_some {ℓ} : {A : Type ℓ} → Option A → Bool
is_some none = false
is_some (some a) = true

abbrev positive : ℤ → Bool
positive (pos n) = ltb 0 n
positive (negsuc n) = false

abbrev of_fault {ℓ} : {A : Type ℓ} → Result Fault A → Result Error A
of_fault (ok a) = ok a
of_fault (err e) = err (system e)
of_fault panic = panic

-- An error that the code does not look at.
abbrev pub ignoring : {S A : Type 0} → Result Fault A × S → Result Error (Unit {0}) × S
ignoring (r, s) = (ok tt, s)

abbrev pub mem_text : Bytes → List Bytes → Bool
mem_text a [] = false
mem_text a (b ∷ bs) = bytes_eq b a || mem_text a bs

-- The loop over the addresses of a name, with the result so far.
abbrev only_v4 : List Bytes → List Ip → List Bytes
only_v4 seen [] = seen
only_v4 seen (ip ∷ ips) = elim ip.v4 [
  | none ↦ only_v4 seen ips
  | some a ↦ only_v4 (if mem_text a seen then seen else seen ++ a ∷ []) ips
]

abbrev literal_v4 : Ip → Result Error (List Bytes)
literal_v4 ip = elim ip.v4 [ none ↦ err ipv6_only | some a ↦ ok (a ∷ []) ]

abbrev looked_up : List Bytes → Result Error (List Bytes)
looked_up [] = err no_ipv4
looked_up (a ∷ as') = ok (a ∷ as')

module _ {S : Type 0} (shell : Shell S) where
  -- `runWindows` and `runPowerShellText`.
  abbrev pub run_windows : List Bytes → Act S Error (Unit {0})
  run_windows args s = let (r, t) = shell.run args s in (of_fault r, t)

  abbrev run_power_shell_text : Query → Act S Error Bytes
  run_power_shell_text q s =
      let (r, t) = shell.query q s in chain (of_fault r) t (λ out. return (trim_space out))

  abbrev filter_of : Bytes → Option Bytes
  filter_of name = if is_empty (trim_space name) then none else some (ps_quote name)

  -- `defaultGateway`.
  unfoldable pub default_gateway : Bytes → Act S Error Bytes
  default_gateway name = do
    value ← run_power_shell_text (default_route (filter_of name))
    refuse_if (not (is_some (shell.parse_ip value))) bad_output
    return value

  -- `physicalInterfaceName`.
  unfoldable pub physical_interface_name : Bytes → Act S Error Bytes
  physical_interface_name gateway = do
    value ← run_power_shell_text (alias_of (ps_quote gateway))
    refuse_if (is_empty value) no_interface
    return value

  abbrev index_text : Option ℤ → Result Error Bytes
  index_text none = err bad_output
  index_text (some i) = if positive i then ok (shell.itoa i) else err bad_output

  -- `physicalInterfaceIndex`.
  unfoldable pub physical_interface_index : Bytes → Act S Error Bytes
  physical_interface_index gateway = do
    value ← run_power_shell_text (index_of (ps_quote gateway))
    lift (index_text (shell.atoi value))

  -- `currentNetworkSignature`.
  unfoldable pub current_network_signature : Bytes → Act S Error Bytes
  current_network_signature name = run_power_shell_text (signature (filter_of name))

  -- The index of a line that names the interface.
  abbrev line_index : Bytes → List Bytes → Option Bytes
  line_index name [] = none
  line_index name (idx ∷ more) =
      if ltb (length more) 4
      then none
      else if not (is_some (shell.atoi idx))
      then none
      else if bytes_eq (to_lower (trim_space (join_words (drop 3 more)))) (to_lower name)
      then some idx
      else none

  abbrev first_index : Bytes → List Bytes → Result Error Bytes
  first_index name [] = err no_interface
  first_index name (l ∷ ls) = elim (line_index name (fields l)) [
    | some idx ↦ ok idx
    | none ↦ first_index name ls
  ]

  -- `interfaceIndex`.
  unfoldable pub interface_index : Bytes → Act S Error Bytes
  interface_index name s =
      let (r, t) = shell.show_interfaces s in
      chain (of_fault r) t (λ out. lift (first_index name (split_by (λ c. c == 10) out)))

  -- `proxyHost`.
  abbrev pub proxy_host : Bytes → Result Error Bytes
  proxy_host raw = elim (shell.hostname (normalize_proxy raw)) [
    | none ↦ err bad_url
    | some host ↦ if is_empty host then err bad_proxy_host else ok host
  ]

  -- `resolveProxyIPs`.
  unfoldable pub resolve_proxy_ips : Bytes → Act S Error (List Bytes)
  resolve_proxy_ips raw = do
    host ← lift (proxy_host raw)
    elim (shell.parse_ip host) [
      | some ip ↦ lift (literal_v4 ip)
      | none ↦ λ s.
          let (r, t) = shell.lookup_ip host s in
          chain (of_fault r) t (λ ips. lift (looked_up (only_v4 [] ips)))
    ]
