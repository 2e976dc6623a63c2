-- ===== src/Engine/Parse.antt =====
-- engine/parse.go and proxy/protocol.go: the texts of a key, parsed.
use tun_flow.Base.{
  ℕ, not, List, [], ◌∷◌, Option, none, some, if◌then◌else◌, Bytes, ◌++◌, is_empty, Result, ok, err,
  ◌>>=◌,
}
use tun_flow.Base.Act.{require}
use tun_flow.Base.Text.{codes, bytes_eq, contains_text, trim_space, to_lower}
use tun_flow.Netip.{Addr}
use tun_flow.Engine.{
  Error, Url, Outside, bad_url, bad_address, unsupported_scheme, unsupported_driver,
  unknown_protocol, bad_proxy, bad_group, device_failed,
}

-- The default scheme, put before a text that names none.
abbrev pub with_scheme : Bytes → Bytes → Bytes
with_scheme scheme s = if contains_text s (codes "://") then s else scheme ++ codes "://" ++ s

-- `RegisterProtocol`.
unfoldable pub register_protocol :
    Bytes → (Url → Option ℕ) → List (Bytes × (Url → Option ℕ)) → List (Bytes × (Url → Option ℕ))
register_protocol name parse protocols = protocols ++ (name, parse) ∷ []

-- `pick`; none where it returns the empty protocol.
unfoldable pub pick : Bytes → List (Bytes × (Url → Option ℕ)) → Option (Url → Option ℕ)
pick name [] = none
pick name ((n, parse) ∷ ps) = if bytes_eq n name then some parse else pick name ps

-- `proxy.Parse`.
unfoldable pub parse : List (Bytes × (Url → Option ℕ)) → Url → Result Error ℕ
parse protocols u = do
  p ← require (pick u.scheme protocols) unknown_protocol
  require (p u) bad_proxy

module _ (out : Outside) where
  -- `parseProxy`.
  unfoldable pub parse_proxy : Bytes → Result Error ℕ
  parse_proxy s = do
    u ← require (out.parse_url (with_scheme (codes "socks5") s)) bad_url
    parse out.protocols u

  -- `parseRestAPI`: the address to serve at.
  unfoldable pub parse_rest_api : Bytes → Result Error Bytes
  parse_rest_api s = do
    u ← require (out.parse_url (with_scheme (codes "http") s)) bad_url
    host ← require (out.resolve_tcp_addr u.host) bad_address
    if bytes_eq u.scheme (codes "http") then ok host else err unsupported_scheme

  -- `parseDevice`, where `open_fd` and `open_tun` are the drivers' functions.
  unfoldable pub parse_device : Bytes → ℕ → Result Error ℕ
  parse_device s mtu = do
    u ← require (out.parse_url (with_scheme (codes "tun") s)) bad_url
    let driver = to_lower u.scheme
    if bytes_eq driver (codes "fd")
        then require (out.open_fd u mtu) device_failed
        else if bytes_eq driver (codes "tun")
        then require (out.open_tun u mtu) device_failed
        else err unsupported_driver

  -- `parseMulticastGroups`.
  unfoldable pub parse_multicast_groups : List Bytes → Result Error (List Addr)
  parse_multicast_groups [] = ok []
  parse_multicast_groups (s ∷ ss) =
      let rest = parse_multicast_groups ss in
      let ip = trim_space s in
      if is_empty ip then rest else do
        addr ← require (out.parse_addr ip) bad_group
        if not (out.is_multicast addr) then err bad_group else do groups ← rest; ok (addr ∷ groups)
