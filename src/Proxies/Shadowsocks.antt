-- ===== src/Proxies/Shadowsocks.antt =====
-- proxy/shadowsocks/shadowsocks.go. Writing through the obfuscation and the cipher that wrap the
-- connection is a parameter: they are in Obfs, Aead and Shadowstream.
pub mod Packets
use tun_flow.Base.{
  ℕ, ◌-◌, Bool, true, false, [], ◌∷◌, ◌++◌, List, Option, none, some, ◌==◌, if◌then◌else◌, Bytes,
  length, take, drop, is_empty, Result, ok, err, panic, ◌>>=◌, slice_from, ltb,
}
use tun_flow.Base.Net.{Conn}
use tun_flow.Base.Text.{codes, bytes_eq, split_by, cut_at}
use tun_flow.Ciphers
use tun_flow.Ciphers.{Makers, Picked, pick_cipher}
use tun_flow.Socks5
use tun_flow.Socks5.Addr.{UdpAddr, udp_addr, split_addr, serialize_addr, encode_udp_packet}
use tun_flow.SocksProxy.{Metadata, serialize_socks_addr, or_nil}
use tun_flow.Proxies.{Dial, dial_with}

pub data Error : Type 0 where
  not_dialed not_listening unresolved not_written bad_address read_failed : Error
  initialize : Ciphers.Error → Error
  socks : Socks5.Error → Error

-- `Shadowsocks`.
pub record Shadowsocks : Type 0 where
  pub addr : Bytes
  pub cipher : Picked
  pub obfs_mode : Bytes
  pub obfs_host : Bytes

abbrev of_ciphers : {A : Type 0} → Result Ciphers.Error A → Result Error A
of_ciphers (ok a) = ok a
of_ciphers (err e) = err (initialize e)
of_ciphers panic = panic

-- `New`.
unfoldable pub new :
    Makers → (addr method password obfs_mode obfs_host : Bytes) → Result Error Shadowsocks
new m addr method password obfs_mode obfs_host = do
  cipher ← of_ciphers (pick_cipher m method [] password)
  ok (record { addr = addr; cipher = cipher; obfs_mode = obfs_mode; obfs_host = obfs_host })

-- What the connection is wrapped in before the cipher.
pub data Obfuscation : Type 0 where
  plain : Obfuscation
  tls : Bytes → Obfuscation
  http : (host port : Bytes) → Obfuscation

-- The switch on the mode; `port_of` is net.SplitHostPort, which gives no port where it fails.
unfoldable pub obfuscation : (port_of : Bytes → Bytes) → Shadowsocks → Obfuscation
unfolding bytes_eq
obfuscation port_of ss =
    if bytes_eq ss.obfs_mode (codes "tls")
    then tls ss.obfs_host
    else if bytes_eq ss.obfs_mode (codes "http")
    then http ss.obfs_host (port_of ss.addr)
    else plain

-- `DialContext`: the address of the destination is the first thing that is written.
unfoldable pub dial_context :
    (port_of : Bytes → Bytes)
    (write_through : Obfuscation → Picked → Bytes → Conn → Result Error (Unit {0}) × Conn)
    → Shadowsocks
    → Metadata
    → Option Conn
    → Dial Error Conn
dial_context port_of write_through ss m c =
    dial_with not_dialed c
      (write_through (obfuscation port_of ss) ss.cipher (or_nil (serialize_socks_addr m)))

-- What `DialUDP` gives: the server's address, and whether a packet connection that was made is left
-- open without being returned.
pub record UdpDial : Type 0 where
  pub result : Result Error Bytes
  pub left_open : Bool

-- `DialUDP`, where the system listens or not, and with net.ResolveUDPAddr.
unfoldable pub dial_udp : (resolve : Bytes → Option Bytes) (listens : Bool) → Shadowsocks → UdpDial
dial_udp resolve false ss = record { result = err not_listening; left_open = false }
dial_udp resolve true ss = elim (resolve ss.addr) [
  | none ↦ record { result = err unresolved; left_open = true }
  | some a ↦ record { result = ok a; left_open = false }
]

abbrev of_socks {ℓ} : {A : Type ℓ} → Result Socks5.Error A → Result Error A
of_socks (ok a) = ok a
of_socks (err e) = err (socks e)
of_socks panic = panic

-- `ssPacketConn.WriteTo`: the packet that is sent, for a destination as SOCKS5 spells it, which may be
-- nil.
unfoldable pub write_to : Bytes → Option Bytes → Result Error Bytes
write_to b addr = do packet ← of_socks (encode_udp_packet addr b); slice_from packet 3

-- What `ReadFrom` gives: the count and the sender, and the buffer.
abbrev pub Read : Type 0
Read = Result Error (ℕ × UdpAddr) × Bytes

abbrev moved_up : ℕ → Bytes → Bytes → Result Error (Option UdpAddr) → Read
moved_up n b addr (ok none) = (err bad_address, b)
moved_up n b addr (ok (some u)) =
    (ok (n - length addr, u), drop (length addr) b ++ drop (length b - length addr) b)
moved_up n b addr (err e) = (err e, b)
moved_up n b addr panic = (panic, b)

abbrev addressed : ℕ → Bytes → Result Error (Option Bytes) → Read
addressed n b (ok none) = (err bad_address, b)
addressed n b (ok (some a)) = moved_up n b a (of_socks (udp_addr a))
addressed n b (err e) = (err e, b)
addressed n b panic = (panic, b)

-- `ssPacketConn.ReadFrom` of a buffer whose first n bytes were read: an address that `SplitAddr` finds
-- is no longer than they are.
unfoldable pub read_from : Option ℕ → Bytes → Read
read_from none b = (err read_failed, b)
read_from (some n) b = addressed n b (of_socks (split_addr (take n b)))

-- A url.URL: the host, the text, the name and the password of its user, and its raw query.
pub record Url : Type 0 where
  pub host : Bytes
  pub user_text : Bytes
  pub username : Bytes
  pub password : Option Bytes
  pub raw_query : Bytes

abbrev or_none : Option (Bytes × Bytes) → Bytes × Bytes
or_none none = ([], [])
or_none (some p) = p

abbrev of_password : (decode : Bytes → Bytes) → Url → Option Bytes → Bytes × Bytes
of_password decode u (some password) = (u.username, password)
of_password decode u none = or_none (cut_at b':' (decode u.user_text))

-- The method and the password; `decode` is base64.RawURLEncoding, up to the first error.
unfoldable pub user_of : (decode : Bytes → Bytes) → Url → Bytes × Bytes
user_of decode u =
    if is_empty u.user_text then (codes "dummy", []) else of_password decode u u.password

-- One part of the query, with the mode and the host so far.
abbrev option_of : Option (Bytes × Bytes) → Bytes × Bytes → Bytes × Bytes
option_of none acc = acc
option_of (some (key, value)) (mode, host) =
    if bytes_eq key (codes "obfs")
    then (value, host)
    else if bytes_eq key (codes "obfs-host")
    then (mode, value)
    else (mode, host)

abbrev options_of : List Bytes → Bytes × Bytes → Bytes × Bytes
options_of [] acc = acc
options_of (s ∷ ss) acc = options_of ss (option_of (cut_at b'=' s) acc)

-- `Parse`; `unescape` is url.QueryUnescape, empty where it fails.
unfoldable pub parse : Makers → (decode unescape : Bytes → Bytes) → Url → Result Error Shadowsocks
unfolding new user_of
parse m decode unescape u =
    let (method, password) = user_of decode u in
    let (mode, host) = options_of (split_by (λ c. c == b';') (unescape u.raw_query)) ([], []) in
    new m u.host method password mode host
