-- ===== src/Proxies/Simple.antt =====
-- proxy/socks4/socks4.go, proxy/http/http.go, proxy/direct/direct.go and proxy/reject/reject.go.
use tun_flow.Base.{
  ℕ, not, ◌&&◌, ◌∷◌, ◌++◌, Option, none, some, ◌==◌, if◌then◌else◌, Bytes, length, is_empty, Result,
  ok, err, panic,
}
use tun_flow.Base.Net.{Conn, IoError, eof, Net, ◌>>=◌, ◌>>◌, lift, write}
use tun_flow.Netip
use tun_flow.Socks4
use tun_flow.Socks4.{cmd_connect}
use tun_flow.Proxies.{Dial, dial_with}

pub data Error : Type 0 where
  not_dialed unsupported auth_required not_allowed : Error
  status : ℕ → Error
  socks4 : Socks4.Error → Error
  io : IoError → Error

-- `Socks4`, and `HTTP`.
pub record Socks4Proxy : Type 0 where
  pub addr : Bytes
  pub user_id : Bytes

pub record HttpProxy : Type 0 where
  pub addr : Bytes
  pub user : Bytes
  pub pass : Bytes

abbrev of_socks4 : Result Socks4.Error (Unit {0}) × Conn → Result Error (Unit {0}) × Conn
of_socks4 (ok u, c) = (ok u, c)
of_socks4 (err e, c) = (err (socks4 e), c)
of_socks4 (panic, c) = (panic, c)

-- `Socks4.DialContext` for the text of the destination.
unfoldable pub socks4_dial :
    (split_host_port : Bytes → Option (Bytes × ℕ)) (parse_addr : Bytes → Netip.Addr)
    → Socks4Proxy
    → (destination : Bytes) → Option Conn
    → Dial Error Conn
socks4_dial split_host_port parse_addr ss destination c = dial_with not_dialed c (λ k.
    of_socks4
      (Socks4.client_handshake split_host_port parse_addr destination cmd_connect ss.user_id k))

-- `DialUDP` of both.
abbrev pub no_udp : Result Error Conn
no_udp = err unsupported

-- net/http: the text of a CONNECT request for a host and a Proxy-Authorization header, and the reading
-- of a response through a new bufio.Reader, which gives its status. base64 is of encoding/base64.
pub record Http : Type 0 where
  pub request : (host : Bytes) (authorization : Option Bytes) → Bytes
  pub read_response : Net Error ℕ
  pub base64 : Bytes → Bytes

-- `basicAuth`.
abbrev pub basic_auth : Http → Bytes → Bytes → Bytes
basic_auth lib username password = lib.base64 (username ++ b':' ∷ password)

abbrev pub authorization : Http → HttpProxy → Option Bytes
authorization lib h =
    if not (is_empty h.user) && not (is_empty h.pass)
    then some (b'B' ∷ b'a' ∷ b's' ∷ b'i' ∷ b'c' ∷ 32 ∷ basic_auth lib h.user h.pass)
    else none

-- The switch on the status.
abbrev pub verdict : ℕ → Result Error (Unit {0})
verdict code =
    if code == 200
    then ok tt
    else if code == 407
    then err auth_required
    else if code == 405
    then err not_allowed
    else err (status code)

-- `shakeHand`.
unfoldable pub shake_hand : Http → HttpProxy → (destination : Bytes) → Net Error (Unit {0})
shake_hand lib h destination = do
  write io (lib.request destination (authorization lib h))
  code ← lib.read_response
  lift (verdict code)

-- `HTTP.DialContext`.
unfoldable pub http_dial : Http → HttpProxy → (destination : Bytes) → Option Conn → Dial Error Conn
http_dial lib h destination c = dial_with not_dialed c (shake_hand lib h destination)

-- `Direct.DialContext` and `DialUDP`: what the system gives.
abbrev pub direct_dial : Option Conn → Result Error Conn
direct_dial none = err not_dialed
direct_dial (some c) = ok c

-- A net.Addr: a net.UDPAddr, or another by its text.
pub data Address : Type 0 where
  udp other : Bytes → Address

abbrev sent_to : Option Bytes → (Bytes → ℕ × Option Error) → ℕ × Option Error
sent_to none send = (0, some not_dialed)
sent_to (some a) send = send a

-- `directPacketConn.WriteTo`, with net.ResolveUDPAddr and the `WriteTo` of the connection.
unfoldable pub direct_write_to :
    (resolve : Bytes → Option Bytes) (send : Bytes → Bytes → ℕ × Option Error) (b : Bytes)
    → Address
    → ℕ × Option Error
direct_write_to resolve send b (udp a) = send b a
direct_write_to resolve send b (other text) = sent_to (resolve text) (send b)

-- `nopConn` and `nopPacketConn` of proxy/reject.
abbrev pub nop_read : ℕ × Option IoError
nop_read = (0, some eof)

abbrev pub nop_write : Bytes → ℕ × Option IoError
nop_write b = (0, some eof)

abbrev pub nop_write_to : Bytes → ℕ × Option IoError
nop_write_to b = (length b, none)
