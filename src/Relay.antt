-- ===== src/Relay.antt =====
-- proxy/relay/relay.go: the relay client. Requests and responses are those of the package
-- github.com/go-gost/relay, whose coding is a parameter.
pub mod Packets
mod Tests
use tun_flow.Base.{
  ℕ, ◌+◌, ◌-◌, Bool, true, false, not, ◌&&◌, List, [], ◌∷◌, ◌++◌, Option, none, some, ltb, leb,
  ◌==◌, if◌then◌else◌, Bytes, length, take, drop, is_empty, Result, ok, err, panic, be_bytes16,
  be_word16,
}
use tun_flow.Base.Net.{Conn, IoError, Net, chain, ◌>>=◌, ◌>>◌, return, refuse_if, write}
use tun_flow.Netip.{Addr, is_4}
use tun_flow.Obfs.{Answer, fill, read_conn}

pub data Network : Type 0 where
  tcp udp other : Network

pub data AddrType : Type 0 where
  addr_ipv4 addr_ipv6 : AddrType

-- The features of a request that the client adds. The host of an address is the address whose text it is.
pub data Feature : Type 0 where
  network_udp : Feature
  user_auth : Bytes → Bytes → Feature
  address : AddrType → Addr → ℕ → Feature

pub record Request : Type 0 where
  pub is_udp : Bool
  pub features : List Feature

pub record Response : Type 0 where
  pub version : ℕ
  pub status : ℕ

pub data Error : Type 0 where
  io : IoError → Error
  bad_response bad_version bad_status exceeded unsupported not_connected : Error

-- What the package codes: the bytes of a request, the response that a connection brings, and the two
-- constants that a response is compared with.
pub record Coding : Type 0 where
  pub version1 : ℕ
  pub status_ok : ℕ
  pub encode : Request → Bytes
  pub read_response : Net Error Response

-- `Relay`.
pub record Relay : Type 0 where
  pub addr : Bytes
  pub user : Bytes
  pub pass : Bytes
  pub no_delay : Bool

-- The part of `Metadata` that the client reads.
pub record Metadata : Type 0 where
  pub network : Network
  pub dst_ip : Addr
  pub dst_port : ℕ

-- `relayConn`: `responded` is whether `once` has run, and `wbuf` is nil or the request not yet sent.
pub record RelayConn : Type 0 where
  pub conn : Conn
  pub udp : Bool
  pub responded : Bool
  pub wbuf : Option Bytes

-- `newRelayConn`.
abbrev pub new_relay_conn : Conn → Bool → Bool → RelayConn
new_relay_conn c no_delay is_udp = record {
  conn = c;
  udp = is_udp;
  responded = false;
  wbuf = if no_delay then none else some [];
}

abbrev pub on_error : {A : Type 0} → Option IoError → A → Option Error
on_error none a = none
on_error (some e) a = some (io e)

-- The count and the error of a Read or a Write.
abbrev pub Outcome : Type 0
Outcome = (Bytes × Option Error) × RelayConn

abbrev pub Count : Type 0
Count = (ℕ × Option Error) × RelayConn

-- `serializeRelayAddr`.
abbrev pub serialize_relay_addr : Metadata → Feature
serialize_relay_addr m =
    address (if is_4 m.dst_ip then addr_ipv4 else addr_ipv6) m.dst_ip m.dst_port

abbrev network_features : Network → List Feature
network_features tcp = []
network_features udp = network_udp ∷ []
network_features other = []

abbrev is_udp_network : Network → Bool
is_udp_network tcp = false
is_udp_network udp = true
is_udp_network other = false

abbrev auth_features : Relay → List Feature
auth_features rl = if is_empty rl.user then [] else user_auth rl.user rl.pass ∷ []

-- The request of `dialContext`.
unfoldable pub request_of : Relay → Metadata → Request
request_of rl m = record {
  is_udp = is_udp_network m.network;
  features = network_features m.network ++ (auth_features rl ++ serialize_relay_addr m ∷ []);
}

abbrev taken : Answer × Conn → RelayConn → Outcome
taken ((bs, none), c) rc = ((bs, none), record rc { conn = c })
taken ((bs, some e), c) rc = ((bs, some (io e)), record rc { conn = c })

-- A packet longer than the buffer of `size` bytes is read into one of the pool, which held `stale`.
abbrev copied : ℕ → ℕ → Bytes → Answer × Conn → RelayConn → Outcome
copied size len stale ((bs, e), c) rc =
    taken ((take size (bs ++ drop (length bs) (take len stale)), e), c) rc

abbrev word : Bytes → ℕ
word (hi ∷ lo ∷ bs) = be_word16 hi lo
word _ = 0

abbrev read_body : ℕ → ℕ → Bytes → RelayConn → Outcome
read_body size len stale rc =
    if leb len size
    then taken (fill len rc.conn) rc
    else copied size len stale (fill len rc.conn) rc

abbrev headed : ℕ → Bytes → Answer × Conn → RelayConn → Outcome
headed size stale ((bs, none), c) rc = read_body size (word bs) stale (record rc { conn = c })
headed size stale ((bs, some e), c) rc = (([], some (io e)), record rc { conn = c })

-- `Read` behind the response.
unfoldable pub read_open : ℕ → Bytes → RelayConn → Outcome
read_open size stale rc =
    if not rc.udp then taken (read_conn size rc.conn) rc else headed size stale (fill 2 rc.conn) rc

abbrev plain_write : Bytes → Result Error (Unit {0}) × Conn → RelayConn → Count
plain_write b (ok u, c) rc = ((length b, none), record rc { conn = c })
plain_write b (err e, c) rc = ((0, some e), record rc { conn = c })
plain_write b (panic, c) rc = ((0, none), record rc { conn = c })

-- The count is the length of the argument whatever the connection answers, and the buffer is emptied.
abbrev reset_write : Bytes → Result Error (Unit {0}) × Conn → RelayConn → Count
reset_write b (ok u, c) rc = ((length b, none), record rc { conn = c; wbuf = some [] })
reset_write b (err e, c) rc = ((length b, some e), record rc { conn = c; wbuf = some [] })
reset_write b (panic, c) rc = ((length b, none), record rc { conn = c })

-- `bytes.Buffer.WriteTo` keeps what was not written.
abbrev drain_write : Bytes → Bytes → Result Error (Unit {0}) × Conn → RelayConn → Count
drain_write b held (ok u, c) rc = ((length b, none), record rc { conn = c; wbuf = some [] })
drain_write b held (err e, c) rc = ((length b, some e), record rc { conn = c; wbuf = some held })
drain_write b held (panic, c) rc = ((length b, none), record rc { conn = c })

abbrev send : Bytes → Net Error (Unit {0})
send = write io

abbrev tcp_write_with : Option Bytes → Bytes → RelayConn → Count
tcp_write_with none b rc = plain_write b (send b rc.conn) rc
tcp_write_with (some []) b rc = plain_write b (send b rc.conn) rc
tcp_write_with (some (x ∷ xs)) b rc = reset_write b (send (x ∷ xs ++ b) rc.conn) rc

-- `tcpWrite`.
unfoldable pub tcp_write : Bytes → RelayConn → Count
tcp_write b rc = tcp_write_with rc.wbuf b rc

-- The two writes of a packet: the count is the packet's length where the first fails.
abbrev packet_body : Bytes → Result Error (Unit {0}) × Conn → RelayConn → Count
packet_body b (ok u, c) rc = plain_write b (send b c) rc
packet_body b (err e, c) rc = ((length b, some e), record rc { conn = c })
packet_body b (panic, c) rc = ((length b, none), record rc { conn = c })

abbrev udp_write_with : Option Bytes → Bytes → RelayConn → Count
udp_write_with none b rc = packet_body b (send (be_bytes16 (length b)) rc.conn) rc
udp_write_with (some []) b rc = packet_body b (send (be_bytes16 (length b)) rc.conn) rc
udp_write_with (some (x ∷ xs)) b rc =
    let held = x ∷ xs ++ (be_bytes16 (length b) ++ b) in drain_write b held (send held rc.conn) rc

-- `udpWrite`.
unfoldable pub udp_write : Bytes → RelayConn → Count
udp_write b rc =
    if ltb 65535 (length b) then ((0, some exceeded), rc) else udp_write_with rc.wbuf b rc

-- `Write` and `WriteTo`.
unfoldable pub relay_write : Bytes → RelayConn → Count
relay_write b rc = if rc.udp then udp_write b rc else tcp_write b rc

module _ (coding : Coding) where
  -- `readRelayResponse`.
  unfoldable pub read_relay_response : Net Error (Unit {0})
  read_relay_response = do
    resp ← coding.read_response
    refuse_if (not (resp.version == coding.version1)) bad_version
    refuse_if (not (resp.status == coding.status_ok)) bad_status

  abbrev after_response : ℕ → Bytes → Result Error (Unit {0}) × Conn → RelayConn → Outcome
  after_response size stale (ok u, c) rc =
      read_open size stale (record rc { conn = c; responded = true })
  after_response size stale (err e, c) rc = (([], some e), record rc { conn = c; responded = true })
  after_response size stale (panic, c) rc = (([], none), record rc { conn = c; responded = true })

  abbrev awaits_response : Option Bytes → Bool
  awaits_response none = false
  awaits_response (some held) = true

  -- `Read` and `ReadFrom`.
  unfoldable pub relay_read : ℕ → Bytes → RelayConn → Outcome
  relay_read size stale rc =
      if not rc.responded && awaits_response rc.wbuf
      then after_response size stale (read_relay_response rc.conn) rc
      else read_open size stale (record rc { responded = true })

  -- `dialContext` on the connection to the server, with whether it is closed behind it.
  abbrev buffered : Relay → Metadata → Bool → Conn → RelayConn
  buffered rl m is_udp c =
      let rc = new_relay_conn c rl.no_delay is_udp in
      if rl.no_delay then rc else record rc { wbuf = some (coding.encode (request_of rl m)) }

  abbrev by_network : Relay → Metadata → Network → Net Error RelayConn
  by_network rl m tcp c = (ok (buffered rl m false c), c)
  by_network rl m udp c = (ok (buffered rl m true c), c)
  by_network rl m other c = (err unsupported, c)

  abbrev greet : Relay → Metadata → Net Error (Unit {0})
  greet rl m =
      if rl.no_delay
      then (do send (coding.encode (request_of rl m)); read_relay_response)
      else return tt

  abbrev closing : Result Error RelayConn × Conn → Result Error RelayConn × Bool
  closing (ok rc, c) = (ok rc, false)
  closing (err e, c) = (err e, true)
  closing (panic, c) = (panic, false)

  unfoldable pub dial_context : Relay → Metadata → Option Conn → Result Error RelayConn × Bool
  dial_context rl m none = (err not_connected, false)
  dial_context rl m (some c) = closing ((do greet rl m; by_network rl m m.network) c)
