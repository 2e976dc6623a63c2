-- ===== src/Obfs/Http.antt =====
-- transport/simple-obfs/http.go: the obfuscation as an HTTP upgrade.
use tun_flow.Base.{
  ℕ, suc, ◌+◌, ◌-◌, Bool, true, false, [], ◌∷◌, ◌++◌, Option, none, some, ltb, ◌==◌, if◌then◌else◌,
  Bytes, length, take, drop, is_empty, Result, ok, err, panic,
}
use tun_flow.Base.Net.{Conn, IoError, eof, write}
use tun_flow.Base.Text.{codes, has_prefix, bytes_eq}
use tun_flow.Obfs.{Answer, read_conn}

-- `HTTPObfs`: `buf` is nil or the bytes read, of which those from `offset` on are not yet delivered.
pub record HttpObfs : Type 0 where
  pub conn : Conn
  pub host : Bytes
  pub port : Bytes
  pub buf : Option Bytes
  pub offset : ℕ
  pub first_request : Bool
  pub first_response : Bool

-- `NewHTTPObfs`.
abbrev pub new_http_obfs : Conn → Bytes → Bytes → HttpObfs
new_http_obfs conn host port = record {
  conn = conn;
  host = host;
  port = port;
  buf = none;
  offset = 0;
  first_request = true;
  first_response = true;
}

-- `buffer.RelayBufferSize`.
abbrev relay_buffer_size : ℕ
relay_buffer_size = 20480

-- The blank line that ends an HTTP header.
abbrev pub blank_line : Bytes
blank_line = 13 ∷ 10 ∷ 13 ∷ 10 ∷ []

-- `bytes.Index`.
abbrev later : Option ℕ → Option ℕ
later none = none
later (some i) = some (suc i)

unfoldable pub index_of : Bytes → Bytes → Option ℕ
unfolding has_prefix
index_of [] sep = if is_empty sep then some 0 else none
index_of (c ∷ cs) sep = if has_prefix (c ∷ cs) sep then some 0 else later (index_of cs sep)

-- A read from `buf`, into a buffer of `size` bytes.
abbrev from_buf : ℕ → Bytes → HttpObfs → Answer × HttpObfs
from_buf size held ho =
    let bs = take size (drop ho.offset held) in
    let offset = ho.offset + length bs in
    (
      (bs, none),
      record ho { offset = offset; buf = if offset == length held then none else some held },
    )

-- What follows the header of the first response.
abbrev after_header : ℕ → Bytes → ℕ → HttpObfs → Answer × HttpObfs
after_header size got idx ho =
    let bs = take size (drop (idx + 4) got) in
    let ho' = record ho { first_response = false } in
    (
      (bs, none),
      if ltb (length bs) (length got - (idx + 4))
          then record ho' { buf = some got; offset = idx + 4 + length bs }
          else ho',
    )

abbrev at_header : ℕ → Bytes → Option ℕ → HttpObfs → Answer × HttpObfs
at_header size got none ho = (([], some eof), ho)
at_header size got (some idx) ho = after_header size got idx ho

abbrev first_read : ℕ → Answer × Conn → HttpObfs → Answer × HttpObfs
first_read size ((got, none), c) ho =
    at_header size got (index_of got blank_line) (record ho { conn = c })
first_read size ((got, some e), c) ho = (([], some e), record ho { conn = c })

abbrev plain_read : Answer × Conn → HttpObfs → Answer × HttpObfs
plain_read (a, c) ho = (a, record ho { conn = c })

abbrev read_with : ℕ → Option Bytes → HttpObfs → Answer × HttpObfs
read_with size (some held) ho = from_buf size held ho
read_with size none ho =
    if ho.first_response
    then first_read size (read_conn relay_buffer_size ho.conn) ho
    else plain_read (read_conn size ho.conn) ho

-- `HTTPObfs.Read`.
unfoldable pub read : ℕ → HttpObfs → Answer × HttpObfs
read size ho = read_with size ho.buf ho

-- `req.Host`.
abbrev request_host : HttpObfs → Bytes
request_host ho = if bytes_eq ho.port (codes "80") then ho.host else ho.host ++ b':' ∷ ho.port

abbrev written : ℕ → Result IoError (Unit {0}) × Conn → HttpObfs → (ℕ × Option IoError) × HttpObfs
written n (ok u, c) ho = ((n, none), record ho { conn = c })
written n (err e, c) ho = ((n, some e), record ho { conn = c })
written n (panic, c) ho = ((n, none), record ho { conn = c })

-- `HTTPObfs.Write`, with the text of an upgrade request of net/http for a host and a body.
unfoldable pub write_all :
    (request : Bytes → Bytes → Bytes) → Bytes → HttpObfs → (ℕ × Option IoError) × HttpObfs
write_all request b ho =
    if ho.first_request
    then written (length b) (write (λ e. e) (request (request_host ho) b) ho.conn)
        (record ho { first_request = false })
    else written (length b) (write (λ e. e) b ho.conn) ho
