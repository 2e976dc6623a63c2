-- ===== src/Obfs/Tls.antt =====
-- transport/simple-obfs/tls.go: the obfuscation as records of TLS.
pub mod Reading
pub mod Writing
use tun_flow.Base.{
  ℕ, zero, suc, ◌+◌, ◌-◌, ◌*◌, ◌/◌, ◌%◌, ◌^◌, Bool, true, false, List, [], ◌∷◌, ◌++◌, Option, none,
  some, ltb, leb, ◌==◌, if◌then◌else◌, Bytes, length, take, drop, is_empty, Result, ok, err, panic,
  be_bytes16, be_word16,
}
use tun_flow.Base.Net.{Conn, IoError, write}
use tun_flow.Obfs.{Answer, fill, read_conn}

-- `chunkSize`.
abbrev pub chunk_size : ℕ
chunk_size = 16384

-- `TLSObfs`.
pub record TlsObfs : Type 0 where
  pub conn : Conn
  pub server : Bytes
  pub remain : ℕ
  pub first_request : Bool
  pub first_response : Bool

-- `NewTLSObfs`.
abbrev pub new_tls_obfs : Conn → Bytes → TlsObfs
new_tls_obfs conn server = record {
  conn = conn;
  server = server;
  remain = 0;
  first_request = true;
  first_response = true;
}

abbrev on : Answer × Conn → TlsObfs → Answer × TlsObfs
on (a, c) to = (a, record to { conn = c })

-- The payload, into a buffer of `size` bytes.
abbrev short : Answer × Conn → ℕ → TlsObfs → Answer × TlsObfs
short ((bs, none), c) len to = ((bs, none), record to { conn = c; remain = len - length bs })
short ((bs, some e), c) len to = ((bs, some e), record to { conn = c })

unfoldable pub read_payload : ℕ → ℕ → TlsObfs → Answer × TlsObfs
unfolding read_conn fill
read_payload size len to =
    if ltb size len then short (read_conn size to.conn) len to else on (fill len to.conn) to

abbrev word : Bytes → ℕ
word (hi ∷ lo ∷ bs) = be_word16 hi lo
word _ = 0

-- The error of the second `io.ReadFull` is dropped.
abbrev sized : Answer × Conn → ℕ → TlsObfs → Answer × TlsObfs
sized ((bs, none), c) size to = read_payload size (word bs) (record to { conn = c })
sized ((bs, some e), c) size to = (([], none), record to { conn = c })

abbrev discarded : Answer × Conn → ℕ → TlsObfs → Answer × TlsObfs
discarded ((bs, none), c) size to = sized (fill 2 c) size to
discarded ((bs, some e), c) size to = (([], some e), record to { conn = c })

-- `TLSObfs.read` into a buffer of `size` bytes.
unfoldable pub read_record : ℕ → ℕ → TlsObfs → Answer × TlsObfs
read_record size discard_n to = discarded (fill discard_n to.conn) size to

abbrev resumed : Answer × Conn → TlsObfs → Answer × TlsObfs
resumed ((bs, e), c) to = ((bs, e), record to { conn = c; remain = to.remain - length bs })

-- `TLSObfs.Read`.
unfoldable pub read : ℕ → TlsObfs → Answer × TlsObfs
read size to =
    if ltb 0 to.remain
    then resumed (fill (if ltb size to.remain then size else to.remain) to.conn) to
    else if to.first_response
    then read_record size 105 (record to { first_response = false })
    else read_record size 3 to

-- `uint32(n)` as binary.BigEndian writes it.
abbrev be_bytes32 : ℕ → Bytes
be_bytes32 n = n / 16777216 % 256 ∷ n / 65536 % 256 ∷ be_bytes16 n

abbrev pub cipher_suites : Bytes
cipher_suites =
    0xc0 ∷ 0x2c ∷ 0xc0 ∷ 0x30 ∷ 0x00 ∷ 0x9f ∷ 0xcc ∷ 0xa9 ∷ 0xcc ∷ 0xa8 ∷ 0xcc ∷ 0xaa ∷ 0xc0 ∷ 0x2b
    ∷ 0xc0 ∷ 0x2f ∷ 0x00 ∷ 0x9e ∷ 0xc0 ∷ 0x24 ∷ 0xc0 ∷ 0x28 ∷ 0x00 ∷ 0x6b ∷ 0xc0 ∷ 0x23 ∷ 0xc0
    ∷ 0x27 ∷ 0x00 ∷ 0x67 ∷ 0xc0 ∷ 0x0a ∷ 0xc0 ∷ 0x14 ∷ 0x00 ∷ 0x39 ∷ 0xc0 ∷ 0x09 ∷ 0xc0 ∷ 0x13
    ∷ 0x00 ∷ 0x33 ∷ 0x00 ∷ 0x9d ∷ 0x00 ∷ 0x9c ∷ 0x00 ∷ 0x3d ∷ 0x00 ∷ 0x3c ∷ 0x00 ∷ 0x35 ∷ 0x00
    ∷ 0x2f ∷ 0x00 ∷ 0xff ∷ []

-- The point formats and the groups, the signatures, and the two empty extensions at the end.
abbrev fixed_extensions : Bytes
fixed_extensions =
    0x00 ∷ 0x0b ∷ 0x00 ∷ 0x04 ∷ 0x03 ∷ 0x01 ∷ 0x00 ∷ 0x02 ∷ 0x00 ∷ 0x0a ∷ 0x00 ∷ 0x0a ∷ 0x00 ∷ 0x08
    ∷ 0x00 ∷ 0x1d ∷ 0x00 ∷ 0x17 ∷ 0x00 ∷ 0x19 ∷ 0x00 ∷ 0x18 ∷ 0x00 ∷ 0x0d ∷ 0x00 ∷ 0x20 ∷ 0x00
    ∷ 0x1e ∷ 0x06 ∷ 0x01 ∷ 0x06 ∷ 0x02 ∷ 0x06 ∷ 0x03 ∷ 0x05 ∷ 0x01 ∷ 0x05 ∷ 0x02 ∷ 0x05 ∷ 0x03
    ∷ 0x04 ∷ 0x01 ∷ 0x04 ∷ 0x02 ∷ 0x04 ∷ 0x03 ∷ 0x03 ∷ 0x01 ∷ 0x03 ∷ 0x02 ∷ 0x03 ∷ 0x03 ∷ 0x02
    ∷ 0x01 ∷ 0x02 ∷ 0x02 ∷ 0x02 ∷ 0x03 ∷ 0x00 ∷ 0x16 ∷ 0x00 ∷ 0x00 ∷ 0x00 ∷ 0x17 ∷ 0x00 ∷ 0x00 ∷ []

-- What the clock and the random generator give.
pub record Fresh : Type 0 where
  pub now : ℕ
  pub random : Bytes
  pub session_id : Bytes

abbrev pub ticket : Bytes → Bytes
ticket payload = 0x00 ∷ 0x23 ∷ be_bytes16 (length payload) ++ payload

abbrev pub server_name : Bytes → Bytes
server_name server =
    0x00 ∷ 0x00 ∷ be_bytes16 (length server + 5)
    ++ (be_bytes16 (length server + 3) ++ (0x00 ∷ be_bytes16 (length server) ++ server))

abbrev pub extensions : Bytes → Bytes → Bytes
extensions payload server = ticket payload ++ (server_name server ++ fixed_extensions)

-- The cipher suites, the compression and the extensions.
abbrev pub hello_end : Bytes → Bytes → Bytes
hello_end payload server =
    0x00 ∷ 0x38 ∷ cipher_suites
    ++ (0x01 ∷ 0x00 ∷ be_bytes16 (79 + length payload + length server) ++ extensions payload server)

-- The ClientHello behind its length: version, random, session, and the rest.
abbrev pub hello_body : Fresh → Bytes → Bytes → Bytes
hello_body fresh payload server =
    0x03 ∷ 0x03 ∷ be_bytes32 fresh.now
    ++ (fresh.random ++ (32 ∷ fresh.session_id ++ hello_end payload server))

-- `makeClientHelloMsg`.
unfoldable pub make_client_hello_msg : Fresh → Bytes → Bytes → Bytes
make_client_hello_msg fresh payload server =
    22 ∷ 0x03 ∷ 0x01 ∷ be_bytes16 (212 + length payload + length server)
    ++ (1 ∷ 0 ∷ be_bytes16 (208 + length payload + length server)
        ++ hello_body fresh payload server)

-- A record of application data, as `TLSObfs.write` makes it.
abbrev pub framed : Bytes → Bytes
framed bs = 0x17 ∷ 0x03 ∷ 0x03 ∷ be_bytes16 (length bs) ++ bs

-- The count is the length of the argument whatever the connection answers.
abbrev counted : ℕ → Result IoError (Unit {0}) × Conn → TlsObfs → (ℕ × Option IoError) × TlsObfs
counted n (ok u, c) to = ((n, none), record to { conn = c })
counted n (err e, c) to = ((n, some e), record to { conn = c })
counted n (panic, c) to = ((n, none), record to { conn = c })

-- `TLSObfs.write`.
unfoldable pub write_chunk : Fresh → Bytes → TlsObfs → (ℕ × Option IoError) × TlsObfs
write_chunk fresh bs to =
    if to.first_request
    then counted (length bs) (write (λ e. e) (make_client_hello_msg fresh bs to.server) to.conn)
        (record to { first_request = false })
    else counted (length bs) (write (λ e. e) (framed bs) to.conn) to

-- The loop of `TLSObfs.Write`, with the total length and what is not yet written, on fuel.
abbrev continue_with :
    (ℕ × Option IoError) × TlsObfs
    → (TlsObfs → (ℕ × Option IoError) × TlsObfs)
    → (ℕ × Option IoError) × TlsObfs
continue_with ((n, none), to) next = next to
continue_with ((n, some e), to) next = ((n, some e), to)

unfoldable pub write_loop : ℕ → Fresh → ℕ → Bytes → TlsObfs → (ℕ × Option IoError) × TlsObfs
write_loop zero fresh total rest to = ((total, none), to)
write_loop (suc fuel) fresh total rest to =
    if is_empty rest
    then ((total, none), to)
    else continue_with (write_chunk fresh (take chunk_size rest) to)
        (λ to'. write_loop fuel fresh total (drop chunk_size rest) to')

-- `TLSObfs.Write`.
unfoldable pub write_all : Fresh → Bytes → TlsObfs → (ℕ × Option IoError) × TlsObfs
unfolding write_loop
write_all fresh b to = write_loop (length b) fresh (length b) b to
