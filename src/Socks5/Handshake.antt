-- ===== src/Socks5/Handshake.antt =====
-- `ClientHandshake` and `ReadAddr` over a connection: what is written, what is read, and every
-- early return.
pub mod Reading
mod Reads
pub mod Success
pub mod Traffic
use tun_flow.Base.{
  ℕ, ◌+◌, ◌-◌, ◌%◌, Bool, true, false, not, ◌&&◌, ◌||◌, List, [], ◌∷◌, ◌++◌, Option, none, some,
  ltb, leb, ◌==◌, if◌then◌else◌, Bytes, length, Result, ok, err, panic, index,
}
use tun_flow.Base.Net.{Net, ◌>>=◌, ◌>>◌, return, fail, refuse_if, lift, read_full, write}
use tun_flow.Socks5.Addr.{valid}
use tun_flow.Socks5.{
  Error, User, Command, command_byte, version, method_no_auth, method_user_pass, atyp_ipv4,
  atyp_domain_name, atyp_ipv6, ipv4_len, ipv6_len, max_addr_len, max_auth_len, invalid_destination,
  version_mismatched, auth_required, auth_empty, auth_too_long, auth_rejected, unsupported_method,
  short_buffer, invalid_address_type, refused, io,
}

-- `io.ReadFull(r, b[lo:hi])` of a buffer of `size` bytes.
unfoldable pub read_into : ℕ → ℕ → ℕ → Net Error Bytes
read_into size lo hi = if leb lo hi && leb hi size then read_full io (hi - lo) else lift panic

-- The domain branch of `ReadAddr`.
unfoldable pub read_domain : ℕ → Net Error Bytes
read_domain size = do
  length_byte ← read_into size 1 2
  n ← lift (index length_byte 0)
  body ← read_into size 2 (2 + n + 2)
  return (atyp_domain_name ∷ n ∷ body)

-- A branch of `ReadAddr` for an IP of n bytes.
unfoldable pub read_ip : ℕ → ℕ → ℕ → Net Error Bytes
read_ip size t n = do body ← read_into size 1 (1 + n + 2); return (t ∷ body)

-- `ReadAddr` into a buffer of `size` bytes.
unfoldable pub read_addr : ℕ → Net Error Bytes
read_addr size = do
  refuse_if (ltb size max_addr_len) short_buffer
  head ← read_into size 0 1
  t ← lift (index head 0)
  if t == atyp_domain_name
      then read_domain size
      else if t == atyp_ipv4
      then read_ip size t ipv4_len
      else if t == atyp_ipv6
      then read_ip size t ipv6_len
      else fail invalid_address_type

-- The method that the greeting offers.
abbrev pub method_of : Option User → ℕ
method_of none = method_no_auth
method_of (some u) = method_user_pass

abbrev pub greeting : Option User → Bytes
greeting user = version ∷ 0x01 ∷ method_of user ∷ []

-- The username/password message of RFC 1929.
abbrev pub auth_message : User → Bytes
auth_message u =
    0x01 ∷ length u.username % 256 ∷ (u.username ++ length u.password % 256 ∷ u.password)

abbrev pub request : Command → Bytes → Bytes
request command addr = version ∷ command_byte command ∷ 0x00 ∷ addr

-- The username/password subnegotiation.
unfoldable pub subnegotiate : User → Net Error (Unit {0})
subnegotiate u = do
  refuse_if (length u.username == 0 || length u.password == 0) auth_empty
  refuse_if (ltb max_auth_len (length u.username) || ltb max_auth_len (length u.password))
      auth_too_long
  write io (auth_message u)
  status ← read_full io 2
  code ← lift (index status 1)
  refuse_if (not (code == 0)) auth_rejected

unfoldable pub with_user : Option User → Net Error (Unit {0})
with_user none = fail auth_required
with_user (some u) = subnegotiate u

-- The branch on the method that the server chose.
unfoldable pub authenticate : Option User → ℕ → Net Error (Unit {0})
authenticate user chosen =
    if chosen == method_user_pass
    then with_user user
    else refuse_if (not (chosen == method_no_auth)) unsupported_method

-- The greeting and the choice of a method.
unfoldable pub negotiate : Option User → Net Error (Unit {0})
negotiate user = do
  write io (greeting user)
  chosen ← read_full io 2
  ver ← lift (index chosen 0)
  refuse_if (not (ver == version)) version_mismatched
  method ← lift (index chosen 1)
  authenticate user method

-- The request and its reply.
unfoldable pub send_request : Bytes → Command → Net Error Bytes
send_request addr command = do
  write io (request command addr)
  reply ← read_full io 3
  rep ← lift (index reply 1)
  refuse_if (not (rep == 0)) (refused command rep)
  read_addr max_addr_len

-- `ClientHandshake`.
unfoldable pub client_handshake : Bytes → Command → Option User → Net Error Bytes
client_handshake addr command user = do
  v ← lift (valid addr)
  refuse_if (not v) invalid_destination
  negotiate user
  send_request addr command
