-- ===== src/Socks5.antt =====
-- transport/socks5/socks5.go: the constants, the commands and the errors of the SOCKS5 client.
pub mod Addr
pub mod Handshake
mod Tests
use tun_flow.Base.{ℕ, ◌+◌, Bytes}
use tun_flow.Base.Net.{IoError}

abbrev pub method_no_auth : ℕ
method_no_auth = 0x00

abbrev pub method_user_pass : ℕ
method_user_pass = 0x02

abbrev pub version : ℕ
version = 0x05

abbrev pub atyp_ipv4 : ℕ
atyp_ipv4 = 0x01

abbrev pub atyp_domain_name : ℕ
atyp_domain_name = 0x03

abbrev pub atyp_ipv6 : ℕ
atyp_ipv6 = 0x04

-- net.IPv4len and net.IPv6len.
abbrev pub ipv4_len : ℕ
ipv4_len = 4

abbrev pub ipv6_len : ℕ
ipv6_len = 16

abbrev pub max_addr_len : ℕ
max_addr_len = 1 + 1 + 255 + 2

abbrev pub max_auth_len : ℕ
max_auth_len = 255

pub data Command : Type 0 where
  connect bind udp_associate : Command

-- The byte of a command.
abbrev pub command_byte : Command → ℕ
command_byte connect = 0x01
command_byte bind = 0x02
command_byte udp_associate = 0x03

pub record User : Type 0 where
  pub username : Bytes
  pub password : Bytes

-- `refused` carries the command and the reply code that the message names.
pub data Error : Type 0 where
  invalid_destination version_mismatched auth_required auth_empty auth_too_long : Error
  auth_rejected unsupported_method short_buffer invalid_address_type : Error
  insufficient_length reserved_not_zero fragmented addr_is_nil invalid_address : Error
  refused : Command → ℕ → Error
  io : IoError → Error
