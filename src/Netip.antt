-- ===== src/Netip.antt =====
-- The parts of Go's net/netip that the program uses: addresses without zones as numbers, prefixes,
-- and the conversions between addresses and bytes.
pub mod Laws
use tun_flow.Base.{
  ℕ, zero, suc, ◌+◌, ◌-◌, ◌*◌, ◌/◌, ◌%◌, ◌^◌, Bool, true, false, List, [], ◌∷◌, ◌++◌, Option, none,
  some, leb, ◌==◌, if◌then◌else◌, Bytes, length, ◌&&◌, ◌||◌, ◌<◌,
}

-- The zero Addr, an IPv4 address below 2 ^ 32, an IPv6 address below 2 ^ 128.
pub data Addr : Type 0 where
  no_addr : Addr
  v4 v6 : ℕ → Addr

abbrev pub is_valid : Addr → Bool
is_valid no_addr = false
is_valid (v4 n) = true
is_valid (v6 n) = true

abbrev pub is_4 : Addr → Bool
is_4 (v4 n) = true
is_4 no_addr = false
is_4 (v6 n) = false

abbrev pub is_6 : Addr → Bool
is_6 (v6 n) = true
is_6 no_addr = false
is_6 (v4 n) = false

-- ::ffff:0:0/96.
abbrev pub is_4_in_6 : Addr → Bool
is_4_in_6 (v6 n) = n / 2 ^ 32 == 0xffff
is_4_in_6 no_addr = false
is_4_in_6 (v4 n) = false

abbrev pub unmap : Addr → Addr
unmap no_addr = no_addr
unmap (v4 n) = v4 n
unmap (v6 n) = if n / 2 ^ 32 == 0xffff then v4 (n % 2 ^ 32) else v6 n

-- The k low bytes of n, most significant first.
pub be_bytes : ℕ → ℕ → Bytes
be_bytes zero n = []
be_bytes (suc k) n = be_bytes k (n / 256) ++ n % 256 ∷ []

pub be_value : ℕ → Bytes → ℕ
be_value acc [] = acc
be_value acc (b ∷ bs) = be_value (acc * 256 + b) bs

unfoldable pub as_slice : Addr → Bytes
unfolding be_bytes
as_slice no_addr = []
as_slice (v4 n) = be_bytes 4 n
as_slice (v6 n) = be_bytes 16 n

-- AddrFromSlice: the zero Addr for any other length than 4 and 16.
unfoldable pub addr_from_slice : Bytes → Addr
unfolding be_value
addr_from_slice b =
    if length b == 4
    then v4 (be_value 0 b)
    else if length b == 16
    then v6 (be_value 0 b)
    else no_addr

abbrev pub bit_len : Addr → ℕ
bit_len no_addr = 0
bit_len (v4 n) = 32
bit_len (v6 n) = 128

-- `bits` is none in an invalid prefix.
pub record Prefix : Type 0 where
  pub addr : Addr
  pub bits : Option ℕ

-- PrefixFrom: a length that does not fit the address gives an invalid prefix.
abbrev pub prefix_from : Addr → ℕ → Prefix
prefix_from a n = record {
  addr = a;
  bits = if is_valid a && leb n (bit_len a) then some n else none;
}

-- The address shares the first `n` of its w bits with the prefix.
abbrev same_bits : ℕ → ℕ → ℕ → ℕ → Bool
same_bits w n p a = a / 2 ^ (w - n) == p / 2 ^ (w - n)

abbrev contains_bits : Addr → ℕ → Addr → Bool
contains_bits (v4 p) n (v4 a) = same_bits 32 n p a
contains_bits (v6 p) n (v6 a) = same_bits 128 n p a
contains_bits _ n _ = false

abbrev contains_if : Addr → Option ℕ → Addr → Bool
contains_if p none a = false
contains_if p (some n) a = contains_bits p n a

-- Prefix.Contains: an address of the other family is never inside, nor any in an invalid prefix.
unfoldable pub contains : Prefix → Addr → Bool
contains p a = contains_if p.addr p.bits a

-- Addr.IsPrivate, IsLoopback, IsLinkLocalUnicast and IsLinkLocalMulticast of an unmapped address.
unfoldable pub is_private_net : Addr → Bool
is_private_net no_addr = false
is_private_net (v4 n) =
    n / 2 ^ 24 == 10 || n / 2 ^ 20 == 172 * 16 + 1 || n / 2 ^ 16 == 192 * 256 + 168
is_private_net (v6 n) = n / 2 ^ 121 == 0xfc / 2

unfoldable pub is_loopback : Addr → Bool
is_loopback no_addr = false
is_loopback (v4 n) = n / 2 ^ 24 == 127
is_loopback (v6 n) = n == 1

unfoldable pub is_link_local_unicast : Addr → Bool
is_link_local_unicast no_addr = false
is_link_local_unicast (v4 n) = n / 2 ^ 16 == 169 * 256 + 254
is_link_local_unicast (v6 n) = n / 2 ^ 118 == 0xfe80 / 2 ^ 6

-- For IPv6 the flags nibble of the second byte is not looked at (`& 0xff0f`).
unfoldable pub is_link_local_multicast : Addr → Bool
is_link_local_multicast no_addr = false
is_link_local_multicast (v4 n) = n / 2 ^ 8 == 224 * 2 ^ 16
is_link_local_multicast (v6 n) = n / 2 ^ 120 == 0xff && n / 2 ^ 112 % 16 == 2

-- The number fits its family.
abbrev pub InRange : Addr → Type 0
InRange no_addr = Unit {0}
InRange (v4 n) = n < 2 ^ 32
InRange (v6 n) = n < 2 ^ 128
