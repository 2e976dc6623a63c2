-- ===== src/Socks5/Handshake/Reading.antt =====
-- `ReadAddr` reads exactly one address.
use tun_flow.Base.{ℕ, ◌+◌, ◌-◌, ◌≤◌, ◌<◌, ◌≡◌, [], ◌∷◌, ◌++◌, arith, Bytes, length, All, ok}
use tun_flow.Base.Net.{Conn, read_full-append}
use tun_flow.Socks5.Addr.Format.{IsAddr, domain_form, ipv4_form, ipv6_form}
use tun_flow.Socks5.{io, max_addr_len}
use tun_flow.Socks5.Handshake.{read_into, read_domain, read_ip, read_addr}

read_into-append :
    (size lo hi : ℕ) (bs rest : Bytes) (c : Conn)
    → lo ≤ hi
    → hi ≤ size
    → hi - lo ≡ length bs
    → c.input ≡ bs ++ rest
    → read_into size lo hi c ≡ (ok bs, record c { input = rest })
unfolding read_into
read_into-append size lo hi bs rest c h k e i =
    ground (arith, read_full-append io (hi - lo) bs rest c)

read_ip-append :
    (t n : ℕ) (r rest : Bytes) (c : Conn)
    → n ≤ 16
    → length r ≡ n + 2
    → c.input ≡ r ++ rest
    → read_ip max_addr_len t n c ≡ (ok (t ∷ r), record c { input = rest })
unfolding read_ip
read_ip-append t n r rest c h e i =
    ground (arith, read_into-append max_addr_len 1 (1 + n + 2) r rest c)

read_domain-append :
    (n : ℕ) (r rest : Bytes) (c : Conn)
    → n < 256
    → length r ≡ n + 2
    → c.input ≡ n ∷ (r ++ rest)
    → read_domain max_addr_len c ≡ (ok (3 ∷ n ∷ r), record c { input = rest })
unfolding read_domain
read_domain-append n r rest c h e i = ground (
  arith,
  read_into-append max_addr_len 1 2 (n ∷ []) (r ++ rest) c,
  read_into-append max_addr_len 2 (2 + n + 2) r rest (record c { input = r ++ rest }),
)

-- Where the address a (of byte values) stands at the head of what the peer sends, `ReadAddr` returns
-- it and leaves what follows.
pub read_addr-append :
    {a : Bytes} (rest : Bytes) (c : Conn)
    → IsAddr a
    → All (λ b. b < 256) a
    → c.input ≡ a ++ rest
    → read_addr max_addr_len c ≡ (ok a, record c { input = rest })
unfolding read_addr
read_addr-append rest c (domain_form n r e) small i = ground (
  arith,
  read_into-append max_addr_len 0 1 (3 ∷ []) (n ∷ (r ++ rest)) c,
  read_domain-append n r rest (record c { input = n ∷ (r ++ rest) }),
)
read_addr-append rest c (ipv4_form r e) small i = ground (
  arith,
  read_into-append max_addr_len 0 1 (1 ∷ []) (r ++ rest) c,
  read_ip-append 1 4 r rest (record c { input = r ++ rest }),
)
read_addr-append rest c (ipv6_form r e) small i = ground (
  arith,
  read_into-append max_addr_len 0 1 (4 ∷ []) (r ++ rest) c,
  read_ip-append 4 16 r rest (record c { input = r ++ rest }),
)
