-- ===== src/Socks5/Handshake/Reads.antt =====
-- `ReadAddr` whatever the peer sends.
use tun_flow.Base.{
  ℕ, ◌+◌, ◌-◌, ◌≤◌, ◌≡◌, ◌∙◌, if◌then◌else◌, ◌&&◌, ◌∷◌, arith, Bytes, length, leb, Bool-cases, inl,
  inr, index, ◌==◌,
}
use tun_flow.Base.Net.{Conn, lift, fail, return}
use tun_flow.Base.Net.Steps.{
  AllBytes, At, At-eq, Ends, value, error, >>=-Ends, read_full-Ends, index-Ends,
}
use tun_flow.Socks5.Addr.Format.{IsAddr, domain_form, ipv4_form, ipv6_form}
use tun_flow.Socks5.{io, invalid_address_type, max_addr_len}
use tun_flow.Socks5.Handshake.{read_into, read_domain, read_ip, read_addr}

module _ {T : Bytes → Type 0} (o sent : Bytes) (t : T sent) where
  read_into-Ends :
      (lo hi : ℕ) (c : Conn)
      → lo ≤ hi
      → hi ≤ max_addr_len
      → At o sent c
      → Ends T
          (λ bs s. (s ≡ sent) × (length bs ≡ hi - lo) × AllBytes bs)
          o
          (read_into max_addr_len lo hi c)
  unfolding read_into
  read_into-Ends lo hi c h k at_o = elim (Bool-cases (leb lo hi && leb hi max_addr_len)) [
    | inl fits ↦ rw fits (read_full-Ends io o sent (hi - lo) c t at_o)
    | inr past ↦ absurd (ground arith)
  ]

  read_ip-Ends :
      (a n : ℕ) (c : Conn)
      → n ≤ 16
      → ((r : Bytes) → length r ≡ n + 2 → IsAddr (a ∷ r))
      → At o sent c
      → Ends T (λ b s. (s ≡ sent) × IsAddr b) o (read_ip max_addr_len a n c)
  unfolding read_ip
  read_ip-Ends a n c h form at_o =
      >>=-Ends o (read_into max_addr_len 1 (1 + n + 2)) (λ body. return (a ∷ body)) c
        (read_into-Ends 1 (1 + n + 2) c (omega arith) (omega arith) at_o)
        λ body s c' got at_s. value (got.0, form body (omega (arith, got.1))) at_s

  read_domain-Ends :
      (c : Conn)
      → At o sent c
      → Ends T (λ b s. (s ≡ sent) × IsAddr b) o (read_domain max_addr_len c)
  unfolding read_domain
  read_domain-Ends c at_o =
      >>=-Ends o (read_into max_addr_len 1 2) _ c
        (read_into-Ends 1 2 c (omega arith) (omega arith) at_o)
        λ bs s1 c1 got1 at1.
          >>=-Ends o (lift (index bs 0)) _ c1
            (index-Ends {T = T} o s1 bs 0 c1 (omega (arith, got1.1)) got1.2 at1)
            λ n s2 c2 got2 at2.
              >>=-Ends o (read_into max_addr_len 2 (2 + n + 2)) _ c2
                (read_into-Ends 2 (2 + n + 2) c2 (omega arith) (omega (arith, got2.1))
                  (At-eq (got2.0 ∙ got1.0) at2))
                λ body s3 c3 got3 at3.
                  value (got3.0, domain_form n body (omega (arith, got3.1))) at3

  -- `ReadAddr` writes nothing and does not panic, and what it returns has the form of an address.
  pub read_addr-Ends :
      (c : Conn) → At o sent c → Ends T (λ b s. (s ≡ sent) × IsAddr b) o (read_addr max_addr_len c)
  unfolding read_addr
  read_addr-Ends c at_o =
      >>=-Ends o (read_into max_addr_len 0 1) _ c
        (read_into-Ends 0 1 c (omega arith) (omega arith) at_o)
        λ bs s1 c1 got1 at1.
          >>=-Ends o (lift (index bs 0)) _ c1
            (index-Ends {T = T} o s1 bs 0 c1 (omega (arith, got1.1)) got1.2 at1)
            λ a s2 c2 got2 at2. branch a c2 (At-eq (got2.0 ∙ got1.0) at2)
    where
      branch :
          (a : ℕ) (c' : Conn)
          → At o sent c'
          → Ends T
              (λ b s. (s ≡ sent) × IsAddr b)
              o
              ((if a == 3
                  then read_domain max_addr_len
                  else if a == 1
                  then read_ip max_addr_len a 4
                  else if a == 4
                  then read_ip max_addr_len a 16
                  else fail invalid_address_type)
                c')
      branch a c' at_c = elim (Bool-cases (a == 3)) [
        | inl domain ↦ rw domain (read_domain-Ends c' at_c)
        | inr other ↦ elim (Bool-cases (a == 1)) [
          | inl four ↦
              let is_1 : a ≡ 1 = ground arith in
              rw (other, four)
                (read_ip-Ends a 4 c' (omega arith) (λ r e. rw is_1 (ipv4_form r e)) at_c)
          | inr not_4 ↦ elim (Bool-cases (a == 4)) [
            | inl six ↦
                let is_4 : a ≡ 4 = ground arith in
                rw (other, not_4, six)
                  (read_ip-Ends a 16 c' (omega arith) (λ r e. rw is_4 (ipv6_form r e)) at_c)
            | inr unknown ↦ rw (other, not_4, unknown) (error t at_c)
          ]
        ]
      ]
