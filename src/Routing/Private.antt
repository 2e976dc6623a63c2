-- ===== src/Routing/Private.antt =====
-- `isPrivate` against the published address ranges.
use tun_flow.Base.{ℕ, ◌+◌, ◌*◌, ◌^◌, ◌≤◌, ◌<◌, ◌≡◌, ◌↔◌, ◌⊎◌, true, arith}
use tun_flow.Netip.{v4, is_private_net, is_loopback, is_link_local_unicast, is_link_local_multicast}
use tun_flow.Routing.{is_private, is_carrier_grade}

-- An IPv4 address from its four bytes.
abbrev pub quad : ℕ → ℕ → ℕ → ℕ → ℕ
quad a b c d = ((a * 256 + b) * 256 + c) * 256 + d

-- 10/8, 100.64/10, 127/8, 169.254/16, 172.16/12, 192.168/16 and 224.0.0/24, by their ends.
abbrev pub PrivateV4 : ℕ → Type 0
PrivateV4 n =
    ((quad 10 0 0 0 ≤ n) × (n ≤ quad 10 255 255 255))
    ⊎ (((quad 100 64 0 0 ≤ n) × (n ≤ quad 100 127 255 255))
        ⊎ (((quad 127 0 0 0 ≤ n) × (n ≤ quad 127 255 255 255))
            ⊎ (((quad 169 254 0 0 ≤ n) × (n ≤ quad 169 254 255 255))
                ⊎ (((quad 172 16 0 0 ≤ n) × (n ≤ quad 172 31 255 255))
                    ⊎ (((quad 192 168 0 0 ≤ n) × (n ≤ quad 192 168 255 255))
                        ⊎ ((quad 224 0 0 0 ≤ n) × (n ≤ quad 224 0 0 255)))))))

-- `isPrivate` holds of an IPv4 address exactly when it lies in one of the private, carrier-grade,
-- loopback, link-local and local multicast ranges of IPv4.
pub is_private-v4_iff : (n : ℕ) → n < 2 ^ 32 → (is_private (v4 n) ≡ true) ↔ PrivateV4 n
unfolding is_private is_private_net is_loopback is_link_local_unicast is_link_local_multicast
    is_carrier_grade
is_private-v4_iff n h = (λ p. ground arith, λ r. ground arith)
