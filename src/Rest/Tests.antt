-- ===== src/Rest/Tests.antt =====
-- Concrete requests.
use tun_flow.Base.{◌≡◌, ◌⊎◌, ◌↔◌, refl, true, false, []}
use tun_flow.Base.Text.{codes, cut_at, bytes_eq}
use tun_flow.Rest.{Request, authenticator}
use tun_flow.Rest.Allowed.{asks_by_query, bearer, authenticator_iff}

abbrev upgrade : Request
upgrade = record { is_upgrade = true; query_token = codes "x"; header = codes "Bearer a b" }

-- The header is right, and the query is not.
refused : authenticator (codes "a b") upgrade ≡ false
unfolding authenticator bytes_eq
refused = refl

plain_passes : authenticator (codes "a b") (record upgrade { is_upgrade = false }) ≡ true
unfolding authenticator bytes_eq cut_at
plain_passes = refl

authenticator_iff_example : (authenticator (codes "x") upgrade ≡ true) ↔ (
    (codes "x" ≡ [])
    ⊎ ((asks_by_query upgrade ≡ true) × (upgrade.query_token ≡ codes "x"))
    ⊎ ((asks_by_query upgrade ≡ false) × (upgrade.header ≡ bearer (codes "x"))))
authenticator_iff_example = authenticator_iff (codes "x") upgrade
