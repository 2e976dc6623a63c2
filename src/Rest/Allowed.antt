-- ===== src/Rest/Allowed.antt =====
-- Which requests `authenticator` of restapi/server.go lets through.
use tun_flow.Base.{
  ℕ, ◌≡◌, refl, ◌∙◌, ◌⊎◌, ◌↔◌, inl, inr, Bool, true, false, not, ◌&&◌, ◌||◌, [], ◌∷◌, ◌++◌, Option,
  none, some, arith, if◌then◌else◌, Bytes, is_empty, refl,
}
use tun_flow.Base.Text.{
  bytes_eq, bytes_eq_iff, bytes_eq_refl, codes, cut_at, cut_at-append, cut_at-eq,
}
use tun_flow.Rest.{Request, authenticator, first_part, has_token}

-- The header that carries the token.
abbrev pub bearer : Bytes → Bytes
bearer token = codes "Bearer" ++ 32 ∷ token

-- A websocket request that has a token in its query.
abbrev pub asks_by_query : Request → Bool
asks_by_query r = r.is_upgrade && not (is_empty r.query_token)

header_iff :
    (token header : Bytes)
    → (not (
          not (bytes_eq (first_part header (cut_at 32 header)) (codes "Bearer"))
          || not (has_token token (cut_at 32 header)))
        ≡ true)
      ↔ (header ≡ bearer token)
header_iff token header = (to (cut_at 32 header) refl, back)
  where
    to :
        (o : Option (Bytes × Bytes))
        → cut_at 32 header ≡ o
        → not (not (bytes_eq (first_part header o) (codes "Bearer")) || not (has_token token o))
          ≡ true
        → header ≡ bearer token
    to none e h = absurd (ground (arith, h))
    to (some (a, b)) e h =
        let ha : a ≡ codes "Bearer" = (bytes_eq_iff a (codes "Bearer")).0 (ground (arith, h)) in
        let hb : b ≡ token = (bytes_eq_iff b token).0 (ground (arith, h)) in
        cut_at-eq 32 header a b e ∙ rw (ha, hb) refl

    back :
        header ≡ bearer token
        → not (
            not (bytes_eq (first_part header (cut_at 32 header)) (codes "Bearer"))
            || not (has_token token (cut_at 32 header)))
          ≡ true
    back e =
        rw
          (
            e,
            cut_at-append 32 (codes "Bearer") token (ground arith),
            bytes_eq_refl token,
            bytes_eq_refl (codes "Bearer"),
          )
          refl

-- By whether the token is asked for in the query.
asked_iff :
    (b : Bool) (x : ℕ) (token : Bytes) (r : Request)
    → ((if b
          then bytes_eq r.query_token (x ∷ token)
          else not (
              not (bytes_eq (first_part r.header (cut_at 32 r.header)) (codes "Bearer"))
              || not (has_token (x ∷ token) (cut_at 32 r.header))))
        ≡ true)
      ↔ ((◌≡◌ {A = Bytes} (x ∷ token) [])
          ⊎ ((b ≡ true) × (r.query_token ≡ x ∷ token))
          ⊎ ((b ≡ false) × (r.header ≡ bearer (x ∷ token))))
asked_iff true x token r =
    let (to, back) = bytes_eq_iff r.query_token (x ∷ token) in
    (λ h. inr (inl (refl, to h)), λ h. back (query h))
  where
    query :
        (◌≡◌ {A = Bytes} (x ∷ token) [])
          ⊎ ((true ≡ true) × (r.query_token ≡ x ∷ token))
          ⊎ ((true ≡ false) × (r.header ≡ bearer (x ∷ token)))
        → r.query_token ≡ x ∷ token
    query (inl e) = absurd (ground (arith, e))
    query (inr (inl (e, q))) = q
    query (inr (inr (e, q))) = absurd (ground (arith, e))
asked_iff false x token r =
    let (to, back) = header_iff (x ∷ token) r.header in
    (λ h. inr (inr (refl, to h)), λ h. back (header h))
  where
    header :
        (◌≡◌ {A = Bytes} (x ∷ token) [])
          ⊎ ((false ≡ true) × (r.query_token ≡ x ∷ token))
          ⊎ ((false ≡ false) × (r.header ≡ bearer (x ∷ token)))
        → r.header ≡ bearer (x ∷ token)
    header (inl e) = absurd (ground (arith, e))
    header (inr (inl (e, q))) = absurd (ground (arith, e))
    header (inr (inr (e, q))) = q

-- A request is let through exactly where there is no token to ask for, or it is a websocket upgrade with a
-- token in its query that is the token, or it is not such an upgrade and its Authorization header is
-- "Bearer", a space and the token. An upgrade with a wrong token in its query is refused whatever its
-- header says.
pub authenticator_iff :
    (token : Bytes) (r : Request)
    → (authenticator token r ≡ true) ↔ (
        (token ≡ [])
        ⊎ ((asks_by_query r ≡ true) × (r.query_token ≡ token))
        ⊎ ((asks_by_query r ≡ false) × (r.header ≡ bearer token)))
unfolding authenticator
authenticator_iff [] r = (λ h. inl refl, λ h. refl)
authenticator_iff (x ∷ token) r = asked_iff (asks_by_query r) x token r
