-- ===== src/Desktop/Regular/Proxy.antt =====
-- What `normalizeProxy` of desktop/app.go returns.
use tun_flow.Base.{
  ℕ, zero, suc, ◌≡◌, refl, sym, ap, ◌∙◌, inl, inr, true, false, List, [], ◌∷◌, ◌++◌, none, some,
  arith, Bytes, length, drop, is_empty, Bool-cases, ◌≤◌, Option-cases, All, subst, drop-append, ◌↔◌,
}
use tun_flow.Base.Text.{
  codes, trim_space, trim_left, trim_right, is_space, to_lower, has_prefix, contains_text,
}
use tun_flow.Desktop.Regular.{
  normalize_proxy, without_scheme, respell, find_scheme, known_proxy_schemes,
}

-- Trimming what is trimmed.
trim_right_again : (s : Bytes) → trim_right (trim_right s) ≡ trim_right s
unfolding trim_right
trim_right_again [] = refl
trim_right_again (x ∷ xs) = ground (arith, trim_right_again xs)

trim_right_tail : (x : ℕ) (xs : Bytes) → trim_right (x ∷ xs) ≡ x ∷ xs → trim_right xs ≡ xs
unfolding trim_right
trim_right_tail x xs h = ground arith

pub trim_right-append :
    (a b : Bytes) → trim_right a ≡ a → trim_right b ≡ b → trim_right (a ++ b) ≡ a ++ b
unfolding trim_right
trim_right-append [] b ha hb = hb
trim_right-append (x ∷ []) [] ha hb = ha
trim_right-append (x ∷ []) (y ∷ b) ha hb = ground arith
trim_right-append (x ∷ y ∷ a) b ha hb =
    ground (arith, trim_right-append (y ∷ a) b (trim_right_tail x (y ∷ a) ha) hb)

trim_right-drop : (k : ℕ) (s : Bytes) → trim_right s ≡ s → trim_right (drop k s) ≡ drop k s
unfolding trim_right
trim_right-drop zero s h = h
trim_right-drop (suc k) [] h = refl
trim_right-drop (suc k) (x ∷ s) h = trim_right-drop k s (trim_right_tail x s h)

trim_left_again : (s : Bytes) → trim_left (trim_left s) ≡ trim_left s
unfolding trim_left
trim_left_again [] = refl
trim_left_again (x ∷ xs) = ground (arith, trim_left_again xs)

length-trim_left : (s : Bytes) → length (trim_left s) ≤ length s
unfolding trim_left
length-trim_left [] = omega arith
length-trim_left (x ∷ xs) = ground (arith, length-trim_left xs)

trim_left_head : (x : ℕ) (xs : Bytes) → trim_left (x ∷ xs) ≡ x ∷ xs → is_space x ≡ false
unfolding trim_left
trim_left_head x xs h = elim (Bool-cases (is_space x)) [
  | inr e ↦ e
  | inl e ↦ absurd (omega (arith, length-trim_left xs, ap length (bare e)))
]
  where
    bare : is_space x ≡ true → trim_left xs ≡ x ∷ xs
    bare e = ground arith

trim_left-trim_right : (s : Bytes) → trim_left s ≡ s → trim_left (trim_right s) ≡ trim_right s
unfolding trim_left trim_right
trim_left-trim_right [] h = refl
trim_left-trim_right (x ∷ xs) h = let e = trim_left_head x xs h in ground arith

pub trim_space_again : (s : Bytes) → trim_space (trim_space s) ≡ trim_space s
unfolding trim_space
trim_space_again s =
    ap trim_right (trim_left-trim_right (trim_left s) (trim_left_again s))
    ∙ trim_right_again (trim_left s)

-- A trimmed text behind a scheme.
trim_left_end : (s : Bytes) → trim_left (trim_space s) ≡ trim_space s
unfolding trim_space
trim_left_end s = trim_left-trim_right (trim_left s) (trim_left_again s)

pub trim_right_end : (s : Bytes) → trim_right (trim_space s) ≡ trim_space s
unfolding trim_space
trim_right_end s = trim_right_again (trim_left s)

-- What a scheme in front makes of a text that ends trimmed.
abbrev Again : Bytes → Type 0
Again scheme =
    (rest : Bytes) → trim_right rest ≡ rest → normalize_proxy (scheme ++ rest) ≡ scheme ++ rest

trimmed_behind :
    (x : ℕ) (scheme rest : Bytes)
    → is_space x ≡ false
    → trim_right (x ∷ scheme) ≡ x ∷ scheme
    → trim_right rest ≡ rest
    → trim_space (x ∷ scheme ++ rest) ≡ x ∷ scheme ++ rest
unfolding trim_space trim_left
trimmed_behind x scheme rest e hs hr = rw e (trim_right-append (x ∷ scheme) rest hs hr)

scheme-Again :
    (x : ℕ) (scheme : Bytes)
    → is_space x ≡ false
    → trim_right (x ∷ scheme) ≡ x ∷ scheme
    → ((rest : Bytes)
        → find_scheme known_proxy_schemes (to_lower (x ∷ scheme ++ rest)) ≡ some (x ∷ scheme))
    → Again (x ∷ scheme)
unfolding normalize_proxy
scheme-Again x scheme e hs found rest h =
    rw (trimmed_behind x scheme rest e hs h, found rest)
      (ap (◌++◌ (x ∷ scheme)) (drop-append (x ∷ scheme) rest))

known-Again : All Again known_proxy_schemes
unfolding find_scheme has_prefix trim_right
known-Again = (
  scheme-Again _ (drop 1 (codes "socks5h://")) refl refl (λ rest. refl),
  (
    scheme-Again _ (drop 1 (codes "socks5://")) refl refl (λ rest. refl),
    (
      scheme-Again _ (drop 1 (codes "ss://")) refl refl (λ rest. refl),
      (
        scheme-Again _ (drop 1 (codes "http://")) refl refl (λ rest. refl),
        (
          scheme-Again _ (drop 1 (codes "https://")) refl refl (λ rest. refl),
          (scheme-Again _ (drop 1 (codes "ssh://")) refl refl (λ rest. refl), tt),
        ),
      ),
    ),
  ),
)

-- The scheme that is found is one of those that were tried.
found-All :
    (P : Bytes → Type 0) (ps : List Bytes) (s p : Bytes)
    → All P ps
    → find_scheme ps s ≡ some p
    → P p
unfolding find_scheme
found-All P [] s p all h = cc
found-All P (q ∷ ps) s p all h = elim (Bool-cases (has_prefix s q)) [
  | inl e ↦ let same : q ≡ p = ground arith in subst P same all.0
  | inr e ↦ found-All P ps s p all.1 (ground arith)
]

kept_again :
    (p : Bytes)
    → trim_space p ≡ p
    → is_empty p ≡ false
    → find_scheme known_proxy_schemes (to_lower p) ≡ none
    → without_scheme p ≡ p
    → normalize_proxy p ≡ p
unfolding normalize_proxy
kept_again p ts ne f w = rw (ts, ne, f) w

-- With no scheme that is known.
without_again :
    (p : Bytes)
    → trim_space p ≡ p
    → trim_right p ≡ p
    → is_empty p ≡ false
    → find_scheme known_proxy_schemes (to_lower p) ≡ none
    → normalize_proxy (without_scheme p) ≡ without_scheme p
without_again p ts tr ne f = elim (Bool-cases (has_prefix (to_lower p) (codes "s5://"))) [
  | inl s5 ↦ rw s5 (known-Again.1.0 (drop 4 p) (trim_right-drop 4 p tr))
  | inr other ↦ elim (Bool-cases (contains_text p (codes "://"))) [
    | inr bare ↦ rw (other, bare) (known-Again.1.0 p tr)
    | inl full ↦ rw (other, full) (kept_again p ts ne f (rw (other, full) refl))
  ]
]

respell_again :
    (p : Bytes)
    → trim_space p ≡ p
    → trim_right p ≡ p
    → is_empty p ≡ false
    → normalize_proxy (respell (find_scheme known_proxy_schemes (to_lower p)) p)
      ≡ respell (find_scheme known_proxy_schemes (to_lower p)) p
respell_again p ts tr ne = elim (Option-cases (find_scheme known_proxy_schemes (to_lower p))) [
  | inl f ↦ rw f (without_again p ts tr ne f)
  | inr (q, f) ↦ rw f (
      found-All Again known_proxy_schemes (to_lower p) q known-Again f (drop (length q) p)
        (trim_right-drop (length q) p tr))
]

respell_text :
    (p : Bytes)
    → is_empty p ≡ false
    → respell (find_scheme known_proxy_schemes (to_lower p)) p ≡ []
    → p ≡ []
respell_text p h e = elim (Option-cases (find_scheme known_proxy_schemes (to_lower p))) [
  | inl f ↦ bare (sym (ap (λ o. respell o p) f) ∙ e)
  | inr (q, f) ↦
      let some_text =
        found-All (λ s. is_empty s ≡ false) known_proxy_schemes (to_lower p) q full f in
      let no_text = scheme_empty q (sym (ap (λ o. respell o p) f) ∙ e) in cc
]
  where
    bare : without_scheme p ≡ [] → p ≡ []
    bare e = ground arith

    scheme_empty : (q : Bytes) → q ++ drop (length q) p ≡ [] → is_empty q ≡ true
    scheme_empty q h = ground arith

    full : All (λ s. is_empty s ≡ false) known_proxy_schemes
    full = ground arith

blank_text : normalize_proxy [] ≡ []
unfolding normalize_proxy trim_space trim_left trim_right
blank_text = refl

-- `normalizeProxy` of what it returned changes nothing, and it returns the empty text for a text of
-- spaces only.
pub normalize_proxy_again :
    (raw : Bytes)
    → (normalize_proxy (normalize_proxy raw) ≡ normalize_proxy raw)
      × ((normalize_proxy raw ≡ []) ↔ (trim_space raw ≡ []))
unfolding normalize_proxy
normalize_proxy_again raw = elim (Bool-cases (is_empty (trim_space raw))) [
  | inl blank ↦ rw blank (blank_text, ground arith)
  | inr text ↦
      let p = trim_space raw in
      let e = respell_again p (trim_space_again raw) (trim_right_end raw) text in
      rw text (e, (respell_text p text, λ none_left. absurd (ground arith)))
]

-- The scheme s5 of a trimmed address is cut a byte too early: a third slash is left, and the host of
-- the address that is returned is empty.
pub normalize_proxy-s5 :
    (rest : Bytes)
    → trim_right rest ≡ rest
    → normalize_proxy (codes "s5://" ++ rest) ≡ codes "socks5:///" ++ rest
unfolding normalize_proxy find_scheme has_prefix trim_right
normalize_proxy-s5 rest h = rw (trimmed_behind _ (drop 1 (codes "s5://")) rest refl refl h) refl
