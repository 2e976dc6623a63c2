-- ===== src/Desktop/Windows/Text.antt =====
-- The texts of desktop/platform_windows.go: quoting for PowerShell, and strings.Split, strings.Fields
-- and strings.Join.
use tun_flow.Base.{
  ℕ, ◌≡◌, refl, Bool, true, false, List, [], ◌∷◌, ◌++◌, ◌==◌, if◌then◌else◌, Bytes, is_empty, All,
}
use tun_flow.Base.Text.{is_space, split_by}

-- The apostrophes doubled.
unfoldable pub doubled : Bytes → Bytes
doubled [] = []
doubled (c ∷ cs) = let rest = doubled cs in if c == 39 then 39 ∷ 39 ∷ rest else c ∷ rest

-- `psQuote`.
unfoldable pub ps_quote : Bytes → Bytes
unfolding doubled
ps_quote value = 39 ∷ doubled value ++ 39 ∷ []

abbrev without_empty : List Bytes → List Bytes
without_empty [] = []
without_empty (w ∷ ws) = if is_empty w then without_empty ws else w ∷ without_empty ws

-- strings.Fields.
unfoldable pub fields : Bytes → List Bytes
unfolding split_by
fields s = without_empty (split_by is_space s)

-- strings.Join with a space.
abbrev pub join_words : List Bytes → Bytes
join_words [] = []
join_words (w ∷ []) = w
join_words (w ∷ v ∷ ws) = w ++ 32 ∷ join_words (v ∷ ws)

pub split_by-piece :
    (p : ℕ → Bool) (w : Bytes) (c : ℕ) (rest : Bytes)
    → All (λ x. p x ≡ false) w
    → p c ≡ true
    → split_by p (w ++ c ∷ rest) ≡ w ∷ split_by p rest
unfolding split_by
split_by-piece p [] c rest h e = rw e refl
split_by-piece p (x ∷ w) c rest h e = rw (h.0, split_by-piece p w c rest h.1 e) refl

pub split_by-last : (p : ℕ → Bool) (w : Bytes) → All (λ x. p x ≡ false) w → split_by p w ≡ w ∷ []
unfolding split_by
split_by-last p [] h = refl
split_by-last p (x ∷ w) h = rw (h.0, split_by-last p w h.1) refl
