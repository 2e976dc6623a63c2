-- ===== src/Base/Text.antt =====
-- The functions of Go's strings package that the program uses, over bytes. Bytes from 128 on are
-- neither spaces nor letters here: the Unicode cases of TrimSpace and ToLower are left out.
use Prim.Native.Char.{code}
use Prim.Native.String.{String}
use tun_flow.Base.{
  ℕ, ◌+◌, ◌≡◌, ◌↔◌, refl, Bool, true, false, ◌&&◌, ◌||◌, [], ◌∷◌, map, arith, leb, ◌==◌,
  if◌then◌else◌, Bytes, is_empty, List, Option, none, some, ◌++◌, All, Bool-cases, inl, inr, ap,
}

-- The bytes of an ASCII literal.
abbrev pub codes : String → Bytes
codes String.[] = []
codes (String.◌∷◌ c s) = code c ∷ codes s

unfoldable pub bytes_eq : Bytes → Bytes → Bool
bytes_eq [] [] = true
bytes_eq (x ∷ xs) (y ∷ ys) = x == y && bytes_eq xs ys
bytes_eq _ _ = false

pub bytes_eq_iff : (a b : Bytes) → (bytes_eq a b ≡ true) ↔ (a ≡ b)
unfolding bytes_eq
bytes_eq_iff (x ∷ a) (y ∷ b) = ground (arith, bytes_eq_iff a b)
bytes_eq_iff _ _ = ground arith

pub bytes_eq_refl : (a : Bytes) → bytes_eq a a ≡ true
bytes_eq_refl a = (bytes_eq_iff a a).1 refl

-- Tab to carriage return, and the space.
abbrev pub is_space : ℕ → Bool
is_space c = c == 32 || leb 9 c && leb c 13

unfoldable pub trim_left : Bytes → Bytes
trim_left [] = []
trim_left (x ∷ xs) = if is_space x then trim_left xs else x ∷ xs

unfoldable pub trim_right : Bytes → Bytes
trim_right [] = []
trim_right (x ∷ xs) = let r = trim_right xs in if is_empty r && is_space x then [] else x ∷ r

-- strings.TrimSpace.
unfoldable pub trim_space : Bytes → Bytes
unfolding trim_left trim_right
trim_space s = trim_right (trim_left s)

abbrev pub lower : ℕ → ℕ
lower c = if leb b'A' c && leb c b'Z' then c + 32 else c

-- strings.ToLower.
abbrev pub to_lower : Bytes → Bytes
to_lower = map lower

-- strings.HasPrefix.
unfoldable pub has_prefix : Bytes → Bytes → Bool
has_prefix s [] = true
has_prefix [] (p ∷ ps) = false
has_prefix (c ∷ cs) (p ∷ ps) = c == p && has_prefix cs ps

-- strings.Contains.
unfoldable pub contains_text : Bytes → Bytes → Bool
unfolding has_prefix
contains_text [] sub = is_empty sub
contains_text (c ∷ cs) sub = has_prefix (c ∷ cs) sub || contains_text cs sub

abbrev add_front : ℕ → List Bytes → List Bytes
add_front c [] = (c ∷ []) ∷ []
add_front c (w ∷ ws) = (c ∷ w) ∷ ws

-- The pieces between the bytes that p picks, empty ones included: strings.Split by one byte.
unfoldable pub split_by : (ℕ → Bool) → Bytes → List Bytes
split_by p [] = [] ∷ []
split_by p (c ∷ cs) = if p c then [] ∷ split_by p cs else add_front c (split_by p cs)

-- strings.SplitN into two by one byte, where it is found.
unfoldable pub cut_at : ℕ → Bytes → Option (Bytes × Bytes)
cut_at sep [] = none
cut_at sep (c ∷ cs) =
    let rest = cut_at sep cs in
    if c == sep then some ([], cs) else elim rest [ none ↦ none | some (a, b) ↦ some (c ∷ a, b) ]

pub cut_at-append :
    (sep : ℕ) (a b : Bytes)
    → All (λ c. (c == sep) ≡ false) a
    → cut_at sep (a ++ sep ∷ b) ≡ some (a, b)
unfolding cut_at
cut_at-append sep [] b h = ground arith
cut_at-append sep (c ∷ a) b h = let ih = cut_at-append sep a b h.1 in ground (arith, ih, h.0)

pub cut_at-eq : (sep : ℕ) (s a b : Bytes) → cut_at sep s ≡ some (a, b) → s ≡ a ++ sep ∷ b
unfolding cut_at
cut_at-eq sep [] a b h = cc
cut_at-eq sep (c ∷ cs) a b h = elim (Bool-cases (c == sep)) [
  | inl e ↦ ground (arith, e, h)
  | inr e ↦ later (cut_at sep cs) refl e (λ x y k. cut_at-eq sep cs x y k)
]
  where
    later :
        (o : Option (Bytes × Bytes))
        → cut_at sep cs ≡ o
        → (c == sep) ≡ false
        → ((x y : Bytes) → cut_at sep cs ≡ some (x, y) → cs ≡ x ++ sep ∷ y)
        → c ∷ cs ≡ a ++ sep ∷ b
    later none k e ih = absurd (ground (arith, k, e, h))
    later (some (x, y)) k e ih =
        let ha : c ∷ x ≡ a = ground (arith, k, e, h) in
        let hb : y ≡ b = ground (arith, k, e, h) in rw (← ha, ← hb) (ap (◌∷◌ c) (ih x y k))
