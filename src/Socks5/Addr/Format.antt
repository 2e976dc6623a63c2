-- ===== src/Socks5/Addr/Format.antt =====
-- The form of a SOCKS5 address (RFC 1928, section 5), independent of the code, and the operations
-- that produce or find one.
use tun_flow.Base.{
  ℕ, ◌+◌, ◌≤◌, ◌≡◌, ◌≢◌, refl, sym, ap, ◌∙◌, true, ◌⊎◌, inl, inr, [], ◌∷◌, ◌++◌, some, arith, Bytes,
  length, length-append, be_bytes16, ok, take, drop, take-append-drop, ◌==◌, subst, suc,
  length-take, Bool-cases, ◌↔◌,
}
use tun_flow.Netip.{v4, v6, no_addr, as_slice, is_valid}
use tun_flow.Netip.Laws.{length-as_slice_v4, length-as_slice_v6}
use tun_flow.Netip
use tun_flow.Socks5.Addr.Split.{split_addr-addr_len, split_addr-append, split_addr-take}
use tun_flow.Socks5.Addr.{valid, split_addr, addr_len, serialize_addr}

-- A type byte, the host in the form that the type gives, and two bytes for the port.
pub data IsAddr : Bytes → Type 0 where
  domain_form : (n : ℕ) (r : Bytes) → length r ≡ n + 2 → IsAddr (3 ∷ n ∷ r)
  ipv4_form : (r : Bytes) → length r ≡ 4 + 2 → IsAddr (1 ∷ r)
  ipv6_form : (r : Bytes) → length r ≡ 16 + 2 → IsAddr (4 ∷ r)

pub IsAddr-length : {a : Bytes} → IsAddr a → 4 ≤ length a
IsAddr-length (domain_form n r e) = omega arith
IsAddr-length (ipv4_form r e) = omega arith
IsAddr-length (ipv6_form r e) = omega arith

pub IsAddr-valid : {a : Bytes} → IsAddr a → valid a ≡ ok true
unfolding valid
IsAddr-valid (domain_form n r e) = ground arith
IsAddr-valid (ipv4_form (x ∷ r) e) = ground arith
IsAddr-valid (ipv4_form [] e) = absurd (omega arith)
IsAddr-valid (ipv6_form (x ∷ r) e) = ground arith
IsAddr-valid (ipv6_form [] e) = absurd (omega arith)

pub split_addr-IsAddr : {a : Bytes} (rest : Bytes) → IsAddr a → split_addr (a ++ rest) ≡ ok (some a)
unfolding addr_len
split_addr-IsAddr rest (domain_form n r e) = split_addr-append 3 (n ∷ r) rest (ground arith)
split_addr-IsAddr rest (ipv4_form r e) = split_addr-append 1 r rest (ground arith)
split_addr-IsAddr rest (ipv6_form r e) = split_addr-append 4 r rest (ground arith)

-- The two cases of the switch that find a length.
addr_len-found :
    (x : ℕ) (r : Bytes) {n : ℕ}
    → addr_len (x ∷ r) ≡ ok (some n)
    → ((x ≡ 3) × ((y : ℕ) × (t : Bytes) × (r ≡ y ∷ t) × (n ≡ suc (suc (y + 2)))))
      ⊎ (((x ≡ 1) × (n ≡ 7)) ⊎ ((x ≡ 4) × (n ≡ 19)))
unfolding addr_len
addr_len-found x [] h = ground arith
addr_len-found x (y ∷ t) h = elim (Bool-cases (x == 3)) [
  | inl domain ↦ inl (ground arith, (y, t, refl, ground arith))
  | inr other ↦ inr (ground arith)
]

-- What `SplitAddr` finds has the form of an address.
pub split_addr-found : (b : Bytes) {a : Bytes} → split_addr b ≡ ok (some a) → IsAddr a
unfolding split_addr
split_addr-found [] h = absurd (ground arith)
split_addr-found (x ∷ r) h =
    let (n, e, head, fits) = split_addr-addr_len x r h in
    elim (addr_len-found x r e) [
      | inl (ex, (y, t, er, en)) ↦
          let size : length (x ∷ r) ≡ suc (suc (length t)) = rw er in
          subst IsAddr (sym (rw (ex, en, er) at head))
            (domain_form y (take (y + 2) t) (omega (arith, length-take {0} (y + 2) t)))
      | inr (inl (ex, en)) ↦
          subst IsAddr (sym (rw (ex, en) at head))
            (ipv4_form (take 6 r) (omega (arith, length-take {0} 6 r)))
      | inr (inr (ex, en)) ↦
          subst IsAddr (sym (rw (ex, en) at head))
            (ipv6_form (take 18 r) (omega (arith, length-take {0} 18 r)))
    ]

-- `SplitAddr` finds the address a exactly when a has the form of a SOCKS5 address (a known type byte,
-- the host of that type, two port bytes) and stands at the head of its argument.
pub split_addr_iff :
    (b a : Bytes) → (split_addr b ≡ ok (some a)) ↔ (IsAddr a × ((rest : Bytes) × (b ≡ a ++ rest)))
split_addr_iff b a = (
  λ h. (
    split_addr-found b h,
    (
      drop (length a) b,
      sym (take-append-drop (length a) b)
          ∙ ap (λ t. t ++ drop (length a) b) (sym (split_addr-take b h).0),
    ),
  ),
  λ (form, (rest, e)). rw e (split_addr-IsAddr rest form),
)

-- The arguments that `SerializeAddr` can write: a domain name, or a valid IP.
abbrev pub Serializable : Bytes → Netip.Addr → Type 0
Serializable name ip = (name ≢ []) ⊎ (is_valid ip ≡ true)

pub serialize_domain :
    (c : ℕ) (name : Bytes) (ip : Netip.Addr) (port : ℕ) {a : Bytes}
    → serialize_addr (c ∷ name) ip port ≡ some a
    → (length (c ∷ name) ≤ 255) × (a ≡ 3 ∷ length (c ∷ name) ∷ c ∷ (name ++ be_bytes16 port))
unfolding serialize_addr
serialize_domain c name ip port h = ground arith

pub serialize_addr-IsAddr :
    (name : Bytes) (ip : Netip.Addr) (port : ℕ) {a : Bytes}
    → Serializable name ip
    → serialize_addr name ip port ≡ some a
    → IsAddr a
unfolding serialize_addr
serialize_addr-IsAddr (c ∷ name) ip port s h =
    let (small, e) = serialize_domain c name ip port h in
    rw e (domain_form _ _ (omega (arith, length-append {0} name (be_bytes16 port))))
serialize_addr-IsAddr [] no_addr port (inl s) h = absurd (s refl)
serialize_addr-IsAddr [] no_addr port (inr s) h = cc
serialize_addr-IsAddr [] (v4 n) port {a} s h =
    let e : 1 ∷ (as_slice (v4 n) ++ be_bytes16 port) ≡ a = ground arith in
    subst IsAddr e (
      ipv4_form _ (
        omega (arith, length-append {0} (as_slice (v4 n)) (be_bytes16 port), length-as_slice_v4 n)))
serialize_addr-IsAddr [] (v6 n) port {a} s h =
    let e : 4 ∷ (as_slice (v6 n) ++ be_bytes16 port) ≡ a = ground arith in
    subst IsAddr e (
      ipv6_form _ (
        omega (arith, length-append {0} (as_slice (v6 n)) (be_bytes16 port), length-as_slice_v6 n)))
