-- ===== src/Base/Net/Steps.antt =====
-- A Hoare logic for steps over a connection: they never panic, keep byte values, and what they have
-- written when they end, well or with an error, is known.
use tun_flow.Base.{
  ℕ, suc, zero, subst, ◌<◌, ◌≡◌, refl, Bool, true, false, [], ◌∷◌, ◌++◌, arith, Bytes, length, take,
  drop, length-take, All, Result, ok, err, leb, Bool-cases, append_assoc, index, inl, inr, ◌==◌,
}
use tun_flow.Base.Net.{Conn, Net, IoError, ◌>>=◌, chain, read_full, write, refuse_if, lift}

-- All bytes of the list are below 256.
abbrev pub AllBytes : Bytes → Type 0
AllBytes = All (λ b. b < 256)

-- `sent` was written since the output was `o`, and what is still to be read are byte values.
pub record At (o sent : Bytes) (c : Conn) : Type 0 where
  pub output_is : c.output ≡ o ++ sent
  pub bytes : AllBytes c.input

-- The step does not panic. It ends with an error and a text in T written since `o`, or with a value a
-- and a text in S a.
pub data Ends {E A : Type 0} (T : Bytes → Type 0) (S : A → Bytes → Type 0) (o : Bytes)
    : Result E A × Conn → Type 0 where
  value : {a : A} {c : Conn} {sent : Bytes} → S a sent → At o sent c → Ends T S o (ok a, c)
  error : {e : E} {c : Conn} {sent : Bytes} → T sent → At o sent c → Ends T S o (err e, c)

module _ {E A B : Type 0} {T : Bytes → Type 0} {S : A → Bytes → Type 0}
    {R : B → Bytes → Type 0} where
  chain-Ends :
      {o : Bytes} (x : Result E A × Conn) (f : A → Net E B)
      → Ends T S o x
      → ((a : A) (sent : Bytes) (c : Conn) → S a sent → At o sent c → Ends T R o (f a c))
      → Ends T R o (chain x.0 x.1 f)
  chain-Ends x f (value {a = a} {c = c} {sent = sent} s h) k = k a sent c s h
  chain-Ends x f (error t h) k = error t h

  pub >>=-Ends :
      (o : Bytes) (m : Net E A) (f : A → Net E B) (c : Conn)
      → Ends T S o (m c)
      → ((a : A) (sent : Bytes) (c' : Conn) → S a sent → At o sent c' → Ends T R o (f a c'))
      → Ends T R o ((m >>= f) c)
  >>=-Ends o m f c h k = chain-Ends (m c) f h k

AllBytes-take : (n : ℕ) (b : Bytes) → AllBytes b → AllBytes (take n b)
AllBytes-take zero b h = tt
AllBytes-take (suc n) [] h = tt
AllBytes-take (suc n) (x ∷ b) h = (h.0, AllBytes-take n b h.1)

AllBytes-drop : (n : ℕ) (b : Bytes) → AllBytes b → AllBytes (drop n b)
AllBytes-drop zero b h = h
AllBytes-drop (suc n) [] h = tt
AllBytes-drop (suc n) (x ∷ b) h = AllBytes-drop n b h.1

module _ {E : Type 0} (wrap : IoError → E) {T : Bytes → Type 0} where
  pub read_full-Ends :
      (o sent : Bytes) (n : ℕ) (c : Conn)
      → T sent
      → At o sent c
      → Ends T (λ bs s. (s ≡ sent) × (length bs ≡ n) × AllBytes bs) o (read_full wrap n c)
  unfolding read_full
  read_full-Ends o sent n c t h = elim (Bool-cases (leb n (length c.input))) [
    | inl enough ↦ rw enough (
        value (refl, (ground (arith, length-take {0} n c.input)), AllBytes-take n c.input h.bytes)
          (record { output_is = h.output_is; bytes = AllBytes-drop n c.input h.bytes }))
    | inr short ↦ rw short (error t (record { output_is = h.output_is; bytes = tt }))
  ]

  pub write-Ends :
      (o sent bs : Bytes) (c : Conn)
      → T sent
      → At o sent c
      → Ends T (λ _ s. s ≡ sent ++ bs) o (write wrap bs c)
  unfolding write
  write-Ends o sent bs c t h = elim (Bool-cases (c.writes_left == 0)) [
    | inl broken ↦ rw broken (error t h)
    | inr works ↦ rw works (
        value refl
          (record { output_is = rw h.output_is (append_assoc o sent bs); bytes = h.bytes }))
  ]

module _ {E : Type 0} {T : Bytes → Type 0} where
  pub refuse_if-Ends :
      (o sent : Bytes) (bad : Bool) (e : E) (c : Conn)
      → T sent
      → At o sent c
      → Ends T (λ _ s. (s ≡ sent) × (bad ≡ false)) o (refuse_if bad e c)
  refuse_if-Ends o sent true e c t h = error t h
  refuse_if-Ends o sent false e c t h = value (refl, refl) h

  -- A byte of a slice that is long enough.
  pub index-Ends :
      (o sent : Bytes) (bs : Bytes) (i : ℕ) (c : Conn)
      → i < length bs
      → AllBytes bs
      → At o sent c
      → Ends T (λ b s. (s ≡ sent) × (b < 256)) o (lift {E = E} (index bs i) c)
  index-Ends o sent [] i c lt small h = absurd (omega arith)
  index-Ends o sent (b ∷ bs) zero c lt small h = value (refl, small.0) h
  index-Ends o sent (b ∷ bs) (suc i) c lt small h = index-Ends o sent bs i c (omega arith) small.1 h

pub At-eq : {o s t : Bytes} {c : Conn} → s ≡ t → At o s c → At o t c
At-eq {o} {c = c} e h = subst (λ r. At o r c) e h

pub Ends-map :
    {E A : Type 0} {T : Bytes → Type 0} {S R : A → Bytes → Type 0} {o : Bytes}
    {x : Result E A × Conn}
    → ((a : A) (s : Bytes) → S a s → R a s)
    → Ends T S o x
    → Ends T R o x
Ends-map f (value s h) = value (f _ _ s) h
Ends-map f (error t h) = error t h
