-- ===== src/Base/Act.antt =====
-- A step that reads and changes a state and may end early with an error.
use tun_flow.Base.{Bool, true, false, Option, none, some, Result, ok, err, panic}

abbrev pub Act : Type 0 → Type 0 → Type 0 → Type 0
Act S E A = S → Result E A × S

abbrev pub chain : {S E A B : Type 0} → Result E A → S → (A → Act S E B) → Result E B × S
chain (ok a) s f = f a s
chain (err e) s f = (err e, s)
chain panic s f = (panic, s)

infixl 5 ◌>>=◌ ◌>>◌
abbrev pub ◌>>=◌ : {S E A B : Type 0} → Act S E A → (A → Act S E B) → Act S E B
◌>>=◌ m f s = let (r, s') = m s in chain r s' f

abbrev pub ◌>>◌ : {S E B : Type 0} → Act S E (Unit {0}) → Act S E B → Act S E B
m >> k = m >>= λ _. k

abbrev pub return : {S E A : Type 0} → A → Act S E A
return a s = (ok a, s)

-- `if bad { return err }`.
abbrev pub refuse_if : {S E : Type 0} → Bool → E → Act S E (Unit {0})
refuse_if true e s = (err e, s)
refuse_if false e s = (ok tt, s)

abbrev pub lift : {S E A : Type 0} → Result E A → Act S E A
lift r s = (r, s)

abbrev pub require : {E A : Type 0} → Option A → E → Result E A
require none e = err e
require (some a) e = ok a

abbrev pub modify : {S E : Type 0} → (S → S) → Act S E (Unit {0})
modify f s = (ok tt, f s)

abbrev pub get : {S E : Type 0} → Act S E S
get s = (ok s, s)
