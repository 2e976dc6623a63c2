-- ===== src/Base/Net.antt =====
-- A connection as the code sees it through io.Reader and io.Writer: the bytes that the peer sends
-- before it closes, how they arrive, the writes that succeed, and what was written so far.
pub mod Steps
use tun_flow.Base.{
  ℕ, suc, ◌+◌, ◌-◌, ◌≡◌, Bool, true, false, List, [], ◌∷◌, ◌++◌, arith, leb, ◌==◌, if◌then◌else◌,
  Bytes, length, take, drop, Result, ok, err, panic, min, is_empty, take-append, drop-append,
  length-append, le→leb,
}

pub data IoError : Type 0 where
  eof unexpected_eof closed_pipe : IoError

-- `arrivals` bounds the bytes that each Read finds: one more than its head, all when it is empty.
pub record Conn : Type 0 where
  pub input : Bytes
  pub arrivals : List ℕ
  pub writes_left : ℕ
  pub output : Bytes

abbrev pub Net : Type 0 → Type 0 → Type 0
Net E A = Conn → Result E A × Conn

abbrev pub chain : {E A B : Type 0} → Result E A → Conn → (A → Net E B) → Result E B × Conn
chain (ok a) c f = f a c
chain (err e) c f = (err e, c)
chain panic c f = (panic, c)

infixl 5 ◌>>=◌ ◌>>◌
abbrev pub ◌>>=◌ : {E A B : Type 0} → Net E A → (A → Net E B) → Net E B
◌>>=◌ m f c = let (r, c') = m c in chain r c' f

abbrev pub ◌>>◌ : {E B : Type 0} → Net E (Unit {0}) → Net E B → Net E B
m >> k = m >>= λ _. k

abbrev pub return : {E A : Type 0} → A → Net E A
return a c = (ok a, c)

abbrev pub fail : {E A : Type 0} → E → Net E A
fail e c = (err e, c)

-- `if bad { return err }`.
abbrev pub refuse_if : {E : Type 0} → Bool → E → Net E (Unit {0})
refuse_if true e c = (err e, c)
refuse_if false e c = (ok tt, c)

-- A value or a panic computed without the connection.
abbrev pub lift : {E A : Type 0} → Result E A → Net E A
lift r c = (r, c)

-- How many bytes a Read of n finds, if there are that many.
abbrev pub arrived : ℕ → List ℕ → ℕ
arrived n [] = n
arrived n (k ∷ ks) = min n (suc k)

module _ {E : Type 0} (wrap : IoError → E) where
  -- `io.ReadFull` of n bytes: EOF if the peer closed before the first, and nothing is left of what
  -- a short read consumed.
  unfoldable pub read_full : ℕ → Net E Bytes
  read_full n c =
      if leb n (length c.input)
      then (ok (take n c.input), record c { input = drop n c.input })
      else (err (wrap (if is_empty c.input then eof else unexpected_eof)), record c { input = [] })

  -- One `Write`: all the bytes, or none and an error.
  unfoldable pub write : Bytes → Net E (Unit {0})
  write bs c =
      if c.writes_left == 0
      then (err (wrap closed_pipe), c)
      else (ok tt, record c { writes_left = c.writes_left - 1; output = c.output ++ bs })

  -- One `Read` into a buffer of n bytes: at least one of the bytes that are there, or EOF.
  unfoldable pub read_some : ℕ → Net E Bytes
  read_some n c = if is_empty c.input then (err (wrap eof), c) else (
    ok (take (arrived n c.arrivals) c.input),
    record c { input = drop (arrived n c.arrivals) c.input; arrivals = drop 1 c.arrivals },
  )

  pub read_full-append :
      (n : ℕ) (bs rest : Bytes) (c : Conn)
      → n ≡ length bs
      → c.input ≡ bs ++ rest
      → read_full n c ≡ (ok bs, record c { input = rest })
  unfolding read_full
  read_full-append n bs rest c e h = rw (
    h,
    e,
    length-append bs rest,
    le→leb (length bs) (length bs + length rest) (omega arith),
    take-append bs rest,
    drop-append bs rest,
  )

  pub write-suc :
      (bs : Bytes) (c : Conn) (k : ℕ)
      → c.writes_left ≡ suc k
      → write bs c ≡ (ok tt, record c { writes_left = k; output = c.output ++ bs })
  unfolding write
  write-suc bs c k h = ground arith
