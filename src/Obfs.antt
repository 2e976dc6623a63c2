-- ===== src/Obfs.antt =====
-- transport/simple-obfs: what both obfuscations share.
pub mod Tls
pub mod Http
mod Tests
use tun_flow.Base.{
  ℕ, ◌+◌, ◌≤◌, ◌≡◌, List, [], ◌∷◌, ◌++◌, Option, none, some, arith, leb, if◌then◌else◌, Bytes,
  length, take, drop, is_empty, Result, ok, err, panic, ◌==◌, zero, suc, refl, ap, le→leb,
  length-append, take-append, drop-append, ◌<◌, ◌⊎◌,
}
use tun_flow.Base.Net.{Conn, IoError, eof, unexpected_eof, closed_pipe, read_some, arrived}

-- What a Read returns: the bytes that it puts into the buffer, their number being its count, and the
-- error.
abbrev pub Answer : Type 0
Answer = Bytes × Option IoError

-- `io.ReadFull` of n bytes with the bytes that it read where it fails.
unfoldable pub fill : ℕ → Conn → Answer × Conn
fill n c =
    if leb n (length c.input)
    then ((take n c.input, none), record c { input = drop n c.input })
    else (
      (c.input, some (if is_empty c.input then eof else unexpected_eof)),
      record c { input = [] },
    )

-- One `Read` of the connection.
abbrev answer : Result IoError Bytes × Conn → Answer × Conn
answer (ok bs, c) = ((bs, none), c)
answer (err e, c) = (([], some e), c)
answer (panic, c) = (([], none), c)

unfoldable pub read_conn : ℕ → Conn → Answer × Conn
unfolding read_some
read_conn n c = answer (read_some (λ e. e) n c)

pub fill-append :
    (n : ℕ) (bs rest : Bytes) (c : Conn)
    → n ≡ length bs
    → c.input ≡ bs ++ rest
    → fill n c ≡ ((bs, none), record c { input = rest })
unfolding fill
fill-append n bs rest c e h = rw (
  h,
  e,
  length-append bs rest,
  le→leb (length bs) (length bs + length rest) (omega arith),
  take-append bs rest,
  drop-append bs rest,
)

-- A cut inside the first of two lists.
pub take_left : (n : ℕ) (xs ys : Bytes) → n ≤ length xs → take n (xs ++ ys) ≡ take n xs
take_left zero xs ys h = refl
take_left (suc n) [] ys h = absurd (omega arith)
take_left (suc n) (x ∷ xs) ys h = ap (◌∷◌ x) (take_left n xs ys (omega arith))

pub drop_left : (n : ℕ) (xs ys : Bytes) → n ≤ length xs → drop n (xs ++ ys) ≡ drop n xs ++ ys
drop_left zero xs ys h = refl
drop_left (suc n) [] ys h = absurd (omega arith)
drop_left (suc n) (x ∷ xs) ys h = drop_left n xs ys (omega arith)

pub arrived_bounds : (n : ℕ) (ks : List ℕ) → (arrived n ks ≤ n) × ((n ≡ 0) ⊎ (0 < arrived n ks))
arrived_bounds zero [] = ground arith
arrived_bounds (suc n) [] = ground arith
arrived_bounds n (k ∷ ks) = ground arith

-- A read that finds fewer bytes than the first of two lists has.
pub read_conn-append :
    (n : ℕ) (x : ℕ) (xs rest : Bytes) (c : Conn)
    → c.input ≡ x ∷ xs ++ rest
    → arrived n c.arrivals ≤ length (x ∷ xs)
    → read_conn n c ≡ (
      (take (arrived n c.arrivals) (x ∷ xs), none),
      record c {
        input = drop (arrived n c.arrivals) (x ∷ xs) ++ rest;
        arrivals = drop 1 c.arrivals;
      },
    )
unfolding read_conn read_some
read_conn-append n x xs rest c h b =
    rw
      (
        h,
        take_left (arrived n c.arrivals) (x ∷ xs) rest b,
        drop_left (arrived n c.arrivals) (x ∷ xs) rest b,
      )
      refl
