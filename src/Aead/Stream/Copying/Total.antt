-- ===== src/Aead/Stream/Copying/Total.antt =====
-- The loop of `Reader.WriteTo` of stream.go ends.
use tun_flow.Base.{
  ℕ, zero, suc, true, false, ◌+◌, ◌-◌, ◌≤◌, ◌<◌, Bool, index, ◌*◌, ◌%◌, ◌≡◌, ◌≢◌, ◌⊎◌, inl, inr,
  Bool-cases, refl, ap, [], ◌∷◌, Option, none, leb, ◌==◌, some, arith, Bytes, length, length-drop,
  drop, is_empty, Result, ok, err, panic,
}
use tun_flow.Base.Act.{Act, chain, lift, refuse_if}
use tun_flow.Base.Net.{Conn, eof, read_full}
use tun_flow.Aead.{Aead, Error, io, zero_chunk}
use tun_flow.Aead.Stream.{Stream, failure, receive, unseal_next, read_record}
use tun_flow.Aead.Stream.Copying.{stopped_by, bytes_of, flush, write_to_loop}

module _ (a : Aead) where
  abbrev left : Stream → ℕ
  left s = length s.conn.input

  receive-left :
      (n : ℕ) (s : Stream)
      → ((receive a n s).1.conn.input ≡ drop n s.conn.input) ⊎ ((receive a n s).1.conn.input ≡ [])
  unfolding receive read_full
  receive-left n s = elim (Bool-cases (leb n (length s.conn.input))) [
    | inl h ↦ inl (ground (arith, h))
    | inr h ↦ inr (ground (arith, h))
  ]

  receive-le : (n : ℕ) (s : Stream) → left (receive a n s).1 ≤ left s - n
  receive-le n s = elim (receive-left n s) [
    | inl h ↦ omega (arith, ap length h, length-drop {0} n s.conn.input)
    | inr h ↦ omega (arith, ap length h)
  ]

  unseal_next-conn : (b : Bytes) (s : Stream) → (unseal_next a b s).1.conn ≡ s.conn
  unfolding unseal_next
  unseal_next-conn b s = refl

  unseal_next-le : (b : Bytes) (s : Stream) → left (unseal_next a b s).1 ≤ left s
  unseal_next-le b s = omega (arith, ap (λ c. length c.input) (unseal_next-conn b s))

  refuse_if-le : (b : Bool) (e : Error) (s : Stream) → left (refuse_if {E = Error} b e s).1 ≤ left s
  refuse_if-le true e s = omega arith
  refuse_if-le false e s = omega arith

  chain-left :
      {A : Type 0} (x : Result Error A × Stream) (f : A → Act Stream Error Bytes) (k : ℕ)
      → left x.1 ≤ k
      → ((v : A) (t : Stream) → left (f v t).1 ≤ left t)
      → left (chain x.0 x.1 f).1 ≤ k
  chain-left (ok v, s) f k h g = omega (arith, g v s)
  chain-left (err e, s) f k h g = h
  chain-left (panic, s) f k h g = h

  -- `Reader.read` consumes two bytes and more, or all that there are.
  read_record-left : (s : Stream) → left (read_record a s).1 ≤ left s - 2
  unfolding read_record
  read_record-left s =
      chain-left (receive a (2 + a.overhead) s) _ (left s - 2)
        (omega (arith, receive-le (2 + a.overhead) s))
        (λ sealed t.
          chain-left (unseal_next a sealed t) _ (left t) (unseal_next-le sealed t) (λ head t.
            chain-left (lift (index head 0) t) _ (left t) (omega arith) (λ hi t.
              chain-left (lift (index head 1) t) _ (left t) (omega arith) (λ lo t.
                chain-left (refuse_if ((hi * 256 + lo) % 0x4000 == 0) zero_chunk t) _ (left t)
                  (refuse_if-le ((hi * 256 + lo) % 0x4000 == 0) zero_chunk t)
                  (λ u t.
                    chain-left (receive a ((hi * 256 + lo) % 0x4000 + a.overhead) t) _ (left t)
                      (omega (arith, receive-le ((hi * 256 + lo) % 0x4000 + a.overhead) t))
                      unseal_next-le)))))

  read_record-nothing :
      (s : Stream) → s.conn.input ≡ [] → stopped_by (read_record a s).0 ≡ some (io eof)
  unfolding read_record receive read_full
  read_record-nothing s e =
      let none_there : is_empty s.conn.input ≡ true = ap is_empty e in
      let size : length s.conn.input ≡ 0 = ap length e in
      let short : leb (2 + a.overhead) (length s.conn.input) ≡ false = ground (arith, size) in
      ground (arith, none_there, short)

  -- The end of a round.
  round-ne-none :
      {A : Type 0} (f g : Option Error) (x y : Error → A) (rest : Option A)
      → (g ≡ none → rest ≢ none)
      → elim f [ some e ↦ some (x e) | none ↦ elim g [ some e ↦ some (y e) | none ↦ rest ] ] ≢ none
  round-ne-none (some e) g x y rest h = λ q. cc
  round-ne-none none (some e) x y rest h = λ q. cc
  round-ne-none none none x y rest h = h refl

  -- `WriteTo` ends: one round more than there are bytes is enough.
  pub write_to_loop-ne-none :
      (fuel n : ℕ) (pending : Bytes) (s : Stream) (w : Conn)
      → left s < fuel
      → write_to_loop a fuel n pending s w ≢ none
  unfolding write_to_loop
  write_to_loop-ne-none zero n pending s w enough = absurd (omega arith)
  write_to_loop-ne-none (suc fuel) n pending s w enough =
      round-ne-none (failure a (flush pending w).0) (stopped_by (read_record a s).0) _ _
        (write_to_loop a fuel (n + length pending) (bytes_of (read_record a s).0)
          (read_record a s).1 (flush pending w).1)
        (λ go.
          write_to_loop-ne-none fuel (n + length pending) (bytes_of (read_record a s).0)
            (read_record a s).1 (flush pending w).1 (fewer s.conn.input refl go))
    where
      fewer :
          (i : Bytes)
          → s.conn.input ≡ i
          → stopped_by (read_record a s).0 ≡ none
          → left (read_record a s).1 < fuel
      fewer [] e go = absurd (ground (arith, go, read_record-nothing s e))
      fewer (x ∷ i) e go = omega (arith, read_record-left s, ap length e, enough)
