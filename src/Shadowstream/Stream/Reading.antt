-- ===== src/Shadowstream/Stream/Reading.antt =====
-- What a `Reader` of transport/shadowsocks/shadowstream/stream.go delivers.
use tun_flow.Base.{
  ℕ, zero, suc, ◌+◌, ◌-◌, ◌≤◌, ◌<◌, ◌≡◌, refl, sym, ap, ◌∙◌, ◌⊎◌, inl, inr, [], ◌∷◌, ◌++◌,
  append_assoc, Option, none, some, arith, Bytes, length, take, drop, is_empty, false, append-nil,
  length-take, length-append, take-append-drop, ok, err, eq-nil_of_length,
}
use tun_flow.Base.Net.{Conn, eof, read_some, write-suc, arrived}
use tun_flow.Obfs.{arrived_bounds}
use tun_flow.Shadowstream.{Crypto, IsCrypto, io}
use tun_flow.Shadowstream.Stream.{Side, Moved, buf_size, read_stream, write_to}

-- What the peer has sent is p, encrypted, from the state of the reader on.
abbrev pub Carries : {S : Type 0} → Crypto S → Bytes → Side S → Type 0
Carries k p s = (k.xor_key_stream s.stream s.conn.input).0 ≡ p

-- A read into `size` bytes: at least one byte of p, and the rest is still to come.
pub record Got {S : Type 0} (k : Crypto S) (size : ℕ) (p : Bytes) (s : Side S) : Type 0 where
  pub bs : Bytes
  pub rest : Bytes
  pub s' : Side S
  pub result : read_stream k size s ≡ (ok bs, s')
  pub split : p ≡ bs ++ rest
  pub fits : length bs ≤ size
  pub some_byte : (size ≡ 0) ⊎ (0 < length bs)
  pub carries : Carries k rest s'

nonempty : (p : Bytes) → 0 < length p → is_empty p ≡ false
nonempty [] h = absurd (omega arith)
nonempty (x ∷ p) h = refl

take_some : (j : ℕ) (p : Bytes) → 0 < length p → 0 < j → 0 < length (take j p)
take_some j p h i = omega (arith, length-take {0} j p)

module _ {S : Type 0} (k : Crypto S) (lawful : IsCrypto k) where
  length-Carries : (p : Bytes) (s : Side S) → Carries k p s → length p ≡ length s.conn.input
  length-Carries p s h = ap length (sym h) ∙ lawful.length-xor s.stream s.conn.input

  pub read_stream-Got :
      (size : ℕ) (p : Bytes) (s : Side S) → Carries k p s → 0 < length p → Got k size p s
  unfolding read_stream read_some
  read_stream-Got size p s h more =
      let size_eq = length-Carries p s h in
      let j : ℕ = arrived size s.conn.arrivals in
      let (le, pos) = arrived_bounds size s.conn.arrivals in
      let head = take j s.conn.input in
      let tail = drop j s.conn.input in
      let length_bs = lawful.length-xor s.stream head in
      record {
        bs = (k.xor_key_stream s.stream head).0;
        rest = (k.xor_key_stream (k.xor_key_stream s.stream head).1 tail).0;
        s' = record {
          stream = (k.xor_key_stream s.stream head).1;
          conn = record s.conn { input = tail; arrivals = drop 1 s.conn.arrivals };
        };
        result = ground (arith, nonempty s.conn.input (omega arith));
        split =
            sym h
            ∙ ap (λ b. (k.xor_key_stream s.stream b).0) (sym (take-append-drop j s.conn.input))
            ∙ lawful.xor-append s.stream head tail;
        fits = omega (arith, length_bs, length-take {0} j s.conn.input);
        some_byte = at_least j pos (take_some j s.conn.input (omega arith)) length_bs;
        carries = refl;
      }
    where
      at_least :
          (j : ℕ) {n m : ℕ} → (size ≡ 0) ⊎ (0 < j) → (0 < j → 0 < n) → m ≡ n → (size ≡ 0) ⊎ (0 < m)
      at_least j (inl z) f e = inl z
      at_least j (inr z) f e = inr (rw e (f z))

  read_stream-eof :
      (size : ℕ) (s : Side S) → Carries k [] s → read_stream k size s ≡ (err (io eof), s)
  unfolding read_stream read_some
  read_stream-eof size s h =
      ground (arith, ap is_empty (eq-nil_of_length s.conn.input (sym (length-Carries [] s h))))

-- What `WriteTo` gives when all of p is delivered.
pub record Copied {S : Type 0} (p : Bytes) (n : ℕ) (w : Conn) (r : Option (Moved × Side S × Conn))
    : Type 0 where
  pub s' : Side S
  pub w' : Conn
  pub result : r ≡ some (record { count = n + length p; failed = none }, s', w')
  pub delivered : w'.output ≡ w.output ++ p

-- A round of `WriteTo` that reads and writes some bytes.
write_to-step :
    {S : Type 0} (k : Crypto S) (fuel n l : ℕ) (s s' : Side S) (bs : Bytes) (w : Conn)
    → read_stream k buf_size s ≡ (ok bs, s')
    → is_empty bs ≡ false
    → w.writes_left ≡ suc l
    → write_to k (suc fuel) n s w
      ≡ write_to k fuel (n + length bs) s' (record w { writes_left = l; output = w.output ++ bs })
unfolding write_to
write_to-step k fuel n l s s' bs w got some_bytes room =
    let sent = write-suc io bs w l room in ground (arith, got, some_bytes, sent)

module _ {S : Type 0} (k : Crypto S) (lawful : IsCrypto k) where
  -- `WriteTo` ends, and delivers all that the stream carries: with one round more than there are bytes
  -- and a sink that takes a write for each byte, the sink gets p, whatever the sizes in which the
  -- bytes arrive, the count is the length of p and the error is nil.
  pub write_to-Copied :
      (fuel : ℕ) (p : Bytes) (n m : ℕ) (s : Side S) (w : Conn)
      → Carries k p s
      → length p < fuel
      → w.writes_left ≡ length p + m
      → Copied p n w (write_to k fuel n s w)
  unfolding write_to
  write_to-Copied zero p n m s w h enough room = absurd (omega arith)
  write_to-Copied (suc fuel) [] n m s w h enough room =
      rw (read_stream-eof k lawful buf_size s h, write_to)
        (record {
          s' = (read_stream k buf_size s).1;
          w' = w;
          result =
              ap (λ c. some (record { count = c; failed = none }, (read_stream k buf_size s).1, w))
                (omega arith);
          delivered = sym (append-nil w.output);
        })
  write_to-Copied (suc fuel) (x ∷ p) n m s w h enough room =
      let g = read_stream-Got k lawful buf_size (x ∷ p) s h (omega arith) in
      let byte : 0 < length g.bs = omega (arith, g.some_byte) in
      let sum = ap length g.split ∙ length-append g.bs g.rest in
      let left : w.writes_left ≡ suc (length g.rest + (length g.bs - 1 + m)) = omega (arith, sum) in
      let c =
        write_to-Copied fuel g.rest (n + length g.bs) (length g.bs - 1 + m) g.s'
          (record w {
            writes_left = length g.rest + (length g.bs - 1 + m);
            output = w.output ++ g.bs;
          })
          g.carries (omega (arith, sum)) refl in
      rw (write_to-step k fuel n _ s g.s' g.bs w g.result (nonempty g.bs byte) left) (record {
        s' = c.s';
        w' = c.w';
        result =
            c.result
            ∙ ap (λ i. some (record { count = i; failed = none }, c.s', c.w')) (omega (arith, sum));
        delivered =
            c.delivered ∙ append_assoc w.output g.bs g.rest ∙ ap (λ b. w.output ++ b) (sym g.split);
      })
