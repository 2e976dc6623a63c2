-- ===== src/Shadowstream/Stream/Writing.antt =====
-- What a `Writer` of transport/shadowsocks/shadowstream/stream.go puts on the wire.
use tun_flow.Base.{
  ℕ, zero, suc, ◌+◌, ◌*◌, ◌≤◌, ◌≡◌, refl, sym, ap, ◌∙◌, [], ◌∷◌, ◌++◌, append-nil, append_assoc,
  none, some, arith, Bytes, length, take, drop, length-take, length-drop, take-append-drop, ok, err,
  eq-nil_of_length, subst, ◌<◌,
}
use native.Mathlib.Nat.{zero-add, suc-add}
use tun_flow.Base.Net.{closed_pipe, write, write-suc}
use tun_flow.Shadowstream.{Crypto, IsCrypto, io}
use tun_flow.Shadowstream.Stream.{Side, Moved, buf_size, send, write_loop, write_stream}

module _ {S : Type 0} (k : Crypto S) where
  -- The state t encrypts what comes behind p as the state e does.
  abbrev pub Follows : S → Bytes → S → Type 0
  Follows e p t =
      (q : Bytes)
      → (k.xor_key_stream e (p ++ q)).0 ≡ (k.xor_key_stream e p).0 ++ (k.xor_key_stream t q).0

  -- Since the output was o, the stream that began at e has carried p.
  pub record Sends (o : Bytes) (e : S) (p : Bytes) (s : Side S) : Type 0 where
    pub on_wire : s.conn.output ≡ o ++ (k.xor_key_stream e p).0
    pub follows : Follows e p s.stream

module _ {S : Type 0} (k : Crypto S) (lawful : IsCrypto k) where
  xor-nil : (s : S) → (k.xor_key_stream s []).0 ≡ []
  xor-nil s = eq-nil_of_length (k.xor_key_stream s []).0 (lawful.length-xor s [])

  Follows-self : (s : S) → Follows k s [] s
  Follows-self s q = rw (xor-nil s)

  -- Nothing is carried at the beginning.
  pub begin-Sends : (s : Side S) → Sends k s.conn.output s.stream [] s
  begin-Sends s = record {
    on_wire = sym (ap (λ b. s.conn.output ++ b) (xor-nil s.stream) ∙ append-nil s.conn.output);
    follows = Follows-self s.stream;
  }

  Follows-append :
      (e : S) (p a : Bytes) (t : S)
      → Follows k e p t
      → Follows k e (p ++ a) (k.xor_key_stream t a).1
  Follows-append e p a t h q =
      let x = (k.xor_key_stream e p).0 in
      let y = (k.xor_key_stream t a).0 in
      let z = (k.xor_key_stream (k.xor_key_stream t a).1 q).0 in
      ap (λ b. (k.xor_key_stream e b).0) (append_assoc p a q)
      ∙ h (a ++ q)
      ∙ ap (λ b. x ++ b) (lawful.xor-append t a q)
      ∙ sym (append_assoc x y z)
      ∙ ap (λ b. b ++ z) (sym (h a))

  -- A write that the connection takes.
  pub send-Sends :
      (o : Bytes) (e : S) (p a : Bytes) (s : Side S) (w : ℕ)
      → Sends k o e p s
      → s.conn.writes_left ≡ suc w
      → ((send k a s).0 ≡ ok tt)
        × Sends k o e (p ++ a) (send k a s).1
        × ((send k a s).1.conn.writes_left ≡ w)
  send-Sends o e p a s w h room = rw (write-suc io (k.xor_key_stream s.stream a).0 s.conn w room) (
    refl,
    record {
      on_wire =
          ap (λ b. b ++ (k.xor_key_stream s.stream a).0) h.on_wire
          ∙ append_assoc o (k.xor_key_stream e p).0 (k.xor_key_stream s.stream a).0
          ∙ ap (λ b. o ++ b) (sym (h.follows a));
      follows = Follows-append e p a s.stream h.follows;
    },
    refl,
  )

  -- One that it refuses.
  send-refused :
      (a : Bytes) (s : Side S)
      → s.conn.writes_left ≡ 0
      → ((send k a s).0 ≡ err (io closed_pipe)) × ((send k a s).1.conn ≡ s.conn)
  unfolding write
  send-refused a s h = rw h (refl, refl)

-- What a `Write` of q does on a connection that takes w more writes, behind p: all of q is carried, or
-- as many buffers of it as there are writes, and the count says how much.
pub data Wrote {S : Type 0} (k : Crypto S) (o : Bytes) (e : S) (p q : Bytes) (n w : ℕ)
    : Moved × Side S → Type 0 where
  whole :
      {m : ℕ} {s : Side S}
      → length q ≤ buf_size * w
      → m ≡ n + length q
      → Sends k o e (p ++ q) s
      → Wrote k o e p q n w (record { count = m; failed = none }, s)
  broken :
      {m : ℕ} {s : Side S}
      → buf_size * w < length q
      → m ≡ n + buf_size * w
      → s.conn.output ≡ o ++ (k.xor_key_stream e (p ++ take (buf_size * w) q)).0
      → Wrote k o e p q n w (record { count = m; failed = some (io closed_pipe) }, s)

take_add : (m n : ℕ) (xs : Bytes) → take (m + n) xs ≡ take m xs ++ take n (drop m xs)
take_add zero n xs = rw zero-add
take_add (suc m) zero [] = rw suc-add
take_add (suc m) (suc n) [] = rw suc-add
take_add (suc m) n (x ∷ xs) = rw suc-add (ap (◌∷◌ x) (take_add m n xs))

module _ {S : Type 0} (k : Crypto S) (lawful : IsCrypto k) (o : Bytes) (e : S) where
  -- One buffer more.
  Wrote-chunk :
      (p q : Bytes) (n w : ℕ) (r : Moved × Side S)
      → Wrote k o e (p ++ take buf_size q) (drop buf_size q) (n + length (take buf_size q)) w r
      → Wrote k o e p q n (suc w) r
  Wrote-chunk p q n w r (whole {m} {s} fit count sent) =
      whole (omega (arith, length-drop {0} buf_size q))
        (omega (arith, length-drop {0} buf_size q, length-take {0} buf_size q))
        (subst (λ b. Sends k o e b s)
          (append_assoc p (take buf_size q) (drop buf_size q)
            ∙ ap (λ b. p ++ b) (take-append-drop buf_size q))
          sent)
  Wrote-chunk p q n w r (broken {m} {s} long count sent) =
      let all : buf_size * suc w ≡ buf_size + buf_size * w = omega arith in
      broken (omega (arith, length-drop {0} buf_size q))
        (omega (arith, length-drop {0} buf_size q, length-take {0} buf_size q))
        (sent
          ∙ ap (λ b. o ++ (k.xor_key_stream e b).0)
              (append_assoc p (take buf_size q) (take (buf_size * w) (drop buf_size q))
                ∙ ap (λ b. p ++ b)
                    (sym (ap (λ i. take i q) all ∙ take_add buf_size (buf_size * w) q))))

  nothing-Wrote :
      (p : Bytes) (n w : ℕ) (s : Side S)
      → Sends k o e p s
      → Wrote k o e p [] n w (record { count = n; failed = none }, s)
  nothing-Wrote p n w s h =
      whole (omega arith) (omega arith) (subst (λ b. Sends k o e b s) (sym (append-nil p)) h)

  write_loop-Wrote :
      (fuel : ℕ) (p q : Bytes) (n w : ℕ) (s : Side S)
      → Sends k o e p s
      → s.conn.writes_left ≡ w
      → length q ≤ fuel
      → Wrote k o e p q n w (write_loop k fuel q n s)
  unfolding write_loop
  write_loop-Wrote zero p [] n w s h room enough = nothing-Wrote p n w s h
  write_loop-Wrote zero p (x ∷ q) n w s h room enough = absurd (omega arith)
  write_loop-Wrote (suc fuel) p [] n w s h room enough = nothing-Wrote p n w s h
  write_loop-Wrote (suc fuel) p (x ∷ q) n zero s h room enough =
      let (refused, same) = send-refused k lawful (take buf_size (x ∷ q)) s room in
      rw refused (
        broken (omega arith) (omega arith) (
          ap (λ c. c.output) same
          ∙ h.on_wire
          ∙ ap (λ b. o ++ (k.xor_key_stream e b).0) (sym (append-nil p))))
  write_loop-Wrote (suc fuel) p (x ∷ q) n (suc w) s h room enough =
      let (sent, h', room') = send-Sends k lawful o e p (take buf_size (x ∷ q)) s w h room in
      rw sent (
        Wrote-chunk p (x ∷ q) n w _ (
          write_loop-Wrote fuel (p ++ take buf_size (x ∷ q)) (drop buf_size (x ∷ q))
            (n + length (take buf_size (x ∷ q))) w (send k (take buf_size (x ∷ q)) s).1 h' room'
            (omega (arith, length-drop {0} buf_size (x ∷ q)))))

  -- `Writer.Write` of q, on a stream that has carried p so far. Where the connection takes as many
  -- writes as q has buffers of 2048 bytes, q is carried behind p, and the count is its length and the
  -- error nil. Otherwise one buffer of q is carried with every write that is left, the count is their
  -- bytes, and the error is that of the connection.
  pub write_stream-Wrote :
      (p q : Bytes) (s : Side S)
      → Sends k o e p s
      → Wrote k o e p q 0 s.conn.writes_left (write_stream k q s)
  unfolding write_stream
  write_stream-Wrote p q s h =
      write_loop-Wrote (length q) p q 0 s.conn.writes_left s h refl (omega arith)
