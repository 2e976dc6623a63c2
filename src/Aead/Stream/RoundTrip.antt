-- ===== src/Aead/Stream/RoundTrip.antt =====
-- What `Writer.Write` writes, `Reader.read` reads.
use tun_flow.Base.{
  ℕ, zero, suc, ◌+◌, ◌*◌, ◌%◌, ◌/◌, min, ◌≤◌, ◌≡◌, ◌≢◌, refl, sym, ap, ◌∙◌, [], ◌∷◌, ◌++◌, none,
  if◌then◌else◌, Bytes, length, length-take, length-drop, take, drop, take-append-drop, is_empty,
  be_bytes16, ok, arith, append_assoc, append-nil,
}
use tun_flow.Base.Act.{Act, ◌>>=◌, return}
use tun_flow.Base.Net.{read_full-append, write-suc}
use tun_flow.Aead.{Aead, IsAead, Error, io, payload_size_mask}
use tun_flow.Aead.Nonce.{increment}
use tun_flow.Aead.Stream.{
  Stream, frame, after_record, write_loop, write_stream, receive, unseal_next, read_record,
}

-- How many records `Write` makes of p.
abbrev pub record_count : ℕ → Bytes → ℕ
record_count zero p = 0
record_count (suc fuel) p =
    let rest = record_count fuel (drop (min payload_size_mask (length p)) p) in
    if is_empty p then 0 else suc rest

module _ (a : Aead) where
  -- The records of p, its greatest pieces first, and the nonce behind them.
  abbrev pub wire : ℕ → Bytes → Bytes → Bytes
  wire zero nonce p = []
  wire (suc fuel) nonce p =
      let rest = wire fuel (after_record a nonce) (drop (min payload_size_mask (length p)) p) in
      if is_empty p then [] else frame a nonce (take (min payload_size_mask (length p)) p) ++ rest

  abbrev pub nonce_behind : ℕ → Bytes → Bytes → Bytes
  nonce_behind zero nonce p = nonce
  nonce_behind (suc fuel) nonce p =
      let rest =
        nonce_behind fuel (after_record a nonce) (drop (min payload_size_mask (length p)) p) in
      if is_empty p then nonce else rest

  -- `Reader.read` called k times, the payloads joined.
  abbrev pub read_records : ℕ → Act Stream Error Bytes
  read_records zero = return []
  read_records (suc k) = do b ← read_record a; bs ← read_records k; return (b ++ bs)

module _ (a : Aead) (lawful : IsAead a) where
  receive-append :
      (n : ℕ) (b rest : Bytes) (s : Stream)
      → n ≡ length b
      → s.conn.input ≡ b ++ rest
      → receive a n s ≡ (ok b, record s { conn = record s.conn { input = rest } })
  unfolding receive
  receive-append n b rest s e i = ground (arith, read_full-append io n b rest s.conn e i)

  unseal_next-seal :
      (b : Bytes) (s : Stream)
      → unseal_next a (a.seal s.nonce b) s ≡ (ok b, record s { nonce = increment s.nonce })
  unfolding unseal_next
  unseal_next-seal b s = ground (arith, lawful.unseal-seal s.nonce b)

  size-fits : (n : ℕ) → n ≤ 0x3FFF → (n / 256 % 256 * 256 + n % 256) % 0x4000 ≡ n
  size-fits n h = omega arith

  pub read_record-frame :
      (p rest : Bytes) (s : Stream)
      → 1 ≤ length p
      → length p ≤ 0x3FFF
      → s.conn.input ≡ frame a s.nonce p ++ rest
      → read_record a s
        ≡ (ok p, record { nonce = after_record a s.nonce; conn = record s.conn { input = rest } })
  unfolding read_record
  read_record-frame p rest s lo hi i =
      let size = be_bytes16 (length p) in
      let sealed = a.seal s.nonce size in
      let body = a.seal (increment s.nonce) p in
      let s1 = record s { conn = record s.conn { input = body ++ rest } } in
      let s2 = record s1 { nonce = increment s.nonce } in
      let s3 = record s2 { conn = record s.conn { input = rest } } in
      ground (
        arith,
        receive-append (2 + a.overhead) sealed (body ++ rest) s
            (ground (arith, lawful.length-seal s.nonce size)) (i ∙ append_assoc sealed body rest),
        unseal_next-seal size s1,
        size-fits (length p) hi,
        receive-append (length p + a.overhead) body rest s2
            (sym (lawful.length-seal (increment s.nonce) p)) refl,
        unseal_next-seal p s3,
      )

  write_loop-wire :
      (fuel : ℕ) (p : Bytes) (n k : ℕ) (s : Stream)
      → length p ≤ fuel
      → s.conn.writes_left ≡ record_count fuel p + k
      → write_loop a fuel p n s ≡ (
        record { count = n + length p; failed = none },
        record {
          nonce = nonce_behind a fuel s.nonce p;
          conn = record s.conn { writes_left = k; output = s.conn.output ++ wire a fuel s.nonce p };
        },
      )
  unfolding write_loop
  write_loop-wire zero [] n k s h w = ground (arith, append-nil s.conn.output)
  write_loop-wire zero (x ∷ p) n k s h w = absurd (omega arith)
  write_loop-wire (suc fuel) [] n k s h w = ground (arith, append-nil s.conn.output)
  write_loop-wire (suc fuel) (x ∷ p) n k s h w =
      let nr = min payload_size_mask (length (x ∷ p)) in
      let piece = frame a s.nonce (take nr (x ∷ p)) in
      let left = record_count fuel (drop nr (x ∷ p)) + k in
      let s1 : Stream = record {
        nonce = after_record a s.nonce;
        conn = record s.conn { writes_left = left; output = s.conn.output ++ piece };
      } in
      ground (
        arith,
        length-drop {0} nr (x ∷ p),
        write-suc io piece s.conn left (ground arith),
        write_loop-wire fuel (drop nr (x ∷ p)) (n + nr) k s1
            (omega (arith, length-drop {0} nr (x ∷ p))) refl,
        append_assoc s.conn.output piece (wire a fuel (after_record a s.nonce) (drop nr (x ∷ p))),
      )

  read_records-wire :
      (fuel : ℕ) (p rest : Bytes) (s : Stream)
      → length p ≤ fuel
      → s.conn.input ≡ wire a fuel s.nonce p ++ rest
      → read_records a (record_count fuel p) s ≡ (
        ok p,
        record { nonce = nonce_behind a fuel s.nonce p; conn = record s.conn { input = rest } },
      )
  read_records-wire zero [] rest s h i = ground arith
  read_records-wire zero (x ∷ p) rest s h i = absurd (omega arith)
  read_records-wire (suc fuel) [] rest s h i = ground arith
  read_records-wire (suc fuel) (x ∷ p) rest s h i =
      let nr = min payload_size_mask (length (x ∷ p)) in
      let nonce' = after_record a s.nonce in
      let behind = wire a fuel nonce' (drop nr (x ∷ p)) in
      let piece = frame a s.nonce (take nr (x ∷ p)) in
      let s1 : Stream = record {
        nonce = nonce';
        conn = record s.conn { input = behind ++ rest };
      } in
      ground (
        arith,
        read_record-frame (take nr (x ∷ p)) (behind ++ rest) s
            (omega (arith, length-take {0} nr (x ∷ p))) (omega (arith, length-take {0} nr (x ∷ p)))
            (i ∙ append_assoc piece behind rest),
        read_records-wire fuel (drop nr (x ∷ p)) rest s1 (omega (arith, length-drop {0} nr (x ∷ p)))
            refl,
        take-append-drop nr (x ∷ p),
      )

-- What is written is read back, through an AEAD that opens what it seals. Where p is not empty and
-- the connection takes its records, `Writer.Write` of p returns the length of p and no error, having
-- written records that carry p. A `Reader` that starts with the writer's nonce and finds those bytes,
-- and any others behind them, returns p record by record, consumes the records and nothing else, and
-- ends with the writer's nonce.
pub write_stream-read_records :
    (a : Aead) (p rest : Bytes) (k : ℕ) (w r : Stream)
    → IsAead a
    → p ≢ []
    → r.nonce ≡ w.nonce
    → w.conn.writes_left ≡ record_count (length p) p + k
    → r.conn.input ≡ wire a (length p) w.nonce p ++ rest
    → (write_stream a p w ≡ (
      record { count = length p; failed = none },
      record {
        nonce = nonce_behind a (length p) w.nonce p;
        conn = record w.conn {
          writes_left = k;
          output = w.conn.output ++ wire a (length p) w.nonce p;
        };
      },
    ))
      × (read_records a (record_count (length p) p) r ≡ (
        ok p,
        record {
          nonce = nonce_behind a (length p) w.nonce p;
          conn = record r.conn { input = rest };
        },
      ))
unfolding write_stream
write_stream-read_records a [] rest k w r lawful ne same room i = absurd (ne refl)
write_stream-read_records a (x ∷ p) rest k w r lawful ne same room i = (
  ground (arith, write_loop-wire a lawful (length (x ∷ p)) (x ∷ p) 0 k w (omega arith) room),
  read_records-wire a lawful (length (x ∷ p)) (x ∷ p) rest r (omega arith)
        (i ∙ ap (λ m. wire a (length (x ∷ p)) m (x ∷ p) ++ rest) (sym same))
      ∙ ap
          (λ m. (
            ok (x ∷ p),
            record {
              nonce = nonce_behind a (length (x ∷ p)) m (x ∷ p);
              conn = record r.conn { input = rest };
            },
          ))
          same,
)
