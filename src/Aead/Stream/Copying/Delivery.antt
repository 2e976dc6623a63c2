-- ===== src/Aead/Stream/Copying/Delivery.antt =====
-- What `Writer.ReadFrom` of stream.go writes, and how a peer reads it.
use tun_flow.Base.{
  ℕ, zero, suc, true, false, ◌+◌, ◌-◌, ◌≤◌, ◌<◌, ◌≡◌, refl, sym, ap, ◌∙◌, List, [], ◌∷◌, ◌++◌,
  append_assoc, Option, none, some, arith, All, Bytes, length, length-take, length-drop, take, drop,
  take-append-drop, is_empty, be_bytes16, ok, err,
}
use tun_flow.Base.Net.{Conn, arrived, read_some, write-suc, read_full-append}
use tun_flow.Aead.{Aead, IsAead, io, zero_chunk, payload_size_mask}
use tun_flow.Aead.Nonce.{increment}
use tun_flow.Aead.Stream.{Stream, Written, frame, after_record, receive, unseal_next, read_record}
use tun_flow.Aead.Stream.RoundTrip.{read_records, read_record-frame}
use tun_flow.Aead.Stream.Copying.{read_from}

abbrev joined : List Bytes → Bytes
joined [] = []
joined (p ∷ ps) = p ++ joined ps

abbrev pieces_count : List Bytes → ℕ
pieces_count [] = 0
pieces_count (p ∷ ps) = suc (pieces_count ps)

record IsPiece (p : Bytes) : Type 0 where
  some_byte : 1 ≤ length p
  fits : length p ≤ 0x3FFF

module _ (a : Aead) where
  -- The records of some pieces, and behind them one of no bytes.
  abbrev sealed_all : Bytes → List Bytes → Bytes
  sealed_all nonce [] = frame a nonce []
  sealed_all nonce (p ∷ ps) = frame a nonce p ++ sealed_all (after_record a nonce) ps

  record Sent (bytes : Bytes) (n : ℕ) (s : Stream) (x : Option (Written × Conn × Stream))
      : Type 0 where
    pieces : List Bytes
    split : joined pieces ≡ bytes
    sizes : All IsPiece pieces
    r' : Conn
    s' : Stream
    result : x ≡ some (record { count = n + length bytes; failed = none }, r', s')
    written : s'.conn.output ≡ s.conn.output ++ sealed_all s.nonce pieces

  read_from-ended :
      (fuel n k : ℕ) (r : Conn) (s : Stream)
      → r.input ≡ []
      → s.conn.writes_left ≡ suc k
      → read_from a (suc fuel) n r s
        ≡ some (
          record { count = n; failed = none },
          r,
          record {
            nonce = after_record a s.nonce;
            conn = record s.conn { writes_left = k; output = s.conn.output ++ frame a s.nonce [] };
          },
        )
  unfolding read_from read_some
  read_from-ended fuel n k r s ended room =
      let sent = write-suc io (frame a s.nonce []) s.conn k room in
      let none_left : is_empty r.input ≡ true = ap is_empty ended in
      ground (arith, sent, none_left, ended)

  -- A round that finds some bytes.
  read_from-step :
      (fuel n k : ℕ) (r : Conn) (s : Stream)
      → is_empty r.input ≡ false
      → s.conn.writes_left ≡ suc k
      → read_from a (suc fuel) n r s
        ≡ read_from a fuel
            (n + length (take (arrived payload_size_mask r.arrivals) r.input))
            (record r {
              input = drop (arrived payload_size_mask r.arrivals) r.input;
              arrivals = drop 1 r.arrivals;
            })
            (record {
              nonce = after_record a s.nonce;
              conn = record s.conn {
                writes_left = k;
                output =
                    s.conn.output
                    ++ frame a s.nonce (take (arrived payload_size_mask r.arrivals) r.input);
              };
            })
  unfolding read_from read_some
  read_from-step fuel n k r s more room =
      let sent =
        write-suc io (frame a s.nonce (take (arrived payload_size_mask r.arrivals) r.input)) s.conn
          k room in
      ground (arith, sent, more)

arrived-bounds :
    (ks : List ℕ) → (1 ≤ arrived payload_size_mask ks) × (arrived payload_size_mask ks ≤ 0x3FFF)
arrived-bounds [] = (omega arith, omega arith)
arrived-bounds (k ∷ ks) = (omega arith, omega arith)

module _ (a : Aead) where
  read_from-Sent :
      (fuel : ℕ) (bytes : Bytes) (n m : ℕ) (r : Conn) (s : Stream)
      → r.input ≡ bytes
      → length bytes < fuel
      → s.conn.writes_left ≡ suc (length bytes + m)
      → Sent a bytes n s (read_from a fuel n r s)
  read_from-Sent zero bytes n m r s e enough room = absurd (omega arith)
  read_from-Sent (suc fuel) [] n m r s e enough room =
      rw (read_from-ended a fuel n m r s e (omega arith)) (record {
        pieces = [];
        split = refl;
        sizes = tt;
        r' = r;
        s' = record {
          nonce = after_record a s.nonce;
          conn = record s.conn { writes_left = m; output = s.conn.output ++ frame a s.nonce [] };
        };
        result =
            ap
              (λ c. some (
                record { count = c; failed = none },
                r,
                record {
                  nonce = after_record a s.nonce;
                  conn = record s.conn {
                    writes_left = m;
                    output = s.conn.output ++ frame a s.nonce [];
                  };
                },
              ))
              (omega arith);
        written = refl;
      })
  read_from-Sent (suc fuel) (x ∷ p) n m r s e enough room =
      let j = arrived payload_size_mask r.arrivals in
      let (lo, hi) = arrived-bounds r.arrivals in
      let bs = take j (x ∷ p) in
      let size = length-take {0} j (x ∷ p) in
      let behind = length-drop {0} j (x ∷ p) in
      let r1 : Conn = record r { input = drop j (x ∷ p); arrivals = drop 1 r.arrivals } in
      let left = length (drop j (x ∷ p)) + (length bs - 1 + m) in
      let s1 : Stream = record {
        nonce = after_record a s.nonce;
        conn = record s.conn {
          writes_left = suc left;
          output = s.conn.output ++ frame a s.nonce bs;
        };
      } in
      let c =
        read_from-Sent fuel (drop j (x ∷ p)) (n + length bs) (length bs - 1 + m) r1 s1 refl
          (omega arith) refl in
      let step =
        read_from-step a fuel n (suc left) r s (ap is_empty e) (omega arith)
        ∙ ap
            (λ i.
              read_from a fuel (n + length (take j i))
                (record r { input = drop j i; arrivals = drop 1 r.arrivals })
                (record {
                  nonce = after_record a s.nonce;
                  conn = record s.conn {
                    writes_left = suc left;
                    output = s.conn.output ++ frame a s.nonce (take j i);
                  };
                }))
            e in
      rw step (record {
        pieces = bs ∷ c.pieces;
        split = ap (λ q. bs ++ q) c.split ∙ take-append-drop j (x ∷ p);
        sizes = (record { some_byte = omega arith; fits = omega arith }, c.sizes);
        r' = c.r';
        s' = c.s';
        result =
            c.result
            ∙ ap (λ i. some (record { count = i; failed = none }, c.r', c.s')) (omega arith);
        written =
            c.written
            ∙ append_assoc s.conn.output (frame a s.nonce bs)
                (sealed_all a (after_record a s.nonce) c.pieces);
      })

-- What a reader that finds some records gives: the payloads, and then the refusal.
record Refused (a : Aead) (k : ℕ) (bytes : Bytes) (peer : Stream) : Type 0 where
  before : (read_records a k peer).0 ≡ ok bytes
  behind : (read_record a (read_records a k peer).1).0 ≡ err zero_chunk

module _ (a : Aead) (lawful : IsAead a) where
  -- A record of no bytes is refused.
  read_record-nil :
      (s : Stream) → s.conn.input ≡ frame a s.nonce [] → (read_record a s).0 ≡ err zero_chunk
  unfolding read_record receive unseal_next
  read_record-nil s input =
      let sealed = a.seal s.nonce (be_bytes16 0) in
      let body = a.seal (increment s.nonce) [] in
      let head =
        read_full-append io (2 + a.overhead) sealed body s.conn
          (sym (lawful.length-seal s.nonce (be_bytes16 0))) input in
      let opened = lawful.unseal-seal s.nonce (be_bytes16 0) in ground (arith, head, opened)

  sealed_all-Refused :
      (ps : List Bytes) (s : Stream)
      → All IsPiece ps
      → s.conn.input ≡ sealed_all a s.nonce ps
      → Refused a (pieces_count ps) (joined ps) s
  sealed_all-Refused [] s h i = record { before = refl; behind = read_record-nil s i }
  sealed_all-Refused (p ∷ ps) s h i =
      let s1 : Stream = record {
        nonce = after_record a s.nonce;
        conn = record s.conn { input = sealed_all a (after_record a s.nonce) ps };
      } in
      let c = sealed_all-Refused ps s1 h.1 refl in
      let head =
        read_record-frame a lawful p (sealed_all a (after_record a s.nonce) ps) s h.0.some_byte
          h.0.fits i in
      let before = c.before in
      let behind = c.behind in
      record {
        before = ground (arith, head, before);
        behind = ground (arith, head, before, behind);
      }

abbrev pub output_of : Option (Written × Conn × Stream) → Bytes
output_of none = []
output_of (some (m, r, s)) = s.conn.output

-- `ReadFrom` ends, and delivers all that its source gives, but its stream ends in a record that is refused.
-- With an AEAD that opens what it seals, one round more than the source has bytes, and a connection
-- that has written nothing and takes a write for each byte and one more, `ReadFrom` returns the
-- number of the source's bytes and no error, whatever the sizes in which they arrive. A reader with
-- the writer's nonce that finds what was written reads the same bytes from some number of records;
-- the next record gives it ErrZeroChunk, and not the end of the stream.
pub read_from-refused :
    (a : Aead) (fuel m : ℕ) (r : Conn) (s peer : Stream)
    → IsAead a
    → length r.input < fuel
    → s.conn.writes_left ≡ suc (length r.input + m)
    → s.conn.output ≡ []
    → peer.nonce ≡ s.nonce
    → peer.conn.input ≡ output_of (read_from a fuel 0 r s)
    → ((r' : Conn) × (s' : Stream) × (read_from a fuel 0 r s
          ≡ some (record { count = length r.input; failed = none }, r', s')))
      × ((k : ℕ) × ((read_records a k peer).0 ≡ ok r.input)
          × ((read_record a (read_records a k peer).1).0 ≡ err zero_chunk))
read_from-refused a fuel m r s peer lawful enough room fresh same input =
    let c = read_from-Sent a fuel r.input 0 m r s refl enough room in
    let found =
      input
      ∙ ap output_of c.result
      ∙ c.written
      ∙ ap (λ o. o ++ sealed_all a s.nonce c.pieces) fresh
      ∙ ap (λ i. sealed_all a i c.pieces) (sym same) in
    let d = sealed_all-Refused a lawful c.pieces peer c.sizes found in
    (
      (
        c.r',
        c.s',
        c.result ∙ ap (λ i. some (record { count = i; failed = none }, c.r', c.s')) (omega arith),
      ),
      (pieces_count c.pieces, d.before ∙ ap ok c.split, d.behind),
    )
