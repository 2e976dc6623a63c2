-- ===== src/Obfs/Tls/Reading.antt =====
-- `TLSObfs.Read` of transport/simple-obfs/tls.go delivers the payloads of the records in order.
use tun_flow.Base.{
  ℕ, ◌≤◌, ◌<◌, ◌≡◌, refl, sym, ap, subst, ◌∙◌, ◌⊎◌, inl, inr, Bool, true, false, List, [], ◌∷◌,
  ◌++◌, append_assoc, none, arith, ltb, if◌then◌else◌, Bytes, length, take, drop, Bool-cases,
  be_bytes16, be_word16-be_bytes16, length-take, length-drop, take-append-drop, ltb→lt,
}
use tun_flow.Base.Net.{Conn, arrived}
use tun_flow.Obfs.{Answer, fill, fill-append, read_conn, read_conn-append, arrived_bounds}
use tun_flow.Obfs.Tls.{TlsObfs, read, read_record, read_payload, short, resumed, on}

-- A record as its header and its payload; the wire has the length between them.
abbrev pub Frame : Type 0
Frame = Bytes × Bytes

abbrev pub wire : List Frame → Bytes
wire [] = []
wire ((h, p) ∷ fs) = h ++ (be_bytes16 (length p) ++ (p ++ wire fs))

abbrev pub payloads : List Frame → Bytes
payloads [] = []
payloads ((h, p) ∷ fs) = p ++ payloads fs

-- The header of the first response has 105 bytes, the others have 3; a length fits in 16 bits.
abbrev pub Fits : Bool → List Frame → Type 0
Fits first [] = Unit {0}
Fits first ((h, p) ∷ fs) =
    (length h ≡ (if first then 105 else 3)) × (length p < 65536) × Fits false fs

-- What is left of the record that is being read.
abbrev pub next_payload : Bytes → List Frame → Bytes
next_payload (x ∷ pending) fs = x ∷ pending
next_payload [] [] = []
next_payload [] ((h, p) ∷ fs) = p

-- The state stands for the stream of the bytes pending and the payloads of the records behind them.
pub record Represents (to : TlsObfs) (pending : Bytes) (fs : List Frame) : Type 0 where
  pub remaining : to.remain ≡ length pending
  pub on_wire : to.conn.input ≡ pending ++ wire fs
  pub fits : Fits to.first_response fs

-- A read into a buffer of `size` bytes takes a prefix of the stream, at least a byte of it where there
-- is one in the record and room for it.
pub data Delivered (size : ℕ) (pending : Bytes) (fs : List Frame) : Answer × TlsObfs → Type 0 where
  delivered :
      {to : TlsObfs} (bs pending' : Bytes) (fs' : List Frame)
      → pending ++ payloads fs ≡ bs ++ (pending' ++ payloads fs')
      → length bs ≤ size
      → (size ≡ 0) ⊎ (next_payload pending fs ≡ []) ⊎ (0 < length bs)
      → Represents to pending' fs'
      → Delivered size pending fs ((bs, none), to)

split_stream : (n : ℕ) (xs ys : Bytes) → xs ++ ys ≡ take n xs ++ (drop n xs ++ ys)
split_stream n xs ys =
    ap (λ z. z ++ ys) (sym (take-append-drop n xs)) ∙ append_assoc (take n xs) (drop n xs) ys

-- The cut of what is pending at n bytes.
module _ (size n : ℕ) (pending : Bytes) (fs : List Frame) (inside : n ≤ length pending) where
  length_cut : length (take n pending) ≡ n
  length_cut = omega (arith, length-take {0} n pending)

  fill_cut :
      (c : Conn)
      → c.input ≡ pending ++ wire fs
      → fill n c ≡ ((take n pending, none), record c { input = drop n pending ++ wire fs })
  fill_cut c h =
      fill-append n (take n pending) (drop n pending ++ wire fs) c (sym length_cut)
        (h ∙ split_stream n pending (wire fs))

  resumed-Delivered :
      (to : TlsObfs)
      → Represents to pending fs
      → n ≤ size
      → (size ≡ 0) ⊎ (next_payload pending fs ≡ []) ⊎ (0 < n)
      → Delivered size pending fs (resumed (fill n to.conn) to)
  resumed-Delivered to r fit some_byte = rw (fill_cut to.conn r.on_wire) (
      delivered (take n pending) (drop n pending) fs (split_stream n pending (payloads fs))
        (rw length_cut fit) (rw length_cut some_byte)
        (record {
          remaining = omega (arith, r.remaining, length_cut, length-drop {0} n pending);
          on_wire = refl;
          fits = r.fits;
        }))

-- Within a record.
rest-Delivered :
    (size : ℕ) (to : TlsObfs) (x : ℕ) (pending : Bytes) (fs : List Frame)
    → Represents to (x ∷ pending) fs
    → Delivered size
        (x ∷ pending)
        fs
        (resumed (fill (if ltb size to.remain then size else to.remain) to.conn) to)
rest-Delivered size to x pending fs r =
    let left = r.remaining in
    resumed-Delivered size (if ltb size to.remain then size else to.remain) (x ∷ pending) fs
      (ground arith) to r (ground arith)
      (some_byte (if ltb size to.remain then size else to.remain) (ground arith))
  where
    some_byte :
        (n : ℕ) → (size ≡ 0) ⊎ (0 < n) → (size ≡ 0) ⊎ (◌≡◌ {A = Bytes} (x ∷ pending) []) ⊎ (0 < n)
    some_byte n (inl e) = inl e
    some_byte n (inr e) = inr (inr e)

nonempty : (p : Bytes) → 0 < length p → (x : ℕ) × (xs : Bytes) × (p ≡ x ∷ xs)
nonempty [] h = absurd (omega arith)
nonempty (x ∷ xs) h = (x, xs, refl)

empty_or : (p : Bytes) → (p ≡ []) ⊎ (0 < length p)
empty_or [] = inl refl
empty_or (x ∷ p) = inr (omega arith)

-- The payload of a record whose length was read.
module _ (size : ℕ) (h p : Bytes) (fs : List Frame) (to : TlsObfs)
    (at : to.conn.input ≡ p ++ wire fs) (fresh : to.remain ≡ 0)
    (others : Fits to.first_response fs) where
  whole-Delivered :
      length p ≤ size → Delivered size [] ((h, p) ∷ fs) (on (fill (length p) to.conn) to)
  whole-Delivered fit = rw (fill-append (length p) p (wire fs) to.conn refl at) (
      delivered p [] fs refl fit (inr (empty_or p))
        (record { remaining = fresh; on_wire = refl; fits = others }))

  part-Delivered :
      (x : ℕ) (xs : Bytes)
      → p ≡ x ∷ xs
      → size < length p
      → Delivered size [] ((h, p) ∷ fs) (short (read_conn size to.conn) (length p) to)
  part-Delivered x xs e small =
      let k : ℕ = arrived size to.conn.arrivals in
      let (le, pos) = arrived_bounds size to.conn.arrivals in
      let inside : k ≤ length p = omega arith in
      let inside' : k ≤ length (x ∷ xs) = subst (λ z. k ≤ length z) e inside in
      let found =
        read_conn-append size x xs (wire fs) to.conn (at ∙ ap (λ z. z ++ wire fs) e) inside' in
      let cut = length_cut size k (x ∷ xs) fs inside' in
      rw (e, found)
        (delivered (take k (x ∷ xs)) (drop k (x ∷ xs)) fs (split_stream k (x ∷ xs) (payloads fs))
          (rw cut le) (some_of k cut pos)
          (record {
            remaining = omega (arith, cut, length-drop {0} k (x ∷ xs));
            on_wire = refl;
            fits = others;
          }))
    where
      some_of :
          (k : ℕ)
          → length (take k (x ∷ xs)) ≡ k
          → (size ≡ 0) ⊎ (0 < k)
          → (size ≡ 0) ⊎ (◌≡◌ {A = Bytes} (x ∷ xs) []) ⊎ (0 < length (take k (x ∷ xs)))
      some_of k cut (inl z) = inl z
      some_of k cut (inr z) = inr (inr (rw cut z))

  read_payload-Delivered : Delivered size [] ((h, p) ∷ fs) (read_payload size (length p) to)
  unfolding read_payload
  read_payload-Delivered = elim (Bool-cases (ltb size (length p))) [
    | inl e ↦
        let small = ltb→lt size (length p) e in
        let (x, xs, full) = nonempty p (omega arith) in rw e (part-Delivered x xs full small)
    | inr e ↦ rw e (whole-Delivered (ground arith))
  ]

-- A record behind its header.
module _ (size : ℕ) (h p : Bytes) (fs : List Frame) (to : TlsObfs)
    (at : to.conn.input ≡ h ++ (be_bytes16 (length p) ++ (p ++ wire fs))) (fresh : to.remain ≡ 0)
    (bound : length p < 65536) (others : Fits to.first_response fs) where
  read_record-Delivered : Delivered size [] ((h, p) ∷ fs) (read_record size (length h) to)
  unfolding read_record
  read_record-Delivered =
      let c = record to.conn { input = be_bytes16 (length p) ++ (p ++ wire fs) } in
      rw
        (
          fill-append (length h) h (be_bytes16 (length p) ++ (p ++ wire fs)) to.conn refl at,
          fill-append 2 (be_bytes16 (length p)) (p ++ wire fs) c refl refl,
          be_word16-be_bytes16 (length p) bound,
        )
        (read_payload-Delivered size h p fs (record to { conn = record c { input = p ++ wire fs } })
          refl fresh others)

-- A state that stands for a stream of which there is more: a read delivers a prefix of the stream and
-- no error, at least one byte of the current record unless it is empty or the buffer is, and the
-- state then stands for the rest of the stream.
pub read-Delivered :
    (size : ℕ) (to : TlsObfs) (pending : Bytes) (fs : List Frame)
    → Represents to pending fs
    → (0 < length pending) ⊎ (0 < length fs)
    → Delivered size pending fs (read size to)
unfolding read
read-Delivered size to (x ∷ pending) fs r more =
    let left = r.remaining in
    let e : ltb 0 to.remain ≡ true = ground arith in rw e (rest-Delivered size to x pending fs r)
read-Delivered size to [] [] r (inl h) = absurd (omega arith)
read-Delivered size to [] [] r (inr h) = absurd (omega arith)
read-Delivered size to [] ((h, p) ∷ fs) r more =
    let left = r.remaining in
    let e : ltb 0 to.remain ≡ false = ground arith in
    let (header, bound, others) = r.fits in
    elim (Bool-cases to.first_response) [
      | inl first ↦
          let long : length h ≡ 105 = header ∙ ap (λ b. if b then 105 else 3) first in
          rw (e, first)
            (subst
              (λ n.
                Delivered size [] ((h, p) ∷ fs)
                  (read_record size n (record to { first_response = false })))
              long
              (read_record-Delivered size h p fs (record to { first_response = false }) r.on_wire
                left bound others))
      | inr other ↦
          let brief : length h ≡ 3 = header ∙ ap (λ b. if b then 105 else 3) other in
          rw e (
            subst (λ b. Delivered size [] ((h, p) ∷ fs) (pick b)) (sym other)
              (subst (λ n. Delivered size [] ((h, p) ∷ fs) (read_record size n to)) brief
                (read_record-Delivered size h p fs to r.on_wire left bound
                  (subst (λ b. Fits b fs) (sym other) others))))
    ]
  where
    pick : Bool → Answer × TlsObfs
    pick b =
        if b
        then read_record size 105 (record to { first_response = false })
        else read_record size 3 to
