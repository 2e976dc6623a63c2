-- ===== src/Routing/Stats/Conservation.antt =====
-- No byte is lost or counted twice between the totals and the rates, however the atomic operations
-- of concurrent calls interleave.
use tun_flow.Base.{
  ℕ, ◌+◌, ◌%◌, ◌^◌, ◌<◌, ◌≡◌, refl, List, [], ◌∷◌, ◌++◌, some, ℤ, pos, negsuc, arith, Bool-cases,
  inl, inr, ◌==◌,
}
use tun_flow.Routing.Stats.{
  Counter, add_upload_total, add_upload_temp, add_download_total, add_download_temp, swap_upload,
  swap_download, uploaded, downloaded, sample, is_due,
}

abbrev pub sum : List ℕ → ℕ
sum [] = 0
sum (x ∷ xs) = x + sum xs

sum-append : (xs ys : List ℕ) → sum (xs ++ ys) ≡ sum xs + sum ys
sum-append [] ys = omega arith
sum-append (x ∷ xs) ys = omega (arith, sum-append xs ys)

-- The counter, the calls that stand between their two additions, and for each direction the sum
-- of the rates that the swaps have stored.
pub record System : Type 0 where
  pub counter : Counter
  pub uploading : List ℕ
  pub downloading : List ℕ
  pub uploads_taken : ℕ
  pub downloads_taken : ℕ

-- One atomic operation of some goroutine.
pub data Step (s : System) : System → Type 0 where
  upload_begins :
      (v : ℕ)
      → 0 < v
      → Step s (record s { counter = add_upload_total v s.counter; uploading = v ∷ s.uploading })
  upload_ends :
      (v : ℕ) (before after : List ℕ)
      → s.uploading ≡ before ++ v ∷ after
      → Step s (record s { counter = add_upload_temp v s.counter; uploading = before ++ after })
  download_begins :
      (v : ℕ)
      → 0 < v
      → Step s
          (record s { counter = add_download_total v s.counter; downloading = v ∷ s.downloading })
  download_ends :
      (v : ℕ) (before after : List ℕ)
      → s.downloading ≡ before ++ v ∷ after
      → Step s (record s { counter = add_download_temp v s.counter; downloading = before ++ after })
  upload_swaps : Step s (record s {
    counter = swap_upload s.counter;
    uploads_taken = s.uploads_taken + (swap_upload s.counter).upload_rate;
  })
  download_swaps : Step s (record s {
    counter = swap_download s.counter;
    downloads_taken = s.downloads_taken + (swap_download s.counter).download_rate;
  })
  sample_ends :
      (now : ℕ) → Step s (record s { counter = record s.counter { last_sample = some now } })

pub data Reach (s : System) : System → Type 0 where
  unmoved : Reach s s
  moved : {t u : System} → Reach s t → Step t u → Reach s u

-- Each total is the sum of the stored rates, what waits for the next sample, and what is under way, modulo 2 ^ 64.
pub record Conserved (s : System) : Type 0 where
  pub uploads :
      s.counter.upload_total % 2 ^ 64
      ≡ (s.uploads_taken + s.counter.upload_temp + sum s.uploading) % 2 ^ 64
  pub downloads :
      s.counter.download_total % 2 ^ 64
      ≡ (s.downloads_taken + s.counter.download_temp + sum s.downloading) % 2 ^ 64

sum-remove :
    (v : ℕ) (before after l : List ℕ) → l ≡ before ++ v ∷ after → sum l ≡ v + sum (before ++ after)
sum-remove v before after l e =
    rw e (omega (arith, sum-append before (v ∷ after), sum-append before after))

Step-Conserved : {s t : System} → Step s t → Conserved s → Conserved t
Step-Conserved (upload_begins v h) c = omega arith
Step-Conserved {s = s} (upload_ends v before after e) c =
    omega (arith, sum-remove v before after s.uploading e)
Step-Conserved (download_begins v h) c = omega arith
Step-Conserved {s = s} (download_ends v before after e) c =
    omega (arith, sum-remove v before after s.downloading e)
Step-Conserved upload_swaps c = omega arith
Step-Conserved download_swaps c = omega arith
Step-Conserved (sample_ends now) c = omega arith

-- From any state where the totals are accounted for, every interleaving of the atomic operations of
-- uploads, downloads and samples keeps them so: each total is, modulo 2 ^ 64, the sum of the rates that
-- the swaps have stored, what waits for the next swap, and what stands between its two additions.
pub Reach-Conserved :
    {before after : System} → Conserved before → Reach before after → Conserved after
Reach-Conserved c unmoved = c
Reach-Conserved c (moved r st) = Step-Conserved st (Reach-Conserved c r)

Reach-append : {s t u : System} → Reach s t → Reach t u → Reach s u
Reach-append r unmoved = r
Reach-append r (moved q st) = moved (Reach-append r q) st

uploaded-Reach : (v : ℤ) (s : System) → Reach s (record s { counter = uploaded v s.counter })
unfolding uploaded
uploaded-Reach (negsuc n) s = unmoved
uploaded-Reach (pos n) s = elim (Bool-cases (n == 0)) [
  | inl zero_bytes ↦ rw (zero_bytes, uploaded) unmoved
  | inr some_bytes ↦
      rw (some_bytes, uploaded)
        (moved (moved unmoved (upload_begins n (ground arith))) (upload_ends n [] s.uploading refl))
]

downloaded-Reach : (v : ℤ) (s : System) → Reach s (record s { counter = downloaded v s.counter })
unfolding downloaded
downloaded-Reach (negsuc n) s = unmoved
downloaded-Reach (pos n) s = elim (Bool-cases (n == 0)) [
  | inl zero_bytes ↦ rw (zero_bytes, downloaded) unmoved
  | inr some_bytes ↦
      rw (some_bytes, downloaded)
        (moved (moved unmoved (download_begins n (ground arith)))
          (download_ends n [] s.downloading refl))
]

sample-Reach :
    (now : ℕ) (s : System)
    → (up : ℕ) × (down : ℕ) × Reach s
        (record s { counter = sample now s.counter; uploads_taken = up; downloads_taken = down })
unfolding sample
sample-Reach now s = elim (Bool-cases (is_due now s.counter.last_sample)) [
  | inl due ↦ (
    s.uploads_taken + s.counter.upload_temp,
    s.downloads_taken + s.counter.download_temp,
    rw (due, sample) (moved (moved (moved unmoved upload_swaps) download_swaps) (sample_ends now)),
  )
  | inr early ↦ (s.uploads_taken, s.downloads_taken, rw (early, sample) unmoved)
]

-- A whole call of one of the three methods of the counter.
pub data Call : Type 0 where
  uploads downloads : ℤ → Call
  samples : ℕ → Call

abbrev pub call : Call → Counter → Counter
call (uploads v) c = uploaded v c
call (downloads v) c = downloaded v c
call (samples now) c = sample now c

abbrev pub calls : List Call → Counter → Counter
calls [] c = c
calls (k ∷ ks) c = calls ks (call k c)

call-Reach :
    (k : Call) (s : System)
    → (up : ℕ) × (down : ℕ) × Reach s
        (record s { counter = call k s.counter; uploads_taken = up; downloads_taken = down })
call-Reach (uploads v) s = (_, _, uploaded-Reach v s)
call-Reach (downloads v) s = (_, _, downloaded-Reach v s)
call-Reach (samples now) s = sample-Reach now s

-- Every sequence of calls of `uploaded`, `downloaded` and `snapshot` is an interleaving of the atomic
-- steps, so it keeps the totals accounted for by the rates taken and the bytes not yet sampled.
pub calls-Conserved :
    (ks : List Call) (s : System)
    → Conserved s
    → (up : ℕ) × (down : ℕ) × Conserved
        (record s { counter = calls ks s.counter; uploads_taken = up; downloads_taken = down })
calls-Conserved [] s c = (_, _, c)
calls-Conserved (k ∷ ks) s c =
    let (up, down, r) = call-Reach k s in calls-Conserved ks _ (Reach-Conserved c r)
