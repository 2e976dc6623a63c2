-- ===== src/Routing/Stats.antt =====
-- routing/routing.go: the counters of the traffic through the upstream proxy. An int64 is its bit
-- pattern, below 2 ^ 64; a time is in nanoseconds, none the zero time.
pub mod Conservation
use tun_flow.Base.{
  ℕ, ◌+◌, ◌%◌, ◌^◌, Bool, Option, none, some, ℤ, pos, negsuc, leb, ◌==◌, if◌then◌else◌, true,
}

abbrev pub add_64 : ℕ → ℕ → ℕ
add_64 a b = (a + b) % 2 ^ 64

abbrev pub second : ℕ
second = 1000000000

-- `trafficCounter`.
pub record Counter : Type 0 where
  pub upload_total : ℕ
  pub download_total : ℕ
  pub upload_temp : ℕ
  pub download_temp : ℕ
  pub upload_rate : ℕ
  pub download_rate : ℕ
  pub last_sample : Option ℕ

pub record TrafficStats : Type 0 where
  pub upload_total : ℕ
  pub download_total : ℕ
  pub upload_per_second : ℕ
  pub download_per_second : ℕ

-- The two atomic additions of `uploaded`.
abbrev pub add_upload_total : ℕ → Counter → Counter
add_upload_total v c = record c { upload_total = add_64 c.upload_total v }

abbrev pub add_upload_temp : ℕ → Counter → Counter
add_upload_temp v c = record c { upload_temp = add_64 c.upload_temp v }

abbrev pub add_download_total : ℕ → Counter → Counter
add_download_total v c = record c { download_total = add_64 c.download_total v }

abbrev pub add_download_temp : ℕ → Counter → Counter
add_download_temp v c = record c { download_temp = add_64 c.download_temp v }

unfoldable pub uploaded : ℤ → Counter → Counter
uploaded (negsuc n) c = c
uploaded (pos n) c = if n == 0 then c else add_upload_temp n (add_upload_total n c)

unfoldable pub downloaded : ℤ → Counter → Counter
downloaded (negsuc n) c = c
downloaded (pos n) c = if n == 0 then c else add_download_temp n (add_download_total n c)

-- The atomic swaps of `snapshot`, one for each direction.
abbrev pub swap_upload : Counter → Counter
swap_upload c = record c { upload_rate = c.upload_temp; upload_temp = 0 }

abbrev pub swap_download : Counter → Counter
swap_download c = record c { download_rate = c.download_temp; download_temp = 0 }

abbrev pub is_due : ℕ → Option ℕ → Bool
is_due now none = true
is_due now (some t) = leb (t + second) now

-- The part of `snapshot` under its mutex.
unfoldable pub sample : ℕ → Counter → Counter
sample now c =
    if is_due now c.last_sample
    then record (swap_download (swap_upload c)) { last_sample = some now }
    else c

abbrev pub stats_of : Counter → TrafficStats
stats_of c = record {
  upload_total = c.upload_total;
  download_total = c.download_total;
  upload_per_second = c.upload_rate;
  download_per_second = c.download_rate;
}

unfoldable pub snapshot : ℕ → Counter → Counter × TrafficStats
unfolding sample
snapshot now c = (sample now c, stats_of (sample now c))
