-- ===== src/Allocator/Tests.antt =====
-- Concrete runs of the allocator.
use tun_flow.Base.{ℕ, ◌*◌, ◌^◌, ◌≤◌, ◌<◌, ◌≡◌, refl, pos, some, ok, arith}
use tun_flow.Allocator.{Buffer, Pools, get, new}
use tun_flow.Allocator.Laws.{IsPools, get-fits}

new-IsPools : IsPools new
new-IsPools = record { sorted = ground arith; seventeen = refl }

get-fits_example :
    (buf : Buffer) × (ps' : Pools) × (k : ℕ) × (get (pos 20480) 0 new ≡ ok (some buf, ps'))
    × (buf.len ≡ 20480)
    × (20480 ≤ buf.cap)
    × (buf.cap < 2 * 20480)
    × (buf.cap ≡ 2 ^ k)
    × IsPools ps'
get-fits_example = get-fits 20480 0 new (omega arith) (omega arith) new-IsPools

abbrev odd_buffer : Buffer
odd_buffer = record { len = 3; cap = 48 }
