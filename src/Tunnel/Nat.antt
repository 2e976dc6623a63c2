-- ===== src/Tunnel/Nat.antt =====
-- The packets that the symmetric NAT of tunnel/udp.go lets through.
use tun_flow.Base.{
  ℕ, zero, suc, ◌≤◌, ◌≡◌, refl, ap, List, [], ◌∷◌, Option, none, some, Bool, true, false, not,
  arith, if◌then◌else◌, Bytes, length, Bool-cases, inl, inr,
}
use tun_flow.Base.Text.{bytes_eq}
use tun_flow.Tunnel.{
  Received, read_plain, read_from, other_source, copy_packet_data, by_error, End, ReadError,
}

-- A sender that has no address, or the address of the destination.
abbrev keeps : Bytes → Option Bytes → Bool
keeps dst none = true
keeps dst (some from) = bytes_eq from dst

-- What has such a sender.
unfoldable pub from_dst : Bytes → List Received → List Received
from_dst dst [] = []
from_dst dst (r ∷ rs) = let rest = from_dst dst rs in if keeps dst r.from then r ∷ rest else rest

other_source-keeps :
    (dst : Bytes) (from : Option Bytes) → other_source dst from ≡ not (keeps dst from)
other_source-keeps dst none = refl
other_source-keeps dst (some from) = refl

by_error-cong :
    (o : Option ReadError) (p : Bytes) (room : ℕ) (f g : ℕ → List Bytes × End)
    → ((k : ℕ) → f k ≡ g k)
    → by_error o p room f ≡ by_error o p room g
by_error-cong none p zero f g h = refl
by_error-cong none p (suc k) f g h =
    ap (λ z. let (out, e) : List Bytes × End = z in (p ∷ out, e)) (h k)
by_error-cong (some e) p room f g h = refl

-- Copying behind the NAT of a destination is copying of the packets whose sender has the destination's
-- address or none: with fuel for every read, the same packets are written in the same order, and the end is the same.
pub copy-read_from :
    (dst : Bytes) (rs : List Received) (n m room : ℕ)
    → length rs ≤ n
    → length (from_dst dst rs) ≤ m
    → copy_packet_data (suc n) (read_from dst) rs room
      ≡ copy_packet_data (suc m) read_plain (from_dst dst rs) room
unfolding from_dst copy_packet_data read_from
copy-read_from dst [] n m room h k = refl
copy-read_from dst (r ∷ rs) zero m room h k = absurd (omega arith)
copy-read_from dst (r ∷ rs) (suc n) m room h k = elim (Bool-cases (keeps dst r.from)) [
  | inr e ↦
      let other : other_source dst r.from ≡ true =
        ground (arith, e, other_source-keeps dst r.from) in
      let rest : length (from_dst dst rs) ≤ m = ground arith in
      rw (e, other) (copy-read_from dst rs (suc n) m room (omega arith) rest)
  | inl e ↦
      let same : other_source dst r.from ≡ false =
        ground (arith, e, other_source-keeps dst r.from) in
      let rest : suc (length (from_dst dst rs)) ≤ m = ground arith in
      rw (e, same) (kept m rest (copy-read_from dst rs n))
]
  where
    kept :
        (m : ℕ)
        → suc (length (from_dst dst rs)) ≤ m
        → ((m' room' : ℕ)
            → length rs ≤ n
            → length (from_dst dst rs) ≤ m'
            → copy_packet_data (suc n) (read_from dst) rs room'
              ≡ copy_packet_data (suc m') read_plain (from_dst dst rs) room')
        → by_error r.error r.packet room (copy_packet_data (suc n) (read_from dst) rs)
          ≡ by_error r.error r.packet room (copy_packet_data m read_plain (from_dst dst rs))
    kept zero fits step = absurd (omega arith)
    kept (suc m') fits step =
        by_error-cong r.error r.packet room _ _ (λ room'. step m' room' (omega arith) (omega arith))
