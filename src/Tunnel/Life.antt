-- ===== src/Tunnel/Life.antt =====
-- The connections of a tunnel of tunnel/tunnel.go are handled or closed, and none is lost.
use tun_flow.Base.{
  ℕ, suc, ◌+◌, ◌*◌, ◌≤◌, ◌<◌, ◌≡◌, refl, ap, true, Bool-cases, inl, inr, Option, none, some, List,
  [], ◌∷◌, ◌++◌, arith, ◌==◌, if◌then◌else◌,
}
use tun_flow.Tunnel.{
  Tunnel, new, close, handle_conn, closings, Move, taken, refused, handled, loop_ends, Event, moves,
  hands, processes, closes,
}

-- How often a connection stands in a list.
pub count : ℕ → List ℕ → ℕ
count c [] = 0
count c (x ∷ xs) = (if x == c then 1 else 0) + count c xs

count-append : (c : ℕ) (xs ys : List ℕ) → count c (xs ++ ys) ≡ count c xs + count c ys
unfolding count
count-append c [] ys = omega arith
count-append c (x ∷ xs) ys = omega (arith, count-append c xs ys)

count-middle :
    (c d : ℕ) (xs ys : List ℕ)
    → count c (xs ++ d ∷ ys) ≡ (if d == c then 1 else 0) + count c (xs ++ ys)
unfolding count
count-middle c d xs ys = omega (arith, count-append c xs (d ∷ ys), count-append c xs ys)

abbrev size : List ℕ → ℕ
size [] = 0
size (x ∷ xs) = suc (size xs)

-- Each connection that arrived waits, is handled, or was closed, once for each arrival.
abbrev pub IsKept : Tunnel → Type 0
IsKept t = (c : ℕ) → count c t.waiting + count c t.live + count c t.closed ≡ count c t.arrived

-- A handler closes its connection once, however the dialing went.
closings-once :
    (remote : Option ℕ) (closed : List ℕ) (c : ℕ)
    → closings (handle_conn remote) closed c ≡ c ∷ closed
unfolding handle_conn
closings-once none closed c = refl
closings-once (some r) closed c = refl

Move-IsKept : {t u : Tunnel} → Move t u → IsKept t → IsKept u
unfolding count
Move-IsKept {t = t} (taken d xs ys w r) k c =
    let e = ap (count c) w in omega (arith, k c, e, count-middle c d xs ys)
Move-IsKept {t = t} (refused d xs ys w r) k c =
    let e = ap (count c) w in omega (arith, k c, e, count-middle c d xs ys)
Move-IsKept {t = t} (handled d xs ys remote l) k c =
    let e = ap (count c) l in
    let once = ap (count c) (closings-once remote t.closed d) in
    omega (arith, k c, e, once, count-middle c d xs ys)
Move-IsKept (loop_ends d r) k c = k c

Event-IsKept : {t u : Tunnel} → Event t u → IsKept t → IsKept u
unfolding count
Event-IsKept (moves m) k c = Move-IsKept m k c
Event-IsKept (hands d) k c = omega (arith, k c)
Event-IsKept {t = t} processes k c = ground (arith, k c)
Event-IsKept {t = t} closes k c = ground (arith, k c)

-- Any sequence of calls and moves, and one of moves only.
pub data Trace (t : Tunnel) : Tunnel → Type 0 where
  begun : Trace t t
  and_then : {u v : Tunnel} → Trace t u → Event u v → Trace t v

pub data Moves : Tunnel → Tunnel → Type 0 where
  stay : (t : Tunnel) → Moves t t
  first : {t u v : Tunnel} → Move t u → Moves u v → Moves t v

Trace-IsKept : {t u : Tunnel} → IsKept t → Trace t u → IsKept u
Trace-IsKept k begun = k
Trace-IsKept k (and_then tr e) = Event-IsKept e (Trace-IsKept k tr)

Moves-IsKept : {t u : Tunnel} → Moves t u → IsKept t → IsKept u
Moves-IsKept (stay t) k = k
Moves-IsKept (first m ms) k = Moves-IsKept ms (Move-IsKept m k)

Moves-arrived : {t u : Tunnel} → Moves t u → u.arrived ≡ t.arrived
Moves-arrived (stay t) = refl
Moves-arrived (first (taken c xs ys w r) ms) = Moves-arrived ms
Moves-arrived (first (refused c xs ys w r) ms) = Moves-arrived ms
Moves-arrived (first (handled c xs ys remote l) ms) = Moves-arrived ms
Moves-arrived (first (loop_ends d r) ms) = Moves-arrived ms

-- `Close` that was called has closed `done`, which stays so.
abbrev IsClosing : Tunnel → Type 0
IsClosing t = t.close_once ≡ true → t.done ≡ true

Event-IsClosing : {t u : Tunnel} → Event t u → IsClosing t → IsClosing u
Event-IsClosing (moves (taken c xs ys w r)) k = k
Event-IsClosing (moves (refused c xs ys w r)) k = k
Event-IsClosing (moves (handled c xs ys remote l)) k = k
Event-IsClosing (moves (loop_ends d r)) k = k
Event-IsClosing (hands c) k = k
Event-IsClosing {t = t} processes k = λ c. ground (arith, k, c)
Event-IsClosing {t = t} closes k = λ c. elim (Bool-cases t.close_once) [
  | inl again ↦ ground (arith, k again, again)
  | inr now ↦ ground (arith, now)
]

Trace-IsClosing : {t u : Tunnel} → IsClosing t → Trace t u → IsClosing u
Trace-IsClosing k begun = k
Trace-IsClosing k (and_then tr e) = Event-IsClosing e (Trace-IsClosing k tr)

close-done : (t : Tunnel) → IsClosing t → (close t).done ≡ true
close-done t k = elim (Bool-cases t.close_once) [
  | inl again ↦ ground (arith, k again, again)
  | inr now ↦ ground (arith, now)
]

Event-done : {t u : Tunnel} → Event t u → t.done ≡ true → u.done ≡ true
Event-done (moves (taken c xs ys w r)) d = d
Event-done (moves (refused c xs ys w r)) d = d
Event-done (moves (handled c xs ys remote l)) d = d
Event-done (moves (loop_ends e r)) d = d
Event-done (hands c) d = d
Event-done {t = t} processes d = ground (arith, d)
Event-done {t = t} closes d = ground (arith, d)

Trace-done : {t u : Tunnel} → Trace t u → t.done ≡ true → u.done ≡ true
Trace-done begun d = d
Trace-done (and_then tr e) d = Event-done e (Trace-done tr d)

Moves-done : {t u : Tunnel} → Moves t u → t.done ≡ true → u.done ≡ true
Moves-done (stay t) d = d
Moves-done (first m ms) d = Moves-done ms (Event-done (moves m) d)

-- How many moves there can be: two for a connection that waits, one for one that is handled, and one for
-- the loop.
abbrev pub weight : Tunnel → ℕ
weight t = 2 * size t.waiting + size t.live + (if t.running then 1 else 0)

abbrev pub moves_count : {t u : Tunnel} → Moves t u → ℕ
moves_count (stay t) = 0
moves_count (first m ms) = suc (moves_count ms)

size-middle : (c : ℕ) (xs ys : List ℕ) → size (xs ++ c ∷ ys) ≡ suc (size (xs ++ ys))
size-middle c [] ys = refl
size-middle c (x ∷ xs) ys = ap suc (size-middle c xs ys)

Move-weight : {t u : Tunnel} → Move t u → weight u < weight t
Move-weight {t = t} (taken c xs ys w r) = omega (arith, ap size w, size-middle c xs ys)
Move-weight {t = t} (refused c xs ys w r) = omega (arith, ap size w, size-middle c xs ys)
Move-weight {t = t} (handled c xs ys remote l) = omega (arith, ap size l, size-middle c xs ys)
Move-weight {t = t} (loop_ends d r) = ground (arith, r)

Moves-weight : {t u : Tunnel} (ms : Moves t u) → moves_count ms + weight u ≤ weight t
Moves-weight (stay t) = omega arith
Moves-weight (first m ms) = omega (arith, Move-weight m, Moves-weight ms)

-- A tunnel that can move on, or has closed all that arrived, once for each arrival.
pub data Settles (t : Tunnel) : Type 0 where
  moves_on : {u : Tunnel} → Move t u → Settles t
  settled : ((c : ℕ) → count c t.closed ≡ count c t.arrived) → Settles t

done-Settles : (t : Tunnel) → t.done ≡ true → IsKept t → Settles t
unfolding count
done-Settles t d k = by_waiting t.waiting t.live refl refl
  where
    by_waiting : (w l : List ℕ) → t.waiting ≡ w → t.live ≡ l → Settles t
    by_waiting (c ∷ cs) l w e = moves_on (refused c [] cs w d)
    by_waiting [] (c ∷ cs) w e = moves_on (handled c [] cs none e)
    by_waiting [] [] w e = settled λ c.
        let none_waits = ap (count c) w in
        let none_lives = ap (count c) e in omega (arith, k c, none_waits, none_lives)

-- A tunnel comes to rest after `Close`. Whatever was called before `Close` and behind it, and however the
-- goroutines moved: from then on, without another call, they make at most two moves for each
-- connection that waits in HandleTCP or HandleUDP, one for each that is handled and one for the loop,
-- whatever their order, and as long as a connection that arrived is not closed, or one was closed
-- another number of times than it arrived, there is a move. That a handler ends at some time is one
-- of these moves.
pub closed-Settles :
    {t u v : Tunnel}
    → Trace new t
    → Trace (close t) u
    → (ms : Moves u v) → (moves_count ms ≤ weight u) × Settles v
unfolding count
closed-Settles {t} {u} {v} before behind ms =
    let kept : IsKept new = λ c. refl in
    let closing : IsClosing new = λ c. cc in
    let all =
      Moves-IsKept ms (Trace-IsKept (Event-IsKept closes (Trace-IsKept kept before)) behind) in
    let d = Moves-done ms (Trace-done behind (close-done t (Trace-IsClosing closing before))) in
    (omega (arith, Moves-weight ms), done-Settles v d all)
