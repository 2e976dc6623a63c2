-- ===== src/Tunnel/Tests.antt =====
-- Concrete runs of a tunnel.
use tun_flow.Base.{
  ℕ, suc, ◌≡◌, ◌≤◌, refl, Bool, true, false, List, [], ◌∷◌, Option, none, some, arith, Bytes,
  length,
}
use tun_flow.Base.Text.{codes}
use tun_flow.Tunnel.{
  new, handle, process_async, close, Received, read_from, read_plain, copy_packet_data, Tunnel,
  moves, closings, handle_conn, taken, handled, hands, processes,
}
use tun_flow.Tunnel.Life.{
  Trace, begun, and_then, Moves, stay, first, moves_count, weight, Settles, closed-Settles,
}
use tun_flow.Tunnel.Nat.{from_dst, copy-read_from}

-- A tunnel that took one of its two connections and was closed.
abbrev busy : Tunnel
busy = record (process_async (handle 5 (handle 4 new))) { waiting = 4 ∷ []; live = 5 ∷ [] }

busy-Trace : Trace new busy
busy-Trace =
    and_then (and_then (and_then (and_then begun (hands 4)) (hands 5)) processes)
      (moves (taken 5 [] (4 ∷ []) refl refl))

-- Behind `Close`, the one that is handled ends.
abbrev one_ended : Tunnel
one_ended = record (close busy) { live = []; closed = closings (handle_conn none) [] 5 }

abbrev one_move : Moves (close busy) one_ended
one_move = first {t = close busy} {u = one_ended} (handled 5 [] [] none refl) (stay one_ended)

closed-Settles_example : (moves_count one_move ≤ weight (close busy)) × Settles one_ended
closed-Settles_example = closed-Settles busy-Trace begun one_move

-- A packet of another sender and one of the destination.
abbrev two_received : List Received
two_received =
    record { packet = 1 ∷ []; from = some (codes "x"); error = none }
    ∷ record { packet = 2 ∷ []; from = some (codes "d"); error = none }
    ∷ []

one_kept : length (from_dst (codes "d") two_received) ≡ 1
unfolding from_dst tun_flow.Base.Text.bytes_eq
one_kept = refl

copy-read_from_example :
    copy_packet_data 3 (read_from (codes "d")) two_received 9
    ≡ copy_packet_data 2 read_plain (from_dst (codes "d") two_received) 9
copy-read_from_example =
    copy-read_from (codes "d") two_received 2 1 9 (omega arith) (omega (arith, one_kept))
