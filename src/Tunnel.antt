-- ===== src/Tunnel.antt =====
-- tunnel/tunnel.go, tunnel/tcp.go and tunnel/udp.go: the queue of connections and the packet streams.
pub mod Life
pub mod Nat
mod Tests
use tun_flow.Base.{
  ℕ, zero, suc, ◌+◌, ◌-◌, ◌≡◌, Bool, true, false, List, [], ◌∷◌, ◌++◌, Option, none, some, ◌==◌,
  if◌then◌else◌, Bytes, length, not,
}
use tun_flow.Base.Text.{bytes_eq}

-- `Tunnel` with its goroutines: the connections that a call of HandleTCP or HandleUDP holds in its
-- select, those that a goroutine handles, those that were closed, and all that ever arrived. `running`
-- is the loop of `process`, `cancellable` whether `procCancel` is more than its nop, and `cancelled`
-- whether the loop's context is. The queues for TCP and for UDP are alike.
pub record Tunnel : Type 0 where
  pub waiting : List ℕ
  pub live : List ℕ
  pub closed : List ℕ
  pub arrived : List ℕ
  pub proc_once : Bool
  pub close_once : Bool
  pub cancellable : Bool
  pub cancelled : Bool
  pub running : Bool
  pub done : Bool

-- `New`.
abbrev pub new : Tunnel
new = record {
  waiting = [];
  live = [];
  closed = [];
  arrived = [];
  proc_once = false;
  close_once = false;
  cancellable = false;
  cancelled = false;
  running = false;
  done = false;
}

-- `ProcessAsync`.
abbrev pub process_async : Tunnel → Tunnel
process_async t =
    if t.proc_once then t else record t { proc_once = true; cancellable = true; running = true }

-- `Close`.
abbrev pub close : Tunnel → Tunnel
close t =
    if t.close_once
    then t
    else record t { close_once = true; done = true; cancelled = t.cancellable }

-- A call of HandleTCP or HandleUDP, up to its select.
abbrev pub handle : ℕ → Tunnel → Tunnel
handle c t = record t { waiting = c ∷ t.waiting; arrived = c ∷ t.arrived }

-- What handling a connection does to the two connections, with the remote one where dialing succeeds;
-- the deferred calls run last to first.
pub data Action : Type 0 where
  pipes closes_remote : ℕ → Action
  closes_origin : Action

unfoldable pub handle_conn : Option ℕ → List Action
handle_conn none = closes_origin ∷ []
handle_conn (some remote) = pipes remote ∷ closes_remote remote ∷ closes_origin ∷ []

-- How often the deferred calls close the connection.
abbrev pub closings : List Action → List ℕ → ℕ → List ℕ
closings [] closed c = closed
closings (closes_origin ∷ actions) closed c = closings actions (c ∷ closed) c
closings (pipes remote ∷ actions) closed c = closings actions closed c
closings (closes_remote remote ∷ actions) closed c = closings actions closed c

-- One move of the goroutines: the two cases of the select of HandleTCP, the end of a handler, whether
-- or not it dialed a remote connection, with its deferred calls, and the end of the loop. A handler
-- ends when its pipe does, which is left open.
pub data Move (t : Tunnel) : Tunnel → Type 0 where
  taken :
      (c : ℕ) (xs ys : List ℕ)
      → t.waiting ≡ xs ++ c ∷ ys
      → t.running ≡ true
      → Move t (record t { waiting = xs ++ ys; live = c ∷ t.live })
  refused :
      (c : ℕ) (xs ys : List ℕ)
      → t.waiting ≡ xs ++ c ∷ ys
      → t.done ≡ true
      → Move t (record t { waiting = xs ++ ys; closed = c ∷ t.closed })
  handled :
      (c : ℕ) (xs ys : List ℕ) (remote : Option ℕ)
      → t.live ≡ xs ++ c ∷ ys
      → Move t (record t { live = xs ++ ys; closed = closings (handle_conn remote) t.closed c })
  loop_ends : t.cancelled ≡ true → t.running ≡ true → Move t (record t { running = false })

-- A move, or a call from outside.
pub data Event (t : Tunnel) : Tunnel → Type 0 where
  moves : {u : Tunnel} → Move t u → Event t u
  hands : (c : ℕ) → Event t (handle c t)
  processes : Event t (process_async t)
  closes : Event t (close t)

pub data ReadError : Type 0 where
  timed_out eof failed : ReadError

-- What one ReadFrom returns; an address is its text.
pub record Received : Type 0 where
  pub packet : Bytes
  pub from : Option Bytes
  pub error : Option ReadError

-- How `copyPacketData` ends: nil, an error of a read or of a write, or not while reads are awaited.
pub data End : Type 0 where
  finished write_failed waits : End
  read_failed : ReadError → End

-- `err != nil` of the read, sorted.
abbrev end_of : ReadError → End
end_of timed_out = finished
end_of eof = finished
end_of failed = read_failed failed

-- A source is what its reads will return, taken by `read`.
abbrev pub Read : Type 0
Read = List Received → Option (Received × List Received)

abbrev pub read_plain : Read
read_plain [] = none
read_plain (r ∷ rs) = some (r, rs)

abbrev other_source : Bytes → Option Bytes → Bool
other_source dst none = false
other_source dst (some from) = not (bytes_eq from dst)

-- `symmetricNATPacketConn.ReadFrom`.
unfoldable pub read_from : Bytes → Read
read_from dst [] = none
read_from dst (r ∷ rs) = if other_source dst r.from then read_from dst rs else some (r, rs)

abbrev write_packet : ℕ → Bytes → (ℕ → List Bytes × End) → List Bytes × End
write_packet zero p next = ([], write_failed)
write_packet (suc room) p next = let (out, e) = next room in (p ∷ out, e)

abbrev by_error : Option ReadError → Bytes → ℕ → (ℕ → List Bytes × End) → List Bytes × End
by_error none p room next = write_packet room p next
by_error (some e) p room next = ([], end_of e)

abbrev copy_one :
    Option (Received × List Received)
    → ℕ
    → (List Received → ℕ → List Bytes × End)
    → List Bytes × End
copy_one none room next = ([], waits)
copy_one (some (r, rs)) room next = by_error r.error r.packet room (next rs)

-- `copyPacketData` to a connection that accepts `room` packets: the packets that are written. The fuel
-- counts the reads.
unfoldable pub copy_packet_data : ℕ → Read → List Received → ℕ → List Bytes × End
copy_packet_data zero read rs room = ([], waits)
copy_packet_data (suc fuel) read rs room =
    copy_one (read rs) room (λ rs' room'. copy_packet_data fuel read rs' room')
