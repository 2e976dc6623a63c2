-- ===== src/Endpoint.antt =====
-- core/device/iobased/endpoint.go: packets between a device that reads and writes bytes, and the stack.
pub mod Loopback
mod Tests
use tun_flow.Base.{
  ℕ, ℤ, pos, negsuc, ◌+◌, ◌-◌, ◌/◌, Bool, true, false, not, ◌||◌, List, [], ◌∷◌, ◌++◌, Option, none,
  some, ltb, leb, ◌==◌, if◌then◌else◌, Bytes, length, take, drop, replicate, Result, ok, err, panic,
  ◌>>=◌, slice, slice_from,
}

pub data Error : Type 0 where
  zero_mtu nil_device negative_offset : Error

-- `Endpoint`, less the channel of the stack.
pub record Endpoint : Type 0 where
  pub mtu : ℕ
  pub offset : ℕ

-- `New`; the second argument says that the device is nil.
unfoldable pub new : ℕ → Bool → ℤ → Result Error Endpoint
new mtu nil (negsuc n) =
    if mtu == 0 then err zero_mtu else if nil then err nil_device else err negative_offset
new mtu nil (pos n) =
    if mtu == 0
    then err zero_mtu
    else if nil
    then err nil_device
    else ok (record { mtu = mtu; offset = n })

-- NetworkProtocolNumber.
pub data Protocol : Type 0 where
  ipv4 ipv6 another : Protocol

pub record Packet : Type 0 where
  pub protocol : Protocol
  pub body : Bytes

-- A `Read` of the device: an error, or the count with the bytes that it put at the head of the buffer,
-- and whether the stack is attached then.
pub data Event : Type 0 where
  failed : Event
  got : (n : ℕ) (bytes : Bytes) (attached : Bool) → Event

-- A new buffer of the offset and the MTU after the read.
abbrev buffer_of : Endpoint → Bytes → Bytes
buffer_of e bytes = take (e.offset + e.mtu) bytes ++ replicate (e.offset + e.mtu - length bytes) 0

-- The switch on the version: what is injected into the stack.
abbrev pub injected : Option ℕ → Bytes → List Packet
injected none body = []
injected (some v) body =
    if v == 4
    then record { protocol = ipv4; body = body } ∷ []
    else if v == 6
    then record { protocol = ipv6; body = body } ∷ []
    else []

-- What the loop has injected, and whether it has ended and called `cancel`.
pub record Dispatched : Type 0 where
  pub packets : List Packet
  pub cancelled : Bool

abbrev before : List Packet → Dispatched → Dispatched
before ps d = record d { packets = ps ++ d.packets }

-- `header.IPVersion` of the stack's package, none where it finds no version.
module _ (ip_version : Bytes → Option ℕ) where
  -- One round of the loop.
  unfoldable pub dispatch : Endpoint → ℕ → Bytes → Bool → Result Error (List Packet)
  dispatch e n bytes attached =
      if (n == 0 || ltb e.mtu n) then ok [] else if not attached then ok [] else do
        body ← slice (buffer_of e bytes) e.offset (e.offset + n)
        rest ← slice_from (buffer_of e bytes) e.offset
        ok (injected (ip_version rest) body)

  -- `dispatchLoop` over the reads of the device; the deferred `cancel` runs at a panic too.
  unfoldable pub dispatch_loop : Endpoint → List Event → Result Error Dispatched
  dispatch_loop e [] = ok (record { packets = []; cancelled = false })
  dispatch_loop e (failed ∷ events) = ok (record { packets = []; cancelled = true })
  dispatch_loop e (got n bytes attached ∷ events) = do
    ps ← dispatch e n bytes attached
    d ← dispatch_loop e events
    ok (before ps d)

-- The address family of the header that some systems want.
module _ (af_inet6 : ℕ) where
  abbrev family : Protocol → ℕ
  family ipv4 = 2
  family ipv6 = af_inet6
  family another = 0

  -- The bytes before a packet.
  abbrev pub header : ℕ → Protocol → Bytes
  header offset p =
      if leb 4 offset then 0 ∷ 0 ∷ 0 ∷ family p ∷ replicate (offset - 4) 0 else replicate offset 0

  -- The bytes that `writePacket` writes.
  unfoldable pub write_packet : Endpoint → Packet → Bytes
  write_packet e p = if not (e.offset == 0) then header e.offset p.protocol ++ p.body else p.body

  -- `outboundLoop`: every packet up to the end of the channel, whether or not a write fails.
  unfoldable pub outbound_loop : Endpoint → List (Option Packet) → List Bytes
  outbound_loop e [] = []
  outbound_loop e (none ∷ ps) = []
  outbound_loop e (some p ∷ ps) = write_packet e p ∷ outbound_loop e ps
