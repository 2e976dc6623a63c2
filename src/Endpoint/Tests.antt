-- ===== src/Endpoint/Tests.antt =====
-- Concrete runs of the endpoint.
use tun_flow.Base.{◌≡◌, refl, negsuc, true, false, [], ◌∷◌, List, ok, err, arith}
use tun_flow.Endpoint.{
  Endpoint, Packet, ipv4, ipv6, got, failed, new, zero_mtu, dispatch_loop, dispatch, write_packet,
}
use tun_flow.Endpoint.Loopback.{first_version, looped, dispatch_loop-looped}

abbrev four : Endpoint
four = record { mtu = 1500; offset = 4 }

abbrev two_packets : List Packet
two_packets =
    record { protocol = ipv4; body = 69 ∷ 1 ∷ 2 ∷ [] }
    ∷ record { protocol = ipv6; body = 96 ∷ [] }
    ∷ []

refused : new 0 true (negsuc 0) ≡ err zero_mtu
unfolding new
refused = refl

with_family :
    write_packet 30 four (record { protocol = ipv6; body = 96 ∷ [] }) ≡ 0 ∷ 0 ∷ 0 ∷ 30 ∷ 96 ∷ []
unfolding write_packet
with_family = refl

-- A packet that is too long, one while the stack is not attached, and one of no version.
dropped :
    dispatch_loop first_version
      (record { mtu = 2; offset = 0 })
      (got 3 (69 ∷ 0 ∷ 0 ∷ []) true ∷ got 1 (69 ∷ []) false ∷ got 1 (16 ∷ []) true ∷ failed ∷ [])
    ≡ ok (record { packets = []; cancelled = true })
unfolding dispatch_loop dispatch
dropped = refl

dispatch_loop-looped_example :
    dispatch_loop first_version four (looped first_version 30 four two_packets)
    ≡ ok (record { packets = two_packets; cancelled = true })
dispatch_loop-looped_example =
    dispatch_loop-looped first_version 30 four two_packets (λ b bs. refl) (ground arith)
