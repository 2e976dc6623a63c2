-- ===== src/Relay/Tests.antt =====
-- Concrete runs of a relay connection.
use tun_flow.Base.{◌≡◌, refl, true, List, [], ◌∷◌, ◌++◌, map, some, arith, Bytes, take, ok}
use tun_flow.Relay.{Coding, RelayConn}
use tun_flow.Relay.Packets.{framed_all, receive, receive-framed_all, IsOpen}

abbrev coding : Coding
coding = record {
  version1 = 1;
  status_ok = 0;
  encode = λ r. 1 ∷ [];
  read_response = λ c. (ok (record { version = 1; status = 0 }), c);
}

abbrev two_packets : List Bytes
two_packets = (1 ∷ 2 ∷ 3 ∷ []) ∷ (4 ∷ []) ∷ []

-- A connection whose request is not sent yet.
abbrev waiting : RelayConn
waiting = record {
  conn = record {
    input = framed_all two_packets ++ 9 ∷ [];
    arrivals = [];
    writes_left = 2;
    output = [];
  };
  udp = true;
  responded = true;
  wbuf = some (7 ∷ []);
}

waiting-IsOpen : IsOpen coding 2 [] waiting
waiting-IsOpen = record { for_packets = refl; answered = refl }

receive-framed_all_example :
    ((receive coding 2 [] 2 waiting).0 ≡ map (take 2) two_packets)
    × ((receive coding 2 [] 2 waiting).1.conn.input ≡ 9 ∷ [])
receive-framed_all_example =
    receive-framed_all coding 2 [] two_packets (9 ∷ []) waiting waiting-IsOpen
      (omega arith, (omega arith, tt)) refl
