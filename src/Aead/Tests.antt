-- ===== src/Aead/Tests.antt =====
-- Concrete runs of the AEAD transport, with a toy AEAD that appends a tag of one byte.
use tun_flow.Base.{
  ℕ, ◌≡◌, ◌≢◌, refl, [], ◌∷◌, ◌++◌, Option, none, some, Bytes, length, take, length-append,
  take-append_of_eq, ◌-◌, replicate, ok, err, arith,
}
use tun_flow.Aead.{Aead, IsAead, zero_chunk}
use tun_flow.Aead.Nonce.{steps, fresh, steps-ne}
use tun_flow.Aead.Stream.{Stream, read_record}
use tun_flow.Base.Net.{Conn}
use tun_flow.Aead.Stream.Copying.{read_from}
use tun_flow.Aead.Stream.Copying.Delivery.{read_from-refused}
use tun_flow.Aead.Stream.RoundTrip.{wire, read_records}
use tun_flow.Aead.Packet.{MetaCipher, crypter}
use tun_flow.Aead.Connection.{AeadConn, begun, conn_write, init_reader, conn_write-init_reader}

abbrev tagged_open : Bytes → Bytes → Option Bytes
tagged_open nonce c = some (take (length c - 1) c)

abbrev tagged : Aead
tagged = record {
  nonce_size = 2;
  overhead = 1;
  seal = λ nonce b. b ++ 9 ∷ [];
  unseal = tagged_open;
}

tagged-IsAead : IsAead tagged
tagged-IsAead = record {
  unseal-seal = λ nonce b. ground (
    arith,
    length-append {0} b (9 ∷ []),
    take-append_of_eq {0} (length (b ++ 9 ∷ []) - 1) b (9 ∷ [])
        (omega (arith, length-append {0} b (9 ∷ []))),
  );
  length-seal = λ nonce b. omega (arith, length-append {0} b (9 ∷ []));
}

steps-ne_example : steps 1 (fresh 2) ≢ steps 300 (fresh 2)
steps-ne_example = steps-ne 2 1 300 (omega arith) (omega arith)

abbrev writer : Stream
writer = record {
  nonce = 0 ∷ 0 ∷ [];
  conn = record { input = []; arrivals = []; writes_left = 3; output = [] };
}

-- Two bytes that arrive one by one.
abbrev source : Conn
source = record { input = 7 ∷ 8 ∷ []; arrivals = 0 ∷ []; writes_left = 0; output = [] }

abbrev peer : Stream
peer = record {
  nonce = 0 ∷ 0 ∷ [];
  conn = record {
    input = 0 ∷ 1 ∷ 9 ∷ 7 ∷ 9 ∷ 0 ∷ 1 ∷ 9 ∷ 8 ∷ 9 ∷ 0 ∷ 0 ∷ 9 ∷ 9 ∷ [];
    arrivals = [];
    writes_left = 0;
    output = [];
  };
}

read_from-refused_example :
    ((r' : Conn) × (s' : Stream) × (read_from tagged 3 0 source writer
        ≡ some (record { count = 2; failed = none }, r', s')))
    × ((k : ℕ) × ((read_records tagged k peer).0 ≡ ok (7 ∷ 8 ∷ []))
        × ((read_record tagged (read_records tagged k peer).1).0 ≡ err zero_chunk))
unfolding read_from tun_flow.Base.Net.write tun_flow.Base.Net.read_some
read_from-refused_example =
    read_from-refused tagged 3 0 source writer peer tagged-IsAead (omega arith) refl refl refl refl

abbrev keyed : MetaCipher
keyed = record { psk = replicate 16 1; make_aead = λ key. some tagged }

abbrev no_hkdf : Bytes → Bytes → Bytes → ℕ → Bytes
no_hkdf secret salt info n = take n secret

keyed-crypter : crypter no_hkdf keyed (replicate 16 3) ≡ ok tagged
unfolding crypter
keyed-crypter = refl

abbrev client : AeadConn
client = record {
  conn = record { input = []; arrivals = []; writes_left = 2; output = [] };
  reader = none;
  writer = none;
}

abbrev server : AeadConn
server = record {
  conn = record {
    input = replicate 16 3 ++ 0 ∷ 2 ∷ 9 ∷ 7 ∷ 8 ∷ 9 ∷ 5 ∷ [];
    arrivals = [];
    writes_left = 0;
    output = [];
  };
  reader = none;
  writer = none;
}

conn_write-init_reader_example :
    ((conn_write no_hkdf keyed (replicate 16 3) (7 ∷ 8 ∷ []) client).0
      ≡ record { count = 2; failed = none })
    × ((conn_write no_hkdf keyed (replicate 16 3) (7 ∷ 8 ∷ []) client).1.conn.output
        ≡ replicate 16 3 ++ wire tagged 2 (fresh 2) (7 ∷ 8 ∷ []))
    × (init_reader no_hkdf keyed server ≡ (
      ok tt,
      record server {
        conn = record server.conn { input = wire tagged 2 (fresh 2) (7 ∷ 8 ∷ []) ++ 5 ∷ [] };
        reader = some (begun tagged);
      },
    ))
    × ((read_records tagged 1
          (record { nonce = fresh 2; conn = (init_reader no_hkdf keyed server).1.conn })).0
        ≡ ok (7 ∷ 8 ∷ []))
conn_write-init_reader_example =
    conn_write-init_reader no_hkdf keyed tagged (replicate 16 3) (7 ∷ 8 ∷ []) (5 ∷ []) 0 client
      server tagged-IsAead keyed-crypter refl (λ e. cc) refl refl refl
