-- ===== src/Shadowstream/Tests.antt =====
-- Concrete runs of the stream ciphers, with a toy stream that swaps the bytes 0 and 1.
use tun_flow.Base.{
  ℕ, zero, suc, ◌+◌, ◌≡◌, refl, ap, [], ◌∷◌, ◌++◌, some, Bytes, length, replicate, arith, ok,
}
use tun_flow.Base.Net.{Conn, write}
use tun_flow.Shadowstream.{Crypto, IsCrypto, ctr, encrypter}
use tun_flow.Shadowstream.Packet.{pack, unpack, unpack-pack_stream}
use tun_flow.Shadowstream.Stream.{Side, write_stream, write_loop}
use tun_flow.Shadowstream.Stream.Writing.{Wrote, begin-Sends, write_stream-Wrote}
use tun_flow.Shadowstream.Connection.{new_conn, conn_write, init_writer, obtain_write_iv}
use tun_flow.Shadowstream.Connection.RoundTrip.{Through, conn_write-conn_write_to}

abbrev swap : ℕ → ℕ
swap zero = 1
swap (suc zero) = 0
swap (suc (suc n)) = suc (suc n)

abbrev swap_all : Bytes → Bytes
swap_all [] = []
swap_all (x ∷ b) = swap x ∷ swap_all b

swap-swap : (x : ℕ) → swap (swap x) ≡ x
swap-swap zero = refl
swap-swap (suc zero) = refl
swap-swap (suc (suc x)) = refl

swap_all-swap_all : (b : Bytes) → swap_all (swap_all b) ≡ b
swap_all-swap_all [] = refl
swap_all-swap_all (x ∷ b) = rw (swap-swap x, swap_all-swap_all b)

swap_all-append : (a b : Bytes) → swap_all (a ++ b) ≡ swap_all a ++ swap_all b
swap_all-append [] b = refl
swap_all-append (x ∷ a) b = ap (◌∷◌ (swap x)) (swap_all-append a b)

length-swap_all : (b : Bytes) → length (swap_all b) ≡ length b
length-swap_all [] = refl
length-swap_all (x ∷ b) = ap suc (length-swap_all b)

abbrev toy : Crypto ℕ
toy = record {
  xor_key_stream = λ s b. (swap_all b, s + length b);
  new_ctr = λ key iv. some 0;
  new_cfb_encrypter = λ key iv. some 0;
  new_cfb_decrypter = λ key iv. some 0;
  new_unauthenticated_cipher = λ key iv. some 0;
  new_rc4 = λ key. 0;
  md5 = λ b. replicate 16 0;
}

toy-IsCrypto : IsCrypto toy
toy-IsCrypto = record {
  xor-append = λ s a b. swap_all-append a b;
  length-xor = λ s a. length-swap_all a;
  ctr_takes = λ key iv h e. cc;
  cfb_encrypter_takes = λ key iv h e. cc;
  cfb_decrypter_takes = λ key iv h e. cc;
  chacha20_takes = λ key iv h g e. cc;
  ctr_self = λ key iv s h. swap_all-swap_all;
  cfb_pair = λ key iv e d h g. swap_all-swap_all;
  chacha20_self = λ key iv s h. swap_all-swap_all;
  rc4_self = λ key. swap_all-swap_all;
}

unpack-pack_stream_example :
    (pkt : Bytes) × (pack toy 64 (some (replicate 16 3)) (1 ∷ 8 ∷ []) (ctr []) ≡ ok pkt)
    × (length pkt ≡ 18)
    × (unpack toy 2 pkt (ctr []) ≡ ok (1 ∷ 8 ∷ []))
unpack-pack_stream_example =
    unpack-pack_stream toy (ctr []) (replicate 16 3) (1 ∷ 8 ∷ []) 64 2 toy-IsCrypto tt refl
      (omega arith) (omega arith)

abbrev wire : Conn
wire = record { input = []; arrivals = []; writes_left = 2; output = [] }

-- The bytes come one by one.
abbrev peer : Conn
peer = record {
  input = replicate 16 3 ++ 0 ∷ 8 ∷ 1 ∷ [];
  arrivals = 0 ∷ 0 ∷ [];
  writes_left = 0;
  output = [];
}

abbrev sink : Conn
sink = record { input = []; arrivals = []; writes_left = 5; output = [] }

peer_holds :
    peer.input
    ≡ (conn_write toy
        (ctr [])
        (some (replicate 16 3))
        (1 ∷ 8 ∷ 0 ∷ [])
        (new_conn wire)).1.conn.output
unfolding conn_write init_writer obtain_write_iv write encrypter write_stream write_loop
peer_holds = refl

conn_write-conn_write_to_example :
    Through toy (ctr []) (replicate 16 3) (1 ∷ 8 ∷ 0 ∷ []) (new_conn wire) (new_conn peer) sink
conn_write-conn_write_to_example =
    conn_write-conn_write_to toy toy-IsCrypto (ctr []) (replicate 16 3) tt refl (1 ∷ 8 ∷ 0 ∷ [])
      wire peer sink 1 2 refl refl (omega arith) peer_holds refl

abbrev begun : Side ℕ
begun = record { stream = 0; conn = wire }

write_stream-Wrote_example :
    Wrote toy [] 0 [] (1 ∷ 8 ∷ []) 0 2 (write_stream toy (1 ∷ 8 ∷ []) begun)
write_stream-Wrote_example =
    write_stream-Wrote toy toy-IsCrypto [] 0 [] (1 ∷ 8 ∷ []) begun
      (begin-Sends toy toy-IsCrypto begun)
