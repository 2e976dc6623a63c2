-- ===== src/Shadowstream/Connection/RoundTrip.antt =====
-- What one end of a connection of transport/shadowsocks/shadowstream writes, the other delivers.
use tun_flow.Base.{
  ℕ, suc, ◌+◌, ◌*◌, ◌≤◌, ◌≡◌, refl, sym, ap, ◌∙◌, [], ◌++◌, false, none, some, arith, ◌==◌, Bytes,
  length, ok,
}
use tun_flow.Base.Net.{Conn, write-suc, read_full-append}
use tun_flow.Shadowstream.{Crypto, IsCrypto, Cipher, io, iv_size, HasKey, Streams, cipher-Streams}
use tun_flow.Shadowstream.Stream.{Side, Moved, buf_size}
use tun_flow.Shadowstream.Stream.Writing.{begin-Sends, Wrote, whole, broken, write_stream-Wrote}
use tun_flow.Shadowstream.Stream.Reading.{write_to-Copied}
use tun_flow.Shadowstream.Connection.{
  StreamConn, ended, init_reader, init_writer, obtain_read_iv, obtain_write_iv, conn_write,
  conn_write_to, new_conn, side, after_read,
}

-- A `Write` with room ends well.
record Fine {S : Type 0} (k : Crypto S) (o : Bytes) (e : S) (p : Bytes) (r : Moved × Side S)
    : Type 0 where
  pub t : Side S
  pub result : r ≡ (record { count = length p; failed = none }, t)
  pub on_wire : t.conn.output ≡ o ++ (k.xor_key_stream e p).0

Wrote-Fine :
    {S : Type 0} (k : Crypto S) (o : Bytes) (e : S) (p : Bytes) (w : ℕ) (r : Moved × Side S)
    → length p ≤ buf_size * w
    → Wrote k o e [] p 0 w r
    → Fine k o e p r
Wrote-Fine k o e p w r room (whole {m} {s} fit count sent) = record {
  t = s;
  result = ap (λ c. (record { count = c; failed = none }, s)) (omega (arith, count));
  on_wire = sent.on_wire;
}
Wrote-Fine k o e p w r room (broken long count sent) = absurd (omega arith)

-- p is written whole, and the peer copies all of p into its sink and ends.
pub record Through {S : Type 0} (k : Crypto S) (c : Cipher) (iv p : Bytes) (a b : StreamConn S)
    (sink : Conn) : Type 0 where
  pub b' : StreamConn S
  pub sink' : Conn
  pub written : (conn_write k c (some iv) p a).0 ≡ some (record { count = length p; failed = none })
  pub copied :
      conn_write_to k c (suc (length p)) b sink
      ≡ ended (record { count = length p; failed = none }) (b', sink')
  pub delivered : sink'.output ≡ sink.output ++ p

module _ {S : Type 0} (k : Crypto S) (lawful : IsCrypto k) (c : Cipher) (iv : Bytes)
    (has : HasKey c) (size : length iv ≡ iv_size c) where
  -- The first `Write` of a connection.
  first_write :
      (p : Bytes) (s : Streams k c iv) (a : StreamConn S) (w : ℕ)
      → a.writer ≡ none
      → (length a.write_iv == iv_size c) ≡ false
      → a.conn.writes_left ≡ suc w
      → length p ≤ buf_size * w
      → ((conn_write k c (some iv) p a).0 ≡ some (record { count = length p; failed = none }))
        × ((conn_write k c (some iv) p a).1.conn.output
            ≡ (a.conn.output ++ iv) ++ (k.xor_key_stream s.e p).0)
  unfolding conn_write init_writer obtain_write_iv
  first_write p s a w no_writer no_iv room fits =
      let sent = write-suc io iv a.conn w room in
      let one : Conn = record a.conn { writes_left = w; output = a.conn.output ++ iv } in
      let begun : Side S = record { stream = s.e; conn = one } in
      let fine =
        Wrote-Fine k one.output s.e p w _ fits
          (write_stream-Wrote k lawful one.output s.e [] p begun (begin-Sends k lawful begun)) in
      (
        ground (arith, no_writer, no_iv, sent, s.encrypts, fine.result),
        ground (arith, no_writer, no_iv, sent, s.encrypts, fine.result, fine.on_wire),
      )

  -- The first `initReader` finds the IV, and what is behind it is for the stream.
  first_read :
      (sealed : Bytes) (s : Streams k c iv) (b : StreamConn S)
      → b.reader ≡ none
      → (length b.read_iv == iv_size c) ≡ false
      → b.conn.input ≡ iv ++ sealed
      → init_reader k c b ≡ (
        ok s.d,
        record b { conn = record b.conn { input = sealed }; reader = some s.d; read_iv = iv },
      )
  unfolding init_reader obtain_read_iv
  first_read sealed s b no_reader no_iv input =
      let got = read_full-append io (iv_size c) iv sealed b.conn (sym size) input in
      ground (arith, no_reader, no_iv, got, s.decrypts)

  -- The first `Write` of a new connection, and a peer whose connection holds exactly what it sent. Where
  -- the connection takes a write for the IV and one for each 2048 bytes of p, and the sink of the peer
  -- one for each byte, `Write` returns the length of p and no error, and `WriteTo` of the peer ends
  -- by itself, in whatever sizes the bytes arrive, and has written exactly p to its sink. The IV has
  -- the cipher's size, and the key is one that the cipher's constructor lets through.
  pub conn_write-conn_write_to :
      (p : Bytes) (wire peer sink : Conn) (w m : ℕ)
      → wire.output ≡ []
      → wire.writes_left ≡ suc w
      → length p ≤ buf_size * w
      → peer.input ≡ (conn_write k c (some iv) p (new_conn wire)).1.conn.output
      → sink.writes_left ≡ length p + m
      → Through k c iv p (new_conn wire) (new_conn peer) sink
  unfolding conn_write_to
  conn_write-conn_write_to p wire peer sink w m fresh room fits same takes =
      let s = cipher-Streams k c iv lawful has size in
      let unset : (0 == iv_size c) ≡ false = nonzero c in
      let (written, on_wire) = first_write p s (new_conn wire) w refl unset room fits in
      let sealed = (k.xor_key_stream s.e p).0 in
      let input : peer.input ≡ iv ++ sealed =
        same ∙ on_wire ∙ ap (λ o. (o ++ iv) ++ sealed) fresh in
      let got = first_read sealed s (new_conn peer) refl unset input in
      let begun : StreamConn S = record {
        conn = record peer { input = sealed };
        reader = some s.d;
        writer = none;
        read_iv = iv;
        write_iv = [];
      } in
      let all =
        write_to-Copied k lawful (suc (length p)) p 0 m (side s.d begun) sink (s.opposite p)
          (omega arith) takes in
      record {
        b' = after_read all.s' begun;
        sink' = all.w';
        written = written;
        copied = ground (arith, got, all.result);
        delivered = all.delivered;
      }
    where
      nonzero : (c : Cipher) → (0 == iv_size c) ≡ false
      nonzero c = ground arith
