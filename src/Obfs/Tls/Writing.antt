-- ===== src/Obfs/Tls/Writing.antt =====
-- What `TLSObfs.Write` of transport/simple-obfs/tls.go puts on the wire.
use tun_flow.Base.{
  ℕ, zero, suc, ◌+◌, ◌-◌, ◌≤◌, ◌<◌, ◌≡◌, refl, sym, ap, subst, ◌∙◌, false, List, [], ◌∷◌, ◌++◌,
  append-nil, append_assoc, Option, none, arith, if◌then◌else◌, Bytes, length, take, drop,
  be_bytes16, length-take, length-drop, length-append, take-append-drop, All,
}
use tun_flow.Base.Net.{IoError, write, write-suc}
use tun_flow.Obfs.Tls.{
  TlsObfs, chunk_size, Fresh, framed, write_chunk, write_loop, write_all, counted, hello_body,
  hello_end, extensions, make_client_hello_msg, server_name, fixed_extensions, cipher_suites,
}
use tun_flow.Obfs.Tls.Reading.{Frame, wire, payloads, Fits}

-- The argument is on the wire, in records that a reader takes apart, none longer than a chunk.
pub data Written (total : ℕ) (rest : Bytes) (to : TlsObfs)
    : (ℕ × Option IoError) × TlsObfs → Type 0 where
  written :
      {to' : TlsObfs} (fs : List Frame)
      → payloads fs ≡ rest
      → Fits false fs
      → All (λ f. length f.1 ≤ chunk_size) fs
      → to'.conn.output ≡ to.conn.output ++ wire fs
      → to'.conn.input ≡ to.conn.input
      → Written total rest to ((total, none), to')

abbrev sent : Bytes → ℕ → TlsObfs → TlsObfs
sent bs k to = record to {
  conn = record to.conn { writes_left = k; output = to.conn.output ++ framed bs };
}

write_chunk-eq :
    (fresh : Fresh) (bs : Bytes) (to : TlsObfs) (k : ℕ)
    → to.first_request ≡ false
    → to.conn.writes_left ≡ suc k
    → write_chunk fresh bs to ≡ ((length bs, none), sent bs k to)
unfolding write_chunk
write_chunk-eq fresh bs to k later h =
    subst
      (λ b.
        (if b then first else counted (length bs) (write (λ e. e) (framed bs) to.conn) to)
        ≡ ((length bs, none), sent bs k to))
      (sym later) (rw (write-suc (λ e. e) (framed bs) to.conn k h) refl)
  where
    first : (ℕ × Option IoError) × TlsObfs
    first =
        counted (length bs) (write (λ e. e) (make_client_hello_msg fresh bs to.server) to.conn)
          (record to { first_request = false })

-- A record in front of what is written behind it.
Written-cons :
    (total k : ℕ) (rest : Bytes) (to : TlsObfs) (x : (ℕ × Option IoError) × TlsObfs)
    → Written total (drop chunk_size rest) (sent (take chunk_size rest) k to) x
    → Written total rest to x
Written-cons total k rest to x (written fs p fits small out input) =
    written ((0x17 ∷ 0x03 ∷ 0x03 ∷ [], take chunk_size rest) ∷ fs)
      (ap (λ z. take chunk_size rest ++ z) p ∙ take-append-drop chunk_size rest)
      (refl, omega (arith, length-take {0} chunk_size rest), fits)
      (omega (arith, length-take {0} chunk_size rest), small)
      (out ∙ append_assoc to.conn.output (framed (take chunk_size rest)) (wire fs)) input

write_loop-Written :
    (fuel : ℕ) (fresh : Fresh) (total : ℕ) (rest : Bytes) (to : TlsObfs)
    → length rest ≤ fuel
    → length rest ≤ to.conn.writes_left
    → to.first_request ≡ false
    → Written total rest to (write_loop fuel fresh total rest to)
unfolding write_loop
write_loop-Written zero fresh total [] to enough room later =
    written [] refl tt tt (sym (append-nil to.conn.output)) refl
write_loop-Written zero fresh total (x ∷ xs) to enough room later = absurd (omega arith)
write_loop-Written (suc fuel) fresh total [] to enough room later =
    written [] refl tt tt (sym (append-nil to.conn.output)) refl
write_loop-Written (suc fuel) fresh total (x ∷ xs) to enough room later =
    let k : ℕ = to.conn.writes_left - 1 in
    let e = write_chunk-eq fresh (take chunk_size (x ∷ xs)) to k later (omega arith) in
    let less = length-drop {0} chunk_size (x ∷ xs) in
    rw e (
      Written-cons total k (x ∷ xs) to _ (
        write_loop-Written fuel fresh total (drop chunk_size (x ∷ xs))
          (sent (take chunk_size (x ∷ xs)) k to) (omega arith) (omega arith) later))

-- After the first request, with room for as many writes as there are bytes, `Write` returns the length
-- of its argument and no error, and has put on the wire records of at most 16384 bytes, each with a
-- header of three bytes and its exact length, whose payloads together are the argument.
pub write_all-Written :
    (fresh : Fresh) (b : Bytes) (to : TlsObfs)
    → length b ≤ to.conn.writes_left
    → to.first_request ≡ false
    → Written (length b) b to (write_all fresh b to)
unfolding write_all
write_all-Written fresh b to room later =
    write_loop-Written (length b) fresh (length b) b to (omega arith) room later

module _ (fresh : Fresh) (payload server : Bytes) where
  length-extensions : length (extensions payload server) ≡ 79 + length payload + length server
  length-extensions = omega (
    arith,
    length-append {0} payload (server_name server ++ fixed_extensions),
    length-append {0} server fixed_extensions,
  )

  length-hello_body :
      length fresh.random ≡ 28
      → length fresh.session_id ≡ 32
      → length (hello_body fresh payload server) ≡ 208 + length payload + length server
  length-hello_body r s = omega (
    arith,
    length-append {0} fresh.random (32 ∷ fresh.session_id ++ hello_end payload server),
    length-append {0} fresh.session_id (hello_end payload server),
    length-extensions,
  )

  -- A ClientHello behind its exact length.
  abbrev pub handshake : Bytes
  handshake =
      1 ∷ 0 ∷ be_bytes16 (length (hello_body fresh payload server))
      ++ hello_body fresh payload server

  -- Where 28 random bytes and a session of 32 are given and the lengths fit in 16 bits, the message of
  -- `makeClientHelloMsg` is a record with the exact length of its handshake, that is a ClientHello
  -- with its exact length, which ends in the extensions with their exact length.
  pub make_client_hello_msg-lengths :
      length fresh.random ≡ 28
      → length fresh.session_id ≡ 32
      → 212 + length payload + length server < 65536
      → (make_client_hello_msg fresh payload server
          ≡ 22 ∷ 3 ∷ 1 ∷ be_bytes16 (length handshake) ++ handshake)
        × (length handshake < 65536)
        × (hello_end payload server
            ≡ 0x00 ∷ 0x38 ∷ cipher_suites
              ++ (0x01 ∷ 0x00 ∷ be_bytes16 (length (extensions payload server))
                  ++ extensions payload server))
  unfolding make_client_hello_msg
  make_client_hello_msg-lengths r s small =
      let n = length-hello_body r s in
      let outer : 212 + length payload + length server ≡ length handshake = omega (arith, n) in
      (
        rw (outer, sym n) refl,
        omega (arith, outer),
        ap
            (λ k.
              0x00 ∷ 0x38 ∷ cipher_suites
              ++ (0x01 ∷ 0x00 ∷ be_bytes16 k ++ extensions payload server))
            (sym length-extensions),
      )
