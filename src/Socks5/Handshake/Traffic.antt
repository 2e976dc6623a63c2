-- ===== src/Socks5/Handshake/Traffic.antt =====
-- What the handshake may have written when it ends, whatever the server sends.
use tun_flow.Base.{
  ℕ, ◌≤◌, ◌≡◌, refl, sym, ◌≢◌, ◌∙◌, Bool, false, not, ◌||◌, [], ◌++◌, Option, none, some, arith,
  Bytes, length, Result, ok, err, panic, ltb, Bool-cases, inl, inr, index, append-nil, subst, ◌==◌,
}
use tun_flow.Base.Net.{Conn, read_full, write, refuse_if, lift}
use tun_flow.Base.Net.Steps.{
  AllBytes, At, At-eq, Ends-map, Ends, value, error, >>=-Ends, read_full-Ends, write-Ends,
  refuse_if-Ends, index-Ends,
}
use tun_flow.Socks5.Addr.Format.{IsAddr}
use tun_flow.Socks5.Addr.Bounds.{valid-ne-panic}
use tun_flow.Socks5.Addr.{valid}
use tun_flow.Socks5.{User, Command, Error, io}
use tun_flow.Socks5.Handshake.Reads.{read_addr-Ends}
use tun_flow.Socks5.Handshake.{
  greeting, auth_message, request, subnegotiate, with_user, authenticate, negotiate, send_request,
  client_handshake,
}

-- Both fields of RFC 1929 are one to 255 bytes long.
pub record Fits (u : User) : Type 0 where
  pub name_pos : 1 ≤ length u.username
  pub name_le : length u.username ≤ 255
  pub pass_pos : 1 ≤ length u.password
  pub pass_le : length u.password ≤ 255

-- The texts that a client may write: the greeting, the credentials only behind it and only if they
-- fit, the request only behind those.
pub data Transcript (addr : Bytes) (command : Command) (user : Option User) : Bytes → Type 0 where
  nothing : Transcript addr command user []
  greeted : Transcript addr command user (greeting user)
  authed :
      (u : User)
      → user ≡ some u
      → Fits u
      → Transcript addr command user (greeting user ++ auth_message u)
  requested : Transcript addr command user (greeting user ++ request command addr)
  authed_requested :
      (u : User)
      → user ≡ some u
      → Fits u
      → Transcript addr command user ((greeting user ++ auth_message u) ++ request command addr)

Fits-tests :
    (u : User)
    → (length u.username == 0 || length u.password == 0) ≡ false
    → (ltb 255 (length u.username) || ltb 255 (length u.password)) ≡ false
    → Fits u
Fits-tests u full short = ground arith

module _ (addr : Bytes) (command : Command) (user : Option User) (o : Bytes) where
  abbrev Text : Bytes → Type 0
  Text = Transcript addr command user

  -- The texts behind which the request may be written.
  abbrev Ready : Bytes → Type 0
  Ready s = Text s × Text (s ++ request command addr)

  ready :
      (u : User)
      → user ≡ some u
      → Fits u
      → (s : Bytes) → s ≡ greeting user ++ auth_message u
      → Ready s
  ready u e fits s eq = (rw eq (authed u e fits), rw eq (authed_requested u e fits))

  subnegotiate-Ends :
      (u : User) (c : Conn)
      → user ≡ some u
      → At o (greeting user) c
      → Ends Text (λ _ s. Ready s) o (subnegotiate u c)
  unfolding subnegotiate
  subnegotiate-Ends u c e at_c =
      >>=-Ends o (refuse_if (length u.username == 0 || length u.password == 0) _) _ c
        (refuse_if-Ends o (greeting user) _ _ c greeted at_c)
        λ _ s1 c1 full at1.
          >>=-Ends o (refuse_if (ltb 255 (length u.username) || ltb 255 (length u.password)) _) _ c1
            (refuse_if-Ends o (greeting user) _ _ c1 greeted (At-eq full.0 at1))
            λ _ s2 c2 short at2.
              let fits : Fits u = Fits-tests u full.1 short.1 in
              >>=-Ends o (write io (auth_message u)) _ c2
                (write-Ends io o (greeting user) (auth_message u) c2 greeted (At-eq short.0 at2))
                λ _ s3 c3 wrote at3.
                  let sent = greeting user ++ auth_message u in
                  >>=-Ends o (read_full io 2) _ c3
                    (read_full-Ends io o sent 2 c3 (authed u e fits) (At-eq wrote at3))
                    λ bs s4 c4 got4 at4.
                      >>=-Ends o (lift (index bs 1)) _ c4
                        (index-Ends {T = Text} o s4 bs 1 c4 (omega (arith, got4.1)) got4.2 at4)
                        λ code s5 c5 got5 at5.
                          Ends-map (λ _ s eq. ready u e fits s (eq.0))
                            (refuse_if-Ends o sent _ _ c5 (authed u e fits)
                              (At-eq (got5.0 ∙ got4.0) at5))

  with_user-Ends :
      (c : Conn) → At o (greeting user) c → Ends Text (λ _ s. Ready s) o (with_user user c)
  with_user-Ends c at_c = go user refl
    where
      go : (w : Option User) → user ≡ w → Ends Text (λ _ s. Ready s) o (with_user w c)
      go none e = unfold with_user in error greeted at_c
      go (some u) e = unfold with_user in subnegotiate-Ends u c e at_c

  authenticate-Ends :
      (chosen : ℕ) (c : Conn)
      → At o (greeting user) c
      → Ends Text (λ _ s. Ready s) o (authenticate user chosen c)
  unfolding authenticate
  authenticate-Ends chosen c at_c = elim (Bool-cases (chosen == 2)) [
    | inl pass ↦ rw pass (with_user-Ends c at_c)
    | inr other ↦ rw other (
        Ends-map (λ _ s eq. (subst Text (sym eq.0) greeted, rw eq.0 requested))
          (refuse_if-Ends o (greeting user) _ _ c greeted at_c))
  ]

  negotiate-Ends : (c : Conn) → At o [] c → Ends Text (λ _ s. Ready s) o (negotiate user c)
  unfolding negotiate
  negotiate-Ends c at_c =
      >>=-Ends o (write io (greeting user)) _ c (write-Ends io o [] (greeting user) c nothing at_c)
        λ _ s1 c1 wrote at1.
          >>=-Ends o (read_full io 2) _ c1
            (read_full-Ends io o (greeting user) 2 c1 greeted (At-eq wrote at1))
            λ bs s2 c2 got2 at2.
              >>=-Ends o (lift (index bs 0)) _ c2
                (index-Ends {T = Text} o s2 bs 0 c2 (omega (arith, got2.1)) got2.2 at2)
                λ ver s3 c3 got3 at3.
                  >>=-Ends o (refuse_if (not (ver == 5)) _) _ c3
                    (refuse_if-Ends o (greeting user) _ _ c3 greeted (At-eq (got3.0 ∙ got2.0) at3))
                    λ _ s4 c4 right at4.
                      >>=-Ends o (lift (index bs 1)) _ c4
                        (index-Ends {T = Text} o s4 bs 1 c4 (omega (arith, got2.1)) got2.2 at4)
                        λ method s5 c5 got5 at5.
                          authenticate-Ends method c5 (At-eq (got5.0 ∙ right.0) at5)

  send_request-Ends :
      (sent : Bytes) (c : Conn)
      → Ready sent
      → At o sent c
      → Ends Text
          (λ b s. IsAddr b × (s ≡ sent ++ request command addr))
          o
          (send_request addr command c)
  unfolding send_request
  send_request-Ends sent c r at_c =
      >>=-Ends o (write io (request command addr)) _ c
        (write-Ends io o sent (request command addr) c r.0 at_c)
        λ _ s1 c1 wrote at1.
          let full = sent ++ request command addr in
          >>=-Ends o (read_full io 3) _ c1 (read_full-Ends io o full 3 c1 r.1 (At-eq wrote at1))
            λ bs s2 c2 got2 at2.
              >>=-Ends o (lift (index bs 1)) _ c2
                (index-Ends {T = Text} o s2 bs 1 c2 (omega (arith, got2.1)) got2.2 at2)
                λ rep s3 c3 got3 at3.
                  >>=-Ends o (refuse_if (not (rep == 0)) _) _ c3
                    (refuse_if-Ends o full _ _ c3 r.1 (At-eq (got3.0 ∙ got2.0) at3))
                    λ _ s4 c4 right at4.
                      Ends-map (λ b s h. (h.1, h.0))
                        (read_addr-Ends o full r.1 c4 (At-eq right.0 at4))

-- Whatever byte values the server sends and whenever the connection fails, `ClientHandshake` does not
-- panic, and what it has written when it returns is a `Transcript`: the credentials only after the
-- greeting and only if both fields have 1 to 255 bytes, the request only after that, in full. If it
-- returns an address, that has the form of a SOCKS5 address and the request was written.
pub client_handshake-Ends :
    (addr : Bytes) (command : Command) (user : Option User) (c : Conn)
    → AllBytes c.input
    → Ends
        (Transcript addr command user)
        (λ b s. IsAddr b × ((front : Bytes) × (s ≡ front ++ request command addr)))
        c.output
        (client_handshake addr command user c)
unfolding client_handshake
client_handshake-Ends addr command user c small =
    >>=-Ends o (lift (valid addr)) _ c (valid-Ends (valid addr) (valid-ne-panic addr) start)
      λ v s1 c1 is1 at1.
        >>=-Ends o (refuse_if (not v) _) _ c1 (refuse_if-Ends o [] _ _ c1 nothing (At-eq is1 at1))
          λ _ s2 c2 is2 at2.
            >>=-Ends o (negotiate user) _ c2
              (negotiate-Ends addr command user o c2 (At-eq is2.0 at2))
              λ _ s3 c3 ready3 at3.
                Ends-map (λ b s h. (h.0, (s3, h.1)))
                  (send_request-Ends addr command user o s3 c3 ready3 at3)
  where
    o : Bytes
    o = c.output

    start : At o [] c
    start = record { output_is = sym (append-nil o); bytes = small }

    valid-Ends :
        (r : Result Error Bool)
        → r ≢ panic
        → At o [] c
        → Ends (Transcript addr command user) (λ _ s. s ≡ []) o (lift r c)
    valid-Ends (ok v) ne h = value refl h
    valid-Ends (err e) ne h = error nothing h
    valid-Ends panic ne h = absurd (ne refl)
