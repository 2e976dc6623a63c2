-- ===== src/Proxies.antt =====
-- proxy/: what dialing through a proxy gives. The connection to the server is the system's, and what
-- net/http, net/url and the wrapped transports do with it are parameters.
pub mod Simple
pub mod Shadowsocks
mod Tests
use tun_flow.Base.{
  ◌≡◌, refl, Bool, true, false, ◌&&◌, Option, none, some, Bytes, Result, ok, err, panic,
}

-- The result of `DialContext`, and whether the connection that was made is closed.
pub record Dial (E C : Type 0) : Type 0 where
  pub result : Result E C
  pub closed : Bool

-- `utils.SafeConnClose`, deferred with the error that is returned; a panic runs it with none yet.
abbrev safe_conn_close : {E : Type 0} → Result E (Unit {0}) → Bool
safe_conn_close (ok u) = false
safe_conn_close (err e) = true
safe_conn_close panic = false

abbrev returned : {E C : Type 0} → Result E (Unit {0}) → C → Result E C
returned (ok u) c = ok c
returned (err e) c = err e
returned panic c = panic

-- The end of every `DialContext`: the step on the connection, and the deferred call.
unfoldable pub finish : {E C : Type 0} → Result E (Unit {0}) × C → Dial E C
finish (r, c) = record { result = returned r c; closed = safe_conn_close r }

unfoldable pub dial_with : {E C : Type 0} → E → Option C → (C → Result E (Unit {0}) × C) → Dial E C
unfolding finish
dial_with not_made none step = record { result = err not_made; closed = false }
dial_with not_made (some c) step = finish (step c)

abbrev pub is_err {ℓ} : {E : Type 0} {A : Type ℓ} → Result E A → Bool
is_err (ok a) = false
is_err (err e) = true
is_err panic = false

abbrev pub made : {C : Type 0} → Option C → Bool
made none = false
made (some c) = true

finish-closed :
    {E C : Type 0} (x : Result E (Unit {0}) × C) → (finish x).closed ≡ is_err (finish x).result
unfolding finish
finish-closed (ok u, c) = refl
finish-closed (err e, c) = refl
finish-closed (panic, c) = refl

-- A connection that was made is closed exactly where dialing returns an error, so none is left open and
-- none that is returned is closed.
pub dial_with-closed :
    {E C : Type 0} (e : E) (c : Option C) (step : C → Result E (Unit {0}) × C)
    → (dial_with e c step).closed ≡ (made c && is_err (dial_with e c step).result)
unfolding dial_with
dial_with-closed e none step = refl
dial_with-closed e (some c) step = finish-closed (step c)
