-- ===== src/Engine/Run/Sessions.antt =====
-- How a stop ends, and any sequence of calls of the engine: at most one device is open.
use tun_flow.Base.{
  ℕ, ◌≡◌, refl, sym, ap, subst, ◌∙◌, ◌⊎◌, inl, inr, false, List, [], ◌∷◌, Option, none, some, arith,
  Result, ok, err, Option-cases,
}
use tun_flow.Engine.{Key, Error, Outside, Engine, close_failed}
use tun_flow.Engine.Run.{
  start, stop, reload, rest_stop, running, close_device, remove, insert, set_icmp_handler,
  start_with,
}
use tun_flow.Engine.Run.Start.{Starts, up, down, start-Starts}
use tun_flow.Engine.Run.Reload.{Reloads, unchanged, replaced, reload-Reloads}

-- The devices that stay open when the engine's is closed.
abbrev pub without : Option ℕ → List ℕ → List ℕ
without none hs = hs
without (some h) hs = remove h hs

-- `stop` fails only where the REST server does not close, and then keeps the device and the stack;
-- else the engine holds neither, and its device is closed and no other.
pub stop-cases :
    (out : Outside) (e : Engine)
    → ((stop out e).0 ≡ err close_failed) × ((stop out e).1 ≡ record e { rest_server = none })
      ⊎ (((stop out e).0 ≡ ok tt)
          × (running (stop out e).1 ≡ false)
          × ((stop out e).1.device ≡ none)
          × ((stop out e).1.open_devices ≡ without e.device e.open_devices))
unfolding stop rest_stop close_device
stop-cases out e = ground (arith, Option-cases e.device, Option-cases e.rest_server)

-- The devices that are open are the engine's.
pub data Owned (e : Engine) : Type 0 where
  none_open : e.device ≡ none → e.open_devices ≡ [] → Owned e
  one_open : (h : ℕ) → e.device ≡ some h → e.open_devices ≡ h ∷ [] → Owned e

-- One call of the package's functions, whatever the outside answers. A start is made with no device.
pub data Call (e : Engine) : Engine → Type 0 where
  inserts : (k : Key) → Call e (insert k e)
  sets_handler : (h : ℕ) → Call e (set_icmp_handler h e)
  starts : (out : Outside) → e.device ≡ none → Call e (start out e).1
  stops : (out : Outside) → Call e (stop out e).1
  reloads : (out : Outside) (k : Option Key) → Call e (reload out k e).1

pub data Session (e : Engine) : Engine → Type 0 where
  opening : Session e e
  then_call : {f g : Engine} → Session e f → Call f g → Session e g

Owned-same :
    {e x : Engine} → Owned e → x.device ≡ e.device → x.open_devices ≡ e.open_devices → Owned x
Owned-same (none_open d o) same_device same_open = none_open (same_device ∙ d) (same_open ∙ o)
Owned-same (one_open h d o) same_device same_open = one_open h (same_device ∙ d) (same_open ∙ o)

Starts-Owned :
    (out : Outside) (k : Key) {x : Result Error (Unit {0}) × Engine} → Starts out k [] x → Owned x.1
Starts-Owned out k (up h s r d st o f p) = one_open h d o
Starts-Owned out k (down w d o) = none_open d o

start-Owned : (out : Outside) (e : Engine) → e.device ≡ none → Owned e → Owned (start out e).1
start-Owned out e d (one_open h d' o) = absurd (ground arith)
start-Owned out e d (none_open d' o) = elim (Option-cases e.key) [
  | inl no_key ↦
      unfold start in subst (λ key. Owned (start_with out key e).1) (sym no_key) (none_open d' o)
  | inr (k, has_key) ↦
      Starts-Owned out k
        (subst (λ l. Starts out k l (start out e)) o (start-Starts out k e has_key d))
]

Reloads-Owned :
    (out : Outside) (k : Key) {e : Engine} {x : Result Error (Unit {0}) × Engine}
    → Owned e
    → Reloads out k e x
    → Owned x.1
Reloads-Owned out k own (unchanged w) = own
Reloads-Owned out k own (replaced p r none runs a b c) = Owned-same own refl refl
Reloads-Owned out k own (replaced p r (some i) runs a b c) = Owned-same own refl refl

reload-Owned : (out : Outside) (k : Option Key) (e : Engine) → Owned e → Owned (reload out k e).1
reload-Owned out none e own = unfold reload in own
reload-Owned out (some k) e own = Reloads-Owned out k own (reload-Reloads out k e)

stop-Owned : (out : Outside) (e : Engine) → Owned e → Owned (stop out e).1
stop-Owned out e own = elim (stop-cases out e) [
  | inl (failed, same) ↦ Owned-same own (ap (λ x. x.device) same) (ap (λ x. x.open_devices) same)
  | inr (stopped, off, d, o) ↦ none_open d (o ∙ closes own)
]
  where
    closes : Owned e → without e.device e.open_devices ≡ []
    closes (none_open d o) = ground arith
    closes (one_open h d o) = ground arith

Call-Owned : {e f : Engine} → Call e f → Owned e → Owned f
Call-Owned (inserts k) own = Owned-same own refl refl
Call-Owned (sets_handler h) own = Owned-same own refl refl
Call-Owned {e = e} (starts out idle) own = start-Owned out e idle own
Call-Owned {e = e} (stops out) own = stop-Owned out e own
Call-Owned {e = e} (reloads out k) own = reload-Owned out k e own

-- Whatever sequence of `Insert`, `SetICMPHandler`, `start`, `stop` and `Reload` is called, each start
-- with no device held, and whatever fails on the way: if the devices open at first are those that the
-- engine holds, one or none, so it is at the end. No device that a start opened is lost.
pub Session-Owned : {e f : Engine} → Owned e → Session e f → Owned f
Session-Owned own opening = own
Session-Owned own (then_call s c) = Call-Owned c (Session-Owned own s)
