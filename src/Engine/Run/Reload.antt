-- ===== src/Engine/Run/Reload.antt =====
-- How a reload ends: `Reload` of engine/reload.go.
use tun_flow.Base.{
  ℕ, ◌≡◌, ◌≢◌, refl, ap, ◌∙◌, inl, inr, true, List, [], ◌∷◌, ◌++◌, Option, none, some, arith,
  is_empty, Result, ok, err, Bool-cases, Result-cases,
}
use tun_flow.Routing
use tun_flow.Engine.{Key, Error, Outside, Engine, bind_to_interface, routing_mark, SocketOption}
use tun_flow.Engine.Parse.{parse_proxy}
use tun_flow.Engine.Run.{general, new_routing, reload, running, find_interface, bind_interface}
use tun_flow.Engine.Run.Frames.{new_routing-ne-panic, parse_proxy-ne-panic, find_interface-ne-panic}

-- How a reload ends: it changes nothing, or it replaces the policy, the key and the socket options of a
-- running engine together, the options by that of the interface alone.
pub data Reloads (out : Outside) (k : Key) (e : Engine)
    : Result Error (Unit {0}) × Engine → Type 0 where
  unchanged : (w : Error) → Reloads out k e (err w, e)
  replaced :
      (p : ℕ) (r : Routing.Proxy) (i : Option ℕ)
      → running e ≡ true
      → parse_proxy out k.proxy ≡ ok p
      → new_routing out k ≡ ok r
      → find_interface out k ≡ ok i
      → Reloads out k e (
        ok tt,
        record (bind_interface out i (record e { dialer = [] })) {
          proxy = some p;
          routing_proxy = some r;
          key = some k;
          tunnel_proxy = some r;
        },
      )

-- `Reload` is all or nothing: where it returns an error the engine is as before, with its key, proxies
-- and socket options. Otherwise the engine was running, the key, the proxy and the policy are
-- replaced by the new ones, also in the tunnel, and the dialer's socket options by that of the key's
-- interface, if it has one, and nothing else: not the mark of the key. The device and the stack stay.
pub reload-Reloads :
    (out : Outside) (k : Key) (e : Engine) → Reloads out k e (reload out (some k) e)
unfolding reload
reload-Reloads out k e = elim (Bool-cases (running e)) [
  | inr idle ↦ rw idle (unchanged _)
  | inl runs ↦ elim (Bool-cases (is_empty k.proxy)) [
    | inl no_proxy ↦ rw (runs, no_proxy) (unchanged _)
    | inr named ↦
        rw (runs, named)
          (elim (Result-cases (parse_proxy out k.proxy)) [
            | inl (inl (p, f)) ↦ elim (Result-cases (new_routing out k)) [
              | inl (inl (r, g)) ↦ elim (Result-cases (find_interface out k)) [
                | inl (inl (i, h)) ↦ rw (f, g, h) (replaced p r i runs f g h)
                | inl (inr (w, h)) ↦ rw (f, g, h) (unchanged w)
                | inr h ↦ absurd (find_interface-ne-panic out k h)
              ]
              | inl (inr (w, g)) ↦ rw (f, g) (unchanged w)
              | inr g ↦ absurd (new_routing-ne-panic out k g)
            ]
            | inl (inr (w, f)) ↦ rw f (unchanged w)
            | inr f ↦ absurd (parse_proxy-ne-panic out k.proxy f)
          ])
  ]
]

-- The socket options of an interface, if there is one.
abbrev pub bound : Option ℕ → List SocketOption
bound none = []
bound (some i) = bind_to_interface i ∷ []

bind-dialer :
    (out : Outside) (i : Option ℕ) (e : Engine)
    → (bind_interface out i (record e { dialer = [] })).dialer ≡ bound i
bind-dialer out none e = refl
bind-dialer out (some i) e = refl

general-marked :
    (out : Outside) (k : Key) (e : Engine) (i : Option ℕ)
    → k.mark ≢ 0
    → find_interface out k ≡ ok i
    → (general out k e).0 ≡ ok tt
    → (general out k e).1.dialer ≡ bound i ++ routing_mark k.mark ∷ []
unfolding general
general-marked out k e none m found g = ground arith
general-marked out k e (some i) m found g = ground arith

Reloads-dialer :
    (out : Outside) (k : Key) (e : Engine) (i : Option ℕ) {x : Result Error (Unit {0}) × Engine}
    → find_interface out k ≡ ok i
    → Reloads out k e x
    → x.0 ≡ ok tt
    → x.1.dialer ≡ bound i
Reloads-dialer out k e i found (unchanged w) h = absurd (ground arith)
Reloads-dialer out k e i found (replaced p r j runs a b c) h =
    let same : j ≡ i = ground arith in bind-dialer out j e ∙ ap bound same

-- `Reload` forgets the firewall mark: where a key has one, `general`, the first step of a start, that
-- succeeds leaves the dialer with the interface's option and the mark, and a reload of the same key
-- that succeeds leaves it with the interface's option alone.
pub reload-mark :
    (out : Outside) (k : Key) (e f : Engine) (i : Option ℕ)
    → k.mark ≢ 0
    → find_interface out k ≡ ok i
    → (general out k e).0 ≡ ok tt
    → (reload out (some k) f).0 ≡ ok tt
    → ((general out k e).1.dialer ≡ bound i ++ routing_mark k.mark ∷ [])
      × ((reload out (some k) f).1.dialer ≡ bound i)
reload-mark out k e f i m found g r =
    (general-marked out k e i m found g, Reloads-dialer out k f i found (reload-Reloads out k f) r)
