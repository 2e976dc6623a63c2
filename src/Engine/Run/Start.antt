-- ===== src/Engine/Run/Start.antt =====
-- How a start ends: `start` of engine/engine.go.
use tun_flow.Base.{
  ℕ, ℤ, ◌%◌, ◌^◌, ◌≡◌, ◌≢◌, refl, sym, ap, subst, ◌∙◌, inl, inr, List, ◌∷◌, ◌++◌, none, some, arith,
  Bytes, is_empty, Result, ok, err, panic, Bool-cases, Option-cases, Result-cases,
}
use tun_flow.Base.Act.{chain}
use tun_flow.Netip.{Addr}
use tun_flow.Routing
use tun_flow.Engine.{
  Key, Error, Outside, Engine, send_buffer_size, receive_buffer_size, StackOption, stack_failed,
}
use tun_flow.Engine.Parse.{parse_device, parse_multicast_groups}
use tun_flow.Engine.Run.{
  general, rest_api, set_routing, new_routing, make_stack, build, netstack, start, rest_stop,
  close_device, remove, buffer_size, configure, moderate, steps, give_up, start_with, deferred,
  hook,
}
use tun_flow.Engine.Run.Frames.{
  Keeps, general-Keeps, rest_api-Keeps, set_routing-Keeps, parse_device-ne-panic,
  parse_multicast_groups-ne-panic,
}

-- A device that was opened, if one was, is the engine's.
data Opened (e : Engine) (x : Engine) : Type 0 where
  no_device : x.device ≡ none → x.open_devices ≡ e.open_devices → Opened e x
  one_device : (h : ℕ) → x.device ≡ some h → x.open_devices ≡ h ∷ e.open_devices → Opened e x

data Made (e : Engine) : Result Error (Unit {0}) × Engine → Type 0 where
  complete :
      {x : Engine} (h s : ℕ)
      → x.device ≡ some h
      → x.stack ≡ some s
      → x.open_devices ≡ h ∷ e.open_devices
      → x.tunnel_proxy ≡ e.tunnel_proxy
      → Made e (ok tt, x)
  broken : {x : Engine} (w : Error) → Opened e x → Made e (err w, x)

buffer_size-ne-panic :
    (out : Outside) (s : Bytes) (make : ℤ → StackOption) → buffer_size out s make ≢ panic
buffer_size-ne-panic out s make = ground arith

-- The options and the stack, with the device h open.
configure-Made :
    (out : Outside) (k : Key) (groups : List Addr) (h : ℕ) (e x : Engine)
    → x.device ≡ some h
    → x.open_devices ≡ h ∷ e.open_devices
    → x.tunnel_proxy ≡ e.tunnel_proxy
    → Made e (configure out k groups h x)
unfolding configure
configure-Made out k groups h e x d o p =
    elim (Result-cases (buffer_size out k.tcp_send_buffer_size send_buffer_size)) [
      | inl (inl (send, f)) ↦
          elim (Result-cases (buffer_size out k.tcp_receive_buffer_size receive_buffer_size)) [
            | inl (inl (receive, g)) ↦
                elim (Option-cases
                  (out.create_stack h x.icmp_handler groups (moderate out k ++ send ++ receive))) [
                    | inl c ↦ rw (f, g, c) (broken stack_failed (one_device h d o))
                    | inr (s, c) ↦ rw (f, g, c) (complete h s d refl o p)
                  ]
            | inl (inr (w, g)) ↦ rw (f, g) (broken w (one_device h d o))
            | inr g ↦ absurd (buffer_size-ne-panic out _ _ g)
          ]
      | inl (inr (w, f)) ↦ rw f (broken w (one_device h d o))
      | inr f ↦ absurd (buffer_size-ne-panic out _ _ f)
    ]

make_stack-Made :
    (out : Outside) (k : Key) (groups : List Addr) (e : Engine) → Made e (make_stack out k groups e)
unfolding make_stack
make_stack-Made out k groups e = elim (Result-cases (parse_device out k.device (k.mtu % 2 ^ 32))) [
  | inl (inl (h, f)) ↦ rw f (configure-Made out k groups h e _ refl refl refl)
  | inl (inr (w, f)) ↦ rw f (broken w (no_device refl refl))
  | inr f ↦ absurd (parse_device-ne-panic out k.device (k.mtu % 2 ^ 32) f)
]

-- How a start from no device ends, with the devices o open before: the engine runs on a device of its
-- own with the policy of the key k, or nothing more is open.
pub data Starts (out : Outside) (k : Key) (o : List ℕ)
    : Result Error (Unit {0}) × Engine → Type 0 where
  up :
      {x : Engine} (h s : ℕ) (r : Routing.Proxy)
      → x.device ≡ some h
      → x.stack ≡ some s
      → x.open_devices ≡ h ∷ o
      → new_routing out k ≡ ok r
      → x.tunnel_proxy ≡ some r
      → Starts out k o (ok tt, x)
  down : {x : Engine} (w : Error) → x.device ≡ none → x.open_devices ≡ o → Starts out k o (err w, x)

module _ (out : Outside) (k : Key) (o : List ℕ) where
  -- No device, and the devices o open.
  abbrev pub Idle : Engine → Type 0
  Idle e = (e.device ≡ none) × (e.open_devices ≡ o)

  Keeps-Idle : {e : Engine} {x : Result Error (Unit {0}) × Engine} → Keeps e x → Idle e → Idle x.1
  Keeps-Idle kept (d, p) = (kept.same_device ∙ d, kept.same_open ∙ p)

  chain-Starts :
      (x : Result Error (Unit {0}) × Engine)
      (f : Unit {0} → Engine → Result Error (Unit {0}) × Engine)
      → x.0 ≢ panic
      → Idle x.1
      → (x.0 ≡ ok tt → Starts out k o (f tt x.1))
      → Starts out k o (chain x.0 x.1 f)
  chain-Starts (ok tt, s) f np idle next = next refl
  chain-Starts (err w, s) f np idle next = down w idle.0 idle.1
  chain-Starts (panic, s) f np idle next = absurd (np refl)

  set_routing-policy :
      (e : Engine)
      → (set_routing out k e).0 ≡ ok tt
      → (r : Routing.Proxy) × (new_routing out k ≡ ok r)
        × ((set_routing out k e).1.tunnel_proxy ≡ some r)
  unfolding set_routing
  set_routing-policy e h = elim (Result-cases (new_routing out k)) [
    | inl (inl (r, f)) ↦ (r, f, ground arith)
    | inl (inr (w, f)) ↦ absurd (ground arith)
    | inr f ↦ absurd (ground arith)
  ]

  remove_head : (h : ℕ) (xs : List ℕ) → remove h (h ∷ xs) ≡ xs
  remove_head h xs = ground arith

  fails : (x : Engine) (w : Error) → Idle x → Starts out k o (err w, close_device x)
  unfolding close_device
  fails x w (d, p) = down w (ground arith) (ground arith)

  deferred-Made :
      {e : Engine} {x : Result Error (Unit {0}) × Engine} (r : Routing.Proxy)
      → Idle e
      → new_routing out k ≡ ok r
      → e.tunnel_proxy ≡ some r
      → Made e x
      → Starts out k o (deferred out k x)
  unfolding close_device
  deferred-Made r idle f p (complete h s d st op tp) =
      up h s r (ground arith) (ground arith) (ground arith) f (ground arith)
  deferred-Made r idle f p (broken w (no_device d op)) = fails _ w (d, op ∙ idle.1)
  deferred-Made r idle f p (broken w (one_device h d op)) = down w (ground arith) (ground arith)

  build-Starts : (e : Engine) → Idle e → Starts out k o (deferred out k (build out k e))
  unfolding build
  build-Starts e idle = elim (Result-cases (parse_multicast_groups out k.multicast_groups)) [
    | inl (inl (groups, f)) ↦ rw f (routed groups (set_routing out k e) refl)
    | inl (inr (w, f)) ↦ rw f (fails e w idle)
    | inr f ↦ absurd (parse_multicast_groups-ne-panic out k.multicast_groups f)
  ]
    where
      routed :
          (groups : List Addr) (x : Result Error (Unit {0}) × Engine)
          → set_routing out k e ≡ x
          → Starts out k o (deferred out k (chain x.0 x.1 (λ _. make_stack out k groups)))
      routed groups (ok tt, s) q =
          let (r, f, p) = set_routing-policy e (ap (λ y. y.0) q) in
          let kept = Keeps-Idle (set_routing-Keeps out k e) idle in
          deferred-Made r (subst (λ y. Idle y.1) q kept) f (ap (λ y. y.1.tunnel_proxy) (sym q) ∙ p)
            (make_stack-Made out k groups s)
      routed groups (err w, s) q =
          let kept = Keeps-Idle (set_routing-Keeps out k e) idle in
          fails s w (subst (λ y. Idle y.1) q kept)
      routed groups (panic, s) q = absurd ((set_routing-Keeps out k e).no_panic (ap (λ y. y.0) q))

  netstack-Starts : (e : Engine) → Idle e → Starts out k o (netstack out k e)
  unfolding netstack
  netstack-Starts e idle = elim (Bool-cases (is_empty k.proxy)) [
    | inl no_proxy ↦ rw no_proxy (down _ idle.0 idle.1)
    | inr proxied ↦ elim (Bool-cases (is_empty k.device)) [
      | inl no_dev ↦ rw (proxied, no_dev) (down _ idle.0 idle.1)
      | inr dev ↦
          rw (proxied, dev) (build-Starts (hook out k.tun_pre_up e) (ground arith, ground arith))
    ]
  ]

  steps-Starts : (e : Engine) → Idle e → Starts out k o (steps out k e)
  steps-Starts e idle =
      let g = general-Keeps out k e in
      chain-Starts (general out k e) _ g.no_panic (Keeps-Idle g idle) λ _.
        let a = rest_api-Keeps out k (general out k e).1 in
        let idle1 = Keeps-Idle a (Keeps-Idle g idle) in
        chain-Starts (rest_api out k (general out k e).1) _ a.no_panic idle1
          λ _. netstack-Starts _ idle1

  give_up-Starts :
      {x : Result Error (Unit {0}) × Engine} → Starts out k o x → Starts out k o (give_up out x)
  unfolding rest_stop
  give_up-Starts (up h s r d st op f p) = up h s r d st op f p
  give_up-Starts (down {x = x} w d op) = down w (ground arith) (ground arith)

-- `start` of an engine that holds a key and no device ends in one of two ways. It returns nil, and the
-- engine holds a stack, the one device that was opened meanwhile, and in the tunnel the policy made of
-- the key. Or it returns an error, holds no device, and has left open no device that it opened.
pub start-Starts :
    (out : Outside) (k : Key) (e : Engine)
    → e.key ≡ some k
    → e.device ≡ none
    → Starts out k e.open_devices (start out e)
unfolding start
start-Starts out k e has_key idle =
    subst (λ key. Starts out k e.open_devices (start_with out key e)) (sym has_key)
      (give_up-Starts out k e.open_devices (steps-Starts out k e.open_devices e (idle, refl)))
