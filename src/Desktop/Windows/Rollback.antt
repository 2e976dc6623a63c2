-- ===== src/Desktop/Windows/Rollback.antt =====
-- Adding the routes in desktop/platform_windows.go is all or nothing.
use tun_flow.Base.{
  ◌≡◌, refl, sym, ap, subst, ◌∙◌, inl, inr, Bool-cases, Bool, true, false, ◌||◌, List, [], ◌∷◌,
  ◌++◌, append-nil, append_assoc, arith, if◌then◌else◌, Bytes, is_empty, Option, none, some, Result,
  ok, err, panic,
}
use tun_flow.Base.Act.{chain}
use tun_flow.Base.Text.{bytes_eq, bytes_eq_iff}
use tun_flow.Desktop.{Error, Fault, system}
use tun_flow.Desktop.Windows.{Shell, Query, TunConfig}
use tun_flow.Desktop.Windows.Routes.{
  add_proxy_route, delete_proxy_route, add_default_route, delete_default_route, set_dns, set_dhcp,
  set_static, restore_tun_config, set_mask, delete_each, add_all, undo, after_cleanup,
  added_default, add_routes, is_loopback,
}

-- A route: the default one, or that of a single address.
pub data Route : Type 0 where
  tun_default : Route
  route_of : Bytes → Route

abbrev pub is_route : Bytes → Route → Bool
is_route ip tun_default = false
is_route ip (route_of j) = bytes_eq ip j

abbrev pub is_default : Route → Bool
is_default tun_default = true
is_default (route_of ip) = false

abbrev pub is_among : Route → List Bytes → Bool
is_among q [] = false
is_among q (ip ∷ ips) = is_route ip q || is_among q ips

-- What the programs do to the routes: adding one succeeds only where there is none, deleting that of an
-- address works, deleting the default one touches no other, and the rest changes no route.
pub record IsTable {S : Type 0} (shell : Shell S) (has : Route → S → Bool) : Type 0 where
  pub add_ok :
      (ip gateway index : Bytes) (s : S)
      → (shell.run (add_proxy_route ip gateway index) s).0 ≡ ok tt
      → (has (route_of ip) s ≡ false)
        × ((q : Route)
            → has q (shell.run (add_proxy_route ip gateway index) s).1
              ≡ (if is_route ip q then true else has q s))
  pub add_err :
      (ip gateway index : Bytes) (s : S) (f : Fault)
      → (shell.run (add_proxy_route ip gateway index) s).0 ≡ err f
      → (q : Route) → has q (shell.run (add_proxy_route ip gateway index) s).1 ≡ has q s
  pub delete_ok :
      (ip index : Bytes) (s : S) (q : Route)
      → has q (shell.run (delete_proxy_route ip index) s).1
        ≡ (if is_route ip q then false else has q s)
  pub default_ok :
      (i : Bytes) (s : S)
      → (shell.run (add_default_route i) s).0 ≡ ok tt
      → (has tun_default s ≡ false)
        × ((q : Route)
            → has q (shell.run (add_default_route i) s).1
              ≡ (if is_default q then true else has q s))
  pub default_err :
      (i : Bytes) (s : S) (f : Fault)
      → (shell.run (add_default_route i) s).0 ≡ err f
      → (q : Route) → has q (shell.run (add_default_route i) s).1 ≡ has q s
  pub gone_ok :
      (i : Bytes) (s : S)
      → (shell.run (delete_default_route i) s).0 ≡ ok tt
      → has tun_default (shell.run (delete_default_route i) s).1 ≡ false
  pub gone_keeps :
      (i : Bytes) (s : S) (ip : Bytes)
      → has (route_of ip) (shell.run (delete_default_route i) s).1 ≡ has (route_of ip) s
  pub dhcp_keeps :
      (name : Bytes) (s : S) (q : Route) → has q (shell.run (set_dhcp name) s).1 ≡ has q s
  pub static_keeps :
      (name a m g : Bytes) (s : S) (q : Route)
      → has q (shell.run (set_static name a m g) s).1 ≡ has q s
  pub dns_keeps :
      (name : Bytes) (s : S) (q : Route) → has q (shell.run (set_dns name) s).1 ≡ has q s
  pub query_keeps : (x : Query) (s : S) (q : Route) → has q (shell.query x s).1 ≡ has q s
  pub show_keeps : (s : S) (q : Route) → has q (shell.show_interfaces s).1 ≡ has q s
  pub print_keeps : (s : S) (q : Route) → has q (shell.print_routes s).1 ≡ has q s
  pub lookup_keeps : (host : Bytes) (s : S) (q : Route) → has q (shell.lookup_ip host s).1 ≡ has q s

module _ {S : Type 0} (shell : Shell S) where
  -- The addresses that get a route.
  abbrev pub routed : List Bytes → List Bytes
  routed [] = []
  routed (ip ∷ ips) = if is_loopback shell ip then routed ips else ip ∷ routed ips

module _ {S : Type 0} (has : Route → S → Bool) where
  -- Since s0 the default route and the routes of `added`, and no others, have come.
  pub record Routed (s0 : S) (added : List Bytes) (s : S) : Type 0 where
    pub now : (q : Route) → has q s ≡ (if is_default q || is_among q added then true else has q s0)
    pub new : (q : Route) → (is_default q || is_among q added) ≡ true → has q s0 ≡ false

module _ {S : Type 0} (shell : Shell S) (gateway index : Bytes) (has : Route → S → Bool)
    (table : IsTable shell has) where
  delete_each-has :
      (ips : List Bytes) (s : S) (q : Route)
      → has q (delete_each shell index ips s) ≡ (if is_among q ips then false else has q s)
  unfolding delete_each
  delete_each-has [] s q = refl
  delete_each-has (ip ∷ ips) s q = ground (
    arith,
    delete_each-has ips (shell.run (delete_proxy_route ip index) s).1 q,
    table.delete_ok ip index s q,
  )

  pub restore-has :
      (name : Bytes) (cfg : TunConfig) (s : S) (q : Route)
      → has q (restore_tun_config shell name cfg s).1 ≡ has q s
  unfolding restore_tun_config
  restore-has name cfg s q = elim (Bool-cases (cfg.dhcp || is_empty cfg.address)) [
    | inl auto ↦ rw auto (table.dhcp_keeps name s q)
    | inr fixed ↦ rw fixed (masked (shell.mask_text cfg.prefix_length))
  ]
    where
      masked : (m : Option Bytes) → has q (set_mask shell name cfg m s).1 ≡ has q s
      masked none = refl
      masked (some m) = table.static_keeps name cfg.address m _ s q

  -- Since s0 the routes of `added`, and no others, have come.
  pub record Since (s0 : S) (added : List Bytes) (s : S) : Type 0 where
    pub now : (q : Route) → has q s ≡ (if is_among q added then true else has q s0)
    pub new : (q : Route) → is_among q added ≡ true → has q s0 ≡ false

  is_route-eq : (ip : Bytes) (q : Route) → is_route ip q ≡ true → route_of ip ≡ q
  is_route-eq ip tun_default h = cc
  is_route-eq ip (route_of j) h = ap route_of ((bytes_eq_iff ip j).0 h)

  is_among-append :
      (q : Route) (ip : Bytes) (xs : List Bytes)
      → is_among q (xs ++ ip ∷ []) ≡ (is_among q xs || is_route ip q)
  is_among-append q ip [] = ground arith
  is_among-append q ip (x ∷ xs) = ground (arith, is_among-append q ip xs)

  Since-add :
      (s0 : S) (added : List Bytes) (s : S) (ip : Bytes)
      → Since s0 added s
      → (shell.run (add_proxy_route ip gateway index) s).0 ≡ ok tt
      → Since s0 (added ++ ip ∷ []) (shell.run (add_proxy_route ip gateway index) s).1
  Since-add s0 added s ip h ran =
      let (absent, after) = table.add_ok ip gateway index s ran in
      record {
        now = λ q. ground (arith, after q, h.now q, is_among-append q ip added);
        new = λ q m. elim (Bool-cases (is_route ip q)) [
          | inl same ↦
              let is : route_of ip ≡ q = is_route-eq ip q same in
              let gone : has q s ≡ false = subst (λ z. has z s ≡ false) is absent in
              ground (arith, gone, h.now q)
          | inr other ↦ h.new q (ground (arith, m, other, is_among-append q ip added))
        ];
      }

  -- What `cleanup` leaves, whether or not it ends.
  undo-has :
      (name : Bytes) (original : TunConfig) (added : List Bytes) (e : Error) (s0 s : S) (q : Route)
      → Since s0 added s
      → has q (undo shell name index original added e s).1 ≡ has q s0
  undo-has name original added e s0 s q h =
      cleaned (restore_tun_config shell name original (delete_each shell index added s)) (
        restore-has name original (delete_each shell index added s) q
        ∙ delete_each-has added s q
        ∙ back)
    where
      back : (if is_among q added then false else has q s) ≡ has q s0
      back = elim (Bool-cases (is_among q added)) [
        | inl m ↦ ground (arith, m, h.new q)
        | inr m ↦ ground (arith, m, h.now q)
      ]

      cleaned :
          (x : Result Error (Unit {0}) × S)
          → has q x.1 ≡ has q s0
          → has q (after_cleanup shell e x).1 ≡ has q s0
      cleaned (ok u, t) k = k
      cleaned (err f, t) k = k
      cleaned (panic, t) k = k

  -- How adding routes ends: with those of `all` and the default one, or with an error and none, or with
  -- a panic.
  pub data Ended (s0 : S) (all : List Bytes) : Result Error (List Bytes) × S → Type 0 where
    came :
        {added : List Bytes} {s : S}
        → added ≡ all
        → Routed has s0 added s
        → Ended s0 all (ok added, s)
    undone : {e : Error} {s : S} → ((q : Route) → has q s ≡ has q s0) → Ended s0 all (err e, s)
    crashed : {s : S} → Ended s0 all (panic, s)

  undo-Ended :
      (name : Bytes) (original : TunConfig) (added all : List Bytes) (e : Error) (s0 s : S)
      → Since s0 added s
      → Ended s0 all (undo shell name index original added e s)
  undo-Ended name original added all e s0 s h =
      cases (restore_tun_config shell name original (delete_each shell index added s))
        (λ q. undo-has name original added e s0 s q h)
    where
      cases :
          (x : Result Error (Unit {0}) × S)
          → ((q : Route) → has q (after_cleanup shell e x).1 ≡ has q s0)
          → Ended s0 all (after_cleanup shell e x)
      cases (ok u, t) k = undone k
      cases (err f, t) k = undone k
      cases (panic, t) k = crashed

  -- Up to the default route.
  data AddedAll (s0 : S) (all : List Bytes) : Result Error (List Bytes) × S → Type 0 where
    got_all :
        {added : List Bytes} {s : S}
        → added ≡ all
        → Since s0 added s
        → AddedAll s0 all (ok added, s)
    ended : {e : Error} {s : S} → ((q : Route) → has q s ≡ has q s0) → AddedAll s0 all (err e, s)
    broke : {s : S} → AddedAll s0 all (panic, s)

  undone-AddedAll :
      (s0 : S) (all : List Bytes) (name : Bytes) (original : TunConfig) (added : List Bytes)
      (e : Error) (s : S)
      → Since s0 added s
      → AddedAll s0 all (undo shell name index original added e s)
  undone-AddedAll s0 all name original added e s h =
      cases (restore_tun_config shell name original (delete_each shell index added s))
        (λ q. undo-has name original added e s0 s q h)
    where
      cases :
          (x : Result Error (Unit {0}) × S)
          → ((q : Route) → has q (after_cleanup shell e x).1 ≡ has q s0)
          → AddedAll s0 all (after_cleanup shell e x)
      cases (ok u, t) k = ended k
      cases (err f, t) k = ended k
      cases (panic, t) k = broke

  Since-same :
      (s0 : S) (added : List Bytes) (s t : S)
      → Since s0 added s
      → ((q : Route) → has q t ≡ has q s)
      → Since s0 added t
  Since-same s0 added s t h same = record { now = λ q. same q ∙ h.now q; new = h.new }

  module _ (name : Bytes) (original : TunConfig) (s0 : S) (all : List Bytes) where
    -- One address: its command, and what follows on each outcome.
    add_one-AddedAll :
        (ip : Bytes) (ips added : List Bytes) (s : S) (r : Result Fault (Unit {0}))
        → (shell.run (add_proxy_route ip gateway index) s).0 ≡ r
        → Since s0 added s
        → ((t : S)
            → Since s0 (added ++ ip ∷ []) t
            → AddedAll s0 all (add_all shell name index gateway original ips (added ++ ip ∷ []) t))
        → is_loopback shell ip ≡ false
        → AddedAll s0 all (add_all shell name index gateway original (ip ∷ ips) added s)
    unfolding add_all
    add_one-AddedAll ip ips added s (ok u) e h next real =
        rw (real, e)
          (next (shell.run (add_proxy_route ip gateway index) s).1 (Since-add s0 added s ip h e))
    add_one-AddedAll ip ips added s (err f) e h next real =
        rw (real, e)
          (undone-AddedAll s0 all name original added (system f)
            (shell.run (add_proxy_route ip gateway index) s).1
            (Since-same s0 added s (shell.run (add_proxy_route ip gateway index) s).1 h
              (table.add_err ip gateway index s f e)))
    add_one-AddedAll ip ips added s panic e h next real = rw (real, e) broke

    add_all-AddedAll :
        (ips added : List Bytes) (s : S)
        → added ++ routed shell ips ≡ all
        → Since s0 added s
        → AddedAll s0 all (add_all shell name index gateway original ips added s)
    unfolding add_all
    add_all-AddedAll [] added s e h = got_all (sym (append-nil added) ∙ e) h
    add_all-AddedAll (ip ∷ ips) added s e h = elim (Bool-cases (is_loopback shell ip)) [
      | inl loop ↦ rw loop (add_all-AddedAll ips added s (skips loop e) h)
      | inr real ↦
          add_one-AddedAll ip ips added s (shell.run (add_proxy_route ip gateway index) s).0 refl h
            (λ t g. add_all-AddedAll ips (added ++ ip ∷ []) t (adds real e) g) real
    ]
      where
        skips :
            is_loopback shell ip ≡ true
            → added ++ routed shell (ip ∷ ips) ≡ all
            → added ++ routed shell ips ≡ all
        skips loop k = ground (arith, loop, k)

        adds :
            is_loopback shell ip ≡ false
            → added ++ routed shell (ip ∷ ips) ≡ all
            → (added ++ ip ∷ []) ++ routed shell ips ≡ all
        adds real k = ground (arith, real, k, append_assoc {0} added (ip ∷ []) (routed shell ips))

    Since-Routed :
        (added : List Bytes) (s t : S)
        → Since s0 added s
        → has tun_default s ≡ false
        → ((q : Route) → has q t ≡ (if is_default q then true else has q s))
        → Routed has s0 added t
    Since-Routed added s t h absent after = record {
      now = λ q. ground (arith, after q, h.now q);
      new = was_new;
    }
      where
        never : (l : List Bytes) → is_among tun_default l ≡ false
        never [] = refl
        never (ip ∷ l) = never l

        was_new : (q : Route) → (is_default q || is_among q added) ≡ true → has q s0 ≡ false
        was_new tun_default m = ground (arith, h.now tun_default, never added, absent)
        was_new (route_of ip) m = h.new (route_of ip) m

    default-Ended :
        (i : Bytes) (added : List Bytes) (s : S) (r : Result Fault (Unit {0}))
        → (shell.run (add_default_route i) s).0 ≡ r
        → added ≡ all
        → Since s0 added s
        → Ended s0 all (
            added_default shell name index original added
              (r, (shell.run (add_default_route i) s).1))
    default-Ended i added s (ok u) e k h =
        let (absent, after) = table.default_ok i s e in
        came k (Since-Routed added s (shell.run (add_default_route i) s).1 h absent after)
    default-Ended i added s (err f) e k h =
        undo-Ended name original added all (system f) s0 (shell.run (add_default_route i) s).1 (
          Since-same s0 added s (shell.run (add_default_route i) s).1 h (table.default_err i s f e))
    default-Ended i added s panic e k h = crashed

    chain-Ended :
        (i : Bytes) (x : Result Error (List Bytes) × S)
        → AddedAll s0 all x
        → Ended s0 all (
            chain x.0 x.1 λ added s.
              added_default shell name index original added (shell.run (add_default_route i) s))
    chain-Ended i x (got_all {added} {s} k h) =
        default-Ended i added s (shell.run (add_default_route i) s).0 refl k h
    chain-Ended i x (ended k) = undone k
    chain-Ended i x broke = crashed

  -- Adding the routes is all or nothing, the default one among them.
  pub add_routes-Ended :
      (name tun_index : Bytes) (original : TunConfig) (ips : List Bytes) (s : S)
      → Ended s (routed shell ips) (add_routes shell name tun_index index gateway original ips s)
  unfolding add_routes
  add_routes-Ended name tun_index original ips s =
      chain-Ended name original s (routed shell ips) tun_index
        (add_all shell name index gateway original ips [] s)
        (add_all-AddedAll name original s (routed shell ips) ips [] s refl
          (record { now = λ q. refl; new = λ q m. cc }))
