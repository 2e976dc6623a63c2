-- ===== src/Desktop/Windows/Routes/Setup.antt =====
-- `setupRoutesLocked` of desktop/platform_windows.go as a whole, with its check and its teardown.
use tun_flow.Base.{◌≡◌, Bool, true, false, ◌||◌, List, [], Bytes, Result, ok, err, panic}
use tun_flow.Base.Act.{Act}
use tun_flow.Desktop.{Error, App}
use tun_flow.Desktop.Windows.{Shell, RouteState, resolve_proxy_ips}
use tun_flow.Desktop.Windows.Rollback.{Route, is_default, is_among, IsTable, Routed, routed}

module _ {S : Type 0} (shell : Shell S) (has : Route → S → Bool) (table : IsTable shell has) where
  -- A step that changes no route.
  abbrev Quiet : {A : Type 0} → Act S Error A → Type 0
  Quiet m = (s : S) (q : Route) → has q (m s).1 ≡ has q s

  module _ (s0 : S) (added : List Bytes) where
    abbrev named : Route → Bool
    named q = is_default q || is_among q added

    abbrev OthersStay : S → Type 0
    OthersStay t = (q : Route) → named q ≡ false → has q t ≡ has q s0

    -- In the middle of a teardown, with the routes of `rest` still to be deleted.
    record Mid (rest : List Bytes) (t : S) : Type 0 where
      others : OthersStay t
      gone : (q : Route) → named q ≡ true → is_among q rest ≡ false → has q t ≡ false

    record Deleted (x : Result Error (Unit {0}) × S) : Type 0 where
      others : OthersStay x.1
      all_gone : x.0 ≡ ok tt → Mid [] x.1

    -- How the commands of a teardown end.
    data Removed : Result Error (Unit {0}) × S → Type 0 where
      all_removed : {t : S} → ((q : Route) → has q t ≡ has q s0) → Removed (ok tt, t)
      some_left : {e : Error} {t : S} → OthersStay t → Removed (err e, t)
      died : {t : S} → Removed (panic, t)

  -- How `setupRoutesLocked` ends, from routes s0 and the address of the proxy: the routes of the addresses
  -- that it resolves to and the default one have come, where there were none, and no other, and the
  -- state of the application names them; or an error with no routes up and all routes as before; or
  -- an error with the routes still up for the application, all routes but those that its state names
  -- as before; or a panic.
  pub data SetUp (s0 : S) (proxy : Bytes)
      : Result Error (Unit {0}) × (App RouteState × S) → Type 0 where
    ready :
        {a : App RouteState} {s : S} {ips : List Bytes} (t : S)
        → (resolve_proxy_ips shell proxy t).0 ≡ ok ips
        → a.up.active ≡ true
        → a.up.proxy_ips ≡ routed shell ips
        → Routed has s0 (routed shell ips) s
        → SetUp s0 proxy (ok tt, (a, s))
    none_left :
        {e : Error} {a : App RouteState} {s : S}
        → a.up.active ≡ false
        → ((q : Route) → has q s ≡ has q s0)
        → SetUp s0 proxy (err e, (a, s))
    held :
        {e : Error} {a : App RouteState} {s : S}
        → a.up.active ≡ true
        → ((q : Route) → (is_default q || is_among q a.up.proxy_ips) ≡ false → has q s ≡ has q s0)
        → SetUp s0 proxy (err e, (a, s))
    broken : {x : App RouteState × S} → SetUp s0 proxy (panic, x)

  module _ (s0 : S) (proxy : Bytes) where
    -- Nothing was changed yet.
    record Unmoved (x : App RouteState × S) : Type 0 where
      same : (q : Route) → has q x.1 ≡ has q s0
      down : x.0.up.active ≡ false
      of_proxy : x.0.cfg.proxy ≡ proxy

    -- The routes are up, for the addresses that the proxy resolved to at t.
    record IsUp (t : S) (ips : List Bytes) (a : App RouteState) (s : S) : Type 0 where
      resolved : (resolve_proxy_ips shell proxy t).0 ≡ ok ips
      active : a.up.active ≡ true
      recorded : a.up.proxy_ips ≡ routed shell ips
      routes : Routed has s0 (routed shell ips) s
