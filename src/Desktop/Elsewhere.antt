-- ===== src/Desktop/Elsewhere.antt =====
-- desktop/platform_other.go and desktop/platform_startup_other.go: the platforms that are not Windows.
use tun_flow.Base.{Bool, false, refl, ok, err}
use tun_flow.Base.Act.{Act, return}
use tun_flow.Desktop.{Error, Fault, App, Platform, no_routes_here}
use tun_flow.Desktop.Control.Safe.{IsPlatform}

-- `routeState`.
pub record RouteState : Type 0 where
  pub active : Bool

module _ {S : Type 0} where
  abbrev pub select_runtime_interface : Act (App RouteState × S) Error (Unit {0})
  select_runtime_interface = return tt

  abbrev pub setup_routes : Act (App RouteState × S) Error (Unit {0})
  setup_routes x = (err no_routes_here, x)

  abbrev pub teardown_routes : Act (App RouteState × S) Error (Unit {0})
  teardown_routes (a, s) = (ok tt, (record a { up = record { active = false } }, s))

  abbrev pub set_start_with_windows : Bool → Act S Fault (Unit {0})
  set_start_with_windows enabled = return tt

  abbrev pub elsewhere : Platform S RouteState
  elsewhere = record {
    active = λ r. r.active;
    select_runtime_interface = select_runtime_interface;
    setup_routes = setup_routes;
    teardown_routes = teardown_routes;
    set_start_with_windows = set_start_with_windows;
  }

  pub elsewhere-IsPlatform : IsPlatform (elsewhere)
  elsewhere-IsPlatform = record {
    select-cfg = λ x. refl;
    setup-cfg = λ x. refl;
    teardown-cfg = λ x. refl;
  }
