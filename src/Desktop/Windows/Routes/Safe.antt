-- ===== src/Desktop/Windows/Routes/Safe.antt =====
-- The functions of desktop/platform_windows.go leave the configuration alone, so the invariants of the
-- application hold on Windows too.
use tun_flow.Base.{
  ◌≡◌, refl, sym, subst, Bool, true, false, not, Bytes, Result, ok, err, panic, inl, inr,
  Bool-cases, is_empty, [], if◌then◌else◌,
}
use tun_flow.Base.Act.{Act, chain}
use tun_flow.Base.Text.{trim_space, codes}
use tun_flow.Desktop.{Config, Error, Fault, App, not_ready}
use tun_flow.Desktop.Control.Safe.{IsPlatform}
use tun_flow.Desktop.Windows.{
  Shell, RouteState, default_gateway, physical_interface_name, interface_index, resolve_proxy_ips,
  physical_interface_index, run_windows, current_network_signature,
}
use tun_flow.Desktop.Windows.Routes.{
  on_os, select_runtime_interface, teardown_routes, setup_routes, torn_down, keep_signature,
  check_ready, windows, clear_up, remove_routes, default_route_ready, original_config, or_default,
  tun_name_of, add_routes, set_static, set_dns, tun_address,
}

module _ {S : Type 0} (c : Config) where
  abbrev Holds : {A : Type 0} → Result Error A × (App RouteState × S) → Type 0
  Holds x = x.1.0.cfg ≡ c

  -- A step that leaves the configuration.
  abbrev Keeps : {A : Type 0} → Act (App RouteState × S) Error A → Type 0
  Keeps m = (x : App RouteState × S) → x.0.cfg ≡ c → Holds (m x)

  chain-Holds :
      {A B : Type 0} (x : Result Error A × (App RouteState × S))
      (f : A → Act (App RouteState × S) Error B)
      → Holds x
      → ((a : A) → Keeps (f a))
      → Holds (chain x.0 x.1 f)
  chain-Holds (ok a, x) f h k = k a x h
  chain-Holds (err e, x) f h k = h
  chain-Holds (panic, x) f h k = h

  torn_down-Holds :
      (e : Error) (x : Result Error (Unit {0}) × (App RouteState × S))
      → Holds x
      → Holds (torn_down e x)
  torn_down-Holds e (ok u, x) h = h
  torn_down-Holds e (err f, x) h = h
  torn_down-Holds e (panic, x) h = h

  keep_signature-Holds :
      (x : Result Error Bytes × (App RouteState × S)) → Holds x → Holds (keep_signature x)
  keep_signature-Holds (ok text, x) h = h
  keep_signature-Holds (err e, x) h = h
  keep_signature-Holds (panic, x) h = h

  clear_up-Holds :
      (x : Result Error (Unit {0}) × S) (a : App RouteState) → a.cfg ≡ c → Holds (clear_up x a)
  clear_up-Holds (ok u, s) a h = h
  clear_up-Holds (err e, s) a h = h
  clear_up-Holds (panic, s) a h = h

  module _ (shell : Shell S) where
    teardown_routes-Keeps : Keeps (teardown_routes shell)
    unfolding teardown_routes
    teardown_routes-Keeps (a, s) h = elim (Bool-cases a.up.active) [
      | inl up ↦
          subst (λ b. Holds (torn b)) (sym up) (clear_up-Holds (remove_routes shell a.up s) a h)
      | inr down ↦ subst (λ b. Holds (torn b)) (sym down) h
    ]
      where
        torn : Bool → Result Error (Unit {0}) × (App RouteState × S)
        torn b = if not b then (ok tt, (a, s)) else clear_up (remove_routes shell a.up s) a

    check_ready-Holds :
        (x : Result Error Bool × (App RouteState × S)) → Holds x → Holds (check_ready shell x)
    check_ready-Holds (ok true, x) h =
        keep_signature-Holds (on_os (current_network_signature shell x.0.cfg.interface) x) h
    check_ready-Holds (ok false, x) h =
        torn_down-Holds not_ready (teardown_routes shell x) (teardown_routes-Keeps x h)
    check_ready-Holds (err e, x) h =
        torn_down-Holds e (teardown_routes shell x) (teardown_routes-Keeps x h)
    check_ready-Holds (panic, x) h = h

    select-Keeps : Keeps (select_runtime_interface shell)
    unfolding select_runtime_interface
    select-Keeps x h = elim (Bool-cases (is_empty (trim_space x.0.cfg.interface))) [
      | inl none_given ↦ rw none_given (
          chain-Holds (on_os (default_gateway shell []) x) _ h λ gateway y hy.
            chain-Holds (on_os (physical_interface_name shell gateway) y) _ hy λ found z hz. hz)
      | inr given ↦ rw given h
    ]

    setup_routes-Keeps : Keeps (setup_routes shell)
    unfolding setup_routes
    setup_routes-Keeps x h =
        chain-Holds (select_runtime_interface shell x) _ (select-Keeps x h) λ _ y hy.
          let name = or_default (tun_name_of y.0.cfg.device) in
          let (original, s) = original_config shell name y.1 in
          chain-Holds (on_os (default_gateway shell y.0.runtime_interface) (y.0, s)) _ hy
            λ gateway y1 h1.
              chain-Holds (on_os (interface_index shell name) y1) _ h1 λ tun_index y2 h2.
                chain-Holds (on_os (resolve_proxy_ips shell y.0.cfg.proxy) y2) _ h2 λ ips y3 h3.
                  chain-Holds (on_os (physical_interface_index shell gateway) y3) _ h3
                    λ index y4 h4.
                      chain-Holds
                        (on_os
                          (run_windows shell
                            (set_static name tun_address (codes "255.254.0.0") (codes "none")))
                          y4)
                        _ h4
                        λ _ y5 h5.
                          chain-Holds (on_os (run_windows shell (set_dns name)) y5) _ h5 λ _ y6 h6.
                            chain-Holds
                              (on_os (add_routes shell name tun_index index gateway original ips)
                                y6)
                              _ h6
                              λ added y7 h7.
                                check_ready-Holds (on_os (default_route_ready shell) _) h7

-- The functions of Windows meet what the application asks of a platform.
pub windows-IsPlatform :
    {S : Type 0} (shell : Shell S) (register : Bool → Act S Fault (Unit {0}))
    → IsPlatform (windows shell register)
windows-IsPlatform shell register = record {
  select-cfg = λ x. select-Keeps x.0.cfg shell x refl;
  setup-cfg = λ x. setup_routes-Keeps x.0.cfg shell x refl;
  teardown-cfg = λ x. teardown_routes-Keeps x.0.cfg shell x refl;
}
