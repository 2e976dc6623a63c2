-- ===== src/Desktop/Windows/Held.antt =====
-- After a teardown that failed, `Stop` of desktop/app.go on Windows fails again and again, and the
-- engine is never stopped.
use tun_flow.Base.{
  ℕ, zero, suc, ◌≡◌, refl, ap, sym, subst, ◌∙◌, Bool, true, false, List, [], ◌∷◌, Option, none,
  some, arith, inl, inr, Bool-cases, Bytes, is_empty, ◌||◌, Result, ok, err, panic,
}
use tun_flow.Base.Act.{Act, chain}
use tun_flow.Desktop.{Error, Fault, World, Host, system}
use tun_flow.Desktop.Control.{stop, stop_locked}
use tun_flow.Desktop.Windows.{Shell, TunConfig, RouteState, run_windows}
use tun_flow.Desktop.Windows.Routes.{
  delete_default_route, delete_proxy_route, set_dhcp, set_static, restore_tun_config, delete_all,
  set_mask, remove_routes, teardown_routes, windows,
}

-- What the commands do to the default route of an index: it can be deleted only where it is there, and
-- the other commands of a teardown do not bring it back.
pub record IsTable {S : Type 0} (shell : Shell S) (has : Bytes → S → Bool) : Type 0 where
  pub deleted :
      (i : Bytes) (s : S)
      → (shell.run (delete_default_route i) s).0 ≡ ok tt
      → has i (shell.run (delete_default_route i) s).1 ≡ false
  pub absent :
      (i : Bytes) (s : S)
      → has i s ≡ false
      → (f : Fault) × ((shell.run (delete_default_route i) s).0 ≡ err f)
        × (has i (shell.run (delete_default_route i) s).1 ≡ false)
  pub proxy_keeps :
      (i ip j : Bytes) (s : S)
      → has i s ≡ false
      → has i (shell.run (delete_proxy_route ip j) s).1 ≡ false
  pub dhcp_keeps :
      (i name : Bytes) (s : S) → has i s ≡ false → has i (shell.run (set_dhcp name) s).1 ≡ false
  pub static_keeps :
      (i name a m g : Bytes) (s : S)
      → has i s ≡ false
      → has i (shell.run (set_static name a m g) s).1 ≡ false

module _ {S : Type 0} (shell : Shell S) (has : Bytes → S → Bool) (table : IsTable shell has)
    (i : Bytes) where
  -- A step that does not bring the default route back.
  abbrev Keeps : {A : Type 0} → Act S Error A → Type 0
  Keeps m = (s : S) → has i s ≡ false → has i (m s).1 ≡ false

  chain-Keeps :
      {A B : Type 0} (x : Result Error A × S) (f : A → Act S Error B)
      → has i x.1 ≡ false
      → ((a : A) → Keeps (f a))
      → has i (chain x.0 x.1 f).1 ≡ false
  chain-Keeps (ok a, s) f h k = k a s h
  chain-Keeps (err e, s) f h k = h
  chain-Keeps (panic, s) f h k = h

  delete_all-Keeps : (j : Bytes) (ips : List Bytes) → Keeps (delete_all shell j ips)
  unfolding delete_all
  delete_all-Keeps j [] s h = h
  delete_all-Keeps j (ip ∷ ips) s h =
      chain-Keeps (run_windows shell (delete_proxy_route ip j) s) _ (table.proxy_keeps i ip j s h)
        (λ u. delete_all-Keeps j ips)

  set_mask-Keeps :
      (name : Bytes) (cfg : TunConfig) (mask : Option Bytes) → Keeps (set_mask shell name cfg mask)
  set_mask-Keeps name cfg none s h = h
  set_mask-Keeps name cfg (some mask) s h = table.static_keeps i name cfg.address mask _ s h

  restore-Keeps : (name : Bytes) (cfg : TunConfig) → Keeps (restore_tun_config shell name cfg)
  unfolding restore_tun_config
  restore-Keeps name cfg s h = elim (Bool-cases (cfg.dhcp || is_empty cfg.address)) [
    | inl auto ↦ rw auto (table.dhcp_keeps i name s h)
    | inr fixed ↦ rw fixed (set_mask-Keeps name cfg (shell.mask_text cfg.prefix_length) s h)
  ]

  abbrev rest_of : RouteState → Act S Error (Unit {0})
  rest_of up s =
      chain (delete_all shell up.physical_index up.proxy_ips s).0
        (delete_all shell up.physical_index up.proxy_ips s).1
        (λ u. restore_tun_config shell up.tun_name up.original)

  rest-Keeps : (up : RouteState) → Keeps (rest_of up)
  rest-Keeps up s h =
      chain-Keeps (delete_all shell up.physical_index up.proxy_ips s) _
        (delete_all-Keeps up.physical_index up.proxy_ips s h)
        (λ u. restore-Keeps up.tun_name up.original)

-- `Stop`, again and again.
abbrev pub stops : {S : Type 0} → Host S RouteState → ℕ → World S RouteState → World S RouteState
stops host zero w = w
stops host (suc n) w = stops host n (stop host w).1

-- The engine and the record of the routes are those of before, and the next `Stop` fails.
pub record Stuck {S : Type 0} (host : Host S RouteState) (before w : World S RouteState)
    : Type 0 where
  pub engine : w.engine ≡ before.engine
  pub up : w.app.up ≡ before.app.up
  pub error : Error
  pub fails : (stop host w).0 ≡ err error

Stuck-before :
    {S : Type 0} (host : Host S RouteState) (b' b w : World S RouteState)
    → b'.engine ≡ b.engine
    → b'.app.up ≡ b.app.up
    → Stuck host b' w
    → Stuck host b w
Stuck-before host b' b w he hu s = record {
  engine = s.engine ∙ he;
  up = s.up ∙ hu;
  error = s.error;
  fails = s.fails;
}

module _ {S : Type 0} (shell : Shell S) (has : Bytes → S → Bool) (table : IsTable shell has)
    (host : Host S RouteState) (register : Bool → Act S Fault (Unit {0})) where
  abbrev here : Host S RouteState
  here = record host { platform = windows shell register }

  removed :
      (up : RouteState) (s : S)
      → (shell.run (delete_default_route up.tun_index) s).0 ≡ ok tt
      → has up.tun_index (remove_routes shell up s).1 ≡ false
  unfolding remove_routes
  removed up s ran =
      chain-Keeps shell has table up.tun_index
        (run_windows shell (delete_default_route up.tun_index) s) _
        (table.deleted up.tun_index s ran) (λ u. rest-Keeps shell has table up.tun_index up)

  -- The world after a `Stop` that fails at once.
  abbrev failed_world : World S RouteState → Fault → World S RouteState
  failed_world w f = record w {
    app = record w.app { last_error = some (system f) };
    os = (shell.run (delete_default_route w.app.up.tun_index) w.os).1;
  }

  -- A `Stop` where the default route is gone.
  stop-gone :
      (w : World S RouteState) (f : Fault)
      → w.app.up.active ≡ true
      → (shell.run (delete_default_route w.app.up.tun_index) w.os).0 ≡ err f
      → stop here w ≡ (err (system f), failed_world w f)
  unfolding stop_locked teardown_routes remove_routes
  stop-gone w f active failed = ground (arith, active, failed)

  stops-Stuck :
      (n : ℕ) (w : World S RouteState)
      → w.app.up.active ≡ true
      → has w.app.up.tun_index w.os ≡ false
      → Stuck here w (stops here n w)
  stops-Stuck zero w active gone =
      let (f, failed, gone') = table.absent w.app.up.tun_index w.os gone in
      record {
        engine = refl;
        up = refl;
        error = system f;
        fails = ap (λ r. r.0) (stop-gone w f active failed);
      }
  stops-Stuck (suc n) w active gone =
      let (f, failed, gone') = table.absent w.app.up.tun_index w.os gone in
      subst (λ r. Stuck here w (stops here n r.1)) (sym (stop-gone w f active failed))
        (Stuck-before here (failed_world w f) w (stops here n (failed_world w f)) refl refl
          (stops-Stuck n (failed_world w f) active gone'))

-- Once a teardown has deleted the default route and then failed, `Stop` never succeeds again. Where
-- the routes are up, deleting the default route succeeds and another command of the teardown fails, so
-- that `Stop` ends with an error, and where the default route can be deleted only while it is there and
-- nothing but the application changes the routes: after any number of further calls of `Stop` the
-- engine is as it was, the record of the routes is too, and the next `Stop` fails as well.
pub stops-failed :
    {S : Type 0} (shell : Shell S) (has : Bytes → S → Bool) (host : Host S RouteState)
    (register : Bool → Act S Fault (Unit {0})) (w : World S RouteState) (e : Error) (n : ℕ)
    → IsTable shell has
    → w.app.up.active ≡ true
    → (shell.run (delete_default_route w.app.up.tun_index) w.os).0 ≡ ok tt
    → (remove_routes shell w.app.up w.os).0 ≡ err e
    → ((stop (record host { platform = windows shell register }) w).0 ≡ err e)
      × Stuck
          (record host { platform = windows shell register })
          w
          (stops (record host { platform = windows shell register }) (suc n) w)
unfolding stop_locked teardown_routes
stops-failed {S} shell has host register w e n table active ran failed =
    let world : World S RouteState = record w {
      app = record w.app { last_error = some e };
      os = (remove_routes shell w.app.up w.os).1;
    } in
    let here' = record host { platform = windows shell register } in
    let first : stop here' w ≡ (err e, world) = ground (arith, active, failed) in
    (
      ap (λ r. r.0) first,
      subst (λ r. Stuck here' w (stops here' n r.1)) (sym first)
          (Stuck-before here' world w (stops here' n world) refl refl (
            stops-Stuck shell has table host register n world active
              (removed shell has table host register w.app.up w.os ran))),
    )
