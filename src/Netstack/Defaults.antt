-- ===== src/Netstack/Defaults.antt =====
-- What `WithDefault` of core/option/option.go sets.
use tun_flow.Base.{
  ◌≡◌, refl, ◌∙◌, List, [], ◌∷◌, Result, ok, err, panic, true, false, pos, Option, none, some,
}
use tun_flow.Base.Act.{Act, chain, ◌>>=◌}
use tun_flow.Base.Text.{codes}
use tun_flow.Netstack.{
  Setting, default_ttl, forwarding, icmp_burst, icmp_limit, send_buffer, receive_buffer,
  congestion_control, delay, moderate_receive_buffer, sack, recovery, Constants, Error, Stack, ipv4,
  ipv6, set_or, set_always, with_default, refused, unfailing, set_ipv4_ttl, set_ipv6_ttl,
  set_ipv4_forwarding, set_ipv6_forwarding, set_send_range, set_receive_range,
  set_congestion_control, set_delay, set_moderate, set_sack, set_recovery,
}

-- The settings of `WithDefault` in the order in which they are made, each with the error that ends the
-- sequence where the stack refuses it; the two of ICMP cannot be refused.
abbrev pub default_settings : Constants → List (Option Error × Setting)
default_settings k =
    (some set_ipv4_ttl, default_ttl ipv4 64)
    ∷ (some set_ipv6_ttl, default_ttl ipv6 64)
    ∷ (some set_ipv4_forwarding, forwarding ipv4 true)
    ∷ (some set_ipv6_forwarding, forwarding ipv6 true)
    ∷ (none, icmp_burst (pos 50))
    ∷ (none, icmp_limit 1000)
    ∷ (
      some set_send_range,
      send_buffer k.min_buffer_size k.default_send_buffer_size k.max_buffer_size,
    )
    ∷ (
      some set_receive_range,
      receive_buffer k.min_buffer_size k.default_receive_buffer_size k.max_buffer_size,
    )
    ∷ (some set_congestion_control, congestion_control (codes "reno"))
    ∷ (some set_delay, delay false)
    ∷ (some set_moderate, moderate_receive_buffer false)
    ∷ (some set_sack, sack true)
    ∷ (some set_recovery, recovery k.rack_loss_detection)
    ∷ []

module _ {S : Type 0} (stack : Stack S) where
  -- The setting made, or the end of the sequence.
  abbrev pub make_one : Option Error → Setting → Act S Error (Unit {0})
  make_one (some e) x s = refused e (stack.set x s)
  make_one none x s = unfailing (stack.set x s)

  -- A sequence of settings, up to the first that is refused.
  pub make_each : List (Option Error × Setting) → Act S Error (Unit {0})
  make_each [] s = (ok tt, s)
  make_each ((e, x) ∷ rest) s = (make_one e x >>= λ u. make_each rest) s

  chain_assoc :
      (x : Result Error (Unit {0}) × S) (f g : Act S Error (Unit {0}))
      → (let y = chain x.0 x.1 (λ u. f) in chain y.0 y.1 (λ u. g))
        ≡ chain x.0 x.1 (λ u. f >>= λ v. g)
  chain_assoc (ok u, s) f g = refl
  chain_assoc (err e, s) f g = refl
  chain_assoc (panic, s) f g = refl

  chain_cong :
      (x : Result Error (Unit {0}) × S) (f g : Act S Error (Unit {0}))
      → ((t : S) → f t ≡ g t)
      → chain x.0 x.1 (λ u. f) ≡ chain x.0 x.1 (λ u. g)
  chain_cong (ok u, s) f g h = h s
  chain_cong (err e, s) f g h = refl
  chain_cong (panic, s) f g h = refl

  -- `WithDefault` makes the thirteen default settings, in their order, until the stack refuses one: then
  -- it returns the error of that setting and makes none behind it.
  pub with_default-make_each :
      (consts : Constants) (s : S)
      → with_default stack consts s ≡ make_each (default_settings consts) s
  unfolding with_default make_each set_or set_always
  with_default-make_each consts s =
      chain_assoc (refused set_ipv4_ttl (stack.set (default_ttl ipv4 64) s)) _ _
      ∙ chain_cong (refused set_ipv4_ttl (stack.set (default_ttl ipv4 64) s)) _ _ λ t.
        chain_cong (refused set_ipv6_ttl (stack.set (default_ttl ipv6 64) t)) _ _
          λ u. chain_assoc (refused set_ipv4_forwarding (stack.set (forwarding ipv4 true) u)) _ _
