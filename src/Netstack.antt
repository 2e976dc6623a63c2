-- ===== src/Netstack.antt =====
-- core/option/option.go: the options of the network stack, whose functions are a parameter.
pub mod Defaults
mod Tests
use tun_flow.Base.{ℕ, ◌≡◌, Bool, true, false, List, [], ◌∷◌, Bytes, Result, ok, err, panic, ℤ, pos}
use tun_flow.Base.Act.{Act, chain, ◌>>=◌, ◌>>◌, return}
use tun_flow.Base.Text.{codes}

pub data Version : Type 0 where
  ipv4 ipv6 : Version

-- A value that a function of stack.Stack is called with, with the protocol it is for. The minimum, the
-- maximum and the defaults of the buffers and the recovery are constants of gVisor.
pub data Setting : Type 0 where
  default_ttl : Version → ℕ → Setting
  forwarding : Version → Bool → Setting
  icmp_burst : ℤ → Setting
  icmp_limit : ℕ → Setting
  send_buffer receive_buffer : ℤ → ℤ → ℤ → Setting
  congestion_control : Bytes → Setting
  delay moderate_receive_buffer sack : Bool → Setting
  recovery : ℕ → Setting

pub record Constants : Type 0 where
  pub min_buffer_size : ℤ
  pub max_buffer_size : ℤ
  pub default_send_buffer_size : ℤ
  pub default_receive_buffer_size : ℤ
  pub rack_loss_detection : ℕ

-- Which call failed.
pub data Error : Type 0 where
  set_ipv4_ttl set_ipv6_ttl set_ipv4_forwarding set_ipv6_forwarding set_send_range : Error
  set_receive_range set_congestion_control set_delay set_moderate set_sack set_recovery : Error

-- The stack's functions: a state S, and each setting either made or refused.
pub record Stack (S : Type 0) : Type 0 where
  pub set : Setting → Act S (Unit {0}) (Unit {0})

-- The default values.
abbrev default_time_to_live : ℕ
default_time_to_live = 64

abbrev ip_forwarding_enabled : Bool
ip_forwarding_enabled = true

abbrev icmp_burst_default : ℤ
icmp_burst_default = pos 50

abbrev icmp_limit_default : ℕ
icmp_limit_default = 1000

abbrev tcp_congestion_control_algorithm : Bytes
tcp_congestion_control_algorithm = codes "reno"

abbrev tcp_delay_enabled : Bool
tcp_delay_enabled = false

abbrev tcp_moderate_receive_buffer_enabled : Bool
tcp_moderate_receive_buffer_enabled = false

abbrev tcp_sack_enabled : Bool
tcp_sack_enabled = true

abbrev pub refused :
    {S : Type 0} → Error → Result (Unit {0}) (Unit {0}) × S → Result Error (Unit {0}) × S
refused e (ok u, s) = (ok u, s)
refused e (err f, s) = (err e, s)
refused e (panic, s) = (panic, s)

abbrev pub unfailing : {S : Type 0} → Result (Unit {0}) (Unit {0}) × S → Result Error (Unit {0}) × S
unfailing (ok u, s) = (ok u, s)
unfailing (err f, s) = (ok tt, s)
unfailing (panic, s) = (panic, s)

module _ {S : Type 0} (stack : Stack S) (consts : Constants) where
  -- `Option`.
  abbrev pub StackOption : Type 0
  StackOption = Act S Error (Unit {0})

  -- `if err := s.Set...(...); err != nil { return fmt.Errorf(...) }`.
  unfoldable pub set_or : Error → Setting → StackOption
  set_or e x s = refused e (stack.set x s)

  -- A function of the stack that returns no error.
  unfoldable pub set_always : Setting → StackOption
  set_always x s = unfailing (stack.set x s)

  abbrev pub with_default_ttl : ℕ → StackOption
  with_default_ttl ttl = do
    set_or set_ipv4_ttl (default_ttl ipv4 ttl)
    set_or set_ipv6_ttl (default_ttl ipv6 ttl)

  abbrev pub with_forwarding : Bool → StackOption
  with_forwarding v = do
    set_or set_ipv4_forwarding (forwarding ipv4 v)
    set_or set_ipv6_forwarding (forwarding ipv6 v)

  abbrev pub with_icmp_burst : ℤ → StackOption
  with_icmp_burst burst = set_always (icmp_burst burst)

  abbrev pub with_icmp_limit : ℕ → StackOption
  with_icmp_limit limit = set_always (icmp_limit limit)

  abbrev pub with_tcp_send_buffer_size_range : ℤ → ℤ → ℤ → StackOption
  with_tcp_send_buffer_size_range a b c = set_or set_send_range (send_buffer a b c)

  abbrev pub with_tcp_send_buffer_size : ℤ → StackOption
  with_tcp_send_buffer_size size =
      set_or set_send_range (send_buffer consts.min_buffer_size size consts.max_buffer_size)

  abbrev pub with_tcp_receive_buffer_size_range : ℤ → ℤ → ℤ → StackOption
  with_tcp_receive_buffer_size_range a b c = set_or set_receive_range (receive_buffer a b c)

  abbrev pub with_tcp_receive_buffer_size : ℤ → StackOption
  with_tcp_receive_buffer_size size =
      set_or set_receive_range (receive_buffer consts.min_buffer_size size consts.max_buffer_size)

  abbrev pub with_tcp_congestion_control : Bytes → StackOption
  with_tcp_congestion_control cc = set_or set_congestion_control (congestion_control cc)

  abbrev pub with_tcp_delay : Bool → StackOption
  with_tcp_delay v = set_or set_delay (delay v)

  abbrev pub with_tcp_moderate_receive_buffer : Bool → StackOption
  with_tcp_moderate_receive_buffer v = set_or set_moderate (moderate_receive_buffer v)

  abbrev pub with_tcp_sack_enabled : Bool → StackOption
  with_tcp_sack_enabled v = set_or set_sack (sack v)

  abbrev pub with_tcp_recovery : ℕ → StackOption
  with_tcp_recovery v = set_or set_recovery (recovery v)

  -- The loop of `WithDefault`.
  unfoldable pub all_of : List StackOption → StackOption
  all_of [] s = (ok tt, s)
  all_of (opt ∷ opts) s = (opt >>= λ u. all_of opts) s

  -- `WithDefault`.
  unfoldable pub with_default : StackOption
  unfolding all_of
  with_default = all_of (
      with_default_ttl default_time_to_live
      ∷ with_forwarding ip_forwarding_enabled
      ∷ with_icmp_burst icmp_burst_default
      ∷ with_icmp_limit icmp_limit_default
      ∷ with_tcp_send_buffer_size_range consts.min_buffer_size consts.default_send_buffer_size
          consts.max_buffer_size
      ∷ with_tcp_receive_buffer_size_range consts.min_buffer_size consts.default_receive_buffer_size
          consts.max_buffer_size
      ∷ with_tcp_congestion_control tcp_congestion_control_algorithm
      ∷ with_tcp_delay tcp_delay_enabled
      ∷ with_tcp_moderate_receive_buffer tcp_moderate_receive_buffer_enabled
      ∷ with_tcp_sack_enabled tcp_sack_enabled
      ∷ with_tcp_recovery consts.rack_loss_detection
      ∷ [])
