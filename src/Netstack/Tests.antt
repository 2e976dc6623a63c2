-- ===== src/Netstack/Tests.antt =====
-- A concrete run of the default options.
use tun_flow.Base.{◌≡◌, refl, List, [], ◌∷◌, ◌++◌, ok, pos, length}
use tun_flow.Netstack.{Setting, Constants, Stack, with_default}

-- A stack that keeps a list of what was set.
abbrev logging : Stack (List Setting)
logging = record { set = λ x xs. (ok tt, xs ++ x ∷ []) }

abbrev constants : Constants
constants = record {
  min_buffer_size = pos 4096;
  max_buffer_size = pos 4194304;
  default_send_buffer_size = pos 1048576;
  default_receive_buffer_size = pos 1048576;
  rack_loss_detection = 1;
}

all_set : length (with_default logging constants []).1 ≡ 13
unfolding with_default tun_flow.Netstack.set_or tun_flow.Netstack.set_always
    tun_flow.Netstack.all_of
all_set = refl
