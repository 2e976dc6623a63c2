-- ===== src/Desktop/Windows/Original.antt =====
-- What `readTunConfig` of desktop/platform_windows.go reads out of what its script writes.
use tun_flow.Base.{ℕ, ◌≡◌, Bool, false, [], ◌∷◌, ◌++◌, Option, none, some, ◌==◌, Bytes, All}
use tun_flow.Base.Text.{is_space, bytes_eq, codes}
use tun_flow.Desktop.Windows.{Shell, TunConfig, no_config}

-- A text without spaces.
abbrev pub IsWord : Bytes → Type 0
IsWord = All (λ c. is_space c ≡ false)

-- The line that the script writes: the four texts between tabs, and the end of the line.
abbrev pub tun_line : (dhcp address prefix gateway : Bytes) → Bytes
tun_line dhcp address prefix gateway =
    dhcp ++ 9 ∷ (address ++ 9 ∷ (prefix ++ 9 ∷ (gateway ++ 13 ∷ 10 ∷ [])))

-- The line of three texts without an end.
abbrev three : (dhcp address rest : Bytes) → Bytes
three dhcp address rest = dhcp ++ 9 ∷ (address ++ 9 ∷ rest)

abbrev tab : ℕ → Bool
tab c = c == 9

-- The configuration that the line names, if its prefix is a number.
abbrev pub named : {S : Type 0} → Shell S → (dhcp address prefix gateway : Bytes) → Option TunConfig
named shell dhcp address prefix gateway = elim (shell.atoi prefix) [
  | none ↦ none
  | some n ↦ some (record {
    dhcp = bytes_eq dhcp (codes "true");
    address = address;
    prefix_length = n;
    gateway = gateway;
  })
]

abbrev pub or_no_config : Option TunConfig → TunConfig
or_no_config none = no_config
or_no_config (some c) = c
