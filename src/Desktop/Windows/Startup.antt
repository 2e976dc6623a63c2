-- ===== src/Desktop/Windows/Startup.antt =====
-- desktop/platform_startup_windows.go: the entry of the registry that starts the program with Windows.
use tun_flow.Base.{
  Bool, true, false, [], ◌∷◌, ◌++◌, List, Option, none, some, Bytes, Result, ok, err, panic,
}
use tun_flow.Base.Act.{Act}
use tun_flow.Base.Text.{codes}
use tun_flow.Desktop.{Fault, io}
use tun_flow.Desktop.Windows.{Shell}

-- `startupRunKey`, whose backslashes are of the byte 92.
abbrev run_key : Bytes
run_key =
    codes "HKLM"
    ++ 92
      ∷ (codes "Software"
          ++ 92
            ∷ (codes "Microsoft"
                ++ 92 ∷ (codes "Windows" ++ 92 ∷ (codes "CurrentVersion" ++ 92 ∷ codes "Run"))))

abbrev entry_name : Bytes
entry_name = codes "TunFlow"

abbrev pub query_entry : List Bytes
query_entry = codes "reg" ∷ codes "query" ∷ run_key ∷ codes "/v" ∷ entry_name ∷ []

abbrev pub delete_entry : List Bytes
delete_entry = codes "reg" ∷ codes "delete" ∷ run_key ∷ codes "/v" ∷ entry_name ∷ codes "/f" ∷ []

-- The program between quotation marks.
abbrev pub add_entry : Bytes → List Bytes
add_entry exe =
    codes "reg"
    ∷ codes "add"
    ∷ run_key
    ∷ codes "/v"
    ∷ entry_name
    ∷ codes "/t"
    ∷ codes "REG_SZ"
    ∷ codes "/d"
    ∷ (34 ∷ exe ++ 34 ∷ [])
    ∷ codes "/f"
    ∷ []

module _ {S : Type 0} (shell : Shell S) where
  -- A value that is not there is the state that is wanted.
  abbrev delete_found : Result Fault (Unit {0}) × S → Result Fault (Unit {0}) × S
  delete_found (ok u, s) = shell.run delete_entry s
  delete_found (err e, s) = (ok tt, s)
  delete_found (panic, s) = (panic, s)

  abbrev add_program : Option Bytes → Act S Fault (Unit {0})
  add_program none s = (err io, s)
  add_program (some exe) s = shell.run (add_entry exe) s

  -- `setStartWithWindows`, with the absolute path of os.Executable.
  unfoldable pub set_start_with_windows : (exe : Option Bytes) → Bool → Act S Fault (Unit {0})
  set_start_with_windows exe false s = delete_found (shell.run query_entry s)
  set_start_with_windows exe true s = add_program exe s
