-- ===== src/Cli/Main.antt =====
-- `main` and `startEventHandler` of cli/cli.go: what the program's arguments mean, and the line
-- that an event prints.
use mydis_old.Prelude.{
  ℕ, Bool, false, ◌||◌, ◌==◌, if◌then◌else◌, Option, none, some, List, [], ◌∷◌, ◌++◌, Bytes, codes,
  beq, ℤ, pos, eq_ℤ,
}
use mydis_old.Watch.{Event}
use mydis_old.Cli.{Printed, text, Problem}

-- What main does: print the version, run one command and exit, or prompt until the end.
pub data Start : Type 0 where
  show_version : Start
  run_once : Bytes → Bytes → List Bytes → Start
  prompt_at : Bytes → Start

-- strings.Contains(address, ":")
abbrev has_colon : Bytes → Bool
has_colon [] = false
has_colon (b ∷ bs) = b == 58 || has_colon bs

abbrev pub with_port : Bytes → Bytes
with_port address = if has_colon address then address else address ++ codes ":8383"

abbrev pub asks_version : Bytes → Bool
asks_version arg =
    beq arg (codes "version")
    || beq arg (codes "-version")
    || beq arg (codes "--version")
    || beq arg (codes "-v")

abbrev pub start_at : Bytes → List Bytes → Start
start_at address [] = prompt_at address
start_at address (cmd ∷ args) = run_once address cmd args

-- The arguments behind the program's name.
unfoldable pub main : List Bytes → Start
main [] = prompt_at (codes "localhost:8383")
main (arg ∷ args) = if asks_version arg then show_version else start_at (with_port arg) args

-- The exit code after the one command.
abbrev pub exit_code : Option Problem → ℕ
exit_code none = 0
exit_code (some p) = 1

-- pb.Event_EventType_name
abbrev pub event_type_name : ℤ → Bytes
event_type_name z =
    if eq_ℤ z (pos 0) then codes "PUT" else if eq_ℤ z (pos 1) then codes "DELETE" else []

module _ {F : Type 0} where
  abbrev pub unless_empty : Bytes → List (Printed F)
  unless_empty [] = []
  unless_empty (b ∷ bs) = text (b ∷ bs) ∷ []

  abbrev pub event_line : Event → List (Printed F)
  event_line e =
      text (codes "EVENT")
      ∷ text (event_type_name e.kind)
      ∷ text e.current.key
      ∷ unless_empty e.current.value
