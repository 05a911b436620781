-- ===== src/Cli/Listed.antt =====
-- The names in `help` of cli/cli.go and the tests of `command`.

use mydis_old.Prelude.{
  not, if◌then◌else◌, ◌&&◌, ◌||◌, ℕ, ◌≡◌, sym, refl, inl, inr, true, false, Bool, Bool-cases,
  Option, none, some, List, [], ◌∷◌, Bytes, codes, beq, eq_of_beq, arith,
}
use mydis_old.Cli.Help.{find_help, HelpEntry, help}
use mydis_old.Cli.{Setting}
use mydis_old.Cli.Dispatch.{find_command, commands}

-- LOCK, LOCKWITHTIMEOUT and UNLOCK
abbrev pub is_lock_command : Bytes → Bool
is_lock_command cmd =
    beq cmd (codes "LOCK") || beq cmd (codes "LOCKWITHTIMEOUT") || beq cmd (codes "UNLOCK")

abbrev pub is_none : {A : Type 0} → Option A → Bool
is_none none = true
is_none (some a) = false

module _ (S : Setting) (fuel : ℕ) where
  abbrev unknown : Bytes → Bool
  unknown name = is_none (find_command {S = S} name (commands fuel))

  agrees : Bytes → Bool
  agrees name = if unknown name then is_lock_command name else not (is_lock_command name)

  all_agree : List HelpEntry → Bool
  unfolding agrees
  all_agree [] = true
  all_agree (e ∷ es) = agrees e.name && all_agree es

  all_agree-help : all_agree help ≡ true
  unfolding all_agree find_command commands beq
  all_agree-help = refl

  all_agree-find_help :
      (name : Bytes) (es : List HelpEntry) (e : HelpEntry)
      → all_agree es ≡ true
      → find_help name es ≡ some e
      → agrees name ≡ true
  unfolding all_agree
  all_agree-find_help name [] e a h = absurd (cc)
  all_agree-find_help name (d ∷ es) e a h = elim (Bool-cases (beq d.name name)) [
    | inl q ↦ rw (sym (eq_of_beq d.name name q)) (ground arith)
    | inr q ↦ all_agree-find_help name es e (ground arith) (ground arith)
  ]

  agrees_lem : (name : Bytes) → agrees name ≡ true → unknown name ≡ is_lock_command name
  unfolding agrees
  agrees_lem name h = ground arith

  -- Of the names in `help`, exactly LOCK, LOCKWITHTIMEOUT and UNLOCK have no branch in `command`.
  pub help-commands :
      (name : Bytes) (e : HelpEntry)
      → find_help name help ≡ some e
      → is_none (find_command {S = S} name (commands fuel)) ≡ is_lock_command name
  help-commands name e h = agrees_lem name (all_agree-find_help name help e all_agree-help h)
