-- ===== src/Cli/Capitals.antt =====
-- `command` of cli/cli.go on names that are not in capitals.
use mydis_old.Prelude.{
  ℕ, ◌≡◌, ◌≢◌, refl, inl, inr, Bool, Bool-cases, true, ◌&&◌, none, List, [], ◌∷◌, Bytes, beq,
  eq_of_beq, arith,
}
use mydis_old.Runtime.{World, ok}
use mydis_old.Auth.Permissions.{to_upper}
use mydis_old.Cli.{Setting, Session, stopped, unknown_command}
use mydis_old.Cli.Dispatch.{Entry, command, commands, find_command}

module _ {S : Setting} where
  are_capitals : List (Entry S) → Bool
  are_capitals [] = true
  are_capitals ((name, f) ∷ es) = beq (to_upper name) name && are_capitals es

  find_command-are_capitals :
      (cmd : Bytes) (es : List (Entry S))
      → are_capitals es ≡ true
      → to_upper cmd ≢ cmd
      → find_command cmd es ≡ none
  unfolding find_command are_capitals
  find_command-are_capitals cmd [] h n = refl
  find_command-are_capitals cmd ((name, f) ∷ es) h n = elim (Bool-cases (beq cmd name)) [
    | inl q ↦ absurd (n (rw (eq_of_beq cmd name q) (eq_of_beq (to_upper name) name (ground arith))))
    | inr q ↦ rw (q, find_command-are_capitals cmd es (ground arith) n) refl
  ]

commands-are_capitals : (S : Setting) (fuel : ℕ) → are_capitals (commands {S = S} fuel) ≡ true
unfolding are_capitals commands beq
commands-are_capitals S fuel = refl

module _ {S : Setting} where
  -- A command whose name is not in capitals is unknown: it changes nothing.
  pub command-capitals :
      (fuel : ℕ) (cmd : Bytes) (args : List Bytes) (s : Session S) (w : World S.etcd)
      → to_upper cmd ≢ cmd
      → command fuel cmd args s w ≡ (ok (stopped (unknown_command cmd)), s, w)
  unfolding command
  command-capitals fuel cmd args s w n =
      rw (find_command-are_capitals cmd (commands fuel) (commands-are_capitals S fuel) n) refl
