-- ===== src/Cli/Usage.antt =====
-- The numbers of arguments of the commands of cli/cli.go, and their usage in `help`.
use mathlib.Core.Path.{subst}
use mydis_old.Prelude.{
  ℕ, ◌≡◌, sym, refl, ◌⊎◌, inl, inr, true, false, Bool-cases, ltb, length, Option, none, some, List,
  [], ◌∷◌, ◌++◌, Bytes, codes, beq, eq_of_beq, arith,
}
use mydis_old.Cli.Help.{help, usage_of}
use mydis_old.Runtime.{World, ok}
use mydis_old.Cli.{
  Setting, Session, Command, stopped, Problem, not_enough_args, unknown_command, with_one, with_two,
  with_three,
}
use mydis_old.Cli.Dispatch.{
  Entry, find_command, commands, first_commands, key_commands, list_commands, hash_commands,
  user_commands, command, run_found, split_spaces,
}

-- The number of arguments in a usage line.
abbrev pub usage_args : Bytes → ℕ
usage_args usage = length (split_spaces usage).1

abbrev pub needed : Bytes → ℕ
needed name = usage_args (usage_of name help)

module _ {S : Setting} where
  -- With fewer arguments than n, nothing is done.
  record Needs (n : ℕ) (f : List Bytes → Command S) : Type 0 where
    refuses :
        (args : List Bytes) (s : Session S) (w : World S.etcd)
        → ltb (length args) n ≡ true
        → f args s w ≡ (ok (stopped not_enough_args), s, w)

  takes_none : (f : List Bytes → Command S) → Needs 0 f
  takes_none f = record { refuses = λ args s w h. absurd (ground arith) }

  one_short :
      (f : Bytes → Command S) (args : List Bytes) (s : Session S) (w : World S.etcd)
      → ltb (length args) 1 ≡ true
      → with_one f args s w ≡ (ok (stopped not_enough_args), s, w)
  unfolding with_one
  one_short f [] s w h = refl
  one_short f (a ∷ args) s w h = absurd (ground arith)

  takes_one : (f : Bytes → Command S) → Needs 1 (with_one f)
  takes_one f = record { refuses = λ args s w h. one_short f args s w h }

  two_short :
      (f : Bytes → Bytes → Command S) (args : List Bytes) (s : Session S) (w : World S.etcd)
      → ltb (length args) 2 ≡ true
      → with_two f args s w ≡ (ok (stopped not_enough_args), s, w)
  unfolding with_two
  two_short f [] s w h = refl
  two_short f (a ∷ []) s w h = refl
  two_short f (a ∷ b ∷ args) s w h = absurd (ground arith)

  takes_two : (f : Bytes → Bytes → Command S) → Needs 2 (with_two f)
  takes_two f = record { refuses = λ args s w h. two_short f args s w h }

  three_short :
      (f : Bytes → Bytes → Bytes → Command S) (args : List Bytes) (s : Session S) (w : World S.etcd)
      → ltb (length args) 3 ≡ true
      → with_three f args s w ≡ (ok (stopped not_enough_args), s, w)
  unfolding with_three
  three_short f [] s w h = refl
  three_short f (a ∷ []) s w h = refl
  three_short f (a ∷ b ∷ []) s w h = refl
  three_short f (a ∷ b ∷ c ∷ args) s w h = absurd (ground arith)

  takes_three : (f : Bytes → Bytes → Bytes → Command S) → Needs 3 (with_three f)
  takes_three f = record { refuses = λ args s w h. three_short f args s w h }

  -- Every branch of the table does nothing with fewer arguments than its usage shows.
  data Guarded : List (Entry S) → Type 0 where
    guarded_nil : Guarded []
    guarded_cons :
        {name : Bytes} {f : List Bytes → Command S} {es : List (Entry S)}
        → Needs (needed name) f
        → Guarded es
        → Guarded ((name, f) ∷ es)
    guarded_prefix :
        {f : List Bytes → Command S} {es : List (Entry S)}
        → Guarded es
        → Guarded ((codes "KEYSWITHPREFIX", f) ∷ es)

ruleset usage_rules =
    (guarded_nil, guarded_prefix, guarded_cons, takes_none, takes_one, takes_two, takes_three)

module _ {S : Setting} where
  Guarded-append : {es gs : List (Entry S)} → Guarded es → Guarded gs → Guarded (es ++ gs)
  Guarded-append guarded_nil q = q
  Guarded-append (guarded_cons n p) q = guarded_cons n (Guarded-append p q)
  Guarded-append (guarded_prefix p) q = guarded_prefix (Guarded-append p q)

module _ (S : Setting) (fuel : ℕ) where
  first_commands-Guarded : Guarded {S = S} first_commands
  unfolding first_commands beq
  first_commands-Guarded = search usage_rules depth 70 fits 3000

  key_commands-Guarded : Guarded {S = S} (key_commands fuel)
  unfolding key_commands beq
  key_commands-Guarded = search usage_rules depth 70 fits 3000

  list_commands-Guarded : Guarded {S = S} (list_commands fuel)
  unfolding list_commands beq
  list_commands-Guarded = search usage_rules depth 70 fits 3000

  hash_commands-Guarded : Guarded {S = S} (hash_commands fuel)
  unfolding hash_commands beq
  hash_commands-Guarded = search usage_rules depth 70 fits 3000

  user_commands-Guarded : Guarded {S = S} user_commands
  unfolding user_commands beq
  user_commands-Guarded = search usage_rules depth 70 fits 3000

  commands-Guarded : Guarded {S = S} (commands fuel)
  unfolding commands
  commands-Guarded = Guarded-append first_commands-Guarded (
      Guarded-append key_commands-Guarded (
        Guarded-append list_commands-Guarded
          (Guarded-append hash_commands-Guarded user_commands-Guarded)))

module _ {S : Setting} where
  find_command-Guarded :
      (cmd : Bytes) (es : List (Entry S)) (f : List Bytes → Command S)
      → Guarded es
      → find_command cmd es ≡ some f
      → (beq cmd (codes "KEYSWITHPREFIX") ≡ true) ⊎ Needs (needed cmd) f
  unfolding find_command
  find_command-Guarded cmd [] f g e = absurd (cc)
  find_command-Guarded cmd ((name, h) ∷ es) f (guarded_cons n gs) e =
      elim (Bool-cases (beq cmd name)) [
        | inr q ↦ find_command-Guarded cmd es f gs (ground arith)
        | inl q ↦
            let same : h ≡ f = ground arith in
            inr (
              subst (λ k. Needs (needed k) f) (sym (eq_of_beq cmd name q))
                (subst (Needs (needed name)) same n))
      ]
  find_command-Guarded cmd ((name, h) ∷ es) f (guarded_prefix gs) e =
      elim (Bool-cases (beq cmd (codes "KEYSWITHPREFIX"))) [
        | inr q ↦ find_command-Guarded cmd es f gs (ground arith)
        | inl q ↦ inl q
      ]

  -- What a command with too few arguments returns.
  abbrev pub complaint : Bytes → Option (List Bytes → Command S) → Problem
  complaint cmd none = unknown_command cmd
  complaint cmd (some f) = not_enough_args

  run_found-refuses :
      (cmd : Bytes) (o : Option (List Bytes → Command S)) (args : List Bytes) (s : Session S)
      (w : World S.etcd)
      → ((f : List Bytes → Command S) → o ≡ some f → Needs (needed cmd) f)
      → ltb (length args) (needed cmd) ≡ true
      → run_found o cmd args s w ≡ (ok (stopped (complaint cmd o)), s, w)
  run_found-refuses cmd none args s w n h = refl
  run_found-refuses cmd (some f) args s w n h = (n f refl).refuses args s w h

  -- A command that is given fewer arguments than its usage line in `help` shows changes nothing and
  -- returns the error for missing arguments, or that the command is unknown where it has no branch;
  -- KEYSWITHPREFIX is the exception.
  pub command-needs :
      (fuel : ℕ) (cmd : Bytes) (args : List Bytes) (s : Session S) (w : World S.etcd)
      → ltb (length args) (needed cmd) ≡ true
      → beq cmd (codes "KEYSWITHPREFIX") ≡ false
      → command fuel cmd args s w
        ≡ (ok (stopped (complaint cmd (find_command cmd (commands fuel)))), s, w)
  unfolding command
  command-needs fuel cmd args s w h k =
      run_found-refuses cmd (find_command cmd (commands fuel)) args s w
        (λ f e. elim (find_command-Guarded cmd (commands fuel) f (commands-Guarded S fuel) e) [
          | inl q ↦ absurd (cc)
          | inr n ↦ n
        ])
        h
