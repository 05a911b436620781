-- ===== src/Cli/Ends.antt =====
-- The commands of cli/cli.go that come to an end.
pub mod Tables
pub mod Commands
use mathlib.Core.Path.{subst}
use mydis_old.Watch.{WatchRequest}
use mydis_old.Cli.Users.{after_call, send_request, close_client, with_permission}
use mydis_old.Client.Events.Connection.Calls.{Link}
use mydis_old.Client.Events.Connection.Idle.{IsIdle, watch_call-ne-none, close_call-ne-none}
use mydis_old.Prelude.{
  ◌++◌, eq_of_beq, ℕ, ◌≡◌, ◌≢◌, ◌⊎◌, refl, sym, inl, inr, true, false, Bool, ◌||◌, Bool-cases,
  Option, none, some, List, [], ◌∷◌, Bytes, codes, beq, is_negative, arith,
}
use mydis_old.Client.Ends.Values.{
  Ends-clear, Ends-decrement_float, Ends-decrement_int, Ends-delete, Ends-get, Ends-get_many,
  Ends-has, Ends-increment_float, Ends-increment_int, Ends-keys, Ends-keys_with_prefix, Ends-set,
  Ends-set_expire, Ends-set_nx,
}
use mydis_old.Client.Ends.Lists.{
  Ends-get_list_item, Ends-list_append, Ends-list_delete, Ends-list_delete_item, Ends-list_has,
  Ends-list_insert, Ends-list_length, Ends-list_limit, Ends-list_pop_left, Ends-list_pop_right,
  Ends-set_list_item,
}
use mydis_old.Client.Ends.Hashes.{
  Ends-del_hash_field, Ends-get_hash_field, Ends-hash_fields, Ends-hash_has, Ends-hash_values,
  Ends-set_hash_field,
}
use mydis_old.Errors.{Reply}
use mydis_old.Auth.{Permission}
use mydis_old.Value.{Value, to_bytes}
use mydis_old.Cli.Keys.{text_of, with_one_or_more}
use mydis_old.Cli.{
  with_converted, printed, text, Setting, Session, Command, Outcome, ask, ask_auth, give, finish,
  with_one, with_two, with_three,
}
use mydis_old.Server.Ends.{Ends-bind, Ends-lift, Ends}
use mydis_old.Runtime.{Prog, World, Result, ok, err, panic, waiting}
use mydis_old.Server.Context.{Context, get_max_wait}
use mydis_old.Server.Locks.Laws.{Suffices}
use mydis_old.Cli.Dispatch.{Entry, find_command, commands, command, run_found}

-- The longest wait for a lock is not negative, and the rounds reach past it.
pub record IsPatient (fuel : ℕ) (ctx : Context) : Type 0 where
  pub enough : (t : ℕ) → Suffices fuel t (get_max_wait ctx)
  pub waits : is_negative (get_max_wait ctx) ≡ false

finish-ne-waiting :
    {F A : Type 0} (show : A → Outcome F) (r : Result A) → r ≢ waiting → finish show r ≢ waiting
finish-ne-waiting show (ok a) h e = absurd (cc)
finish-ne-waiting show (err x) h e = absurd (cc)
finish-ne-waiting show panic h e = absurd (cc)
finish-ne-waiting show waiting h e = h refl

module _ {S : Setting} (fuel : ℕ) where
  -- A command that ends in every session of a patient client whose connection is idle.
  pub record EndsCli (c : Command S) : Type 0 where
    pub ends_cli :
        (s : Session S) (w : World S.etcd)
        → IsPatient fuel s.ctx
        → IsIdle s.link.connection
        → (c s w).0 ≢ waiting

  pub EndsCli-give : (o : Outcome S.proto.Float) → EndsCli (give o)
  EndsCli-give o = record { ends_cli = λ s w p i e. absurd (cc) }

  pub EndsCli-local :
      (o : Session S → Outcome S.proto.Float) (t : Session S → Session S)
      → EndsCli (λ s w. (ok (o s), t s, w))
  EndsCli-local o t = record { ends_cli = λ s w p i e. absurd (cc) }

  after_call-ne-waiting :
      (o : Outcome S.proto.Float) (l : Option (Link S.streams)) (s : Session S) (w : World S.etcd)
      → l ≢ none
      → (after_call o l s w).0 ≢ waiting
  after_call-ne-waiting o none s w h e = h refl
  after_call-ne-waiting o (some l) s w h e = absurd (cc)

  pub EndsCli-send_request : (r : WatchRequest) → EndsCli (send_request r)
  unfolding send_request
  EndsCli-send_request r = record {
    ends_cli = λ s w p i. after_call-ne-waiting _ _ s w (watch_call-ne-none S.streams r s.link i);
  }

  pub EndsCli-close_client : EndsCli close_client
  unfolding close_client
  EndsCli-close_client = record {
    ends_cli = λ s w p i. after_call-ne-waiting _ _ s w (close_call-ne-none S.streams s.link i);
  }

  pub EndsCli-ask :
      {A : Type 0} (show : A → Outcome S.proto.Float) (m : Context → Prog S.etcd A)
      → ((ctx : Context)
          → ((t : ℕ) → Suffices fuel t (get_max_wait ctx))
          → is_negative (get_max_wait ctx) ≡ false
          → Ends (m ctx))
      → EndsCli (ask show m)
  unfolding ask
  EndsCli-ask show m h = record {
    ends_cli = λ s w p i. finish-ne-waiting show _ ((h s.ctx p.enough p.waits).ends w);
  }

  pub EndsCli-one :
      (f : Bytes → Command S) (args : List Bytes)
      → ((a : Bytes) → EndsCli (f a))
      → EndsCli (with_one f args)
  unfolding with_one
  EndsCli-one f [] h = EndsCli-give _
  EndsCli-one f (a ∷ args) h = h a

  pub EndsCli-two :
      (f : Bytes → Bytes → Command S) (args : List Bytes)
      → ((a b : Bytes) → EndsCli (f a b))
      → EndsCli (with_two f args)
  unfolding with_two
  EndsCli-two f [] h = EndsCli-give _
  EndsCli-two f (a ∷ []) h = EndsCli-give _
  EndsCli-two f (a ∷ b ∷ args) h = h a b

  pub EndsCli-three :
      (f : Bytes → Bytes → Bytes → Command S) (args : List Bytes)
      → ((a b c : Bytes) → EndsCli (f a b c))
      → EndsCli (with_three f args)
  unfolding with_three
  EndsCli-three f [] h = EndsCli-give _
  EndsCli-three f (a ∷ []) h = EndsCli-give _
  EndsCli-three f (a ∷ b ∷ []) h = EndsCli-give _
  EndsCli-three f (a ∷ b ∷ c ∷ args) h = h a b c

  pub EndsCli-converted :
      {A : Type 0} (b : Bytes) (o : Option A) (f : A → Command S)
      → ((a : A) → EndsCli (f a))
      → EndsCli (with_converted b o f)
  unfolding with_converted
  EndsCli-converted b none f h = EndsCli-give _
  EndsCli-converted b (some a) f h = h a

  pub EndsCli-permission :
      (b : Bytes) (o : Option Permission) (f : Permission → Command S)
      → ((a : Permission) → EndsCli (f a))
      → EndsCli (with_permission b o f)
  unfolding with_permission
  EndsCli-permission b none f h = EndsCli-give _
  EndsCli-permission b (some a) f h = h a

  pub EndsCli-auth :
      {A : Type 0} (show : A → Outcome S.proto.Float)
      (m : Context → S.auth.State → Reply A × S.auth.State)
      → EndsCli (ask_auth show m)
  unfolding ask_auth
  EndsCli-auth show m = record { ends_cli = λ s w p i e. absurd (cc) }

  -- A branch of `command` that ends, whatever its arguments.
  pub record EndsBranch (f : List Bytes → Command S) : Type 0 where
    pub ends_branch : (args : List Bytes) → EndsCli (f args)

  pub EndsCli-some :
      (f : List Bytes → Command S) (args : List Bytes)
      → ((bs : List Bytes) → EndsCli (f bs))
      → EndsCli (with_one_or_more f args)
  unfolding with_one_or_more
  EndsCli-some f [] h = EndsCli-give _
  EndsCli-some f (a ∷ args) h = h (a ∷ args)

module _ {S : Setting} (fuel : ℕ) where
  pub branch_one :
      (f : Bytes → Command S) → ((a : Bytes) → EndsCli fuel (f a)) → EndsBranch fuel (with_one f)
  branch_one f h = record { ends_branch = λ args. EndsCli-one fuel f args h }

  pub branch_two :
      (f : Bytes → Bytes → Command S)
      → ((a b : Bytes) → EndsCli fuel (f a b))
      → EndsBranch fuel (with_two f)
  branch_two f h = record { ends_branch = λ args. EndsCli-two fuel f args h }

  pub branch_three :
      (f : Bytes → Bytes → Bytes → Command S)
      → ((a b c : Bytes) → EndsCli fuel (f a b c))
      → EndsBranch fuel (with_three f)
  branch_three f h = record { ends_branch = λ args. EndsCli-three fuel f args h }

  pub branch_some :
      (f : List Bytes → Command S)
      → ((bs : List Bytes) → EndsCli fuel (f bs))
      → EndsBranch fuel (with_one_or_more f)
  branch_some f h = record { ends_branch = λ args. EndsCli-some fuel f args h }

  pub branch_any :
      (f : List Bytes → Command S)
      → ((args : List Bytes) → EndsCli fuel (f args))
      → EndsBranch fuel f
  branch_any f h = record { ends_branch = h }

-- The blocking pops wait for ever where their timeout is not positive.
abbrev pub is_blocking : Bytes → Bool
is_blocking cmd = beq cmd (codes "LISTPOPLEFTBLK") || beq cmd (codes "LISTPOPRIGHTBLK")

module _ {S : Setting} (fuel : ℕ) where
  -- Every branch of the table that does not block ends.
  pub data AllEnd : List (Entry S) → Type 0 where
    all_nil : AllEnd []
    all_cons :
        {name : Bytes} {f : List Bytes → Command S} {es : List (Entry S)}
        → EndsBranch fuel f
        → AllEnd es
        → AllEnd ((name, f) ∷ es)
    all_blocking :
        {name : Bytes} {f : List Bytes → Command S} {es : List (Entry S)}
        → is_blocking name ≡ true
        → AllEnd es
        → AllEnd ((name, f) ∷ es)

  pub AllEnd-append : (es gs : List (Entry S)) → AllEnd es → AllEnd gs → AllEnd (es ++ gs)
  AllEnd-append [] gs all_nil q = q
  AllEnd-append ((name, f) ∷ es) gs (all_cons b p) q = all_cons b (AllEnd-append es gs p q)
  AllEnd-append ((name, f) ∷ es) gs (all_blocking b p) q = all_blocking b (AllEnd-append es gs p q)

pub ruleset cli_ends_rules = (
  all_nil, all_cons, branch_one, branch_two, branch_three, branch_some, branch_any, EndsCli-local,
  EndsCli-send_request, EndsCli-close_client, EndsCli-give, EndsCli-ask, Ends-bind, Ends-lift,
  EndsCli-auth, EndsCli-converted, EndsCli-permission,
)
