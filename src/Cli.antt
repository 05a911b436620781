-- ===== src/Cli.antt =====
-- The command line of cli/cli.go: what its commands work on, print and return.
pub mod Display
pub mod Help
pub mod Keys
pub mod Lists
pub mod Hashes
pub mod Users
pub mod Dispatch
pub mod Usage
pub mod Listed
pub mod Laws
pub mod Main
pub mod Capitals
pub mod Lines
pub mod Ends
use mydis_old.Client.Events.Connection.Calls.{Link}
use mydis_old.Prelude.{ℕ, ℤ, Bool, false, Option, none, some, List, [], ◌∷◌, Bytes}
use mydis_old.Errors.{Error, Reply, reply, failed}
use mydis_old.Etcd.{Etcd}
use mydis_old.Runtime.{Prog, World, Result, ok, err, panic, waiting}
use mydis_old.Pb.{Proto}
use mydis_old.Server.Context.{Context, parse_int}
use mydis_old.Value.{Value, to_bytes}
use mydis_old.Watch.{WatchStreams, Watcher}
use mydis_old.Auth.{AuthServer}
use mydis_old.Client.Remote.{Grpc}

-- An argument of fmt.Println, by its type.
pub data Printed (F : Type 0) : Type 0 where
  text : Bytes → Printed F
  flag : Bool → Printed F
  number : ℤ → Printed F
  real : F → Printed F
  whole_value : Value → Printed F

-- What a command returns in place of nil: the errors that `command` makes, of strconv, and of the
-- client.
pub data Problem : Type 0 where
  not_enough_args end_of_file : Problem
  unknown_command unrecognized_type bad_number : Bytes → Problem
  call_failed : Error → Problem

-- The lines that are printed, each of the arguments of one fmt.Println, and the error.
pub record Outcome (F : Type 0) : Type 0 where
  pub lines : List (List (Printed F))
  pub problem : Option Problem

-- What the client is made for: the server's etcd and authentication, the protocol buffers, gRPC, and
-- the conversion of texts to floats.
pub record Setting : Type 1 where
  pub etcd : Etcd
  pub proto : Proto
  pub grpc : Grpc
  pub auth : AuthServer
  pub streams : WatchStreams
  pub parse_float : Bytes → Option proto.Float

-- The client, the authentication of etcd, and the connection on which the client watches.
pub record Session (S : Setting) : Type 0 where
  pub ctx : Context
  pub roles : S.auth.State
  pub link : Link S.streams

-- A command's run; the world has the etcd of the server.
abbrev pub Command : Setting → Type 0
Command S = Session S → World S.etcd → Result (Outcome S.proto.Float) × Session S × World S.etcd

module _ {F : Type 0} where
  abbrev pub done : List (List (Printed F)) → Outcome F
  done lines = record { lines = lines; problem = none }

  abbrev pub stopped : Problem → Outcome F
  stopped p = record { lines = []; problem = some p }

  -- `return client.X()`
  abbrev pub silent : {A : Type 0} → A → Outcome F
  silent a = done []

  -- `fmt.Println(result); return err`
  abbrev pub printed : {A : Type 0} → (A → Printed F) → A → Outcome F
  printed arg a = done ((arg a ∷ []) ∷ [])

  -- `if err != nil { return err }`, and what follows
  abbrev pub finish : {A : Type 0} → (A → Outcome F) → Result A → Result (Outcome F)
  finish show (ok a) = ok (show a)
  finish show (err e) = ok (stopped (call_failed e))
  finish show panic = panic
  finish show waiting = waiting

  abbrev pub finish_reply : {A : Type 0} → (A → Outcome F) → Reply A → Outcome F
  finish_reply show (reply a) = show a
  finish_reply show (failed e) = stopped (call_failed e)

module _ {S : Setting} where
  abbrev pub give : Outcome S.proto.Float → Command S
  give o s w = (ok o, s, w)

  -- A call of the client that the server answers from its store.
  unfoldable pub ask :
      {A : Type 0} → (A → Outcome S.proto.Float) → (Context → Prog S.etcd A) → Command S
  ask show m s w = let (r, w') = m s.ctx w in (finish show r, s, w')

  -- A call of the client on users, roles or permissions.
  unfoldable pub ask_auth :
      {A : Type 0}
      → (A → Outcome S.proto.Float)
      → (Context → S.auth.State → Reply A × S.auth.State)
      → Command S
  ask_auth show m s w =
      let (r, t) = m s.ctx s.roles in (ok (finish_reply show r), record s { roles = t }, w)

  -- `if len(args) >= n { ... }; return errNotEnoughArgs`
  unfoldable pub with_one : (Bytes → Command S) → List Bytes → Command S
  with_one f [] = give (stopped not_enough_args)
  with_one f (a ∷ args) = f a

  unfoldable pub with_two : (Bytes → Bytes → Command S) → List Bytes → Command S
  with_two f [] = give (stopped not_enough_args)
  with_two f (a ∷ []) = give (stopped not_enough_args)
  with_two f (a ∷ b ∷ args) = f a b

  unfoldable pub with_three : (Bytes → Bytes → Bytes → Command S) → List Bytes → Command S
  with_three f [] = give (stopped not_enough_args)
  with_three f (a ∷ []) = give (stopped not_enough_args)
  with_three f (a ∷ b ∷ []) = give (stopped not_enough_args)
  with_three f (a ∷ b ∷ c ∷ args) = f a b c

  -- A text that is converted, and the error of the conversion.
  unfoldable pub with_converted : {A : Type 0} → Bytes → Option A → (A → Command S) → Command S
  with_converted s none f = give (stopped (bad_number s))
  with_converted s (some a) f = f a

  -- `i, err := strconv.ParseInt(s, 10, 64); if err != nil { return err }`
  abbrev pub with_int : Bytes → (ℤ → Command S) → Command S
  with_int s = with_converted s (parse_int s)

  -- The same with strconv.ParseFloat.
  abbrev pub with_float : Bytes → (S.proto.Float → Command S) → Command S
  with_float s = with_converted s (S.parse_float s)
