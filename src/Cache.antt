-- ===== src/Cache.antt =====
-- What the handlers for keys, locks and byte values promise their callers together: a cache that has
-- values and locks by key, and knows nothing of etcd or of the names of locks.
pub mod Models
pub mod Refines
pub mod Runs
use mydis_old.Prelude.{
  Bool, true, false, Option, none, some, List, [], ◌∷◌, Bytes, beq, if◌then◌else◌, is_some, ℕ,
}
use mydis_old.Errors.{Error, key_not_found, key_locked}
use mydis_old.Etcd.{Etcd}
use mydis_old.Runtime.{Prog, pure, handle, ◌>>=◌, fail}
use mydis_old.Pb.{plain_key}
use mydis_old.Server.Context.{Context}
use mydis_old.Server.Keys.{has, delete}
use mydis_old.Server.Locks.{lock, unlock}
use mydis_old.Server.Values.{get, set, set_nx}

pub data Request : Type 0 where
  read exists remove hold release : Bytes → Request
  write write_new : Bytes → Bytes → Request

pub data Answer : Type 0 where
  done : Answer
  bytes_are : Bytes → Answer
  flag : Bool → Answer
  refused : Error → Answer

pub record Cache : Type 0 where
  pub value : Bytes → Option Bytes
  pub held : Bytes → Bool

abbrev pub put_value : Bytes → Option Bytes → Cache → Cache
put_value k o c = record c { value = λ j. if beq k j then o else c.value j }

abbrev pub put_held : Bytes → Bool → Cache → Cache
put_held k b c = record c { held = λ j. if beq k j then b else c.held j }

abbrev pub unless_held : Bytes → Cache → Answer × Cache → Answer × Cache
unless_held k c r = if c.held k then (refused key_locked, c) else r

abbrev pub found_value : Option Bytes → Answer
found_value none = refused key_not_found
found_value (some b) = bytes_are b

-- A value is written where there is none; else the lock is kept, as SetNX does.
abbrev pub insert_value : Bytes → Bytes → Option Bytes → Cache → Answer × Cache
insert_value k v none c = (flag true, put_value k (some v) (put_held k false c))
insert_value k v (some x) c = (flag false, put_held k true c)

abbrev pub serve : Request → Cache → Answer × Cache
serve (read k) c = (found_value (c.value k), c)
serve (exists k) c = (flag (is_some (c.value k)), c)
serve (remove k) c = unless_held k c (done, put_value k none c)
serve (hold k) c = unless_held k c (done, put_held k true c)
serve (release k) c = (done, put_held k false c)
serve (write k v) c = unless_held k c (done, put_value k (some v) c)
serve (write_new k v) c = unless_held k c (insert_value k v (c.value k) c)

abbrev pub serve_all : List Request → Cache → List Answer × Cache
serve_all [] c = ([], c)
serve_all (r ∷ rs) c = let (a, d) = serve r c in let (later, e) = serve_all rs d in (a ∷ later, e)

module _ (E : Etcd) (fuel : ℕ) (ctx : Context) where
  abbrev answered : {A : Type 0} → Prog E A → (A → Answer) → Prog E Answer
  answered m f = handle m (λ a. pure (f a)) (λ e. pure (refused e))

  -- The handler of a request.
  unfoldable pub perform : Request → Prog E Answer
  perform (read k) = answered (get E fuel (plain_key k)) bytes_are
  perform (exists k) = answered (has E (plain_key k)) flag
  perform (remove k) = answered (delete E fuel ctx (plain_key k)) (λ u. done)
  perform (hold k) = answered (lock E fuel ctx (plain_key k)) (λ u. done)
  perform (release k) = answered (unlock E fuel ctx (plain_key k)) (λ u. done)
  perform (write k v) = answered (set E fuel ctx (record { key = k; value = v })) (λ u. done)
  perform (write_new k v) = answered (set_nx E fuel ctx (record { key = k; value = v })) flag

  unfoldable pub perform_all : List Request → Prog E (List Answer)
  unfolding perform
  perform_all [] = pure []
  perform_all (r ∷ rs) = do a ← perform r; later ← perform_all rs; pure (a ∷ later)
