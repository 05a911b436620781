-- ===== src/Server/Waiting.antt =====
-- The two kinds of loops in which a handler waits: for a lock (in `Set`, `Delete` and
-- `LockWithTimeout`), and for a key or an item that is not there yet (in `Get` and the pops).
pub mod Laws
pub mod Names
pub mod Poll
pub mod Live
use mydis_old.Prelude.{
  ℕ, zero, suc, ◌+◌, Bool, true, false, not, ◌&&◌, [], ◌∷◌, ◌++◌, List, Bytes, codes, if◌then◌else◌,
  ℤ, pos, ◌+ℤ◌, ◌*64◌, ◌*ℤ◌, leb_ℤ, ltb_ℤ,
}
use mydis_old.Errors.{Error, key_locked}
use mydis_old.Prefix.{zero_byte}
use mydis_old.Etcd.{Etcd, RequestOp, TxnRequest, value_equal}
use mydis_old.Runtime.{Prog, waiting, pure, fail, handle, ◌>>=◌, ◌>>◌, call, sleep, now_after}

-- `delay`, and time.Second, in nanoseconds
abbrev pub delay : ℕ
delay = 1000000

abbrev pub second : ℕ
second = 1000000000

-- `sleep := 10 * time.Millisecond`
abbrev pub poll_delay : ℕ
poll_delay = 10000000

unfoldable pub get_lock_name : Bytes → Bytes
get_lock_name key = key ++ codes "*_MYDIS_LOCK"

-- The transactions of the handlers: the operations are done unless the key is locked.
abbrev pub unless_locked : Bytes → List RequestOp → TxnRequest
unless_locked key ops = record {
  compare = value_equal (get_lock_name key) zero_byte ∷ [];
  success = [];
  failure = ops;
}

-- time.Now().Add(time.Duration(seconds) * time.Second), from the clock's reading
unfoldable pub deadline : ℕ → ℤ → ℤ
deadline clock seconds = pos clock +ℤ (seconds *64 pos second)

-- `waited.Seconds() >= float64(timeout) && timeout > 0`
abbrev pub timed_out : ℕ → ℤ → Bool
timed_out waited timeout = leb_ℤ (timeout *ℤ pos second) (pos waited) && ltb_ℤ (pos 0) timeout

module _ (E : Etcd) where
  -- What a round does after a transaction that found the key locked. `at_once` is the test
  -- `ex.Exp == 0` and `forever` the test `ex.Exp < 0` of LockWithTimeout; both are false elsewhere.
  pub wait_for_lock : Bool → Bool → ℤ → Prog E (Unit {0}) → Prog E (Unit {0})
  wait_for_lock at_once forever end again = if at_once then fail key_locked else do
    sleep delay
    late ← now_after end
    if late && not forever then fail key_locked else again

  -- The rounds of the loops over a transaction.
  pub retry : Bool → Bool → ℤ → TxnRequest → ℕ → Prog E (Unit {0})
  unfolding wait_for_lock
  retry at_once forever end req zero w = (waiting, w)
  retry at_once forever end req (suc rounds) w =
      handle (call (E.txn req))
        (λ res.
          if not res.succeeded
          then pure tt
          else wait_for_lock at_once forever end (retry at_once forever end req rounds))
        fail w

  -- What a round does with an error. `waited` counts this round's sleep too.
  pub poll_on : {A : Type 0} → (Error → Bool) → ℤ → ℕ → Prog E A → Error → Prog E A
  poll_on missing timeout waited again e =
      if missing e
      then (do sleep poll_delay; if timed_out waited timeout then fail e else again)
      else fail e

  -- The rounds of the loops over a call that may find nothing: `again` is tried until its error is
  -- none of those that `missing` tells, or the time is up.
  unfoldable pub poll : {A : Type 0} → Prog E A → (Error → Bool) → ℤ → ℕ → ℕ → Prog E A
  unfolding poll_on
  poll again missing timeout waited zero w = (waiting, w)
  poll again missing timeout waited (suc rounds) w =
      handle again pure
        (poll_on missing timeout (waited + poll_delay)
          (poll again missing timeout (waited + poll_delay) rounds))
        w
