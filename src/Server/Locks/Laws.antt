-- ===== src/Server/Locks/Laws.antt =====
-- Theorems on locking and unlocking in mydis/type_lock.go.
use mydis_old.Prelude.{
  inr, inl, Bool-cases, beq_refl, sym, refl, ℕ, suc, ◌+◌, ◌*◌, ◌<◌, ◌≡◌, ◌≢◌, true, false, none,
  some, [], ◌∷◌, Bytes, beq, if◌then◌else◌, ℤ, pos_part, neg_part, is_negative,
}
use mydis_old.Server.Waiting.Names.{
  beq_ne, get_lock_name-ne, IsSendable-put, IsSendable-delete, get_lock_name-ne-nil,
}
use mydis_old.Etcd.Laws.{IsSendable, holds_value, IsEtcd, View}
use mydis_old.Errors.{key_locked}
use mydis_old.Prefix.{zero_byte, in_range}
use mydis_old.Etcd.{Etcd, put_op, delete_op}
use mydis_old.Runtime.{arrive, call, Turn, World, ok, waiting}
use mydis_old.Runtime.Laws.{Gives, Fails, Steady}
use mydis_old.Pb.{Key, Expiration}
use mydis_old.Server.Context.{Context, get_max_wait}
use mydis_old.Server.Waiting.{get_lock_name, deadline, delay, unless_locked}
use mydis_old.Server.Waiting.Laws.{locked, retry_ends, retry-Gives, retry-Fails, retry_atomic}
use mydis_old.Server.Keys.{delete}
use mydis_old.Server.Locks.{
  is_invalid, unlock_then_set, unlock_and_put, lock_with_timeout, lock, unlock, is_zero,
}

-- A key that Set and UnlockThenSet take.
pub ne_nil_of_valid : (key : Bytes) → is_invalid key ≡ false → key ≢ []
ne_nil_of_valid [] h = λ e. cc
ne_nil_of_valid (b ∷ bs) h = λ e. cc

-- The rounds that a wait of so many seconds, begun at this clock reading, may take.
abbrev pub Suffices : ℕ → ℕ → ℤ → Type 0
Suffices fuel clock seconds =
    (0 < fuel)
    × (pos_part (deadline clock seconds) < neg_part (deadline clock seconds) + clock + fuel * delay)

module _ (E : Etcd) (fuel : ℕ) (ctx : Context) where
  -- For any etcd, also one that fails, and any steps of other clients: with a timeout that is not
  -- negative, LockWithTimeout returns within rounds of 1 ms that reach past its deadline.
  pub lock_with_timeout_ends :
      (ex : Expiration) (w : World E)
      → is_negative ex.exp ≡ false
      → Suffices fuel w.clock ex.exp
      → (lock_with_timeout E fuel ctx ex w).0 ≢ waiting
  unfolding lock_with_timeout
  lock_with_timeout_ends ex w nn (pos_fuel, enough) =
      retry_ends E (is_zero ex.exp) (is_negative ex.exp) (deadline w.clock ex.exp)
        (unless_locked ex.key (put_op (get_lock_name ex.key) zero_byte ∷ [])) fuel w nn enough
        pos_fuel

module _ {E : Etcd} (L : IsEtcd E) where
  -- After a lock the lock's key holds the zero byte, and no other key has changed.
  abbrev pub with_lock : View → Bytes → View
  with_lock v key k = if beq (get_lock_name key) k then some zero_byte else v k

  abbrev pub without_lock : View → Bytes → View
  without_lock v key k = if beq (get_lock_name key) k then none else v k

  module _ (fuel : ℕ) (ctx : Context) where
    pub lock_with_timeout-Gives :
        (ex : Expiration) (s : E.Store) (c : ℕ)
        → L.up s ≡ true
        → locked L s ex.key ≡ false
        → Gives L (lock_with_timeout E (suc fuel) ctx ex) s c tt (with_lock (L.view s) ex.key)
    unfolding lock_with_timeout
    lock_with_timeout-Gives ex s c u free =
        retry-Gives L (is_zero ex.exp) (is_negative ex.exp) (deadline c ex.exp) ex.key
          (put_op (get_lock_name ex.key) zero_byte ∷ []) fuel s c u
          (IsSendable-put ex.key _ zero_byte (get_lock_name-ne-nil ex.key)) free

    -- On a key that is not locked, Lock run alone (no other client writes, etcd is up) sets the
    -- key's lock and changes no other key.
    pub lock-Gives :
        (key : Key) (s : E.Store) (c : ℕ)
        → L.up s ≡ true
        → locked L s key.key ≡ false
        → Gives L (lock E (suc fuel) ctx key) s c tt (with_lock (L.view s) key.key)
    unfolding lock
    lock-Gives key = lock_with_timeout-Gives (record { key = key.key; exp = get_max_wait ctx })

    -- On a locked key, run alone (no other client writes, etcd is up) and with a timeout that is
    -- not negative, LockWithTimeout returns ErrKeyLocked and changes no key, where the rounds reach
    -- past the deadline.
    pub lock_with_timeout-Fails :
        (ex : Expiration) (s : E.Store) (c : ℕ)
        → L.up s ≡ true
        → locked L s ex.key ≡ true
        → is_negative ex.exp ≡ false
        → Suffices fuel c ex.exp
        → Fails L (lock_with_timeout E fuel ctx ex) s c key_locked (L.view s)
    unfolding lock_with_timeout
    lock_with_timeout-Fails ex s c u held nn (pos_fuel, enough) =
        retry-Fails L (is_zero ex.exp) (is_negative ex.exp) (deadline c ex.exp) ex.key
          (put_op (get_lock_name ex.key) zero_byte ∷ []) fuel s c u
          (IsSendable-put ex.key _ zero_byte (get_lock_name-ne-nil ex.key)) held nn enough pos_fuel

    -- Mutual exclusion, whatever other clients do that keeps an invariant under which the member is
    -- up: where LockWithTimeout returns no error, the store it leaves is that of a moment at which
    -- the key was not locked, with the lock added and no other key changed; the invariant still
    -- holds.
    pub lock_with_timeout_atomic :
        (I : E.Store → Type 0) (Q : Turn E → Type 0) (ex : Expiration) (w : World E)
        → ((s : E.Store) → I s → L.up s ≡ true)
        → ((s : E.Store)
            → I s
            → I (E.txn (unless_locked ex.key (put_op (get_lock_name ex.key) zero_byte ∷ [])) s).1)
        → Steady I Q w
        → (lock_with_timeout E fuel ctx ex w).0 ≡ ok tt
        → (s : E.Store) × I s
          × (locked L s ex.key ≡ false)
          × ((k : Bytes)
              → L.view (lock_with_timeout E fuel ctx ex w).1.store k
                ≡ with_lock (L.view s) ex.key k)
          × Steady I Q (lock_with_timeout E fuel ctx ex w).1
    unfolding lock_with_timeout
    lock_with_timeout_atomic I Q ex w up keep u e =
        let ops = put_op (get_lock_name ex.key) zero_byte ∷ [] in
        let h = IsSendable-put ex.key _ zero_byte (get_lock_name-ne-nil ex.key) in
        let (s, is, free, same, steady) =
          retry_atomic L (is_zero ex.exp) (is_negative ex.exp) (deadline w.clock ex.exp) ex.key ops
            I Q fuel w up keep u h e in
        (
          s,
          is,
          free,
          (λ k. rw (same, L.txn_view s (unless_locked ex.key ops) k (up s is) h) (rw free)),
          steady,
        )

    pub lock_atomic :
        (I : E.Store → Type 0) (Q : Turn E → Type 0) (key : Key) (w : World E)
        → ((s : E.Store) → I s → L.up s ≡ true)
        → ((s : E.Store)
            → I s
            → I (E.txn (unless_locked key.key (put_op (get_lock_name key.key) zero_byte ∷ [])) s).1)
        → Steady I Q w
        → (lock E fuel ctx key w).0 ≡ ok tt
        → (s : E.Store) × I s
          × (locked L s key.key ≡ false)
          × ((k : Bytes)
              → L.view (lock E fuel ctx key w).1.store k ≡ with_lock (L.view s) key.key k)
          × Steady I Q (lock E fuel ctx key w).1
    unfolding lock
    lock_atomic I Q key =
        lock_with_timeout_atomic I Q (record { key = key.key; exp = get_max_wait ctx })

    -- Where the name of the key's lock is itself not locked, Unlock run alone (no other client
    -- writes, etcd is up) removes the lock and changes no other key.
    pub unlock-Gives :
        (key : Key) (s : E.Store) (c : ℕ)
        → L.up s ≡ true
        → locked L s (get_lock_name key.key) ≡ false
        → Gives L (unlock E (suc fuel) ctx key) s c tt (without_lock (L.view s) key.key)
    unfolding unlock delete in_range
    unlock-Gives key s c u free =
        retry-Gives L false false (deadline c (get_max_wait ctx)) (get_lock_name key.key)
          (delete_op (get_lock_name key.key) [] ∷ []) fuel s c u
          (IsSendable-delete _ _ (get_lock_name-ne-nil key.key)) free

  -- The transaction that takes a lock leaves every other key alone.
  pub lock_txn_keeps :
      (key k : Bytes) (s : E.Store)
      → L.up s ≡ true
      → get_lock_name key ≢ k
      → L.view (E.txn (unless_locked key (put_op (get_lock_name key) zero_byte ∷ [])) s).1 k
        ≡ L.view s k
  lock_txn_keeps key k s u h =
      rw (L.txn_view s _ k u (IsSendable-put key _ zero_byte (get_lock_name-ne-nil key)))
        (elim (Bool-cases (locked L s key)) [
          | inl held ↦ rw held
          | inr free ↦ rw (free, beq_ne (get_lock_name key) k h)
        ])

  -- The key ZeroByte does not hold the zero byte, on which the tests of GetMany and UnlockThenSet
  -- rely.
  abbrev pub Clean : E.Store → Type 0
  Clean s = holds_value (L.view s zero_byte) zero_byte ≡ false

  -- The key holds `x`, and its lock is gone.
  abbrev pub with_value : View → Bytes → Bytes → View
  with_value v key x k = if beq key k then some x else without_lock v key k

  pub with_value_self : (v : View) (key x : Bytes) → with_value v key x key ≡ some x
  with_value_self v key x = rw (beq_refl key)

  pub with_value_lock : (v : View) (key x : Bytes) → with_value v key x (get_lock_name key) ≡ none
  with_value_lock v key x = rw (
    beq_ne key (get_lock_name key) (λ e. get_lock_name-ne key (sym e)),
    beq_refl (get_lock_name key),
  )

  pub with_value_of_lock :
      (v v' : View) (key x k : Bytes)
      → v' k ≡ with_lock v key k
      → with_value v' key x k ≡ with_value v key x k
  with_value_of_lock v v' key x k h = elim (Bool-cases (beq (get_lock_name key) k)) [
    | inl e ↦ rw e
    | inr e ↦ rw (e, h) (rw e)
  ]

  pub with_lock_self :
      (v : View) (key : Bytes) → with_lock v key (get_lock_name key) ≡ some zero_byte
  with_lock_self v key = rw (beq_refl (get_lock_name key))

  pub with_lock_ne : (v : View) (key k : Bytes) → get_lock_name key ≢ k → with_lock v key k ≡ v k
  with_lock_ne v key k h = rw (beq_ne (get_lock_name key) k h)

  module _ (key x : Bytes) (good : is_invalid key ≡ false) where
    IsSendable-unlock_and_put : IsSendable (unlock_and_put key x)
    IsSendable-unlock_and_put = record {
      compare = ((λ e. cc), tt);
      success = tt;
      failure = (
        get_lock_name-ne-nil key,
        refl,
        (get_lock_name-ne key, tt),
        (ne_nil_of_valid key good, tt, tt),
      );
    }

    pub view-unlock_and_put :
        (s : E.Store) (k : Bytes)
        → L.up s ≡ true
        → Clean s
        → L.view (E.txn (unlock_and_put key x) s).1 k ≡ with_value (L.view s) key x k
    unfolding in_range
    view-unlock_and_put s k u cl =
        rw (L.txn_view s (unlock_and_put key x) k u IsSendable-unlock_and_put) (rw cl)

    -- In any run, UnlockThenSet makes one transaction: the lock goes and the value is stored.
    pub unlock_then_set_lem :
        (w : World E)
        → L.up (arrive w).store ≡ true
        → Clean (arrive w).store
        → unlock_then_set E (record { key = key; value = x }) w
          ≡ (ok tt, record (arrive w) { store = (E.txn (unlock_and_put key x) (arrive w).store).1 })
    unfolding unlock_then_set call
    unlock_then_set_lem w u cl =
        rw (good, L.txn_reply (arrive w).store (unlock_and_put key x) u IsSendable-unlock_and_put)
