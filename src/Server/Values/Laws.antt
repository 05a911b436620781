-- ===== src/Server/Values/Laws.antt =====
-- Theorems on Get, Set and SetNX of mydis/type_bytes.go, and on Has of mydis/type_keys.go.
use mydis_old.Errors.{is_key_not_found, key_locked, key_not_found}
use mydis_old.Server.Waiting.{poll_delay, second, deadline, unless_locked}
use mydis_old.Server.Waiting.Poll.{poll_ends}
use mydis_old.Prelude.{
  ◌&&◌, Bool, ◌≤◌, ◌*◌, ◌<◌, pos, ◌∙◌, List, ℕ, suc, ◌≡◌, ◌≢◌, refl, inl, inr, true, false, Option,
  none, some, [], ◌∷◌, arith, Bytes, beq, beq_refl, if◌then◌else◌, Bool-cases, is_some,
}
use mydis_old.Server.Values.{is_nil, get_now, get_or_wait, set_nx, get, set, first_value}
use mydis_old.Prefix.{zero_byte}
use mydis_old.Runtime.Laws.{query-ne-waiting, quiet, continue-ne-waiting, Gives, Fails}
use mydis_old.Server.Locks.{unlock_and_put, is_invalid}
use mydis_old.Etcd.{KeyValue, Etcd, put_op}
use mydis_old.Pb.{Key, ByteValue, plain_key}
use mydis_old.Runtime.{Prog, World, Result, ok, err, waiting, arrive, query}
use mydis_old.Server.Locks.Laws.{
  lock-Gives, with_lock, Clean, with_value, with_lock_ne, unlock_then_set_lem, view-unlock_and_put,
  with_value_of_lock, ne_nil_of_valid, Suffices,
}
use mydis_old.Etcd.Laws.{IsEtcd}
use mydis_old.Server.Context.{Context, get_max_wait}
use mydis_old.Server.Waiting.Laws.{locked, retry_ends, retry-Gives, retry-Fails}
use mydis_old.Server.Waiting.Names.{get_lock_name-ne, get_lock_name-ne-zero_byte, IsSendable-put}
use mydis_old.Server.Keys.{has}

module _ (E : Etcd) (fuel : ℕ) (ctx : Context) where
  -- For any etcd and any steps of other clients, Set returns within rounds of 1 ms that reach past
  -- the deadline that the context's longest wait sets.
  pub set_ends :
      (val : ByteValue) (w : World E)
      → Suffices fuel w.clock (get_max_wait ctx)
      → (set E fuel ctx val w).0 ≢ waiting
  unfolding set
  set_ends val w (pos_fuel, enough) = elim (Bool-cases (is_invalid val.key)) [
    | inl bad ↦ rw bad (λ e. absurd (cc))
    | inr good ↦ rw good (
        retry_ends E false false (deadline w.clock (get_max_wait ctx))
          (unless_locked val.key (put_op val.key val.value ∷ [])) fuel w refl enough pos_fuel)
  ]

module _ {E : Etcd} (L : IsEtcd E) (fuel : ℕ) (ctx : Context) where
  -- On a valid key that is not locked, Set run alone (no other client writes, etcd is up) stores
  -- the value and changes no other key.
  pub set-Gives :
      (val : ByteValue) (s : E.Store) (c : ℕ)
      → L.up s ≡ true
      → is_invalid val.key ≡ false
      → locked L s val.key ≡ false
      → Gives L
          (set E (suc fuel) ctx val)
          s
          c
          tt
          (λ k. if beq val.key k then some val.value else L.view s k)
  unfolding set
  set-Gives val s c u good free = rw good (
      retry-Gives L false false (deadline c (get_max_wait ctx)) val.key
        (put_op val.key val.value ∷ []) fuel s c u
        (IsSendable-put val.key val.key val.value (ne_nil_of_valid val.key good)) free)

  -- On a valid key that is locked, Set run alone (no other client writes, etcd is up) returns
  -- ErrKeyLocked and changes no key, where the rounds reach past the deadline.
  pub set-Fails :
      (val : ByteValue) (s : E.Store) (c : ℕ)
      → L.up s ≡ true
      → is_invalid val.key ≡ false
      → locked L s val.key ≡ true
      → Suffices fuel c (get_max_wait ctx)
      → Fails L (set E fuel ctx val) s c key_locked (L.view s)
  unfolding set
  set-Fails val s c u good held (pos_fuel, enough) = rw good (
      retry-Fails L false false (deadline c (get_max_wait ctx)) val.key
        (put_op val.key val.value ∷ []) fuel s c u
        (IsSendable-put val.key val.key val.value (ne_nil_of_valid val.key good)) held refl enough
        pos_fuel)

module _ {E : Etcd} (L : IsEtcd E) where
  -- What Get returns for a key's value.
  abbrev pub answer : Option Bytes → Result Bytes
  answer none = err key_not_found
  answer (some v) = ok v

  -- While etcd is up and whatever other clients do, Get of a key that is not empty, without Block,
  -- returns the value that the key has when etcd is asked, or ErrKeyNotFound, and writes nothing.
  pub get_lem :
      (fuel : ℕ) (k : Bytes) (w : World E)
      → L.up (arrive w).store ≡ true
      → k ≢ []
      → get E fuel (plain_key k) w ≡ (answer (L.view (arrive w).store k), arrive w)
  unfolding get query
  get_lem fuel k w u h = rw (L.range_found (arrive w).store k false u h) (ground arith)

  -- While etcd is up and whatever other clients do, Has of a key that is not empty tells whether
  -- the key has a value when etcd is asked, and writes nothing.
  pub has_lem :
      (k : Bytes) (w : World E)
      → L.up (arrive w).store ≡ true
      → k ≢ []
      → has E (plain_key k) w ≡ (ok (is_some (L.view (arrive w).store k)), arrive w)
  unfolding has query
  has_lem k w u h = rw (L.range_found (arrive w).store k true u h) (ground (arith, beq_refl k))

module _ {E : Etcd} (L : IsEtcd E) (fuel : ℕ) (ctx : Context) where
  -- Where the key is valid and not locked and the key ZeroByte does not hold the zero byte, SetNX
  -- run alone (no other client writes, etcd is up) on a missing key stores the value, returns true,
  -- leaves the key unlocked and changes no other key.
  pub set_nx_absent :
      (key v : Bytes) (s : E.Store) (c : ℕ)
      → L.up s ≡ true
      → Clean L s
      → is_invalid key ≡ false
      → locked L s key ≡ false
      → L.view s key ≡ none
      → Gives L
          (set_nx E (suc fuel) ctx (record { key = key; value = v }))
          s
          c
          true
          (with_value L (L.view s) key v)
  unfolding set_nx
  set_nx_absent key v s c u cl good free missing =
      let (t, e, u', same) = lock-Gives L fuel ctx (plain_key key) s c u free in
      let cl' : Clean L t =
        rw
          (same zero_byte, with_lock_ne L (L.view s) key zero_byte (get_lock_name-ne-zero_byte key))
          cl in
      let there : L.view t key ≡ none =
        same key ∙ with_lock_ne L (L.view s) key key (get_lock_name-ne key) ∙ missing in
      (
        (E.txn (unlock_and_put key v) t).1,
        rw e (
            rw (has_lem L key (quiet t c) u' (ne_nil_of_valid key good))
              (rw there (rw (unlock_then_set_lem L key v good (quiet t c) u' cl') refl))),
        L.txn_up t (unlock_and_put key v) u',
        λ k.
            view-unlock_and_put L key v good t k u' cl'
            ∙ with_value_of_lock L (L.view s) (L.view t) key v k (same k),
      )

  -- On a valid key that is not locked and has a value, SetNX run alone (no other client writes,
  -- etcd is up) returns false, changes no value, and leaves the key locked.
  pub set_nx_leaks :
      (key v x : Bytes) (s : E.Store) (c : ℕ)
      → L.up s ≡ true
      → is_invalid key ≡ false
      → locked L s key ≡ false
      → L.view s key ≡ some x
      → Gives L
          (set_nx E (suc fuel) ctx (record { key = key; value = v }))
          s
          c
          false
          (with_lock L (L.view s) key)
  unfolding set_nx
  set_nx_leaks key v x s c u good free present =
      let (t, e, u', same) = lock-Gives L fuel ctx (plain_key key) s c u free in
      let there : L.view t key ≡ some x =
        same key ∙ with_lock_ne L (L.view s) key key (get_lock_name-ne key) ∙ present in
      (
        t,
        rw e (rw (has_lem L key (quiet t c) u' (ne_nil_of_valid key good)) (rw there refl)),
        u',
        same,
      )

and_right : (a b : Bool) → (a && b) ≡ true → b ≡ true
and_right a b h = ground arith

module _ (E : Etcd) where
  first_value-ne-waiting : (kvs : List KeyValue) (w : World E) → (first_value E kvs w).0 ≢ waiting
  first_value-ne-waiting [] w = λ e. absurd (cc)
  first_value-ne-waiting (kv ∷ kvs) w = λ e. absurd (cc)

  pub get_or_wait-ne-waiting :
      (wait : Prog E Bytes) (key : Key) (w : World E)
      → (key.block ≡ true → (v : World E) → (wait v).0 ≢ waiting)
      → (get_or_wait E wait key w).0 ≢ waiting
  unfolding get_or_wait
  get_or_wait-ne-waiting wait key w h =
      continue-ne-waiting _ _ _ _ (query-ne-waiting _ w)
        (λ a v. elim (Bool-cases (is_nil a.kvs && key.block)) [
          | inl b ↦ rw b (h (and_right (is_nil a.kvs) key.block b) v)
          | inr b ↦ rw b (ground (arith, first_value-ne-waiting a.kvs v))
        ])
        (λ e v q. absurd (cc))

  -- For any etcd and any steps of other clients, Get with a positive timeout returns, also with
  -- Block, within rounds of 10 ms that reach past the timeout.
  pub get_ends :
      (fuel timeout : ℕ) (key : Key) (w : World E)
      → key.block_timeout ≡ pos timeout
      → 0 < timeout
      → 0 < fuel
      → timeout * second ≤ fuel * poll_delay
      → (get E fuel key w).0 ≢ waiting
  unfolding get get_now
  get_ends fuel timeout key w e p r h = get_or_wait-ne-waiting _ key w λ _ v. rw e (
      poll_ends E (get_now E key) is_key_not_found timeout fuel 0 v
        (λ u. get_or_wait-ne-waiting _ (record key { block = false }) u (λ q. absurd (cc))) p r
        (omega arith))
