-- ===== src/Server/Numbers/Laws.antt =====
-- Theorems on IncrementInt of mydis/type_int.go, with other clients at work.
use mydis_old.Server.Locks.Laws.{
  lock_atomic, lock_txn_keeps, unlock_then_set_lem, view-unlock_and_put, with_value_self,
  with_value_lock, with_lock_self, with_lock_ne, Clean, ne_nil_of_valid,
}
use mydis_old.Prelude.{
  ℕ, ◌≡◌, ◌≢◌, refl, true, false, Option, none, some, [], ◌∷◌, arith, Bytes, ℤ, pos, ◌+64◌,
  beq_refl, List,
}
use mydis_old.Errors.{Reply, reply, failed}
use mydis_old.Prefix.{zero_byte}
use mydis_old.Etcd.{Etcd, put_op}
use mydis_old.Etcd.Laws.{IsEtcd}
use mydis_old.Runtime.{Turn, World, ok, arrive, take_turn}
use mydis_old.Runtime.Laws.{Turns, Steady, arrive-Steady}
use mydis_old.Pb.{IntValue, Proto, plain_key}
use mydis_old.Pb.Laws.{IsProto}
use mydis_old.Server.Context.{Context}
use mydis_old.Server.Waiting.Names.{get_lock_name-ne, get_lock_name-ne-zero_byte}
use mydis_old.Server.Waiting.{get_lock_name, unless_locked}
use mydis_old.Server.Waiting.Laws.{locked}
use mydis_old.Server.Locks.{unlock_and_put, is_invalid, lock}
use mydis_old.Server.Values.Laws.{get_lem}
use mydis_old.Server.Numbers.{get_int, old_int, add_int, increment_int}

-- The number that a key's value stands for, 0 where the key is missing; `none` where the value is
-- no number.
abbrev pub reading : Reply IntValue → Option ℤ
reading (reply iv) = some iv.value
reading (failed e) = none

module _ (P : Proto) where
  abbrev pub number : Option Bytes → Option ℤ
  number none = some (pos 0)
  number (some b) = reading (P.ints.unmarshal b)

module _ {E : Etcd} (P : Proto) (L : IsEtcd E) (fuel : ℕ) (ctx : Context) where
  -- Reading the number.
  old_int-none :
      (k : Bytes) (w : World E)
      → L.up (arrive w).store ≡ true
      → k ≢ []
      → L.view (arrive w).store k ≡ none
      → old_int E P fuel ctx (plain_key k) w ≡ (ok (record { key = []; value = pos 0 }), arrive w)
  unfolding old_int get_int
  old_int-none k w u h e = rw (get_lem L fuel k w u h) (rw e)

  old_int-some :
      (k b : Bytes) (iv : IntValue) (w : World E)
      → L.up (arrive w).store ≡ true
      → k ≢ []
      → L.view (arrive w).store k ≡ some b
      → P.ints.unmarshal b ≡ reply iv
      → old_int E P fuel ctx (plain_key k) w ≡ (ok iv, arrive w)
  unfolding old_int get_int
  old_int-some k b iv w u h e d = rw (get_lem L fuel k w u h) (rw e (rw d))

  module _ (k : Bytes) (w : World E) (n : ℤ) (u : L.up (arrive w).store ≡ true) (h : k ≢ []) where
    abbrev Reads : Type 0
    Reads =
        (iv : IntValue) × (old_int E P fuel ctx (plain_key k) w ≡ (ok iv, arrive w))
        × (iv.value ≡ n)

    Reads-some :
        (b : Bytes) (r : Reply IntValue)
        → L.view (arrive w).store k ≡ some b
        → P.ints.unmarshal b ≡ r
        → reading r ≡ some n
        → Reads
    Reads-some b (reply iv) e d m = (iv, old_int-some k b iv w u h e d, cc)
    Reads-some b (failed x) e d m = absurd (cc)

    Reads-of_view : (o : Option Bytes) → L.view (arrive w).store k ≡ o → number P o ≡ some n → Reads
    Reads-of_view none e m =
        (record { key = []; value = pos 0 }, old_int-none k w u h e, ground arith)
    Reads-of_view (some b) e m = Reads-some b (P.ints.unmarshal b) e refl m

    old_int_lem : number P (L.view (arrive w).store k) ≡ some n → Reads
    old_int_lem = Reads-of_view (L.view (arrive w).store k) refl

  -- The number that is stored for `n`.
  abbrev stored : ℤ → IntValue
  stored n = record { key = []; value = n }

  module _ (key b : Bytes) (n : ℤ) (s : E.Store) (good : is_invalid key ≡ false) where
    -- After UnlockThenSet of a number's bytes the key holds the number and is not locked.
    after_put :
        L.up s ≡ true
        → Clean L s
        → P.ints.unmarshal b ≡ reply (stored n)
        → (number P (L.view (E.txn (unlock_and_put key b) s).1 key) ≡ some n)
          × (locked L (E.txn (unlock_and_put key b) s).1 key ≡ false)
    after_put u cl d = (
      rw (view-unlock_and_put L key b good s key u cl, with_value_self L (L.view s) key b, d),
      rw (
        view-unlock_and_put L key b good s (get_lock_name key) u cl,
        with_value_lock L (L.view s) key b,
      ),
    )

  -- Behind the lock: the number is read, and the sum is stored while the lock is given up.
  add_int_lem :
      IsProto P
      → (iv : IntValue) (n : ℤ) (w : World E) → is_invalid iv.key ≡ false
      → L.up (arrive w).store ≡ true
      → L.up (arrive (arrive w)).store ≡ true
      → Clean L (arrive (arrive w)).store
      → number P (L.view (arrive w).store iv.key) ≡ some n
      → ((add_int E P fuel ctx iv w).0 ≡ ok (stored (n +64 iv.value)))
        × (number P (L.view (add_int E P fuel ctx iv w).1.store iv.key) ≡ some (n +64 iv.value))
        × (locked L (add_int E P fuel ctx iv w).1.store iv.key ≡ false)
  unfolding add_int
  add_int_lem PL iv n w good u u' cl m =
      let (old, e, v) = old_int_lem iv.key w n u (ne_nil_of_valid iv.key good) m in
      let (b, eb, eu) = PL.ints_round_trip (stored (n +64 iv.value)) in
      let (held, free) =
        after_put iv.key b (n +64 iv.value) (arrive (arrive w)).store good u' cl eu in
      rw e (
        rw v (rw eb (rw (unlock_then_set_lem L iv.key b good (arrive w) u' cl) (refl, held, free))))

  -- A client that respects the lock of a key leaves the lock and the value of the key alone.
  abbrev Respects : Bytes → Turn E → Type 0
  Respects key t =
      (s : E.Store)
      → locked L s key ≡ true
      → (locked L (t.step s) key ≡ true) × (L.view (t.step s) key ≡ L.view s key)

  -- The member is up, and the key holds a number.
  abbrev HoldsInt : Bytes → E.Store → Type 0
  HoldsInt key s = (L.up s ≡ true) × Clean L s × ((n : ℤ) × (number P (L.view s key) ≡ some n))

  Holds_take_turn :
      (key : Bytes) (I : E.Store → Type 0) (ts : List (Turn E)) (w : World E)
      → Turns (λ t. Respects key t × ((s : E.Store) → I s → I (t.step s))) ts
      → locked L w.store key ≡ true
      → (locked L (take_turn ts w).store key ≡ true)
        × (L.view (take_turn ts w).store key ≡ L.view w.store key)
  Holds_take_turn key I [] w h held = (held, refl)
  Holds_take_turn key I (t ∷ ts) w h held = h.0.0 w.store held

  HoldsInt-lock :
      (key : Bytes) (s : E.Store)
      → HoldsInt key s
      → HoldsInt key (E.txn (unless_locked key (put_op (get_lock_name key) zero_byte ∷ [])) s).1
  HoldsInt-lock key s (u, cl, (n, m)) = (
    L.txn_up s _ u,
    rw (lock_txn_keeps L key zero_byte s u (get_lock_name-ne-zero_byte key)) cl,
    (n, rw (lock_txn_keeps L key key s u (get_lock_name-ne key)) m),
  )

  -- The lock is held, and the number is that of the moment when it was taken.
  abbrev HeldAt : IntValue → World E → E.Store → ℤ → Type 0
  HeldAt iv w s n =
      (locked L s iv.key ≡ false)
      × (number P (L.view s iv.key) ≡ some n)
      × (locked L w.store iv.key ≡ true)
      × (number P (L.view w.store iv.key) ≡ some n)
      × Steady (HoldsInt iv.key) (Respects iv.key) w

  HeldAt-lock :
      (iv : IntValue) (w : World E)
      → Steady (HoldsInt iv.key) (Respects iv.key) w
      → (lock E fuel ctx (plain_key iv.key) w).0 ≡ ok tt
      → (s : E.Store) × (n : ℤ) × HeldAt iv (lock E fuel ctx (plain_key iv.key) w).1 s n
  HeldAt-lock iv w steady e =
      let (s, is, free, same, steady') =
        lock_atomic L fuel ctx (HoldsInt iv.key) (Respects iv.key) (plain_key iv.key) w (λ s i. i.0)
          (HoldsInt-lock iv.key) steady e in
      (
        s,
        is.2.0,
        (
          free,
          is.2.1,
          rw (same (get_lock_name iv.key), with_lock_self L (L.view s) iv.key, beq_refl zero_byte),
          rw (same iv.key, with_lock_ne L (L.view s) iv.key iv.key (get_lock_name-ne iv.key))
              is.2.1,
          steady',
        ),
      )

  add_int-HeldAt :
      IsProto P
      → (iv : IntValue) (w : World E) (s : E.Store) (n : ℤ) → is_invalid iv.key ≡ false
      → HeldAt iv w s n
      → ((add_int E P fuel ctx iv w).0 ≡ ok (stored (n +64 iv.value)))
        × (number P (L.view (add_int E P fuel ctx iv w).1.store iv.key) ≡ some (n +64 iv.value))
        × (locked L (add_int E P fuel ctx iv w).1.store iv.key ≡ false)
  add_int-HeldAt PL iv w s n good (free, m, held, m', steady) =
      let first = arrive-Steady (HoldsInt iv.key) (Respects iv.key) w steady in
      let second = arrive-Steady (HoldsInt iv.key) (Respects iv.key) (arrive w) first in
      add_int_lem PL iv n w good first.0.0 second.0.0 second.0.1
        (rw (Holds_take_turn iv.key (HoldsInt iv.key) w.turns w steady.1 held).1 m')

  -- Where every step of another client leaves the lock and the value of the key alone while the
  -- lock is held, and keeps the member up, a number behind the key and no zero byte behind the key
  -- ZeroByte: if taking the lock of a valid key returns no error, IncrementInt returns and stores
  -- the int64 sum of its argument and the number that the key held when the lock was taken, and has
  -- given up the lock. So no increment is lost.
  pub increment_int_atomic :
      IsProto P
      → (iv : IntValue) (w : World E) → is_invalid iv.key ≡ false
      → Steady (HoldsInt iv.key) (Respects iv.key) w
      → (lock E fuel ctx (plain_key iv.key) w).0 ≡ ok tt
      → (n : ℤ) × (locked L (lock E fuel ctx (plain_key iv.key) w).1.store iv.key ≡ true)
        × (number P (L.view (lock E fuel ctx (plain_key iv.key) w).1.store iv.key) ≡ some n)
        × ((increment_int E P fuel ctx iv w).0 ≡ ok (stored (n +64 iv.value)))
        × (number P (L.view (increment_int E P fuel ctx iv w).1.store iv.key)
            ≡ some (n +64 iv.value))
        × (locked L (increment_int E P fuel ctx iv w).1.store iv.key ≡ false)
  unfolding increment_int
  increment_int_atomic PL iv w good steady e =
      let (s, n, at) = HeldAt-lock iv w steady e in
      let (sum, after, free) = add_int-HeldAt PL iv _ s n good at in
      (n, at.2, at.3, rw e sum, rw e after, rw e free)
