-- ===== src/Tests/Locks.antt =====
-- Locking and IncrementInt.
use mydis_old.Prelude.{
  true, beq, ℕ, ◌≡◌, ◌≢◌, refl, ap, false, some, [], ◌∷◌, arith, ℤ, pos, ◌+64◌, wrap64, ◌+ℤ◌, ◌*ℤ◌,
  Bytes,
}
use mydis_old.Server.Context.{get_max_wait, background}
use mydis_old.Errors.{key_locked}
use mydis_old.Prefix.{zero_byte}
use mydis_old.Etcd.{put_op}
use mydis_old.Etcd.Laws.{View}
use mydis_old.Etcd.Memory.{memory, memory-IsEtcd, empty}
use mydis_old.Runtime.{ok, waiting}
use mydis_old.Runtime.Laws.{Fails, Steady}
use mydis_old.Pb.Simple.{simple, simple-IsProto}
use mydis_old.Pb.{IntValue}
use mydis_old.Server.Waiting.{get_lock_name, deadline}
use mydis_old.Server.Waiting.Laws.{locked, retry_unlocked}
use mydis_old.Server.Waiting.Names.{IsSendable-put, get_lock_name-ne-nil}
use mydis_old.Server.Locks.{lock, lock_with_timeout}
use mydis_old.Server.Locks.Laws.{
  Suffices, lock_with_timeout_ends, lock_with_timeout-Fails, lock_with_timeout_atomic, with_lock,
}
use mydis_old.Server.Numbers.{increment_int}
use mydis_old.Server.Numbers.Laws.{increment_int_atomic, number}
use mydis_old.Tests.{key_a, store_locked, store_with, write_z, busy, within, a}

-- Five seconds are over within 6000 rounds.
pub enough_rounds : (clock : ℕ) → Suffices 6000 clock (pos 5)
unfolding deadline wrap64 ◌+ℤ◌ ◌*ℤ◌
enough_rounds clock = (omega arith, ground arith)

lock_with_timeout_ends_example :
    (lock_with_timeout memory 6000 background (within (pos 5)) (busy store_locked)).0 ≢ waiting
lock_with_timeout_ends_example =
    lock_with_timeout_ends memory 6000 background (within (pos 5)) (busy store_locked) refl
      (enough_rounds 100)

lock_with_timeout-Fails_example :
    Fails memory-IsEtcd
      (lock_with_timeout memory 6000 background (within (pos 5)))
      store_locked
      7
      key_locked
      store_locked
unfolding get_lock_name beq
lock_with_timeout-Fails_example =
    lock_with_timeout-Fails memory-IsEtcd 6000 background (within (pos 5)) store_locked 7 refl refl
      refl (enough_rounds 7)

-- The lock of "a" is taken, though another client writes.
takes_lock :
    (s : View)
    → locked memory-IsEtcd (write_z.step s) key_a ≡ false
    → (lock_with_timeout memory 1 background (within (pos 5)) (busy s)).0 ≡ ok tt
unfolding lock_with_timeout
takes_lock s free =
    ap (λ r. r.0)
      (retry_unlocked memory-IsEtcd false false (deadline 100 (pos 5)) key_a
        (put_op (get_lock_name key_a) zero_byte ∷ []) 0 (busy s) refl
        (IsSendable-put key_a _ zero_byte (get_lock_name-ne-nil key_a)) free)

lock_with_timeout_atomic_example :
    (s : View) × (Unit {0})
    × (locked memory-IsEtcd s key_a ≡ false)
    × ((k : Bytes)
        → (lock_with_timeout memory 1 background (within (pos 5)) (busy empty)).1.store k
          ≡ with_lock memory-IsEtcd s key_a k)
    × Steady
        (λ s. Unit {0})
        (λ t. Unit {0})
        (lock_with_timeout memory 1 background (within (pos 5)) (busy empty)).1
lock_with_timeout_atomic_example =
    lock_with_timeout_atomic memory-IsEtcd 1 background (λ s. Unit {0}) (λ t. Unit {0})
      (within (pos 5)) (busy empty) (λ s i. refl) (λ s i. tt)
      (tt, ((tt, λ s i. tt), ((tt, λ s i. tt), tt)))
      (takes_lock empty (unfold get_lock_name beq in refl))

-- "a" holds the number 41.
abbrev forty_one : View
forty_one = store_with (0 ∷ 0 ∷ 41 ∷ [])

abbrev plus_one : IntValue
plus_one = record { key = key_a; value = pos 1 }

increment_int_atomic_example :
    (n : ℤ) × (locked memory-IsEtcd (lock memory 1 background a (busy forty_one)).1.store key_a
      ≡ true)
    × (number simple ((lock memory 1 background a (busy forty_one)).1.store key_a) ≡ some n)
    × ((increment_int memory simple 1 background plus_one (busy forty_one)).0
        ≡ ok (record { key = []; value = n +64 pos 1 }))
    × (number simple
          ((increment_int memory simple 1 background plus_one (busy forty_one)).1.store key_a)
        ≡ some (n +64 pos 1))
    × (locked memory-IsEtcd
          (increment_int memory simple 1 background plus_one (busy forty_one)).1.store
          key_a
        ≡ false)
unfolding get_lock_name beq
increment_int_atomic_example =
    increment_int_atomic simple memory-IsEtcd 1 background simple-IsProto plus_one (busy forty_one)
      refl
      (
        (refl, refl, (pos 41, refl)),
        (((λ s h. (h, refl)), λ s i. i), (((λ s h. (h, refl)), λ s i. i), tt)),
      )
      (unfold lock get_max_wait in takes_lock forty_one refl)
