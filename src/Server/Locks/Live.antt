-- ===== src/Server/Locks/Live.antt =====
-- Theorems on LockWithTimeout of mydis/type_lock.go with a negative timeout.
use mydis_old.Prelude.{ℕ, ◌<◌, ◌≡◌, refl, true, false, [], ◌∷◌, length, ℤ, pos, negsuc, is_negative}
use mydis_old.Prefix.{zero_byte}
use mydis_old.Etcd.{Etcd, put_op}
use mydis_old.Etcd.Laws.{IsEtcd}
use mydis_old.Runtime.{World, ok}
use mydis_old.Pb.{Expiration}
use mydis_old.Server.Context.{Context}
use mydis_old.Server.Waiting.{get_lock_name, deadline}
use mydis_old.Server.Waiting.Names.{IsSendable-put, get_lock_name-ne-nil}
use mydis_old.Server.Waiting.Live.{Frees, retry-Frees}
use mydis_old.Server.Locks.{is_zero, lock_with_timeout}

is_zero_of_is_negative : (z : ℤ) → is_negative z ≡ true → is_zero z ≡ false
is_zero_of_is_negative (pos n) h = absurd (cc)
is_zero_of_is_negative (negsuc n) h = refl

module _ {E : Etcd} (L : IsEtcd E) (fuel : ℕ) (ctx : Context) where
  -- With a timeout that is negative, which means to wait for ever, LockWithTimeout on a valid key
  -- gets the lock, where the steps of other clients keep the member up, one of them gives up the
  -- lock of the key and none after it takes it again, and the rounds of 1 ms are more than these
  -- steps.
  pub lock_with_timeout-Frees :
      (ex : Expiration) (w : World E)
      → is_negative ex.exp ≡ true
      → L.up w.store ≡ true
      → Frees L ex.key w.turns
      → length w.turns < fuel
      → (lock_with_timeout E fuel ctx ex w).0 ≡ ok tt
  unfolding lock_with_timeout
  lock_with_timeout-Frees ex w neg u frees enough =
      rw (is_zero_of_is_negative ex.exp neg, neg)
        (retry-Frees L ex.key (deadline w.clock ex.exp)
          (put_op (get_lock_name ex.key) zero_byte ∷ [])
          (IsSendable-put ex.key (get_lock_name ex.key) zero_byte (get_lock_name-ne-nil ex.key))
          fuel w u frees enough)
