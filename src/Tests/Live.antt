-- ===== src/Tests/Live.antt =====
-- A client that waits for a lock which another client gives up.
use mydis_old.Prelude.{if◌then◌else◌, ◌≡◌, refl, none, [], ◌∷◌, arith, negsuc, beq}
use mydis_old.Etcd.Memory.{memory, memory-IsEtcd}
use mydis_old.Runtime.{Turn, World, ok}
use mydis_old.Server.Context.{background}
use mydis_old.Server.Waiting.{get_lock_name}
use mydis_old.Server.Waiting.Live.{Frees, unlocks_now, unlocks_later}
use mydis_old.Server.Locks.{lock_with_timeout}
use mydis_old.Server.Locks.Live.{lock_with_timeout-Frees}
use mydis_old.Tests.{key_a, store_locked, write_z, within}

-- The holder unlocks "a".
abbrev unlock_a : Turn memory
unlock_a = record { step = λ s k. if beq (get_lock_name key_a) k then none else s k; late = 9 }

abbrev waiting_world : World memory
waiting_world = record {
  store = store_locked;
  clock = 100;
  turns = write_z ∷ write_z ∷ unlock_a ∷ write_z ∷ [];
}

waiting_world-Frees : Frees memory-IsEtcd key_a waiting_world.turns
unfolding get_lock_name beq
waiting_world-Frees =
    unlocks_later (λ s h. refl)
      (unlocks_later (λ s h. refl)
        (unlocks_now (λ s h. refl) (λ s h. refl) ((λ s h. refl), tt) ((λ s h f. f), tt)))

lock_with_timeout-Frees_example :
    (lock_with_timeout memory 5 background (within (negsuc 0)) waiting_world).0 ≡ ok tt
lock_with_timeout-Frees_example =
    lock_with_timeout-Frees memory-IsEtcd 5 background (within (negsuc 0)) waiting_world refl refl
      waiting_world-Frees (omega arith)
