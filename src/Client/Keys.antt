-- ===== src/Client/Keys.antt =====
-- The client's calls on keys and locks.
use mydis_old.Prelude.{ℕ, ℤ, Bool, List, Bytes}
use mydis_old.Etcd.{Etcd}
use mydis_old.Runtime.{Prog}
use mydis_old.Pb.{plain_key}
use mydis_old.Value.{Value}
use mydis_old.Server.Context.{Context}
use mydis_old.Server.Keys.{
  keys as keys_handler, keys_with_prefix as keys_with_prefix_handler, has as has_handler,
  set_expire as set_expire_handler, delete as delete_handler, clear as clear_handler,
}
use mydis_old.Server.Locks.{
  lock as lock_handler, lock_with_timeout as lock_with_timeout_handler, unlock as unlock_handler,
  unlock_then_set as unlock_then_set_handler,
}
use mydis_old.Client.Remote.{Grpc, called}

module _ (E : Etcd) (G : Grpc) where
  unfoldable pub keys : Prog E (List Bytes)
  keys = called G (keys_handler E)

  unfoldable pub keys_with_prefix : Bytes → Prog E (List Bytes)
  keys_with_prefix prefix = called G (keys_with_prefix_handler E (plain_key prefix))

  unfoldable pub has : Bytes → Prog E Bool
  has key = called G (has_handler E (plain_key key))

  unfoldable pub set_expire : Bytes → ℤ → Prog E (Unit {0})
  set_expire key seconds = called G (set_expire_handler E (record { key = key; exp = seconds }))

  unfoldable pub clear : Prog E (Unit {0})
  clear = called G (clear_handler E)

  unfoldable pub unlock_then_set : Bytes → Value → Prog E (Unit {0})
  unlock_then_set key v = called G (unlock_then_set_handler E (record { key = key; value = v.b }))

  module _ (fuel : ℕ) (ctx : Context) where
    unfoldable pub lock : Bytes → Prog E (Unit {0})
    lock key = called G (lock_handler E fuel ctx (plain_key key))

    unfoldable pub lock_with_timeout : Bytes → ℤ → Prog E (Unit {0})
    lock_with_timeout key seconds =
        called G (lock_with_timeout_handler E fuel ctx (record { key = key; exp = seconds }))

    unfoldable pub unlock : Bytes → Prog E (Unit {0})
    unlock key = called G (unlock_handler E fuel ctx (plain_key key))

    unfoldable pub delete : Bytes → Prog E (Unit {0})
    delete key = called G (delete_handler E fuel ctx (plain_key key))
