-- ===== src/Server/Locks.antt =====
-- mydis/type_lock.go.
pub mod Laws
pub mod Live
use mydis_old.Prelude.{
  ℕ, Bool, true, false, [], ◌∷◌, Bytes, beq, if◌then◌else◌, ℤ, pos, is_negative,
}
use mydis_old.Errors.{invalid_key}
use mydis_old.Prefix.{zero_byte}
use mydis_old.Etcd.{Etcd, put_op, delete_op, value_equal, TxnRequest}
use mydis_old.Runtime.{Prog, pure, fail, ◌>>=◌, ◌>>◌, call, lift, now}
use mydis_old.Pb.{Key, Expiration, ByteValue, PbList, Hash, Proto, plain_key}
use mydis_old.Server.Context.{Context, get_max_wait}
use mydis_old.Server.Waiting.{retry, deadline, unless_locked, get_lock_name}
use mydis_old.Server.Keys.{delete}

-- ex.Exp == 0
abbrev pub is_zero : ℤ → Bool
is_zero (pos ℕ.zero) = true
is_zero _ = false

-- len(bkey) == 0 || bytes.Equal(bkey, ZeroByte)
abbrev pub is_invalid : Bytes → Bool
is_invalid [] = true
is_invalid (b ∷ bs) = beq (b ∷ bs) zero_byte

-- The transaction of UnlockThenSet. Its test is on the key ZeroByte.
abbrev pub unlock_and_put : Bytes → Bytes → TxnRequest
unlock_and_put key value = record {
  compare = value_equal zero_byte zero_byte ∷ [];
  success = [];
  failure = delete_op (get_lock_name key) [] ∷ put_op key value ∷ [];
}

module _ (E : Etcd) where
  unfoldable pub unlock_then_set : ByteValue → Prog E (Unit {0})
  unlock_then_set val =
      if is_invalid val.key
      then fail invalid_key
      else (do call (E.txn (unlock_and_put val.key val.value)); pure tt)

  module _ (P : Proto) where
    unfoldable pub unlock_then_set_list : PbList → Prog E (Unit {0})
    unfolding unlock_then_set
    unlock_then_set_list val = do
      b ← lift (P.lists.marshal (record val { key = [] }))
      unlock_then_set (record { key = val.key; value = b })

    unfoldable pub unlock_then_set_hash : Hash → Prog E (Unit {0})
    unfolding unlock_then_set
    unlock_then_set_hash val = do
      b ← lift (P.hashes.marshal (record val { key = [] }))
      unlock_then_set (record { key = val.key; value = b })

module _ (E : Etcd) (fuel : ℕ) (ctx : Context) where
  unfoldable pub lock_with_timeout : Expiration → Prog E (Unit {0})
  lock_with_timeout ex = do
    start ← now
    retry E (is_zero ex.exp) (is_negative ex.exp) (deadline start ex.exp)
        (unless_locked ex.key (put_op (get_lock_name ex.key) zero_byte ∷ [])) fuel

  unfoldable pub lock : Key → Prog E (Unit {0})
  unfolding lock_with_timeout
  lock key = lock_with_timeout (record { key = key.key; exp = get_max_wait ctx })

  unfoldable pub unlock : Key → Prog E (Unit {0})
  unlock key = delete E fuel ctx (plain_key (get_lock_name key.key))
