-- ===== src/Server/Numbers.antt =====
-- mydis/type_int.go and mydis/type_float.go.
pub mod Laws
use mydis_old.Prelude.{ℕ, [], Bytes, pos, ◌+64◌, ◌*64◌, negsuc, if◌then◌else◌}
use mydis_old.Errors.{Error, is_key_not_found, is_wire_type_error, type_mismatch}
use mydis_old.Etcd.{Etcd}
use mydis_old.Runtime.{Prog, pure, fail, handle, ◌>>=◌, ◌>>◌, ignore, lift}
use mydis_old.Pb.{Key, IntValue, FloatValue, Proto, Codec, plain_key}
use mydis_old.Server.Context.{Context}
use mydis_old.Server.Locks.{lock, unlock, unlock_then_set}
use mydis_old.Server.Values.{get, set}

-- The reading of a stored value: an error about the wire type becomes ErrTypeMismatch.
abbrev pub mismatch_or : Error → Error
mismatch_or e = if is_wire_type_error e then type_mismatch else e

abbrev pub decode : {E : Etcd} {M : Type 0} → Codec M → Bytes → Prog E M
decode c b = handle (lift (c.unmarshal b)) pure (λ e. fail (mismatch_or e))

module _ (E : Etcd) (P : Proto) (fuel : ℕ) where
  unfoldable pub get_int : Key → Prog E IntValue
  get_int key = do bv ← get E fuel key; decode P.ints bv

  unfoldable pub get_float : Key → Prog E (FloatValue P.Float)
  get_float key = do bv ← get E fuel key; decode P.floats bv

module _ (E : Etcd) (P : Proto) (fuel : ℕ) (ctx : Context) where
  -- `s.Unlock(ctx, key); return nil, err`
  abbrev pub unlock_and_fail : {A : Type 0} → Key → Error → Prog E A
  unlock_and_fail key e = ignore (unlock E fuel ctx key) >> fail e

  unfoldable pub set_int : IntValue → Prog E (Unit {0})
  set_int iv = do b ← lift (P.ints.marshal iv); set E fuel ctx (record { key = iv.key; value = b })

  -- The number behind a key, 0 where the key is missing; another error releases the lock.
  unfoldable pub old_int : Key → Prog E IntValue
  old_int key = handle (get_int E P fuel key) pure (λ e.
      if is_key_not_found e
      then pure (record { key = []; value = pos 0 })
      else unlock_and_fail key e)

  -- The steps behind the lock.
  unfoldable pub add_int : IntValue → Prog E IntValue
  add_int iv = do
    old ← old_int (plain_key iv.key)
    let new : IntValue = record { key = []; value = old.value +64 iv.value }
    b ← handle (lift (P.ints.marshal new)) pure (unlock_and_fail (plain_key iv.key))
    unlock_then_set E (record { key = iv.key; value = b })
    pure new

  unfoldable pub increment_int : IntValue → Prog E IntValue
  increment_int iv = do lock E fuel ctx (plain_key iv.key); add_int iv

  unfoldable pub decrement_int : IntValue → Prog E IntValue
  decrement_int iv = increment_int (record iv { value = iv.value *64 negsuc 0 })

  unfoldable pub set_float : FloatValue P.Float → Prog E (Unit {0})
  set_float fv = do
    b ← lift (P.floats.marshal fv)
    set E fuel ctx (record { key = fv.key; value = b })

  unfoldable pub increment_float : FloatValue P.Float → Prog E (FloatValue P.Float)
  increment_float fv = do
    lock E fuel ctx (plain_key fv.key)
    old ← handle (get_float E P fuel (plain_key fv.key)) pure (λ e.
        if is_key_not_found e
        then pure (record { key = []; value = P.float_zero })
        else unlock_and_fail (plain_key fv.key) e)
    let new : FloatValue P.Float = record { key = []; value = P.float_add old.value fv.value }
    b ← handle (lift (P.floats.marshal new)) pure (unlock_and_fail (plain_key fv.key))
    unlock_then_set E (record { key = fv.key; value = b })
    pure new

  unfoldable pub decrement_float : FloatValue P.Float → Prog E (FloatValue P.Float)
  unfolding increment_float
  decrement_float fv = increment_float (record fv { value = P.float_negate fv.value })
