-- ===== src/Server/Waiting/Names.antt =====
-- The names of locks: `getLockName` is injective, and a lock's name is neither empty, nor the zero
-- byte, nor the name of the key.
use mathlib.Core.List.{append_cancel_right}
use mydis_old.Prefix.{zero_byte}
use mydis_old.Server.Waiting.{get_lock_name, unless_locked}
use mydis_old.Prelude.{
  ℕ, ◌+◌, ◌≡◌, ◌≢◌, refl, ap, inl, inr, false, [], ◌∷◌, arith, Bytes, codes, beq, eq_of_beq,
  Bool-cases, length, length-append,
}
use mydis_old.Etcd.{put_op, delete_op}
use mydis_old.Etcd.Laws.{IsSendable}

pub length-get_lock_name : (key : Bytes) → length (get_lock_name key) ≡ length key + 12
unfolding get_lock_name
length-get_lock_name key = length-append key (codes "*_MYDIS_LOCK")

pub get_lock_name-ne-nil : (key : Bytes) → get_lock_name key ≢ []
get_lock_name-ne-nil key e =
    absurd (omega (arith, length-get_lock_name key, ap (length {0} {A = ℕ}) e))

pub beq_ne : (a b : Bytes) → a ≢ b → beq a b ≡ false
beq_ne a b h = elim (Bool-cases (beq a b)) [ inl e ↦ absurd (h (eq_of_beq a b e)) | inr e ↦ e ]

pub get_lock_name-ne : (key : Bytes) → get_lock_name key ≢ key
get_lock_name-ne key e = absurd (omega (arith, length-get_lock_name key, ap (length {0} {A = ℕ}) e))

pub get_lock_name-ne-zero_byte : (key : Bytes) → get_lock_name key ≢ zero_byte
get_lock_name-ne-zero_byte key e =
    absurd (omega (arith, length-get_lock_name key, ap (length {0} {A = ℕ}) e))

pub beq-get_lock_name : (key : Bytes) → beq (get_lock_name key) key ≡ false
beq-get_lock_name key =
    beq_ne _ _ λ e. absurd (omega (arith, length-get_lock_name key, ap (length {0} {A = ℕ}) e))

pub get_lock_name-injective : (a b : Bytes) → get_lock_name a ≡ get_lock_name b → a ≡ b
unfolding get_lock_name
get_lock_name-injective a b e = append_cancel_right a b (codes "*_MYDIS_LOCK") e

-- The locks of two keys are two keys.
pub beq-get_lock_name_ne : (a b : Bytes) → a ≢ b → beq (get_lock_name a) (get_lock_name b) ≡ false
beq-get_lock_name_ne a b h = beq_ne _ _ λ e. h (get_lock_name-injective a b e)

-- etcd takes the transactions that write one key.
pub IsSendable-put : (key k v : Bytes) → k ≢ [] → IsSendable (unless_locked key (put_op k v ∷ []))
IsSendable-put key k v h = record {
  compare = (get_lock_name-ne-nil key, tt);
  success = tt;
  failure = (h, tt, tt);
}

pub IsSendable-delete :
    (key k : Bytes) → k ≢ [] → IsSendable (unless_locked key (delete_op k [] ∷ []))
IsSendable-delete key k h = record {
  compare = (get_lock_name-ne-nil key, tt);
  success = tt;
  failure = (h, refl, tt, tt);
}
