-- ===== src/Server/Locked.antt =====
-- The frame that the handlers of lists and hashes share, run alone on a key that is not locked: the
-- lock is taken, the key's bytes are read, other bytes are stored and the lock is given up.
use mydis_old.Prelude.{ℕ, suc, ◌≡◌, ◌∙◌, refl, true, false, Option, Bytes}
use mydis_old.Prefix.{zero_byte}
use mydis_old.Etcd.{Etcd}
use mydis_old.Etcd.Laws.{IsEtcd}
use mydis_old.Runtime.{ok}
use mydis_old.Runtime.Laws.{quiet}
use mydis_old.Pb.{plain_key}
use mydis_old.Server.Context.{Context}
use mydis_old.Server.Waiting.Laws.{locked}
use mydis_old.Server.Waiting.Names.{get_lock_name-ne, get_lock_name-ne-zero_byte}
use mydis_old.Server.Locks.{is_invalid, lock, unlock_then_set, unlock_and_put}
use mydis_old.Server.Locks.Laws.{
  Clean, with_lock, with_value, ne_nil_of_valid, lock-Gives, unlock_then_set_lem,
  view-unlock_and_put, with_value_of_lock, with_lock_ne,
}
use mydis_old.Server.Values.{get}
use mydis_old.Server.Values.Laws.{get_lem, answer}

module _ {E : Etcd} (L : IsEtcd E) where
  -- What every update relies on: the member is up, the key is valid and not locked, and the key
  -- ZeroByte does not hold the zero byte.
  pub record IsReady (s : E.Store) (key : Bytes) : Type 0 where
    pub is_up : L.up s ≡ true
    pub is_valid : is_invalid key ≡ false
    pub is_free : locked L s key ≡ false
    pub is_clean : Clean L s

  module _ (fuel : ℕ) (ctx : Context) (s : E.Store) (c : ℕ) (key : Bytes)
      (ready : IsReady s key) where
    -- The lock is held in `t`, and the key reads as `o`.
    abbrev pub Begun : Option Bytes → E.Store → Type 0
    Begun o t =
        (lock E (suc fuel) ctx (plain_key key) (quiet s c) ≡ (ok tt, quiet t c))
        × (get E (suc fuel) (plain_key key) (quiet t c) ≡ (answer L o, quiet t c))
        × (L.up t ≡ true)
        × Clean L t
        × ((k : Bytes) → L.view t k ≡ with_lock L (L.view s) key k)

    pub begin : (o : Option Bytes) → L.view s key ≡ o → (t : E.Store) × Begun o t
    begin o e =
        let (t, l, u, same) = lock-Gives L fuel ctx (plain_key key) s c ready.is_up ready.is_free in
        let there : L.view t key ≡ o =
          same key ∙ with_lock_ne L (L.view s) key key (get_lock_name-ne key) ∙ e in
        (
          t,
          (
            l,
            rw (get_lem L (suc fuel) key (quiet t c) u (ne_nil_of_valid key ready.is_valid), there)
                refl,
            u,
            rw
                (
                  same zero_byte,
                  with_lock_ne L (L.view s) key zero_byte (get_lock_name-ne-zero_byte key),
                )
                ready.is_clean,
            same,
          ),
        )

    -- The bytes are stored, the lock is gone, and no other key has changed since the start.
    abbrev pub Committed : Bytes → E.Store → E.Store → Type 0
    Committed b t s' =
        (unlock_then_set E (record { key = key; value = b }) (quiet t c) ≡ (ok tt, quiet s' c))
        × (L.up s' ≡ true)
        × ((k : Bytes) → L.view s' k ≡ with_value L (L.view s) key b k)

    pub commit :
        (b : Bytes) (t : E.Store)
        → L.up t ≡ true
        → Clean L t
        → ((k : Bytes) → L.view t k ≡ with_lock L (L.view s) key k)
        → Committed b t (E.txn (unlock_and_put key b) t).1
    commit b t u cl same = (
      unlock_then_set_lem L key b ready.is_valid (quiet t c) u cl,
      L.txn_up t (unlock_and_put key b) u,
      λ k.
          view-unlock_and_put L key b ready.is_valid t k u cl
          ∙ with_value_of_lock L (L.view s) (L.view t) key b k (same k),
    )
