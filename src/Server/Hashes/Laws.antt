-- ===== src/Server/Hashes/Laws.antt =====
-- Theorems on the handlers of mydis/type_hash.go.
use mydis_old.Prelude.{
  ℕ, suc, ◌≡◌, refl, true, Option, none, some, [], ◌∷◌, arith, Bytes, beq, beq_iff, if◌then◌else◌,
}
use mydis_old.Errors.{reply}
use mydis_old.Etcd.{Etcd}
use mydis_old.Etcd.Laws.{IsEtcd}
use mydis_old.Runtime.{Prog, ok, panic}
use mydis_old.Runtime.Laws.{quiet}
use mydis_old.Pb.{Hash, Proto, Fields}
use mydis_old.Pb.Laws.{IsProto, normal}
use mydis_old.Server.Context.{Context}
use mydis_old.Server.Locks.{unlock_then_set_hash, unlock_and_put}
use mydis_old.Server.Locks.Laws.{with_value, with_lock}
use mydis_old.Server.Locked.{IsReady, Begun, begin, commit}
use mydis_old.Server.Hashes.{get_hash, set_hash_field, del_hash_field, delete_field}
use mydis_old.Server.Values.{put_field, get_field}

-- After an assignment to a field of a map, that field reads as the new value and every other field
-- as before.
pub get_field-put_field :
    (k j v : Bytes) (fs : Fields)
    → get_field j (put_field k v fs) ≡ (if beq k j then some v else get_field j fs)
get_field-put_field k j v [] = refl
get_field-put_field k j v ((i, w) ∷ fs) =
    ground (arith, beq_iff k j, beq_iff i k, beq_iff i j, get_field-put_field k j v fs)

-- After a deletion of a field of a map, that field is missing and every other field reads as
-- before.
pub get_field-delete_field :
    (k j : Bytes) (fs : Fields)
    → get_field j (delete_field k fs) ≡ (if beq k j then none else get_field j fs)
get_field-delete_field k j [] = ground arith
get_field-delete_field k j ((i, w) ∷ fs) =
    ground (arith, beq_iff k j, beq_iff i k, beq_iff i j, get_field-delete_field k j fs)

module _ {E : Etcd} (P : Proto) (L : IsEtcd E) where
  -- The key holds the hash.
  abbrev pub HashAt : E.Store → Bytes → Hash → Type 0
  HashAt s key h = (b : Bytes) × (L.view s key ≡ some b) × (P.hashes.unmarshal b ≡ reply h)

  -- Run alone, the program succeeds, the key then holds the hash, its lock is gone, and no other
  -- key has changed.
  abbrev pub Updates : Prog E (Unit {0}) → E.Store → ℕ → Bytes → Hash → Type 0
  Updates m s c key h =
      (s' : E.Store) × (b : Bytes) × (m (quiet s c) ≡ (ok tt, quiet s' c))
      × (P.hashes.unmarshal b ≡ reply h)
      × (L.up s' ≡ true)
      × ((k : Bytes) → L.view s' k ≡ with_value L (L.view s) key b k)

  module _ (fuel : ℕ) (ctx : Context) (s : E.Store) (c : ℕ) (key : Bytes)
      (ready : IsReady L s key) where
    -- A handler that locks, reads the key and stores a hash.
    updates :
        IsProto P
        → (m : Prog E (Unit {0})) (h : Option Fields) (o : Option Bytes) → L.view s key ≡ o
        → ((t s' : E.Store)
            → Begun L fuel ctx s c key ready o t
            → unlock_then_set_hash E P (record { key = key; value = h }) (quiet t c)
              ≡ (ok tt, quiet s' c)
            → m (quiet s c) ≡ (ok tt, quiet s' c))
        → Updates m s c key (normal (record { key = []; value = h }))
    unfolding unlock_then_set_hash
    updates PL m h o e run =
        let (t, begun) = begin L fuel ctx s c key ready o e in
        let (b, eb, eu) = PL.hashes_round_trip (record { key = []; value = h }) in
        let (done, u, same) = commit L fuel ctx s c key ready b t begun.2 begun.3 begun.4 in
        ((E.txn (unlock_and_put key b) t).1, b, run t _ begun (rw eb done), eu, u, same)

    -- Where the key is valid and not locked and the key ZeroByte does not hold the zero byte,
    -- SetHashField run alone (no other client writes, etcd is up) on a key that holds a map that is
    -- not nil stores the map with the field set, gives up the lock and changes no other key.
    pub set_hash_field-Updates :
        IsProto P
        → (field value k : Bytes) (fs : Fields) → HashAt s key (record { key = k; value = some fs })
        → Updates
            (set_hash_field E P (suc fuel) ctx (record { key = key; field = field; value = value }))
            s
            c
            key
            (normal (record { key = []; value = some (put_field field value fs) }))
    unfolding set_hash_field get_hash
    set_hash_field-Updates PL field value k fs (b, e, d) =
        updates PL
          (set_hash_field E P (suc fuel) ctx (record { key = key; field = field; value = value }))
          (some (put_field field value fs)) (some b) e λ t s' st done. rw st.0 (rw st.1 (rw d done))

    -- Where the key is valid and not locked and the key ZeroByte does not hold the zero byte,
    -- SetHashField run alone (no other client writes, etcd is up) on a missing key stores a map
    -- with that one field, gives up the lock and changes no other key.
    pub set_hash_field_creates :
        IsProto P
        → (field value : Bytes) → L.view s key ≡ none
        → Updates
            (set_hash_field E P (suc fuel) ctx (record { key = key; field = field; value = value }))
            s
            c
            key
            (record { key = []; value = some ((field, value) ∷ []) })
    unfolding set_hash_field get_hash
    set_hash_field_creates PL field value e =
        updates PL
          (set_hash_field E P (suc fuel) ctx (record { key = key; field = field; value = value }))
          (some ((field, value) ∷ [])) none e λ t s' st done. rw st.0 (rw st.1 done)

    -- Where the key is valid and not locked and the key ZeroByte does not hold the zero byte,
    -- DelHashField run alone (no other client writes, etcd is up) on a key that holds a map that is
    -- not nil stores the map without the field, gives up the lock and changes no other key. A map
    -- left empty is read back as nil.
    pub del_hash_field-Updates :
        IsProto P
        → (field value k : Bytes) (fs : Fields) → HashAt s key (record { key = k; value = some fs })
        → Updates
            (del_hash_field E P (suc fuel) ctx (record { key = key; field = field; value = value }))
            s
            c
            key
            (normal (record { key = []; value = some (delete_field field fs) }))
    unfolding del_hash_field get_hash
    del_hash_field-Updates PL field value k fs (b, e, d) =
        updates PL
          (del_hash_field E P (suc fuel) ctx (record { key = key; field = field; value = value }))
          (some (delete_field field fs)) (some b) e λ t s' st done. rw st.0 (rw st.1 (rw d done))

    -- Where the key is valid and not locked and the key ZeroByte does not hold the zero byte and
    -- the key holds a nil map, SetHashField run alone (no other client writes, etcd is up) panics,
    -- changes no value, and leaves the key locked.
    pub set_hash_field_panics :
        (field value k : Bytes)
        → HashAt s key (record { key = k; value = none })
        → (t : E.Store) × (set_hash_field E P
              (suc fuel)
              ctx
              (record { key = key; field = field; value = value })
              (quiet s c)
            ≡ (panic, quiet t c))
          × ((j : Bytes) → L.view t j ≡ with_lock L (L.view s) key j)
    unfolding set_hash_field get_hash
    set_hash_field_panics field value k (b, e, d) =
        let (t, st) = begin L fuel ctx s c key ready (some b) e in
        (t, rw st.0 (rw st.1 (rw d refl)), st.4)
