-- ===== src/Tests/Hashes.antt =====
-- The hash handlers.
use mydis_old.Prelude.{◌≡◌, refl, some, [], ◌∷◌, Bytes, beq}
use mydis_old.Etcd.Laws.{View}
use mydis_old.Etcd.Memory.{memory, memory-IsEtcd, empty}
use mydis_old.Runtime.{panic}
use mydis_old.Runtime.Laws.{quiet}
use mydis_old.Pb.{HashField}
use mydis_old.Pb.Laws.{normal}
use mydis_old.Pb.Simple.{simple, simple-IsProto}
use mydis_old.Server.Context.{background}
use mydis_old.Server.Waiting.{get_lock_name}
use mydis_old.Server.Locked.{IsReady}
use mydis_old.Server.Locks.Laws.{with_lock}
use mydis_old.Server.Values.{put_field}
use mydis_old.Server.Hashes.{set_hash_field}
use mydis_old.Server.Hashes.Laws.{HashAt, Updates, set_hash_field-Updates, set_hash_field_panics}
use mydis_old.Tests.{key_a, key_z, store_with}
use mydis_old.Tests.Items.{fields, three}

-- The bytes of a hash with two fields, and of one with none.
abbrev coded : Bytes
coded = 0 ∷ 2 ∷ 1 ∷ 97 ∷ 1 ∷ 1 ∷ 1 ∷ 122 ∷ 1 ∷ 2 ∷ []

abbrev coded_none : Bytes
coded_none = 0 ∷ 0 ∷ []

abbrev field_z : HashField
field_z = record { key = key_a; field = key_z; value = three }

abbrev IsReadyFor : View → Type 0
IsReadyFor s = IsReady memory-IsEtcd s key_a

ready : IsReadyFor (store_with coded)
unfolding get_lock_name beq
ready = record { is_up = refl; is_valid = refl; is_free = refl; is_clean = refl }

ready_none : IsReadyFor (store_with coded_none)
unfolding get_lock_name beq
ready_none = record { is_up = refl; is_valid = refl; is_free = refl; is_clean = refl }

ready_empty : IsReadyFor empty
unfolding get_lock_name beq
ready_empty = record { is_up = refl; is_valid = refl; is_free = refl; is_clean = refl }

stored_at :
    HashAt simple memory-IsEtcd (store_with coded) key_a (record { key = []; value = some fields })
unfolding beq
stored_at = (coded, refl, refl)

set_hash_field-Updates_example :
    Updates simple memory-IsEtcd
      (set_hash_field memory simple 1 background field_z)
      (store_with coded)
      7
      key_a
      (normal (record { key = []; value = some (put_field key_z three fields) }))
set_hash_field-Updates_example =
    set_hash_field-Updates simple memory-IsEtcd 0 background (store_with coded) 7 key_a ready
      simple-IsProto key_z three [] fields stored_at

set_hash_field_panics_example :
    (t : View) × (set_hash_field memory simple 1 background field_z
        (quiet (store_with coded_none) 7)
      ≡ (panic, quiet t 7))
    × ((j : Bytes) → t j ≡ with_lock memory-IsEtcd (store_with coded_none) key_a j)
unfolding beq
set_hash_field_panics_example =
    set_hash_field_panics simple memory-IsEtcd 0 background (store_with coded_none) 7 key_a
      ready_none key_z three [] (coded_none, refl, refl)
