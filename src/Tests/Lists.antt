-- ===== src/Tests/Lists.antt =====
-- The list handlers.
use mydis_old.Prelude.{ℤ, refl, [], ◌∷◌, ◌++◌, arith, pos, Bytes, beq}
use mydis_old.Server.Items.Laws.{FirstFrom, kept}
use mydis_old.Etcd.Laws.{View}
use mydis_old.Etcd.Memory.{memory, memory-IsEtcd}
use mydis_old.Pb.{PbList, ListItem}
use mydis_old.Pb.Simple.{simple, simple-IsProto}
use mydis_old.Server.Context.{background}
use mydis_old.Server.Waiting.{get_lock_name}
use mydis_old.Server.Locked.{IsReady}
use mydis_old.Server.Items.{find_item}
use mydis_old.Server.Lists.{list_append, list_pop_left}
use mydis_old.Server.Lists.Laws.{
  ListAt, Updates, list_append-Updates, list_pop_left-Updates, Deleted, list_delete_item-FirstFrom,
}
use mydis_old.Tests.{key_a, a, store_with}
use mydis_old.Tests.Items.{items, one, two, three}

-- The bytes of the list of three items, and the store in which "a" holds it.
abbrev coded : Bytes
coded = 0 ∷ 0 ∷ 3 ∷ 3 ∷ 1 ∷ 1 ∷ 1 ∷ 2 ∷ 1 ∷ 3 ∷ []

abbrev stored : PbList
stored = record { key = []; value = items; limit = pos 3 }

abbrev before : View
before = store_with coded

abbrev four : Bytes
four = 4 ∷ []

abbrev a_item : ℤ → Bytes → ListItem
a_item i v = record { key = key_a; index = i; value = v }

ready : IsReady memory-IsEtcd before key_a
unfolding get_lock_name beq
ready = record { is_up = refl; is_valid = refl; is_free = refl; is_clean = refl }

stored_at : ListAt simple memory-IsEtcd before key_a stored
unfolding beq
stored_at = (coded, refl, refl)

list_append-Updates_example :
    Updates simple memory-IsEtcd
      (list_append memory simple 1 background (a_item (pos 0) four))
      before
      7
      key_a
      tt
      (record { key = []; value = kept (items ++ four ∷ []) 3; limit = pos 3 })
list_append-Updates_example =
    list_append-Updates simple simple-IsProto memory-IsEtcd 0 background key_a items 3 before 7
      ready stored_at (pos 0) four (omega arith)

list_pop_left-Updates_example :
    Updates simple memory-IsEtcd
      (list_pop_left memory simple 1 background a)
      before
      7
      key_a
      one
      (record { key = []; value = two ∷ three ∷ []; limit = pos 3 })
list_pop_left-Updates_example =
    list_pop_left-Updates simple simple-IsProto memory-IsEtcd 0 background key_a one
      (two ∷ three ∷ []) (pos 3) before 7 ready stored_at

list_delete_item-FirstFrom_example :
    (z : ℤ) × FirstFrom items four 0 z
    × Deleted simple simple-IsProto memory-IsEtcd 0 background key_a four
        (pos 0)
        items
        (pos 3)
        before
        7
        ready
        stored_at
        z
unfolding beq find_item
list_delete_item-FirstFrom_example =
    list_delete_item-FirstFrom simple simple-IsProto memory-IsEtcd 0 background key_a four (pos 0)
      items (pos 3) before 7 ready stored_at
