-- ===== src/Tests/Items.antt =====
-- The slices of the list handlers, and maps.

use mydis_old.Prelude.{
  ◌+◌, ◌-◌, ◌≡◌, none, some, List, [], ◌∷◌, ◌++◌, arith, pos, Bytes, if◌then◌else◌, take, drop, ltb,
  length, get_elem?,
}
use mydis_old.Pb.{Fields}
use mydis_old.Server.Items.{insert_item, delete_item, enforce_list_limit, read_item}
use mydis_old.Server.Items.Laws.{
  insert_item-append, delete_item-append, enforce_list_limit_lem, kept, read_item_pos,
}
use mydis_old.Tests.{key_a, key_z}

abbrev pub one : Bytes
one = 1 ∷ []

abbrev pub two : Bytes
two = 2 ∷ []

abbrev pub three : Bytes
three = 3 ∷ []

abbrev pub items : List Bytes
items = one ∷ two ∷ three ∷ []

abbrev pub fields : Fields
fields = (key_a, one) ∷ (key_z, two) ∷ []

insert_item-append_example : insert_item items 1 three ≡ take 1 items ++ (three ∷ drop 1 items)
insert_item-append_example = insert_item-append items 1 three

delete_item-append_example :
    delete_item items 1
    ≡ (if ltb 1 (length items) then some (take 1 items ++ drop 2 items) else none)
delete_item-append_example = delete_item-append items 1

enforce_list_limit_lem_example :
    enforce_list_limit (record { key = key_a; value = items; limit = pos 2 })
    ≡ some (record { key = key_a; value = kept items 2; limit = pos 2 })
enforce_list_limit_lem_example = enforce_list_limit_lem key_a items 2 (omega arith)

read_item_pos_example :
    read_item items (pos 3)
    ≡ (if ltb (length items + 1) 3 then get_elem? items (length items - 1) else get_elem? items 3)
read_item_pos_example = read_item_pos items 3 (omega arith) (omega arith) (omega arith)
