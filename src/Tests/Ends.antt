-- ===== src/Tests/Ends.antt =====
-- Handlers that end.
use mydis_old.Server.Hashes.{del_hash_field, set_hash_fields, set_hash_field}
use mydis_old.Server.Lists.{
  list_delete_item, list_delete, list_append, list_insert, list_limit, set_list_item, left,
  list_pop,
}
use mydis_old.Server.Numbers.{increment_float, increment_int}
use mydis_old.Tests.Cache.{not_forever, rounds_background}
use mydis_old.Prelude.{true, some, ℤ, pos, refl, [], ◌∷◌, arith}
use mydis_old.Pb.{plain_key, ByteValue, FloatValue, Hash, HashField, IntValue, ListItem}
use mydis_old.Pb.Simple.{simple}
use mydis_old.Server.Context.{background}
use mydis_old.Tests.{key_a}
use mydis_old.Server.Values.{set_nx}
use mydis_old.Etcd.Memory.{memory}
use mydis_old.Server.Ends.{Ends}
use mydis_old.Server.Ends.Pops.{Ends-list_pop}
use mydis_old.Server.Ends.All.{locking_handlers_end}

abbrev one_byte : ByteValue
one_byte = record { key = key_a; value = 1 ∷ [] }

abbrev one_more : IntValue
one_more = record { key = key_a; value = pos 1 }

abbrev one_more_float : FloatValue ℤ
one_more_float = record { key = key_a; value = pos 1 }

abbrev first_item : ListItem
first_item = record { key = key_a; index = pos 0; value = 1 ∷ [] }

abbrev one_field : HashField
one_field = record { key = key_a; field = 2 ∷ []; value = 1 ∷ [] }

abbrev no_fields : Hash
no_fields = record { key = key_a; value = some [] }

Ends-list_pop_example : Ends (
    list_pop memory simple 6000 background left
      (record (plain_key key_a) { block = true; block_timeout = pos 3 }))
Ends-list_pop_example =
    Ends-list_pop memory simple 6000 background rounds_background not_forever left
      (record (plain_key key_a) { block = true; block_timeout = pos 3 }) 3 refl (omega arith)
      (omega arith) (omega arith)

locking_handlers_end_example :
    Ends (set_nx memory 6000 background one_byte)
    × Ends (increment_int memory simple 6000 background one_more)
    × Ends (increment_float memory simple 6000 background one_more_float)
    × Ends (set_list_item memory simple 6000 background first_item)
    × Ends (list_limit memory simple 6000 background first_item)
    × Ends (list_insert memory simple 6000 background first_item)
    × Ends (list_append memory simple 6000 background first_item)
    × Ends (list_delete memory simple 6000 background first_item)
    × Ends (list_delete_item memory simple 6000 background first_item)
    × Ends (set_hash_field memory simple 6000 background one_field)
    × Ends (set_hash_fields memory simple 6000 background no_fields)
    × Ends (del_hash_field memory simple 6000 background one_field)
locking_handlers_end_example =
    locking_handlers_end memory simple 6000 background rounds_background not_forever one_byte
      one_more one_more_float first_item one_field no_fields
