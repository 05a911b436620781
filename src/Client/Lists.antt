-- ===== src/Client/Lists.antt =====
-- The client's calls on lists.
use mydis_old.Prelude.{[], ℕ, ℤ, pos, true, Bytes}
use mydis_old.Etcd.{Etcd}
use mydis_old.Runtime.{Prog}
use mydis_old.Pb.{Proto, Key, ListItem, plain_key}
use mydis_old.Value.{Value, Input}
use mydis_old.Server.Context.{Context}
use mydis_old.Server.Lists.{
  get_list_item as get_list_item_handler, set_list_item as set_list_item_handler,
  list_length as list_length_handler, list_limit as list_limit_handler,
  list_insert as list_insert_handler, list_append as list_append_handler,
  list_pop_left as list_pop_left_handler, list_pop_right as list_pop_right_handler,
  list_has as list_has_handler, list_delete as list_delete_handler,
  list_delete_item as list_delete_item_handler,
}
use mydis_old.Client.Remote.{Grpc, called, as_value, encoded}

abbrev item : Bytes → ℤ → Bytes → ListItem
item key index b = record { key = key; index = index; value = b }

-- &pb.Key{Key: key, Block: true, BlockTimeout: timeout}
abbrev blocking_key : Bytes → ℤ → Key
blocking_key key timeout = record (plain_key key) { block = true; block_timeout = timeout }

module _ (E : Etcd) (P : Proto) (G : Grpc) (fuel : ℕ) where
  unfoldable pub get_list_item : Bytes → ℤ → Prog E Value
  get_list_item key index = as_value G (get_list_item_handler E P fuel (item key index []))

  unfoldable pub list_length : Bytes → Prog E ℤ
  list_length key = called G (list_length_handler E P fuel (plain_key key))

  unfoldable pub list_has : Bytes → Input P.Float → Prog E ℤ
  list_has key v = encoded P v λ b. called G (list_has_handler E P fuel (item key (pos 0) b))

  module _ (ctx : Context) where
    unfoldable pub set_list_item : Bytes → ℤ → Input P.Float → Prog E (Unit {0})
    set_list_item key index v =
        encoded P v λ b. called G (set_list_item_handler E P fuel ctx (item key index b))

    unfoldable pub list_limit : Bytes → ℤ → Prog E (Unit {0})
    list_limit key limit = called G (list_limit_handler E P fuel ctx (item key limit []))

    unfoldable pub list_insert : Bytes → ℤ → Input P.Float → Prog E (Unit {0})
    list_insert key index v =
        encoded P v λ b. called G (list_insert_handler E P fuel ctx (item key index b))

    unfoldable pub list_append : Bytes → Input P.Float → Prog E (Unit {0})
    list_append key v =
        encoded P v λ b. called G (list_append_handler E P fuel ctx (item key (pos 0) b))

    unfoldable pub list_pop_left : Bytes → Prog E Value
    list_pop_left key = as_value G (list_pop_left_handler E P fuel ctx (plain_key key))

    unfoldable pub list_pop_left_block : Bytes → ℤ → Prog E Value
    list_pop_left_block key timeout =
        as_value G (list_pop_left_handler E P fuel ctx (blocking_key key timeout))

    unfoldable pub list_pop_right : Bytes → Prog E Value
    list_pop_right key = as_value G (list_pop_right_handler E P fuel ctx (plain_key key))

    unfoldable pub list_pop_right_block : Bytes → ℤ → Prog E Value
    list_pop_right_block key timeout =
        as_value G (list_pop_right_handler E P fuel ctx (blocking_key key timeout))

    unfoldable pub list_delete : Bytes → ℤ → Prog E (Unit {0})
    list_delete key index = called G (list_delete_handler E P fuel ctx (item key index []))

    unfoldable pub list_delete_item : Bytes → Input P.Float → Prog E ℤ
    list_delete_item key v =
        encoded P v λ b. called G (list_delete_item_handler E P fuel ctx (item key (pos 0) b))
