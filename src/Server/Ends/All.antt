-- ===== src/Server/Ends/All.antt =====
-- The handlers of mydis/type_bytes.go, type_int.go, type_float.go, type_list.go and type_hash.go that take a lock.
use mydis_old.Server.Ends.Handlers.{
  Ends-del_hash_field, Ends-set_hash_fields, Ends-set_hash_field, Ends-list_delete_item,
  Ends-list_delete, Ends-list_append, Ends-list_insert, Ends-list_limit, Ends-set_list_item,
  Ends-increment_float, Ends-increment_int, Ends-set_nx,
}
use mydis_old.Server.Hashes.{del_hash_field, set_hash_fields, set_hash_field}
use mydis_old.Server.Lists.{
  list_delete_item, list_delete, list_append, list_insert, list_limit, set_list_item,
}
use mydis_old.Server.Numbers.{increment_float, increment_int}
use mydis_old.Server.Values.{set_nx}
use mydis_old.Pb.{Hash, HashField, ListItem, FloatValue, IntValue, ByteValue, Proto}
use mydis_old.Prelude.{false, ◌≡◌, is_negative, ℕ}
use mydis_old.Server.Context.{get_max_wait, Context}
use mydis_old.Server.Locks.Laws.{Suffices}
use mydis_old.Server.Ends.{Ends}
use mydis_old.Etcd.{Etcd}

module _ (E : Etcd) (P : Proto) (fuel : ℕ) (ctx : Context)
    (enough : (t : ℕ) → Suffices fuel t (get_max_wait ctx))
    (waits : is_negative (get_max_wait ctx) ≡ false) where
  -- For any etcd, also one that fails, and any steps of other clients: where the longest wait is
  -- not negative and rounds of 1 ms reach past it, SetNX, the increments, SetListItem, ListLimit,
  -- ListInsert, ListAppend, ListDelete, ListDeleteItem, SetHashField, SetHashFields and
  -- DelHashField all come to an end, with a reply, an error or a panic.
  pub locking_handlers_end :
      (val : ByteValue) (iv : IntValue) (fv : FloatValue P.Float) (li : ListItem) (hf : HashField)
      (ah : Hash)
      → Ends (set_nx E fuel ctx val)
        × Ends (increment_int E P fuel ctx iv)
        × Ends (increment_float E P fuel ctx fv)
        × Ends (set_list_item E P fuel ctx li)
        × Ends (list_limit E P fuel ctx li)
        × Ends (list_insert E P fuel ctx li)
        × Ends (list_append E P fuel ctx li)
        × Ends (list_delete E P fuel ctx li)
        × Ends (list_delete_item E P fuel ctx li)
        × Ends (set_hash_field E P fuel ctx hf)
        × Ends (set_hash_fields E P fuel ctx ah)
        × Ends (del_hash_field E P fuel ctx hf)
  locking_handlers_end val iv fv li hf ah = (
    Ends-set_nx E P fuel ctx enough waits val,
    Ends-increment_int E P fuel ctx enough waits iv,
    Ends-increment_float E P fuel ctx enough waits fv,
    Ends-set_list_item E P fuel ctx enough waits li,
    Ends-list_limit E P fuel ctx enough waits li,
    Ends-list_insert E P fuel ctx enough waits li,
    Ends-list_append E P fuel ctx enough waits li,
    Ends-list_delete E P fuel ctx enough waits li,
    Ends-list_delete_item E P fuel ctx enough waits li,
    Ends-set_hash_field E P fuel ctx enough waits hf,
    Ends-set_hash_fields E P fuel ctx enough waits ah,
    Ends-del_hash_field E P fuel ctx enough waits hf,
  )
