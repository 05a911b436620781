-- ===== src/Client/Ends/Lists.antt =====
-- The calls of client/client.go on lists come to an end.
use mydis_old.Prelude.{ℕ, ℤ, refl, false, Bytes, is_negative, ◌≡◌, pos, ◌<◌, ◌≤◌, ◌*◌}
use mydis_old.Etcd.{Etcd}
use mydis_old.Pb.{Proto, plain_key}
use mydis_old.Server.Context.{Context, get_max_wait}
use mydis_old.Server.Locks.Laws.{Suffices}
use mydis_old.Server.Ends.{Ends}
use mydis_old.Value.{Input}
use mydis_old.Client.Remote.{Grpc}
use mydis_old.Client.Ends.{Ends-called, Ends-encoded, Ends-as_value}
use mydis_old.Server.Ends.Reads.{
  Ends-get_list_item as Ends-get_list_item_handler, Ends-list_has as Ends-list_has_handler,
  Ends-list_length as Ends-list_length_handler,
}
use mydis_old.Server.Ends.Handlers.{
  Ends-list_append as Ends-list_append_handler, Ends-list_delete as Ends-list_delete_handler,
  Ends-list_delete_item as Ends-list_delete_item_handler,
  Ends-list_insert as Ends-list_insert_handler, Ends-list_limit as Ends-list_limit_handler,
  Ends-set_list_item as Ends-set_list_item_handler,
}
use mydis_old.Server.Waiting.{second, poll_delay}
use mydis_old.Server.Lists.{
  left, right, list_pop_left as list_pop_left_handler, list_pop_right as list_pop_right_handler,
}
use mydis_old.Server.Ends.Pops.{Ends-list_pop, Ends-list_pop_at_once}
use mydis_old.Client.Lists.{
  get_list_item, list_length, list_has, set_list_item, list_insert, list_append, list_delete_item,
  list_limit, list_delete, list_pop_left, list_pop_left_block, list_pop_right, list_pop_right_block,
}

module _ (E : Etcd) (P : Proto) (G : Grpc) (fuel : ℕ) where
  pub Ends-get_list_item : (k : Bytes) (i : ℤ) → Ends (get_list_item E P G fuel k i)
  unfolding get_list_item
  Ends-get_list_item k i = Ends-as_value G _ (Ends-get_list_item_handler E P fuel _)

  pub Ends-list_length : (k : Bytes) → Ends (list_length E P G fuel k)
  unfolding list_length
  Ends-list_length k = Ends-called G _ (Ends-list_length_handler E P fuel k)

  pub Ends-list_has : (k : Bytes) (v : Input P.Float) → Ends (list_has E P G fuel k v)
  unfolding list_has
  Ends-list_has k v = Ends-encoded P v _ (λ b. Ends-called G _ (Ends-list_has_handler E P fuel _))

module _ (E : Etcd) (P : Proto) (G : Grpc) (fuel : ℕ) (ctx : Context)
    (enough : (t : ℕ) → Suffices fuel t (get_max_wait ctx))
    (waits : is_negative (get_max_wait ctx) ≡ false) where
  pub Ends-set_list_item :
      (k : Bytes) (i : ℤ) (v : Input P.Float) → Ends (set_list_item E P G fuel ctx k i v)
  unfolding set_list_item
  Ends-set_list_item k i v =
      Ends-encoded P v _
        (λ b. Ends-called G _ (Ends-set_list_item_handler E P fuel ctx enough waits _))

  pub Ends-list_insert :
      (k : Bytes) (i : ℤ) (v : Input P.Float) → Ends (list_insert E P G fuel ctx k i v)
  unfolding list_insert
  Ends-list_insert k i v =
      Ends-encoded P v _
        (λ b. Ends-called G _ (Ends-list_insert_handler E P fuel ctx enough waits _))

  pub Ends-list_append : (k : Bytes) (v : Input P.Float) → Ends (list_append E P G fuel ctx k v)
  unfolding list_append
  Ends-list_append k v =
      Ends-encoded P v _
        (λ b. Ends-called G _ (Ends-list_append_handler E P fuel ctx enough waits _))

  pub Ends-list_delete_item :
      (k : Bytes) (v : Input P.Float) → Ends (list_delete_item E P G fuel ctx k v)
  unfolding list_delete_item
  Ends-list_delete_item k v =
      Ends-encoded P v _
        (λ b. Ends-called G _ (Ends-list_delete_item_handler E P fuel ctx enough waits _))

  pub Ends-list_limit : (k : Bytes) (i : ℤ) → Ends (list_limit E P G fuel ctx k i)
  unfolding list_limit
  Ends-list_limit k i = Ends-called G _ (Ends-list_limit_handler E P fuel ctx enough waits _)

  pub Ends-list_delete : (k : Bytes) (i : ℤ) → Ends (list_delete E P G fuel ctx k i)
  unfolding list_delete
  Ends-list_delete k i = Ends-called G _ (Ends-list_delete_handler E P fuel ctx enough waits _)

  pub Ends-list_pop_left : (k : Bytes) → Ends (list_pop_left E P G fuel ctx k)
  unfolding list_pop_left list_pop_left_handler
  Ends-list_pop_left k =
      Ends-as_value G _ (Ends-list_pop_at_once E P fuel ctx enough waits left (plain_key k) refl)

  pub Ends-list_pop_left_block :
      (k : Bytes) (timeout : ℕ)
      → 0 < timeout
      → 0 < fuel
      → timeout * second ≤ fuel * poll_delay
      → Ends (list_pop_left_block E P G fuel ctx k (pos timeout))
  unfolding list_pop_left_block list_pop_left_handler
  Ends-list_pop_left_block k timeout p f h =
      Ends-as_value G _ (Ends-list_pop E P fuel ctx enough waits left _ timeout refl p f h)

  pub Ends-list_pop_right : (k : Bytes) → Ends (list_pop_right E P G fuel ctx k)
  unfolding list_pop_right list_pop_right_handler
  Ends-list_pop_right k =
      Ends-as_value G _ (Ends-list_pop_at_once E P fuel ctx enough waits right (plain_key k) refl)

  pub Ends-list_pop_right_block :
      (k : Bytes) (timeout : ℕ)
      → 0 < timeout
      → 0 < fuel
      → timeout * second ≤ fuel * poll_delay
      → Ends (list_pop_right_block E P G fuel ctx k (pos timeout))
  unfolding list_pop_right_block list_pop_right_handler
  Ends-list_pop_right_block k timeout p f h =
      Ends-as_value G _ (Ends-list_pop E P fuel ctx enough waits right _ timeout refl p f h)
