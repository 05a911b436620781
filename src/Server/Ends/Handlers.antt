-- ===== src/Server/Ends/Handlers.antt =====
-- Which handlers end, for any etcd and whatever other clients do.
use mydis_old.Errors.{Error}
use mydis_old.Server.Hashes.{or_panic, get_hash, set_hash_field, set_hash_fields, del_hash_field}
use mydis_old.Server.Lists.{
  delete_found, store_popped, or_crash, get_list, set_list_item, list_limit, list_insert,
  list_append, list_delete, list_delete_item,
}
use mydis_old.Server.Keys.{has, delete}
use mydis_old.Server.Numbers.{
  decrement_int, decrement_float, get_int, get_float, increment_int, increment_float,
  unlock_and_fail, old_int, add_int,
}
use mydis_old.Prelude.{
  ◌*64◌, ℕ, ◌≡◌, refl, false, Option, none, some, Bytes, is_negative, ℤ, pos, negsuc, List,
}
use mydis_old.Etcd.{Etcd}
use mydis_old.Pb.{
  Proto, Key, ByteValue, IntValue, FloatValue, PbList, ListItem, Hash, HashField, plain_key,
}
use mydis_old.Server.Context.{Context, get_max_wait}
use mydis_old.Server.Waiting.{get_lock_name, deadline}
use mydis_old.Server.Waiting.Laws.{retry_ends}
use mydis_old.Server.Locks.{
  lock, unlock, unlock_then_set, unlock_then_set_list, unlock_then_set_hash,
}
use mydis_old.Server.Locks.Laws.{Suffices, lock_with_timeout_ends}
use mydis_old.Server.Values.{get, set_nx}
use mydis_old.Server.Values.Laws.{get_or_wait-ne-waiting}
use mydis_old.Server.Ends.{Ends, Ends-pure, Ends-crash, Ends-bind, ends_rules, Ends-ignore}

module _ {E : Etcd} where
  pub Ends-or_crash : {A : Type 0} (o : Option A) → Ends {E = E} (or_crash o)
  Ends-or_crash none = Ends-crash
  Ends-or_crash (some a) = Ends-pure a

  pub Ends-or_panic :
      {A : Type 0} (P : Proto) (fuel : ℕ) (ctx : Context) (o : Option A)
      → Ends (or_panic E P fuel ctx o)
  Ends-or_panic P fuel ctx none = Ends-crash
  Ends-or_panic P fuel ctx (some a) = Ends-pure a

module _ (E : Etcd) where
  pub Ends-has : (key : Key) → Ends (has E key)
  unfolding has
  Ends-has key = search ends_rules

  Ends-unlock_then_set : (val : ByteValue) → Ends (unlock_then_set E val)
  unfolding unlock_then_set
  Ends-unlock_then_set val = search ends_rules

  module _ (P : Proto) where
    Ends-unlock_then_set_list : (val : PbList) → Ends (unlock_then_set_list E P val)
    unfolding unlock_then_set_list
    Ends-unlock_then_set_list val = search (ends_rules, Ends-unlock_then_set)

    Ends-unlock_then_set_hash : (val : Hash) → Ends (unlock_then_set_hash E P val)
    unfolding unlock_then_set_hash
    Ends-unlock_then_set_hash val = search (ends_rules, Ends-unlock_then_set)

  module _ (fuel : ℕ) where
    pub Ends-get : (key : Key) → key.block ≡ false → Ends (get E fuel key)
    unfolding get
    Ends-get key e = record { ends = λ w. get_or_wait-ne-waiting E _ key w (λ h. absurd (cc)) }

    module _ (P : Proto) where
      pub Ends-get_list : (key : Key) → key.block ≡ false → Ends (get_list E P fuel key)
      unfolding get_list
      Ends-get_list key e = Ends-bind (get E fuel key) _ (Ends-get key e) (λ b. search ends_rules)

      pub Ends-get_hash : (key : Key) → key.block ≡ false → Ends (get_hash E P fuel key)
      unfolding get_hash
      Ends-get_hash key e = Ends-bind (get E fuel key) _ (Ends-get key e) (λ b. search ends_rules)

      pub Ends-get_int : (key : Key) → key.block ≡ false → Ends (get_int E P fuel key)
      unfolding get_int
      Ends-get_int key e = Ends-bind (get E fuel key) _ (Ends-get key e) (λ b. search ends_rules)

      pub Ends-get_float : (key : Key) → key.block ≡ false → Ends (get_float E P fuel key)
      unfolding get_float
      Ends-get_float key e = Ends-bind (get E fuel key) _ (Ends-get key e) (λ b. search ends_rules)

module _ (E : Etcd) (P : Proto) (fuel : ℕ) (ctx : Context)
    (enough : (t : ℕ) → Suffices fuel t (get_max_wait ctx))
    (waits : is_negative (get_max_wait ctx) ≡ false) where
  pub Ends-lock : (key : Key) → Ends (lock E fuel ctx key)
  unfolding lock
  Ends-lock key = record {
    ends = λ w.
        lock_with_timeout_ends E fuel ctx (record { key = key.key; exp = get_max_wait ctx }) w waits
          (enough w.clock);
  }

  pub Ends-delete : (key : Key) → Ends (delete E fuel ctx key)
  unfolding delete
  Ends-delete key = record {
    ends = λ w.
        retry_ends E false false (deadline w.clock (get_max_wait ctx)) _ fuel w refl
          (enough w.clock).1 (enough w.clock).0;
  }

  pub Ends-unlock : (key : Key) → Ends (unlock E fuel ctx key)
  unfolding unlock
  Ends-unlock key = Ends-delete (plain_key (get_lock_name key.key))

  pub Ends-set_nx : (val : ByteValue) → Ends (set_nx E fuel ctx val)
  unfolding set_nx
  Ends-set_nx val = search (ends_rules, Ends-lock, Ends-has, Ends-unlock_then_set)

  Ends-list_of : (k : Bytes) → Ends (get_list E P fuel (plain_key k))
  Ends-list_of k = Ends-get_list E fuel P (plain_key k) refl

  Ends-hash_of : (k : Bytes) → Ends (get_hash E P fuel (plain_key k))
  Ends-hash_of k = Ends-get_hash E fuel P (plain_key k) refl

  Ends-int_of : (k : Bytes) → Ends (get_int E P fuel (plain_key k))
  Ends-int_of k = Ends-get_int E fuel P (plain_key k) refl

  Ends-float_of : (k : Bytes) → Ends (get_float E P fuel (plain_key k))
  Ends-float_of k = Ends-get_float E fuel P (plain_key k) refl

  pub Ends-unlock_and_fail :
      {A : Type 0} (key : Key) (e : Error) → Ends (unlock_and_fail E P fuel ctx {A = A} key e)
  Ends-unlock_and_fail key e = search (ends_rules, Ends-unlock)

  Ends-delete_found : (k : Bytes) (lst : PbList) (i : ℤ) → Ends (delete_found E P fuel ctx k lst i)
  Ends-delete_found k lst (negsuc i) = Ends-pure (negsuc 0)
  Ends-delete_found k lst (pos i) = search (ends_rules, Ends-or_crash, Ends-unlock_then_set_list)

  pub Ends-store_popped :
      (lst : PbList) (o : Option (Bytes × List Bytes)) → Ends (store_popped E P fuel ctx lst o)
  Ends-store_popped lst none = Ends-crash
  Ends-store_popped lst (some (b, xs)) = search (ends_rules, Ends-unlock_then_set_list)

  pub Ends-increment_int : (iv : IntValue) → Ends (increment_int E P fuel ctx iv)
  unfolding increment_int add_int old_int
  Ends-increment_int iv =
      search (ends_rules, Ends-lock, Ends-unlock_and_fail, Ends-int_of, Ends-unlock_then_set) depth
        14

  pub Ends-increment_float : (fv : FloatValue P.Float) → Ends (increment_float E P fuel ctx fv)
  unfolding increment_float
  Ends-increment_float fv =
      search (ends_rules, Ends-lock, Ends-unlock_and_fail, Ends-float_of, Ends-unlock_then_set)
        depth 14

  pub Ends-decrement_int : (iv : IntValue) → Ends (decrement_int E P fuel ctx iv)
  unfolding decrement_int
  Ends-decrement_int iv = Ends-increment_int (record iv { value = iv.value *64 negsuc 0 })

  pub Ends-decrement_float : (fv : FloatValue P.Float) → Ends (decrement_float E P fuel ctx fv)
  unfolding decrement_float
  Ends-decrement_float fv = Ends-increment_float (record fv { value = P.float_negate fv.value })

  pub Ends-set_list_item : (li : ListItem) → Ends (set_list_item E P fuel ctx li)
  unfolding set_list_item
  Ends-set_list_item li =
      search
        (
          ends_rules, Ends-lock, Ends-unlock_and_fail, Ends-list_of, Ends-or_crash,
          Ends-unlock_then_set_list,
        )
        depth 14

  pub Ends-list_limit : (li : ListItem) → Ends (list_limit E P fuel ctx li)
  unfolding list_limit
  Ends-list_limit li =
      search (ends_rules, Ends-lock, Ends-unlock_and_fail, Ends-list_of, Ends-unlock_then_set_list)
        depth 14

  pub Ends-list_insert : (li : ListItem) → Ends (list_insert E P fuel ctx li)
  unfolding list_insert
  Ends-list_insert li =
      search
        (
          ends_rules, Ends-lock, Ends-unlock_and_fail, Ends-list_of, Ends-or_crash,
          Ends-unlock_then_set_list,
        )
        depth 14

  pub Ends-list_append : (li : ListItem) → Ends (list_append E P fuel ctx li)
  unfolding list_append
  Ends-list_append li =
      search
        (
          ends_rules, Ends-lock, Ends-unlock_and_fail, Ends-list_of, Ends-or_crash,
          Ends-unlock_then_set_list,
        )
        depth 14

  pub Ends-list_delete : (li : ListItem) → Ends (list_delete E P fuel ctx li)
  unfolding list_delete
  Ends-list_delete li =
      search
        (
          ends_rules, Ends-lock, Ends-unlock_and_fail, Ends-list_of, Ends-or_crash,
          Ends-unlock_then_set_list,
        )
        depth 14

  pub Ends-list_delete_item : (li : ListItem) → Ends (list_delete_item E P fuel ctx li)
  unfolding list_delete_item
  Ends-list_delete_item li =
      search
        (
          ends_rules, Ends-lock, Ends-unlock_and_fail, Ends-list_of, Ends-delete_found, Ends-unlock,
          Ends-ignore,
        )
        depth 14

  pub Ends-set_hash_field : (hf : HashField) → Ends (set_hash_field E P fuel ctx hf)
  unfolding set_hash_field
  Ends-set_hash_field hf =
      search
        (
          ends_rules, Ends-lock, Ends-unlock_and_fail, Ends-hash_of, Ends-unlock_then_set_hash,
          Ends-or_panic,
        )
        depth 14

  pub Ends-set_hash_fields : (ah : Hash) → Ends (set_hash_fields E P fuel ctx ah)
  unfolding set_hash_fields
  Ends-set_hash_fields ah =
      search
        (
          ends_rules, Ends-lock, Ends-unlock_and_fail, Ends-hash_of, Ends-unlock_then_set_hash,
          Ends-or_panic,
        )
        depth 14

  pub Ends-del_hash_field : (hf : HashField) → Ends (del_hash_field E P fuel ctx hf)
  unfolding del_hash_field
  Ends-del_hash_field hf =
      search (ends_rules, Ends-lock, Ends-unlock_and_fail, Ends-hash_of, Ends-unlock_then_set_hash)
        depth 14
