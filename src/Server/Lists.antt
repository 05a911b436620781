-- ===== src/Server/Lists.antt =====
-- The handlers of mydis/type_list.go.
pub mod Laws
use mydis_old.Prelude.{
  ℕ, zero, suc, ◌+◌, ◌-◌, Bool, true, false, ◌&&◌, ◌||◌, Option, none, some, List, [], ◌∷◌, ◌++◌,
  Bytes, if◌then◌else◌, length, take, drop, get_elem?, ℤ, pos, negsuc, is_negative,
}
use mydis_old.Errors.{
  Error, is_key_not_found, is_list_empty, list_empty, list_index_out_of_range, key_not_found,
}
use mydis_old.Etcd.{Etcd}
use mydis_old.Runtime.{Prog, waiting, pure, fail, crash, handle, ◌>>=◌, ◌>>◌, ignore, lift}
use mydis_old.Pb.{Key, ByteValue, PbList, ListItem, Proto, plain_key}
use mydis_old.Server.Context.{Context}
use mydis_old.Server.Waiting.{poll}
use mydis_old.Server.Locks.{lock, unlock, unlock_then_set_list}
use mydis_old.Server.Values.{get, set, is_nil}
use mydis_old.Server.Numbers.{decode, unlock_and_fail}
use mydis_old.Server.Items.{
  size, read_item, write_item, from_end, past_end, before_start, non_negative, insert_item,
  delete_item, find_item, enforce_list_limit,
}

-- A panic where the slice operation has one.
abbrev pub or_crash : {E : Etcd} {A : Type 0} → Option A → Prog E A
or_crash none = crash
or_crash (some a) = pure a

-- err == util.ErrKeyNotFound || err == util.ErrListEmpty
abbrev pub is_nothing_yet : Error → Bool
is_nothing_yet e = is_key_not_found e || is_list_empty e

abbrev pub no_items : PbList
no_items = record { key = []; value = []; limit = pos 0 }

-- Which end a pop takes, and what it leaves.
pub data End : Type 0 where
  left right : End

abbrev pub pop_items : End → List Bytes → Option (Bytes × List Bytes)
pop_items left [] = none
pop_items left (x ∷ xs) = some (x, xs)
pop_items right xs = elim (get_elem? xs (length xs - 1)) [
  | none ↦ none
  | some b ↦ some (b, take (length xs - 1) xs)
]

module _ (E : Etcd) (P : Proto) (fuel : ℕ) where
  unfoldable pub get_list : Key → Prog E PbList
  get_list key = do bv ← get E fuel key; decode P.lists bv

  unfoldable pub get_list_item : ListItem → Prog E Bytes
  get_list_item li = do
    lst ← get_list (plain_key li.key)
    if is_nil lst.value then fail list_empty else or_crash (read_item lst.value li.index)

  unfoldable pub list_length : Key → Prog E ℤ
  list_length key = do lst ← get_list key; pure (size lst.value)

  unfoldable pub list_has : ListItem → Prog E ℤ
  list_has li =
      handle (get_list (plain_key li.key)) (λ lst. pure (find_item lst.value li.value 0))
        (λ e. if is_key_not_found e then pure (negsuc 0) else fail e)

module _ (E : Etcd) (P : Proto) (fuel : ℕ) (ctx : Context) where
  unfoldable pub set_list : PbList → Prog E (Unit {0})
  set_list lst = do
    b ← lift (P.lists.marshal (record lst { key = [] }))
    set E fuel ctx (record { key = lst.key; value = b })

  -- Lock, read the list, and go on; an error of the reading releases the lock.
  abbrev locked_list : {A : Type 0} → Bytes → (PbList → Prog E A) → Prog E A
  locked_list key body =
      lock E fuel ctx (plain_key key)
      >> handle (get_list E P fuel (plain_key key)) body
          (unlock_and_fail E P fuel ctx (plain_key key))

  -- The same where a missing key is a new list.
  abbrev locked_or_new : Bytes → (PbList → Prog E (Unit {0})) → Prog E (Unit {0})
  locked_or_new key body =
      lock E fuel ctx (plain_key key)
      >> handle (get_list E P fuel (plain_key key)) body (λ e.
        if is_key_not_found e
        then body no_items
        else unlock_and_fail E P fuel ctx (plain_key key) e)

  unfoldable pub set_list_item : ListItem → Prog E (Unit {0})
  set_list_item li = locked_list li.key λ lst.
      if is_nil lst.value
      then unlock_and_fail E P fuel ctx (plain_key li.key) list_empty
      else if past_end li.index lst.value || before_start li.index lst.value
      then unlock_and_fail E P fuel ctx (plain_key li.key) list_index_out_of_range
      else do
        xs ← or_crash (write_item lst.value (from_end li.index lst.value) li.value)
        unlock_then_set_list E P (record lst { key = li.key; value = xs })

  unfoldable pub list_limit : ListItem → Prog E (Unit {0})
  list_limit li = locked_list li.key λ lst.
      unlock_then_set_list E P (record lst { key = li.key; limit = pos (non_negative li.index) })

  unfoldable pub list_insert : ListItem → Prog E (Unit {0})
  list_insert li = locked_or_new li.key λ lst. do
    short ← or_crash (
        enforce_list_limit (record lst {
          key = li.key;
          value = insert_item lst.value (non_negative li.index) li.value;
        }))
    unlock_then_set_list E P short

  unfoldable pub list_append : ListItem → Prog E (Unit {0})
  list_append li = locked_or_new li.key λ lst. do
    short ←
        or_crash
          (enforce_list_limit (record lst { key = li.key; value = lst.value ++ li.value ∷ [] }))
    unlock_then_set_list E P short

  unfoldable pub list_delete : ListItem → Prog E (Unit {0})
  list_delete li = locked_list li.key λ lst.
      if is_nil lst.value
      then unlock_and_fail E P fuel ctx (plain_key li.key) list_empty
      else if is_negative li.index || past_end li.index lst.value
      then unlock_and_fail E P fuel ctx (plain_key li.key) list_index_out_of_range
      else do
        xs ← or_crash (delete_item lst.value (non_negative li.index))
        unlock_then_set_list E P (record lst { key = li.key; value = xs })

  -- A value that is not found is answered by -1, and the lock stays.
  abbrev pub delete_found : Bytes → PbList → ℤ → Prog E ℤ
  delete_found key lst (negsuc i) = pure (negsuc 0)
  delete_found key lst (pos i) = do
    xs ← or_crash (delete_item lst.value i)
    unlock_then_set_list E P (record lst { key = key; value = xs })
    pure (pos i)

  unfoldable pub list_delete_item : ListItem → Prog E ℤ
  list_delete_item li =
      lock E fuel ctx (plain_key li.key)
      >> handle (get_list E P fuel (plain_key li.key))
          (λ lst. delete_found li.key lst (find_item lst.value li.value 0))
          (λ e.
            if is_key_not_found e
            then (do ignore (unlock E fuel ctx (plain_key li.key)); pure (negsuc 0))
            else unlock_and_fail E P fuel ctx (plain_key li.key) e)

  -- `_, err = s.UnlockThenSetList(ctx, lst)`, and the item that was taken.
  abbrev pub store_popped : PbList → Option (Bytes × List Bytes) → Prog E Bytes
  store_popped lst none = crash
  store_popped lst (some (b, xs)) = do unlock_then_set_list E P (record lst { value = xs }); pure b

  -- The body of the pops, with their loop as an argument.
  unfoldable pub pop_or_wait : End → Prog E Bytes → Key → Prog E Bytes
  pop_or_wait end wait key = do
    lock E fuel ctx key
    lst ← handle (get_list E P fuel (record key { block = false })) pure (λ e.
        if is_key_not_found e && key.block
        then pure no_items
        else if is_key_not_found e
        then unlock_and_fail E P fuel ctx key list_empty
        else unlock_and_fail E P fuel ctx key e)
    (if is_nil lst.value && key.block
        then ignore (unlock E fuel ctx key) >> wait
        else if is_nil lst.value
        then unlock_and_fail E P fuel ctx key list_empty
        else store_popped (record lst { key = key.key }) (pop_items end lst.value))

  -- A call with Block unset makes no round of the loop.
  unfoldable pub pop_now : End → Key → Prog E Bytes
  pop_now end key = pop_or_wait end (λ w. (waiting, w)) (record key { block = false })

  unfoldable pub list_pop : End → Key → Prog E Bytes
  list_pop end key =
      pop_or_wait end (poll E (pop_now end key) is_nothing_yet key.block_timeout 0 fuel) key

  unfoldable pub list_pop_left : Key → Prog E Bytes
  unfolding list_pop
  list_pop_left = list_pop left

  unfoldable pub list_pop_right : Key → Prog E Bytes
  unfolding list_pop
  list_pop_right = list_pop right
