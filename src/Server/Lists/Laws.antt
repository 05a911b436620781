-- ===== src/Server/Lists/Laws.antt =====
-- Theorems on the handlers of mydis/type_list.go.
use mydis_old.Prelude.{
  get_elem?, zero, take-length_append, length_last, length, length-append, length-take, length-drop,
  take, drop, two63, ℕ, suc, ◌<◌, ◌≡◌, refl, ◌∙◌, true, false, some, List, [], ◌∷◌, ◌++◌, arith,
  Bytes, ℤ, pos, negsuc,
}
use mydis_old.Server.Items.Laws.{
  FirstFrom, find_item-FirstFrom, kept, enforce_list_limit_lem, insert_item-append,
  delete_item-append, past_end_pos,
}
use mydis_old.Server.Values.{is_nil}
use mydis_old.Server.Locked.{IsReady, Begun, begin, commit}
use mydis_old.Errors.{reply}
use mydis_old.Etcd.{Etcd}
use mydis_old.Etcd.Laws.{IsEtcd}
use mydis_old.Runtime.{Prog, ok}
use mydis_old.Runtime.Laws.{Gives, quiet}
use mydis_old.Pb.{PbList, Proto, plain_key}
use mydis_old.Pb.Laws.{IsProto}
use mydis_old.Server.Context.{Context}
use mydis_old.Server.Locks.{lock, unlock_then_set_list, unlock_and_put}
use mydis_old.Server.Locks.Laws.{with_lock, with_value}
use mydis_old.Server.Items.{delete_item, find_item, past_end}
use mydis_old.Server.Lists.{
  pop_items, right, pop_or_wait, get_list, list_append, list_insert, list_delete, list_delete_item,
  list_pop_left, list_pop_right,
}

length-insert :
    (xs : List Bytes) (i : ℕ) (v : Bytes)
    → suc (length xs) < two63
    → length (take i xs ++ (v ∷ drop i xs)) < two63
length-insert xs i v h =
    omega (arith, length-append (take i xs) (v ∷ drop i xs), length-take i xs, length-drop i xs)

past_end_in :
    (xs : List Bytes) (i : ℕ) → i < length xs → length xs < two63 → past_end (pos i) xs ≡ false
past_end_in xs i h small = past_end_pos xs i (omega arith) ∙ ground arith

get_elem?-lt : (xs : List Bytes) (i : ℕ) (v : Bytes) → get_elem? xs i ≡ some v → i < length xs
get_elem?-lt [] i v h = absurd (cc)
get_elem?-lt (x ∷ xs) zero v h = omega arith
get_elem?-lt (x ∷ xs) (suc i) v h = omega (arith, get_elem?-lt xs i v h)

delete_item_in :
    (xs : List Bytes) (i : ℕ)
    → i < length xs
    → delete_item xs i ≡ some (take i xs ++ drop (suc i) xs)
delete_item_in xs i h = delete_item-append xs i ∙ ground arith

module _ {E : Etcd} (P : Proto) (L : IsEtcd E) where
  -- The key holds the list.
  abbrev pub ListAt : E.Store → Bytes → PbList → Type 0
  ListAt s key lst = (b : Bytes) × (L.view s key ≡ some b) × (P.lists.unmarshal b ≡ reply lst)

  -- Run alone, the program returns `a`, the key then holds the list, its lock is gone, and no other
  -- key has changed.
  abbrev pub Updates : {A : Type 0} → Prog E A → E.Store → ℕ → Bytes → A → PbList → Type 0
  Updates m s c key a lst =
      (s' : E.Store) × (b : Bytes) × (m (quiet s c) ≡ (ok a, quiet s' c))
      × (P.lists.unmarshal b ≡ reply lst)
      × (L.up s' ≡ true)
      × ((k : Bytes) → L.view s' k ≡ with_value L (L.view s) key b k)

  module _ (fuel : ℕ) (ctx : Context) (s : E.Store) (c : ℕ) (key : Bytes) (ready : IsReady L s key)
      (lst : PbList) where
    -- The lock is taken, and the list is read.
    abbrev Started : E.Store → Type 0
    Started t =
        (lock E (suc fuel) ctx (plain_key key) (quiet s c) ≡ (ok tt, quiet t c))
        × (get_list E P (suc fuel) (plain_key key) (quiet t c) ≡ (ok lst, quiet t c))

    start :
        (at : ListAt s key lst)
        → (t : E.Store) × Started t × Begun L fuel ctx s c key ready (some at.0) t
    start (b, e, d) =
        let (t, begun) = begin L fuel ctx s c key ready (some b) e in
        (t, (begun.0, unfold get_list in rw begun.1 (rw d refl)), begun)

    -- A handler that locks, reads the list and stores another one.
    updates :
        {A : Type 0}
        → IsProto P
        → (m : Prog E A) (a : A) (xs : List Bytes) (limit : ℤ) → ListAt s key lst
        → ((t s' : E.Store)
            → Started t
            → unlock_then_set_list E P (record { key = key; value = xs; limit = limit }) (quiet t c)
              ≡ (ok tt, quiet s' c)
            → m (quiet s c) ≡ (ok a, quiet s' c))
        → Updates m s c key a (record { key = []; value = xs; limit = limit })
    unfolding unlock_then_set_list
    updates PL m a xs limit at run =
        let (t, st, begun) = start at in
        let (b, eb, eu) = PL.lists_round_trip (record { key = []; value = xs; limit = limit }) in
        let (e, u, same) = commit L fuel ctx s c key ready b t begun.2 begun.3 begun.4 in
        ((E.txn (unlock_and_put key b) t).1, b, run t _ st (rw eb e), eu, u, same)

is_nil-eq-false : (xs : List Bytes) → 0 < length xs → is_nil xs ≡ false
is_nil-eq-false [] h = absurd (omega arith)
is_nil-eq-false (x ∷ xs) h = refl

get_elem?-last : (xs : List Bytes) (b : Bytes) → get_elem? (xs ++ b ∷ []) (length xs) ≡ some b
get_elem?-last [] b = refl
get_elem?-last (x ∷ xs) b = get_elem?-last xs b

-- The last item, and what stands before it.
pop_right-append : (xs : List Bytes) (b : Bytes) → pop_items right (xs ++ b ∷ []) ≡ some (b, xs)
pop_right-append xs b =
    rw (length_last xs b, get_elem?-last xs b, pop_items)
      (rw (length_last xs b, take-length_append xs (b ∷ []) (length xs) refl) refl)

module _ {E : Etcd} (P : Proto) (PL : IsProto P) (L : IsEtcd E) (fuel : ℕ) (ctx : Context) where
  module _ (key : Bytes) (xs : List Bytes) (limit : ℕ) (s : E.Store) (c : ℕ)
      (ready : IsReady L s key)
      (at : ListAt P L s key (record { key = []; value = xs; limit = pos limit })) where
    -- Where the key is valid and not locked and the key ZeroByte does not hold the zero byte,
    -- ListAppend run alone (no other client writes, etcd is up) on a key that holds a list with a
    -- limit that is not negative stores the list with the item at the end, cut to its last items by
    -- the limit, gives up the lock and changes no other key.
    pub list_append-Updates :
        (i : ℤ) (v : Bytes)
        → suc (length xs) < two63
        → Updates P L
            (list_append E P (suc fuel) ctx (record { key = key; index = i; value = v }))
            s
            c
            key
            tt
            (record { key = []; value = kept (xs ++ v ∷ []) limit; limit = pos limit })
    unfolding list_append
    list_append-Updates i v small =
        updates P L fuel ctx s c key ready _ PL
          (list_append E P (suc fuel) ctx (record { key = key; index = i; value = v })) tt
          (kept (xs ++ v ∷ []) limit) (pos limit) at
          λ t s' st e. rw st.0 (
            rw st.1 (
              rw
                (enforce_list_limit_lem key (xs ++ v ∷ []) limit
                  (omega (arith, length-append xs (v ∷ []))))
                e))

    -- Where the key is valid and not locked and the key ZeroByte does not hold the zero byte,
    -- ListInsert run alone (no other client writes, etcd is up) at an index that is not negative,
    -- on a key that holds a list with a limit that is not negative, stores the list with the item
    -- at the index or at its end, cut to its last items by the limit, gives up the lock and changes
    -- no other key.
    pub list_insert-Updates :
        (i : ℕ) (v : Bytes)
        → suc (length xs) < two63
        → Updates P L
            (list_insert E P (suc fuel) ctx (record { key = key; index = pos i; value = v }))
            s
            c
            key
            tt
            (record {
              key = [];
              value = kept (take i xs ++ (v ∷ drop i xs)) limit;
              limit = pos limit;
            })
    unfolding list_insert
    list_insert-Updates i v small =
        updates P L fuel ctx s c key ready _ PL
          (list_insert E P (suc fuel) ctx (record { key = key; index = pos i; value = v })) tt
          (kept (take i xs ++ (v ∷ drop i xs)) limit) (pos limit) at
          λ t s' st e. rw st.0 (
            rw st.1 (
              rw (insert_item-append xs i v) (
                rw
                  (enforce_list_limit_lem key (take i xs ++ (v ∷ drop i xs)) limit
                    (length-insert xs i v small))
                  e)))

    -- Where the key is valid and not locked and the key ZeroByte does not hold the zero byte,
    -- ListDelete run alone (no other client writes, etcd is up) at an index of the list stores the
    -- list without that item, gives up the lock and changes no other key.
    pub list_delete-Updates :
        (i : ℕ) (v : Bytes)
        → i < length xs
        → length xs < two63
        → Updates P L
            (list_delete E P (suc fuel) ctx (record { key = key; index = pos i; value = v }))
            s
            c
            key
            tt
            (record { key = []; value = take i xs ++ drop (suc i) xs; limit = pos limit })
    unfolding list_delete
    list_delete-Updates i v h small =
        updates P L fuel ctx s c key ready _ PL
          (list_delete E P (suc fuel) ctx (record { key = key; index = pos i; value = v })) tt
          (take i xs ++ drop (suc i) xs) (pos limit) at
          λ t s' st e. rw st.0 (
            rw st.1 (
              rw (is_nil-eq-false xs (omega arith), past_end_in xs i h small)
                (rw (delete_item_in xs i h) e)))

  -- Where the key is valid and not locked and the key ZeroByte does not hold the zero byte,
  -- ListPopLeft run alone (no other client writes, etcd is up) on a list that is not empty returns
  -- the first item, stores the other items, gives up the lock and changes no other key.
  pub list_pop_left-Updates :
      (key x : Bytes) (xs : List Bytes) (limit : ℤ) (s : E.Store) (c : ℕ)
      → IsReady L s key
      → ListAt P L s key (record { key = []; value = x ∷ xs; limit = limit })
      → Updates P L
          (list_pop_left E P (suc fuel) ctx (plain_key key))
          s
          c
          key
          x
          (record { key = []; value = xs; limit = limit })
  unfolding list_pop_left pop_or_wait
  list_pop_left-Updates key x xs limit s c ready at =
      updates P L fuel ctx s c key ready _ PL (list_pop_left E P (suc fuel) ctx (plain_key key)) x
        xs limit at λ t s' st e. rw st.0 (rw st.1 (rw e refl))

  -- Where the key is valid and not locked and the key ZeroByte does not hold the zero byte,
  -- ListPopRight run alone (no other client writes, etcd is up) on a list that is not empty returns
  -- the last item, stores the other items, gives up the lock and changes no other key.
  pub list_pop_right-Updates :
      (key x : Bytes) (xs : List Bytes) (limit : ℤ) (s : E.Store) (c : ℕ)
      → IsReady L s key
      → ListAt P L s key (record { key = []; value = xs ++ x ∷ []; limit = limit })
      → Updates P L
          (list_pop_right E P (suc fuel) ctx (plain_key key))
          s
          c
          key
          x
          (record { key = []; value = xs; limit = limit })
  unfolding list_pop_right pop_or_wait
  list_pop_right-Updates key x xs limit s c ready at =
      updates P L fuel ctx s c key ready _ PL (list_pop_right E P (suc fuel) ctx (plain_key key)) x
        xs limit at
        λ t s' st e. rw st.0 (
          rw st.1 (
            rw
              (
                is_nil-eq-false (xs ++ x ∷ []) (omega (arith, length-append xs (x ∷ []))),
                pop_right-append xs x,
              )
              (rw e refl)))

module _ {E : Etcd} (P : Proto) (PL : IsProto P) (L : IsEtcd E) (fuel : ℕ) (ctx : Context)
    (key v : Bytes) (i : ℤ) (xs : List Bytes) (limit : ℤ) (s : E.Store) (c : ℕ)
    (ready : IsReady L s key)
    (at : ListAt P L s key (record { key = []; value = xs; limit = limit })) where
  -- ListDeleteItem where the first index of the value is given: a negative one is answered by -1 and
  -- the lock stays; the item at any other one is removed.
  abbrev pub Deleted : ℤ → Type 0
  Deleted (negsuc n) =
      Gives L (list_delete_item E P (suc fuel) ctx (record { key = key; index = i; value = v })) s c
        (negsuc 0) (with_lock L (L.view s) key)
  Deleted (pos n) =
      Updates P L (list_delete_item E P (suc fuel) ctx (record { key = key; index = i; value = v }))
        s c key (pos n) (record { key = []; value = take n xs ++ drop (suc n) xs; limit = limit })

  list_delete_item_found : (z : ℤ) → find_item xs v 0 ≡ z → FirstFrom xs v 0 z → Deleted z
  unfolding list_delete_item
  list_delete_item_found (negsuc n) e first =
      let (t, st, begun) =
        start P L fuel ctx s c key ready (record { key = []; value = xs; limit = limit }) at in
      (t, rw st.0 (rw st.1 (rw e refl)), begun.2, begun.4)
  list_delete_item_found (pos n) e (j, same, found, before) =
      updates P L fuel ctx s c key ready _ PL
        (list_delete_item E P (suc fuel) ctx (record { key = key; index = i; value = v })) (pos n)
        (take n xs ++ drop (suc n) xs) limit at
        λ t s' st w. rw st.0 (
          rw st.1 (
            rw e (rw (delete_item_in xs n (omega (arith, get_elem?-lt xs j v found))) (rw w refl))))

  -- Where the key is valid and not locked and the key ZeroByte does not hold the zero byte,
  -- ListDeleteItem run alone (no other client writes, etcd is up) on a key that holds a list: where
  -- the value is no item of the list, it returns -1, changes no value, and leaves the key locked;
  -- else it returns the first index of the value, stores the list without that item, gives up the
  -- lock and changes no other key.
  pub list_delete_item-FirstFrom : (z : ℤ) × FirstFrom xs v 0 z × Deleted z
  list_delete_item-FirstFrom = (
    find_item xs v 0,
    find_item-FirstFrom xs v 0,
    list_delete_item_found (find_item xs v 0) refl (find_item-FirstFrom xs v 0),
  )
