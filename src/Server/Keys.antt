-- ===== src/Server/Keys.antt =====
-- mydis/type_keys.go, and the request helpers of mydis/util.go.
pub mod Laws
use mydis_old.Prelude.{
  Bool, true, false, List, [], ◌∷◌, Bytes, beq, if◌then◌else◌, ℤ, pos, ltb_ℤ, ℕ,
}
use mydis_old.Errors.{Error, reads_key_not_found, key_not_found}
use mydis_old.Prefix.{zero_byte, get_prefix}
use mydis_old.Etcd.{Etcd, RangeRequest, KeyValue, delete_op}
use mydis_old.Runtime.{Prog, pure, fail, handle, ◌>>=◌, query, call, now}
use mydis_old.Pb.{Key, Expiration}
use mydis_old.Server.Context.{Context, get_max_wait}
use mydis_old.Server.Waiting.{retry, deadline, unless_locked}

-- kvsToList
abbrev pub kvs_to_list : List KeyValue → List Bytes
kvs_to_list [] = []
kvs_to_list (kv ∷ kvs) = kv.key ∷ kvs_to_list kvs

-- getRangeRequestFromKey; a request that a test leaves out is 0
abbrev positive : ℤ → ℤ
positive n = if ltb_ℤ (pos 0) n then n else pos 0

abbrev pub get_range_request_from_key : Key → RangeRequest
get_range_request_from_key key = record {
  key = key.key;
  range_end = [];
  limit = positive key.limit;
  revision = positive key.revision;
  keys_only = false;
}

-- An error of etcd with the text of ErrKeyNotFound becomes that error.
abbrev pub not_found_or : Error → Error
not_found_or e = if reads_key_not_found e then key_not_found else e

abbrev range_of : Bytes → Bytes → Bool → RangeRequest
range_of key range_end keys_only = record {
  key = key;
  range_end = range_end;
  limit = pos 0;
  revision = pos 0;
  keys_only = keys_only;
}

abbrev pub lists_key : Bytes → List KeyValue → Bool
lists_key key [] = false
lists_key key (kv ∷ kvs) = if beq key kv.key then true else lists_key key kvs

module _ (E : Etcd) where
  unfoldable pub keys : Prog E (List Bytes)
  keys = do res ← query (E.range (range_of zero_byte zero_byte true)); pure (kvs_to_list res.kvs)

  unfoldable pub keys_with_prefix : Key → Prog E (List Bytes)
  keys_with_prefix key = do
    res ← query (E.range (range_of key.key (get_prefix key.key) true))
    pure (kvs_to_list res.kvs)

  unfoldable pub has : Key → Prog E Bool
  has key =
      handle (query (E.range (range_of key.key [] true))) (λ res. pure (lists_key key.key res.kvs))
        (λ e. if reads_key_not_found e then pure false else fail e)

  -- The put request names a key and a lease, and no value.
  unfoldable pub set_expire : Expiration → Prog E (Unit {0})
  set_expire ex =
      handle (call (E.lease_grant ex.exp))
        (λ id. call (E.put (record { key = ex.key; value = []; lease = id })))
        (λ e. fail (not_found_or e))

  unfoldable pub clear : Prog E (Unit {0})
  clear = call (E.delete_range zero_byte zero_byte)

module _ (E : Etcd) (fuel : ℕ) (ctx : Context) where
  unfoldable pub delete : Key → Prog E (Unit {0})
  delete key = do
    start ← now
    retry E false false (deadline start (get_max_wait ctx))
        (unless_locked key.key (delete_op key.key [] ∷ [])) fuel
