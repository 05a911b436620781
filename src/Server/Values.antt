-- ===== src/Server/Values.antt =====
-- mydis/type_bytes.go.
pub mod Laws
use mydis_old.Prelude.{
  ℕ, ◌&&◌, Bool, true, false, Option, none, some, List, [], ◌∷◌, Bytes, beq, if◌then◌else◌, ℤ, pos,
  ltb, length, String,
}
use mydis_old.Errors.{error_text, key_not_found, is_key_not_found, invalid_key}
use mydis_old.Prefix.{zero_byte, get_prefix}
use mydis_old.Etcd.{
  Etcd, put_op, range_op, TxnRequest, RequestOp, value_equal, KeyValue, ResponseOp, range_response,
}
use mydis_old.Runtime.{Prog, pure, fail, crash, waiting, handle, ◌>>=◌, ◌>>◌, query, call, now}
use mydis_old.Pb.{Key, ByteValue, Fields, plain_key}
use mydis_old.Server.Context.{Context, get_max_wait}
use mydis_old.Server.Waiting.{retry, poll, deadline, unless_locked}
use mydis_old.Server.Keys.{get_range_request_from_key, not_found_or, has}
use mydis_old.Server.Locks.{is_invalid, lock, unlock_then_set}

-- m[key] = value, and m[key], on a Go map.
abbrev pub put_field : Bytes → Bytes → Fields → Fields
put_field k v [] = (k, v) ∷ []
put_field k v ((j, x) ∷ fs) = if beq j k then (k, v) ∷ fs else (j, x) ∷ put_field k v fs

abbrev pub get_field : Bytes → Fields → Option Bytes
get_field k [] = none
get_field k ((j, x) ∷ fs) = if beq j k then some x else get_field k fs

abbrev pub is_nil {ℓ} : {A : Type ℓ} → List A → Bool
is_nil [] = true
is_nil (x ∷ xs) = false

abbrev pub read_keys : List Bytes → List RequestOp
read_keys [] = []
read_keys (k ∷ ks) =
    range_op
      (record { key = k; range_end = []; limit = pos 0; revision = pos 0; keys_only = false })
    ∷ read_keys ks

abbrev pub read_all : List Bytes → TxnRequest
read_all ks = record {
  compare = value_equal zero_byte zero_byte ∷ [];
  success = [];
  failure = read_keys ks;
}

abbrev pub collect : List KeyValue → Fields → Fields
collect [] h = h
collect (kv ∷ kvs) h = collect kvs (put_field kv.key kv.value h)

module _ (E : Etcd) where
  -- res.Kvs[0].Value
  abbrev first_value : List KeyValue → Prog E Bytes
  first_value [] = crash
  first_value (kv ∷ kvs) = pure kv.value

  -- The body of Get, with its loop as an argument.
  unfoldable pub get_or_wait : Prog E Bytes → Key → Prog E Bytes
  get_or_wait wait key =
      handle (query (E.range (get_range_request_from_key key)))
        (λ res.
          if is_nil res.kvs && key.block
          then wait
          else if ltb 0 res.count
          then first_value res.kvs
          else fail key_not_found)
        (λ e. fail (not_found_or e))

  -- A call with Block unset makes no round of the loop.
  unfoldable pub get_now : Key → Prog E Bytes
  unfolding get_or_wait
  get_now key = get_or_wait (λ w. (waiting, w)) (record key { block = false })

  -- The loop over the responses of GetMany. A response that is no range response is a nil pointer.
  abbrev pub gather : List Bytes → List ResponseOp → Fields → Prog E Fields
  gather ks [] h = pure h
  gather [] (r ∷ rs) h = crash
  gather (k ∷ ks) (range_response res ∷ rs) h =
      gather ks rs (elim res.kvs [ [] ↦ h | kv ∷ kvs ↦ put_field k kv.value h ])
  gather (k ∷ ks) (r ∷ rs) h = crash

  unfoldable pub get_many : List Bytes → Prog E Fields
  get_many [] = pure []
  get_many (k ∷ ks) = do res ← call (E.txn (read_all (k ∷ ks))); gather (k ∷ ks) res.responses []

  unfoldable pub get_with_prefix : Key → Prog E Fields
  get_with_prefix key = do
    res ←
        query (E.range (record (get_range_request_from_key key) { range_end = get_prefix key.key }))
    pure (collect res.kvs [])

module _ (E : Etcd) (fuel : ℕ) where
  unfoldable pub get : Key → Prog E Bytes
  unfolding get_or_wait get_now
  get key = get_or_wait E (poll E (get_now E key) is_key_not_found key.block_timeout 0 fuel) key

  unfoldable pub byte_length : Key → Prog E ℤ
  unfolding get
  byte_length key = do bv ← get key; pure (pos (length bv))

module _ (E : Etcd) (fuel : ℕ) (ctx : Context) where
  unfoldable pub set : ByteValue → Prog E (Unit {0})
  set val = if is_invalid val.key then fail invalid_key else do
    start ← now
    retry E false false (deadline start (get_max_wait ctx))
        (unless_locked val.key (put_op val.key val.value ∷ [])) fuel

  unfoldable pub set_nx : ByteValue → Prog E Bool
  set_nx val = do
    lock E fuel ctx (plain_key val.key)
    there ← has E (plain_key val.key)
    if there then pure false else do unlock_then_set E val; pure true

  -- The texts of the errors, by key.
  unfoldable pub set_many : Fields → List (Bytes × String) → Prog E (List (Bytes × String))
  unfolding set
  set_many [] errors = pure errors
  set_many ((k, v) ∷ fs) errors =
      handle (set (record { key = k; value = v })) (λ _. set_many fs errors)
        (λ e. set_many fs ((k, error_text e) ∷ errors))
