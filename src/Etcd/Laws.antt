-- ===== src/Etcd/Laws.antt =====
-- What the server relies on of etcd, as its API documents it, for a member that is up: a range
-- request reads the latest values, a transaction tests and writes at once, a put replaces the
-- value, a delete removes the keys of an interval.
use mydis_old.Prelude.{
  ◌≡◌, ◌≢◌, Bool, true, false, ◌&&◌, Option, none, some, List, [], ◌∷◌, Bytes, beq, if◌then◌else◌,
  ℤ, pos,
}
use mydis_old.Errors.{reply}
use mydis_old.Prefix.{in_range}
use mydis_old.Etcd.{
  Etcd, RangeRequest, RangeResponse, Compare, value_equal, RequestOp, range_op, put_op, delete_op,
  TxnRequest, ResponseOp, range_response, put_response, delete_response, PutRequest,
}

-- The values of the keys, at the latest revision.
abbrev pub View : Type 0
View = Bytes → Option Bytes

-- A comparison with a key that is not there fails.
abbrev pub holds_value : Option Bytes → Bytes → Bool
holds_value none x = false
holds_value (some y) x = beq y x

abbrev pub holds : View → Compare → Bool
holds v (value_equal k x) = holds_value (v k) x

abbrev pub all_hold : View → List Compare → Bool
all_hold v [] = true
all_hold v (c ∷ cs) = holds v c && all_hold v cs

abbrev pub write : View → RequestOp → View
write v (range_op r) j = v j
write v (put_op k x) j = if beq k j then some x else v j
write v (delete_op k end) j = if in_range k end j then none else v j

abbrev pub writes : View → List RequestOp → View
writes v [] = v
writes v (op ∷ ops) = writes (write v op) ops

-- The answer to a request for one key.
abbrev pub found : Bytes → Bool → Option Bytes → RangeResponse
found k keys_only none = record { kvs = []; count = 0 }
found k keys_only (some x) = record {
  kvs = record { key = k; value = if keys_only then [] else x } ∷ [];
  count = 1;
}

abbrev pub respond : View → RequestOp → ResponseOp
respond v (range_op r) = range_response (found r.key r.keys_only (v r.key))
respond v (put_op k x) = put_response
respond v (delete_op k end) = delete_response

abbrev pub responds : View → List RequestOp → List ResponseOp
responds v [] = []
responds v (op ∷ ops) = respond v op ∷ responds (write v op) ops

abbrev pub chosen : View → TxnRequest → List RequestOp
chosen v r = if all_hold v r.compare then r.success else r.failure

-- The requests that etcd accepts: keys are not empty, reads in a transaction name one key, and a
-- transaction does not write the key that an earlier operation of it wrote.
abbrev pub IsFresh : Bytes → List RequestOp → Type 0
IsFresh k [] = Unit
IsFresh k (range_op r ∷ ops) = IsFresh k ops
IsFresh k (put_op j x ∷ ops) = (k ≢ j) × IsFresh k ops
IsFresh k (delete_op j end ∷ ops) = (in_range j end k ≡ false) × IsFresh k ops

abbrev pub AreSendable : List RequestOp → Type 0
AreSendable [] = Unit
AreSendable (range_op r ∷ ops) = (r.key ≢ []) × (r.range_end ≡ []) × AreSendable ops
AreSendable (put_op k x ∷ ops) = (k ≢ []) × IsFresh k ops × AreSendable ops
AreSendable (delete_op k end ∷ ops) = (k ≢ []) × (end ≡ []) × IsFresh k ops × AreSendable ops

abbrev pub CompareKeys : List Compare → Type 0
CompareKeys [] = Unit
CompareKeys (value_equal k x ∷ cs) = (k ≢ []) × CompareKeys cs

pub record IsSendable (r : TxnRequest) : Type 0 where
  pub compare : CompareKeys r.compare
  pub success : AreSendable r.success
  pub failure : AreSendable r.failure

-- A request for one key at the latest revision.
abbrev pub one_key : Bytes → Bool → RangeRequest
one_key k keys_only = record {
  key = k;
  range_end = [];
  limit = pos 0;
  revision = pos 0;
  keys_only = keys_only;
}

pub record IsEtcd (E : Etcd) : Type 0 where
  pub view : E.Store → Bytes → Option Bytes
  -- The member has a quorum and answers.
  pub up : E.Store → Bool
  pub range_found :
      (s : E.Store) (k : Bytes) (keys_only : Bool)
      → up s ≡ true
      → k ≢ []
      → E.range (one_key k keys_only) s ≡ reply (found k keys_only (view s k))
  pub txn_reply :
      (s : E.Store) (r : TxnRequest)
      → up s ≡ true
      → IsSendable r
      → (E.txn r s).0
        ≡ reply (record {
          succeeded = all_hold (view s) r.compare;
          responses = responds (view s) (chosen (view s) r);
        })
  pub txn_view :
      (s : E.Store) (r : TxnRequest) (k : Bytes)
      → up s ≡ true
      → IsSendable r
      → view (E.txn r s).1 k ≡ writes (view s) (chosen (view s) r) k
  pub txn_up : (s : E.Store) (r : TxnRequest) → up s ≡ true → up (E.txn r s).1 ≡ true
  pub put_reply :
      (s : E.Store) (r : PutRequest) → up s ≡ true → r.key ≢ [] → (E.put r s).0 ≡ reply tt
  pub put_view :
      (s : E.Store) (r : PutRequest) (k : Bytes)
      → up s ≡ true
      → r.key ≢ []
      → view (E.put r s).1 k ≡ (if beq r.key k then some r.value else view s k)
  pub put_up : (s : E.Store) (r : PutRequest) → up s ≡ true → up (E.put r s).1 ≡ true
  pub lease_reply :
      (s : E.Store) (ttl : ℤ) → up s ≡ true → (id : ℤ) × ((E.lease_grant ttl s).0 ≡ reply id)
  pub lease_view : (s : E.Store) (ttl : ℤ) (k : Bytes) → view (E.lease_grant ttl s).1 k ≡ view s k
  pub lease_up : (s : E.Store) (ttl : ℤ) → up s ≡ true → up (E.lease_grant ttl s).1 ≡ true
  pub delete_reply :
      (s : E.Store) (k end : Bytes) → up s ≡ true → k ≢ [] → (E.delete_range k end s).0 ≡ reply tt
  pub delete_view :
      (s : E.Store) (k end j : Bytes)
      → up s ≡ true
      → k ≢ []
      → view (E.delete_range k end s).1 j ≡ (if in_range k end j then none else view s j)
  pub delete_up : (s : E.Store) (k end : Bytes) → up s ≡ true → up (E.delete_range k end s).1 ≡ true
