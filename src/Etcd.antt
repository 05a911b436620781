-- ===== src/Etcd.antt =====
-- The part of the etcd server that Mydis calls: requests, responses, and the server itself as an
-- unknown `Etcd`, whose state is that of one store.
pub mod Laws
pub mod Memory
use mydis_old.Prelude.{ℤ, ℕ, Bool, List, Bytes}
use mydis_old.Errors.{Reply}

-- etcdserverpb.RangeRequest
pub record RangeRequest : Type 0 where
  pub key : Bytes
  pub range_end : Bytes
  pub limit : ℤ
  pub revision : ℤ
  pub keys_only : Bool

-- mvccpb.KeyValue
pub record KeyValue : Type 0 where
  pub key : Bytes
  pub value : Bytes

-- etcdserverpb.RangeResponse; `[]` is the nil slice that etcd leaves where it finds no key.
pub record RangeResponse : Type 0 where
  pub kvs : List KeyValue
  pub count : ℕ

-- A Compare of target VALUE and result EQUAL, the only kind in use.
pub data Compare : Type 0 where
  value_equal : Bytes → Bytes → Compare

-- A DeleteRangeRequest has a key and a range end.
pub data RequestOp : Type 0 where
  range_op : RangeRequest → RequestOp
  put_op : Bytes → Bytes → RequestOp
  delete_op : Bytes → Bytes → RequestOp

pub record TxnRequest : Type 0 where
  pub compare : List Compare
  pub success : List RequestOp
  pub failure : List RequestOp

pub data ResponseOp : Type 0 where
  range_response : RangeResponse → ResponseOp
  put_response delete_response : ResponseOp

pub record TxnResponse : Type 0 where
  pub succeeded : Bool
  pub responses : List ResponseOp

-- etcdserverpb.PutRequest with a lease (0 is no lease).
pub record PutRequest : Type 0 where
  pub key : Bytes
  pub value : Bytes
  pub lease : ℤ

pub record Etcd : Type 1 where
  pub Store : Type 0
  pub range : RangeRequest → Store → Reply RangeResponse
  pub txn : TxnRequest → Store → Reply TxnResponse × Store
  pub put : PutRequest → Store → Reply (Unit {0}) × Store
  -- The time to live, and the lease's id.
  pub lease_grant : ℤ → Store → Reply ℤ × Store
  pub delete_range : Bytes → Bytes → Store → Reply (Unit {0}) × Store
