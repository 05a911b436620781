-- ===== src/Pb.antt =====
-- The messages of pb/mydis.proto that the server handles, and the protocol buffer library with Go's
-- floats as an unknown `Proto`.
pub mod Laws
pub mod Simple
use mydis_old.Prelude.{ℤ, Bool, Option, List, Bytes}
use mydis_old.Errors.{Reply}

pub record Key : Type 0 where
  pub key : Bytes
  pub limit : ℤ
  pub revision : ℤ
  pub block : Bool
  pub block_timeout : ℤ

pub record Expiration : Type 0 where
  pub key : Bytes
  pub exp : ℤ

pub record ByteValue : Type 0 where
  pub key : Bytes
  pub value : Bytes

pub record IntValue : Type 0 where
  pub key : Bytes
  pub value : ℤ

pub record FloatValue (F : Type 0) : Type 0 where
  pub key : Bytes
  pub value : F

pub record PbList : Type 0 where
  pub key : Bytes
  pub value : List Bytes
  pub limit : ℤ

pub record ListItem : Type 0 where
  pub key : Bytes
  pub index : ℤ
  pub value : Bytes

-- A Go map[string][]byte that is not nil, in some order of its keys.
abbrev pub Fields : Type 0
Fields = List (Bytes × Bytes)

-- `none` is the nil map.
pub record Hash : Type 0 where
  pub key : Bytes
  pub value : Option Fields

pub record HashField : Type 0 where
  pub key : Bytes
  pub field : Bytes
  pub value : Bytes

-- proto.Marshal and proto.Unmarshal (into an empty message) for one message type.
pub record Codec (M : Type 0) : Type 0 where
  pub marshal : M → Reply Bytes
  pub unmarshal : Bytes → Reply M

pub record Proto : Type 1 where
  pub Float : Type 0
  pub float_zero : Float
  pub float_add : Float → Float → Float
  pub float_negate : Float → Float
  pub ints : Codec IntValue
  pub floats : Codec (FloatValue Float)
  pub lists : Codec PbList
  pub hashes : Codec Hash

-- &pb.Key{Key: key}
abbrev pub plain_key : Bytes → Key
plain_key key = record {
  key = key;
  limit = ℤ.pos 0;
  revision = ℤ.pos 0;
  block = Bool.false;
  block_timeout = ℤ.pos 0;
}
