-- ===== src/Pb/Laws.antt =====
-- What the server relies on of the protocol buffers: what is marshalled is unmarshalled unchanged,
-- but for an empty map, which comes back nil.
use mydis_old.Prelude.{◌≡◌, Option, none, some, [], ◌∷◌, Bytes}
use mydis_old.Errors.{reply}
use mydis_old.Pb.{Proto, IntValue, FloatValue, PbList, Hash, Fields}

abbrev pub normal_fields : Option Fields → Option Fields
normal_fields none = none
normal_fields (some []) = none
normal_fields (some (f ∷ fs)) = some (f ∷ fs)

abbrev pub normal : Hash → Hash
normal h = record { key = h.key; value = normal_fields h.value }

pub record IsProto (P : Proto) : Type 0 where
  pub ints_round_trip :
      (m : IntValue) → (b : Bytes) × (P.ints.marshal m ≡ reply b) × (P.ints.unmarshal b ≡ reply m)
  pub floats_round_trip :
      (m : FloatValue P.Float)
      → (b : Bytes) × (P.floats.marshal m ≡ reply b) × (P.floats.unmarshal b ≡ reply m)
  pub lists_round_trip :
      (m : PbList) → (b : Bytes) × (P.lists.marshal m ≡ reply b) × (P.lists.unmarshal b ≡ reply m)
  pub hashes_round_trip :
      (m : Hash)
      → (b : Bytes) × (P.hashes.marshal m ≡ reply b) × (P.hashes.unmarshal b ≡ reply (normal m))
