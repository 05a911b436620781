-- ===== src/Client/Hashes.antt =====
-- The client's calls on hashes.
use mydis_old.Prelude.{ℕ, ℤ, Bool, List, [], Bytes}
use mydis_old.Etcd.{Etcd}
use mydis_old.Runtime.{Prog, pure, ◌>>=◌, handle, fail, lift}
use mydis_old.Pb.{Proto, HashField, plain_key}
use mydis_old.Value.{
  Value, Input, MapOf, of_bytes, map_values, map_bytes, list_to_values, new_value, to_bytes,
}
use mydis_old.Server.Context.{Context}
use mydis_old.Server.Hashes.{
  get_hash_field as get_hash_field_handler, get_hash_fields as get_hash_fields_handler,
  hash_has as hash_has_handler, hash_length as hash_length_handler,
  hash_fields as hash_fields_handler, hash_values as hash_values_handler,
  set_hash_field as set_hash_field_handler, set_hash_fields as set_hash_fields_handler,
  del_hash_field as del_hash_field_handler,
}
use mydis_old.Client.Remote.{Grpc, remote, called, as_value, normalize_error}

abbrev named_field : Bytes → Bytes → Bytes → HashField
named_field key field b = record { key = key; field = field; value = b }

module _ (E : Etcd) (P : Proto) (G : Grpc) (fuel : ℕ) where
  unfoldable pub get_hash_field : Bytes → Bytes → Prog E Value
  get_hash_field key field = as_value G (get_hash_field_handler E P fuel (named_field key field []))

  unfoldable pub get_hash_fields : Bytes → List Bytes → Prog E (List (Bytes × Value))
  get_hash_fields key names = do
    h ← called G (get_hash_fields_handler E P fuel key names)
    pure (map_values of_bytes h)

  unfoldable pub hash_has : Bytes → Bytes → Prog E Bool
  hash_has key field = called G (hash_has_handler E P fuel (named_field key field []))

  unfoldable pub hash_length : Bytes → Prog E ℤ
  hash_length key = called G (hash_length_handler E P fuel (plain_key key))

  unfoldable pub hash_fields : Bytes → Prog E (List Bytes)
  hash_fields key = called G (hash_fields_handler E P fuel (plain_key key))

  unfoldable pub hash_values : Bytes → Prog E (List Value)
  hash_values key = do
    vs ← called G (hash_values_handler E P fuel (plain_key key))
    pure (list_to_values vs)

  module _ (ctx : Context) where
    -- The error of the call is not normalized, only that of the value.
    unfoldable pub set_hash_field : Bytes → Bytes → Input P.Float → Prog E (Unit {0})
    set_hash_field key field v =
        handle (lift (to_bytes (new_value P v)))
          (λ b. remote G (set_hash_field_handler E P fuel ctx (named_field key field b)))
          (λ e. fail (normalize_error G e))

    unfoldable pub set_hash_fields : Bytes → MapOf Value → Prog E (Unit {0})
    set_hash_fields key vals = called G (
        set_hash_fields_handler E P fuel ctx
          (record { key = key; value = map_bytes (λ (v : Value). v.b) vals }))

    unfoldable pub del_hash_field : Bytes → Bytes → Prog E (Unit {0})
    del_hash_field key field =
        called G (del_hash_field_handler E P fuel ctx (named_field key field []))
