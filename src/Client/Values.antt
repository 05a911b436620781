-- ===== src/Client/Values.antt =====
-- The client's calls on byte values and numbers.
pub mod Laws
use Prim.Native.String.{String}
use mydis_old.Prelude.{ℕ, ℤ, Bool, List, [], Bytes}
use mydis_old.Etcd.{Etcd}
use mydis_old.Runtime.{Prog, pure, ◌>>=◌, handle, fail}
use mydis_old.Pb.{Proto, plain_key}
use mydis_old.Value.{Value, Input, MapOf, of_bytes, map_values, map_bytes}
use mydis_old.Server.Context.{Context}
use mydis_old.Server.Values.{
  get as get_handler, get_many as get_many_handler, get_with_prefix as get_with_prefix_handler,
  set as set_handler, set_nx as set_nx_handler, set_many as set_many_handler,
  byte_length as byte_length_handler,
}
use mydis_old.Server.Numbers.{
  increment_int as increment_int_handler, decrement_int as decrement_int_handler,
  increment_float as increment_float_handler, decrement_float as decrement_float_handler,
}
use mydis_old.Server.Hashes.{fields}
use mydis_old.Client.Remote.{Grpc, called, as_value, encoded}

module _ (E : Etcd) (G : Grpc) (fuel : ℕ) where
  unfoldable pub get : Bytes → Prog E Value
  get key = as_value G (get_handler E fuel (plain_key key))

  unfoldable pub get_many : List Bytes → Prog E (List (Bytes × Value))
  get_many keys = do h ← called G (get_many_handler E keys); pure (map_values of_bytes h)

  unfoldable pub get_with_prefix : Bytes → Prog E (List (Bytes × Value))
  get_with_prefix prefix = do
    h ← called G (get_with_prefix_handler E (plain_key prefix))
    pure (map_values of_bytes h)

  unfoldable pub byte_length : Bytes → Prog E ℤ
  byte_length key = called G (byte_length_handler E fuel (plain_key key))

  module _ (ctx : Context) where
    unfoldable pub set : (P : Proto) → Bytes → Input P.Float → Prog E (Unit {0})
    set P key v =
        encoded P v λ b. called G (set_handler E fuel ctx (record { key = key; value = b }))

    unfoldable pub set_nx : (P : Proto) → Bytes → Input P.Float → Prog E Bool
    set_nx P key v =
        encoded P v λ b. called G (set_nx_handler E fuel ctx (record { key = key; value = b }))

    unfoldable pub set_many : MapOf Value → Prog E (List (Bytes × String))
    set_many vals =
        called G (set_many_handler E fuel ctx (fields (map_bytes (λ (v : Value). v.b) vals)) [])

    unfoldable pub increment_int : Proto → Bytes → ℤ → Prog E ℤ
    increment_int P key by = do
      iv ← called G (increment_int_handler E P fuel ctx (record { key = key; value = by }))
      pure iv.value

    unfoldable pub decrement_int : Proto → Bytes → ℤ → Prog E ℤ
    decrement_int P key by = do
      iv ← called G (decrement_int_handler E P fuel ctx (record { key = key; value = by }))
      pure iv.value

    unfoldable pub increment_float : (P : Proto) → Bytes → P.Float → Prog E P.Float
    increment_float P key by = do
      fv ← called G (increment_float_handler E P fuel ctx (record { key = key; value = by }))
      pure fv.value

    unfoldable pub decrement_float : (P : Proto) → Bytes → P.Float → Prog E P.Float
    decrement_float P key by = do
      fv ← called G (decrement_float_handler E P fuel ctx (record { key = key; value = by }))
      pure fv.value
