-- ===== src/Tests/Value.antt =====
-- Values.
use mydis_old.Prelude.{false, map, Bool, ◌≡◌, true, some, List, [], ◌∷◌, ℤ, pos, negsuc}
use mydis_old.Value.{
  value_map_in, bool_map_in, float_map_in, Value, MapOf, new_value, to_int, to_bool, to_float,
  to_duration, to_list, to_map, to_bytes, of_bytes, of_error, int_in, bool_in, float_in,
  duration_in, string_in, byte_slices_in, values_in, bytes_map_in, int_map_in,
}
use mydis_old.Value.Laws.{plain, map_entries, ComesBack, new_value-scalars, new_value-collections}
use mydis_old.Errors.{reply, other}
use mydis_old.Pb.Simple.{simple, simple-IsProto}
use mydis_old.Tests.{key_a, key_z}
use mydis_old.Tests.Items.{items, fields}

new_value-scalars_example :
    (to_int simple (new_value simple (int_in (negsuc 6))) ≡ reply (negsuc 6))
    × (to_duration simple (new_value simple (duration_in (pos 9))) ≡ reply (pos 9))
    × (to_float simple (new_value simple (float_in (pos 2))) ≡ reply (pos 2))
    × (to_bool (new_value simple (bool_in true)) ≡ reply true)
    × (to_bytes (new_value simple (string_in key_a)) ≡ reply key_a)
new_value-scalars_example =
    new_value-scalars simple simple-IsProto (negsuc 6) (pos 9) (pos 2) true key_a

abbrev two_values : List Value
two_values = of_bytes key_a ∷ of_error (other "failed") ∷ []

abbrev numbers : MapOf ℤ
numbers = some ((key_a, pos 1) ∷ (key_z, negsuc 0) ∷ [])

abbrev flags : MapOf Bool
flags = some ((key_a, true) ∷ (key_z, false) ∷ [])

abbrev value_fields : MapOf Value
value_fields = some ((key_z, of_bytes key_a) ∷ [])

new_value-collections_example :
    (to_list simple (new_value simple (byte_slices_in items)) ≡ reply (map plain items))
    × (to_list simple (new_value simple (values_in two_values))
        ≡ reply (map (λ v. plain v.b) two_values))
    × (to_map simple (new_value simple (bytes_map_in (some fields)))
        ≡ reply (map_entries plain fields))
    × (to_map simple (new_value simple (value_map_in value_fields))
        ≡ reply ((key_z, plain key_a) ∷ []))
    × ComesBack simple simple-IsProto (to_int simple) (int_map_in numbers) numbers
    × ComesBack simple simple-IsProto to_bool (bool_map_in flags) flags
    × ComesBack simple simple-IsProto (to_float simple) (float_map_in numbers) numbers
new_value-collections_example =
    new_value-collections simple simple-IsProto items two_values (some fields) value_fields numbers
      flags numbers
