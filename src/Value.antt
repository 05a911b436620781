-- ===== src/Value.antt =====
-- The Value of util/value.go, and the conversions of maps in util/util.go. A string and the slice of
-- its bytes are one here, so that StringToBytes and BytesToString do nothing.
pub mod Laws
use mydis_old.Prelude.{
  ◌%◌, ℕ, zero, suc, ◌-◌, Bool, true, false, Option, none, some, List, [], ◌∷◌, Bytes, ℤ, pos,
  negsuc, if◌then◌else◌,
}
use mydis_old.Errors.{Error, other, Reply, reply, failed}
use mydis_old.Prefix.{zero_byte}
use mydis_old.Pb.{Proto, Fields, IntValue, PbList, Hash, Codec}

pub record Value : Type 0 where
  pub error : Option Error
  pub b : Bytes

-- A Go map from strings: `none` is the nil map.
abbrev pub MapOf : Type 0 → Type 0
MapOf A = Option (List (Bytes × A))

-- The types that the switch of NewValue tells apart. The integers of all sizes are one case, as are
-- the two sizes of floats. A message is what proto.Marshal makes of it, and a time is its distance
-- from 1970 in nanoseconds.
pub data Input (F : Type 0) : Type 0 where
  error_in : Error → Input F
  value_in : Value → Input F
  bytes_in string_in : Bytes → Input F
  bool_in : Bool → Input F
  proto_in : Reply Bytes → Input F
  int_in : ℤ → Input F
  float_in : F → Input F
  time_in duration_in : ℤ → Input F
  byte_slices_in strings_in : List Bytes → Input F
  values_in : List Value → Input F
  string_map_in bytes_map_in : MapOf Bytes → Input F
  bool_map_in : MapOf Bool → Input F
  int_map_in : MapOf ℤ → Input F
  float_map_in : MapOf F → Input F
  value_map_in : MapOf Value → Input F
  unknown_in : Input F

abbrev pub of_bytes : Bytes → Value
of_bytes b = record { error = none; b = b }

abbrev pub of_error : Error → Value
of_error e = record { error = some e; b = [] }

-- `b, _ := proto.Marshal(m)`
abbrev pub marshalled : Reply Bytes → Bytes
marshalled (reply b) = b
marshalled (failed e) = []

abbrev pub bool_bytes : Bool → Bytes
bool_bytes b = if b then 1 ∷ [] else zero_byte

-- t.Nanosecond(): the offset within the second.
abbrev pub nanosecond : ℤ → ℕ
nanosecond (pos n) = n % 1000000000
nanosecond (negsuc n) = 999999999 - n % 1000000000

abbrev pub value_bytes : List Value → List Bytes
value_bytes [] = []
value_bytes (v ∷ vs) = v.b ∷ value_bytes vs

-- The loops over maps.
abbrev pub map_values : {A B : Type 0} → (A → B) → List (Bytes × A) → List (Bytes × B)
map_values f [] = []
map_values f ((k, x) ∷ m) = (k, f x) ∷ map_values f m

-- The maps that are made are not nil.
abbrev pub map_bytes : {A : Type 0} → (A → Bytes) → MapOf A → Option Fields
map_bytes f none = some []
map_bytes f (some m) = some (map_values f m)

abbrev pub list_to_values : List Bytes → List Value
list_to_values [] = []
list_to_values (b ∷ bs) = of_bytes b ∷ list_to_values bs

abbrev pub map_bytes_to_values : Option Fields → List (Bytes × Value)
map_bytes_to_values none = []
map_bytes_to_values (some m) = map_values of_bytes m

-- What a method returns: the error of the value comes first.
abbrev pub checked : {A : Type 0} → Value → Reply A → Reply A
checked v r = elim v.error [ none ↦ r | some e ↦ failed e ]

-- v.b[0] != 0, where there is a first byte
abbrev pub first_is_set : Bytes → Bool
first_is_set [] = false
first_is_set (zero ∷ bs) = false
first_is_set ((suc n) ∷ bs) = true

abbrev pub then_field : {M A : Type 0} → Reply M → (M → A) → Reply A
then_field (reply m) f = reply (f m)
then_field (failed e) f = failed e

unfoldable pub to_bytes : Value → Reply Bytes
to_bytes v = checked v (reply v.b)

unfoldable pub to_bool : Value → Reply Bool
to_bool v = checked v (reply (first_is_set v.b))

module _ (P : Proto) where
  abbrev pub int_bytes : ℤ → Bytes
  int_bytes z = marshalled (P.ints.marshal (record { key = []; value = z }))

  abbrev pub float_bytes : P.Float → Bytes
  float_bytes f = marshalled (P.floats.marshal (record { key = []; value = f }))

  abbrev pub list_bytes : List Bytes → Bytes
  list_bytes xs = marshalled (P.lists.marshal (record { key = []; value = xs; limit = pos 0 }))

  abbrev pub hash_bytes : Option Fields → Bytes
  hash_bytes m = marshalled (P.hashes.marshal (record { key = []; value = m }))

  unfoldable pub new_value : Input P.Float → Value
  new_value (error_in e) = of_error e
  new_value (value_in v) = v
  new_value (bytes_in b) = of_bytes b
  new_value (string_in b) = of_bytes b
  new_value (bool_in b) = of_bytes (bool_bytes b)
  new_value (proto_in r) = of_bytes (marshalled r)
  new_value (int_in z) = of_bytes (int_bytes z)
  new_value (float_in f) = of_bytes (float_bytes f)
  new_value (time_in t) = of_bytes (int_bytes (pos (nanosecond t)))
  new_value (duration_in d) = of_bytes (int_bytes d)
  new_value (byte_slices_in xs) = of_bytes (list_bytes xs)
  new_value (strings_in xs) = of_bytes (list_bytes xs)
  new_value (values_in vs) = of_bytes (list_bytes (value_bytes vs))
  new_value (string_map_in m) = of_bytes (hash_bytes (map_bytes (λ s. s) m))
  new_value (bytes_map_in m) = of_bytes (hash_bytes m)
  new_value (bool_map_in m) = of_bytes (hash_bytes (map_bytes bool_bytes m))
  new_value (int_map_in m) = of_bytes (hash_bytes (map_bytes int_bytes m))
  new_value (float_map_in m) = of_bytes (hash_bytes (map_bytes float_bytes m))
  new_value (value_map_in m) = of_bytes (hash_bytes (map_bytes (λ v. v.b) m))
  new_value unknown_in = of_error (other "Unknown type, recommend marshalling to byte slice")

  unfoldable pub to_int : Value → Reply ℤ
  to_int v = then_field (checked v (P.ints.unmarshal v.b)) (λ m. m.value)

  unfoldable pub to_float : Value → Reply P.Float
  to_float v = then_field (checked v (P.floats.unmarshal v.b)) (λ m. m.value)

  -- A time is its distance from 1970, so Time and Duration return the number itself.
  unfoldable pub to_time : Value → Reply ℤ
  unfolding to_int
  to_time = to_int

  unfoldable pub to_duration : Value → Reply ℤ
  unfolding to_int
  to_duration = to_int

  unfoldable pub to_list : Value → Reply (List Value)
  to_list v = then_field (checked v (P.lists.unmarshal v.b)) (λ m. list_to_values m.value)

  unfoldable pub to_map : Value → Reply (List (Bytes × Value))
  to_map v = then_field (checked v (P.hashes.unmarshal v.b)) (λ m. map_bytes_to_values m.value)
