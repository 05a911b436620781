-- ===== src/Errors.antt =====
-- util/errors.go: the errors that the server returns. Any other error (of etcd, of the protocol
-- buffers) is its text.
use Prim.Native.String.{String}
use mathlib.Core.Bool.{Bool, true, false}
use text.Mathlib.Text.{◌==◌, starts_with}

pub data Error : Type 0 where
  key_not_found key_locked invalid_key type_mismatch : Error
  list_empty list_index_out_of_range hash_field_not_found : Error
  other : String → Error

-- err.Error()
unfoldable pub error_text : Error → String
error_text key_not_found = "Key not found"
error_text key_locked = "Key is locked"
error_text invalid_key = "Invalid key name"
error_text type_mismatch = "Type mismatch"
error_text list_empty = "List is empty"
error_text list_index_out_of_range = "Index out of range"
error_text hash_field_not_found = "Hash field does not exist"
error_text (other s) = s

-- err == util.ErrKeyNotFound: the same error value, not only the same text.
abbrev pub is_key_not_found : Error → Bool
is_key_not_found key_not_found = true
is_key_not_found _ = false

abbrev pub is_list_empty : Error → Bool
is_list_empty list_empty = true
is_list_empty _ = false

-- err.Error() == util.ErrKeyNotFound.Error()
unfoldable pub reads_key_not_found : Error → Bool
unfolding error_text
reads_key_not_found e = error_text e == "Key not found"

-- strings.HasPrefix(err.Error(), "proto: can't skip unknown wire type")
unfoldable pub is_wire_type_error : Error → Bool
unfolding error_text
is_wire_type_error e = starts_with (error_text e) "proto: can't skip unknown wire type"

-- The (value, err) that a call of a library returns.
pub data Reply {ℓ} (A : Type ℓ) : Type ℓ where
  reply : A → Reply A
  failed : Error → Reply A
