-- ===== src/Server/Hashes.antt =====
-- The handlers of mydis/type_hash.go. A hash that was stored with no field comes back with a nil
-- map, which can be read and not written.
pub mod Laws
pub mod Sorting
use mydis_old.Prelude.{
  ℕ, Bool, Option, none, some, List, [], ◌∷◌, Bytes, beq, le_bytes, if◌then◌else◌, length, ℤ, pos,
  is_some,
}
use mydis_old.Errors.{Error, is_key_not_found, hash_field_not_found}
use mydis_old.Etcd.{Etcd}
use mydis_old.Runtime.{Prog, pure, fail, crash, handle, ◌>>=◌, ◌>>◌, lift}
use mydis_old.Pb.{Key, ByteValue, Fields, Hash, HashField, Proto, plain_key}
use mydis_old.Server.Context.{Context}
use mydis_old.Server.Locks.{lock, unlock_then_set_hash}
use mydis_old.Server.Values.{get, set, put_field, get_field}
use mydis_old.Server.Numbers.{decode, unlock_and_fail}

-- What reading a nil map gives: it has no field.
abbrev pub fields : Option Fields → Fields
fields none = []
fields (some fs) = fs

-- delete(m, key)
abbrev pub delete_field : Bytes → Fields → Fields
delete_field k [] = []
delete_field k ((j, v) ∷ fs) =
    let rest = delete_field k fs in if beq j k then rest else (j, v) ∷ rest

abbrev pub delete_from : Bytes → Option Fields → Option Fields
delete_from k none = none
delete_from k (some fs) = some (delete_field k fs)

-- m[key] = value, `none` for the panic on a nil map.
abbrev pub assign : Bytes → Bytes → Option Fields → Option (Option Fields)
assign k v none = none
assign k v (some fs) = some (some (put_field k v fs))

abbrev pub put_fields : Fields → Fields → Fields
put_fields [] fs = fs
put_fields ((k, v) ∷ more) fs = put_fields more (put_field k v fs)

-- `for key, b := range ah.Value { h.Value[key] = b }`
abbrev pub assign_all : Fields → Option Fields → Option (Option Fields)
assign_all [] h = some h
assign_all (f ∷ more) none = none
assign_all (f ∷ more) (some fs) = some (some (put_fields (f ∷ more) fs))

-- The loop of GetHashFields.
abbrev pub select_fields : List Bytes → Fields → Fields → Fields
select_fields [] fs out = out
select_fields (k ∷ ks) fs out =
    select_fields ks fs (elim (get_field k fs) [ none ↦ out | some b ↦ put_field k b out ])

abbrev pub field_names : Fields → List Bytes
field_names [] = []
field_names ((k, v) ∷ fs) = k ∷ field_names fs

-- sort.Strings
abbrev pub insert_sorted : Bytes → List Bytes → List Bytes
insert_sorted k [] = k ∷ []
insert_sorted k (j ∷ js) =
    let rest = insert_sorted k js in if le_bytes k j then k ∷ j ∷ js else j ∷ rest

abbrev pub sort_strings : List Bytes → List Bytes
sort_strings [] = []
sort_strings (k ∷ ks) = insert_sorted k (sort_strings ks)

-- h.Value[key], nil where the key is missing
abbrev value_or_nil : Option Bytes → Bytes
value_or_nil none = []
value_or_nil (some b) = b

abbrev pub values_of : List Bytes → Fields → List Bytes
values_of [] fs = []
values_of (k ∷ ks) fs = value_or_nil (get_field k fs) ∷ values_of ks fs

abbrev no_fields : Hash
no_fields = record { key = []; value = some [] }

module _ (E : Etcd) (P : Proto) (fuel : ℕ) where
  unfoldable pub get_hash : Key → Prog E Hash
  get_hash key = do bv ← get E fuel key; decode P.hashes bv

  unfoldable pub get_hash_field : HashField → Prog E Bytes
  get_hash_field hf = do
    h ← get_hash (plain_key hf.key)
    elim (get_field hf.field (fields h.value)) [
      | none ↦ fail hash_field_not_found
      | some b ↦ pure b
    ]

  unfoldable pub get_hash_fields : Bytes → List Bytes → Prog E Fields
  get_hash_fields key names = do
    h ← get_hash (plain_key key)
    pure (select_fields names (fields h.value) [])

  unfoldable pub hash_has : HashField → Prog E Bool
  hash_has hf = do
    h ← get_hash (plain_key hf.key)
    pure (is_some (get_field hf.field (fields h.value)))

  unfoldable pub hash_length : Key → Prog E ℤ
  hash_length key = do h ← get_hash key; pure (pos (length (fields h.value)))

  unfoldable pub hash_fields : Key → Prog E (List Bytes)
  hash_fields key = do h ← get_hash key; pure (sort_strings (field_names (fields h.value)))

  unfoldable pub hash_values : Key → Prog E (List Bytes)
  hash_values key = do
    h ← get_hash key
    pure (values_of (sort_strings (field_names (fields h.value))) (fields h.value))

module _ (E : Etcd) (P : Proto) (fuel : ℕ) (ctx : Context) where
  unfoldable pub set_hash : Hash → Prog E (Unit {0})
  set_hash h = do
    b ← lift (P.hashes.marshal (record h { key = [] }))
    set E fuel ctx (record { key = h.key; value = b })

  abbrev pub or_panic : {A : Type 0} → Option A → Prog E A
  or_panic none = crash
  or_panic (some a) = pure a

  -- Lock and read the hash; where the key is missing it is an empty map that is not nil.
  abbrev locked_or_empty : Bytes → (Hash → Prog E (Unit {0})) → Prog E (Unit {0})
  locked_or_empty key body =
      lock E fuel ctx (plain_key key)
      >> handle (get_hash E P fuel (plain_key key)) body (λ e.
        if is_key_not_found e
        then body no_fields
        else unlock_and_fail E P fuel ctx (plain_key key) e)

  unfoldable pub set_hash_field : HashField → Prog E (Unit {0})
  set_hash_field hf = locked_or_empty hf.key λ h. do
    fs ← or_panic (assign hf.field hf.value h.value)
    unlock_then_set_hash E P (record { key = hf.key; value = fs })

  unfoldable pub set_hash_fields : Hash → Prog E (Unit {0})
  set_hash_fields ah = locked_or_empty ah.key λ h. do
    fs ← or_panic (assign_all (fields ah.value) h.value)
    unlock_then_set_hash E P (record { key = ah.key; value = fs })

  unfoldable pub del_hash_field : HashField → Prog E (Unit {0})
  del_hash_field hf =
      lock E fuel ctx (plain_key hf.key)
      >> handle (get_hash E P fuel (plain_key hf.key))
          (λ h.
            unlock_then_set_hash E P
              (record { key = hf.key; value = delete_from hf.field h.value }))
          (unlock_and_fail E P fuel ctx (plain_key hf.key))
