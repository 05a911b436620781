-- ===== src/Client/Remote.antt =====
-- normalizeError of client/client.go, and the shapes that the client's calls have. gRPC is an unknown
-- `Grpc`; a call that does not reach the server is not modelled.
pub mod Laws
use Prim.Native.String.{String}
use mydis_old.Prelude.{Option, none, some, List, [], ◌∷◌, Bytes, if◌then◌else◌}
use text.Mathlib.Text.{◌==◌}
use mydis_old.Errors.{
  Error, key_not_found, key_locked, invalid_key, type_mismatch, list_empty, list_index_out_of_range,
  hash_field_not_found, other, error_text,
}
use mydis_old.Etcd.{Etcd}
use mydis_old.Runtime.{Prog, pure, fail, handle, lift}
use mydis_old.Pb.{Proto}
use mydis_old.Value.{Value, Input, of_bytes, of_error, new_value, to_bytes}

-- The error that a client gets for the error of a handler, and grpc.ErrorDesc.
pub record Grpc : Type 0 where
  pub relay : Error → Error
  pub error_desc : Error → String

-- knownErrors
abbrev pub known_errors : List Error
known_errors =
    key_not_found ∷ key_locked ∷ list_empty ∷ list_index_out_of_range ∷ hash_field_not_found
    ∷ type_mismatch ∷ invalid_key ∷ []

-- `knownErrors[errDesc]`, where the map's keys are the texts of the errors
unfoldable pub find_error : String → List Error → Option Error
unfolding error_text
find_error desc [] = none
find_error desc (e ∷ es) =
    let rest = find_error desc es in if error_text e == desc then some e else rest

module _ (G : Grpc) where
  unfoldable pub normalize_error : Error → Error
  unfolding find_error
  normalize_error e = elim (find_error (G.error_desc e) known_errors) [
    | none ↦ e
    | some known ↦ known
  ]

  module _ {E : Etcd} {A : Type 0} where
    -- A call of the generated client.
    abbrev pub remote : Prog E A → Prog E A
    remote m = handle m pure (λ e. fail (G.relay e))

    -- `res, err := ...; if err != nil { err = normalizeError(err) }`
    abbrev pub called : Prog E A → Prog E A
    called m = handle (remote m) pure (λ e. fail (normalize_error e))

  -- The calls that return a Value, in which an error is kept.
  abbrev pub as_value : {E : Etcd} → Prog E Bytes → Prog E Value
  as_value m = handle (remote m) (λ b. pure (of_bytes b)) (λ e. pure (of_error (normalize_error e)))

-- `b, err := util.NewValue(v).Bytes(); if err != nil { return err }`
abbrev pub encoded :
    {E : Etcd} {A : Type 0} (P : Proto) → Input P.Float → (Bytes → Prog E A) → Prog E A
encoded P v next = handle (lift (to_bytes (new_value P v))) next fail
