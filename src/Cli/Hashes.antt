-- ===== src/Cli/Hashes.antt =====
-- The commands of cli/cli.go on hashes.
use mydis_old.Prelude.{ℕ, List, Bytes}
use mydis_old.Value.{string_in}
use mydis_old.Cli.{
  Setting, Command, flag, text, done, silent, printed, ask, with_one, with_two, with_three,
}
use mydis_old.Cli.Display.{display_list, display_val_list}
use mydis_old.Cli.Keys.{text_of}
use mydis_old.Client.Hashes.{
  get_hash_field, hash_has, hash_fields, hash_values, set_hash_field, del_hash_field,
}

module _ {S : Setting} (fuel : ℕ) where
  abbrev pub get_hash_field_command : List Bytes → Command S
  get_hash_field_command = with_two λ key field.
      ask (printed text) (λ ctx. text_of (get_hash_field S.etcd S.proto S.grpc fuel key field))

  abbrev pub hash_has_command : List Bytes → Command S
  hash_has_command =
      with_two
        λ key field. ask (printed flag) (λ ctx. hash_has S.etcd S.proto S.grpc fuel key field)

  abbrev pub hash_fields_command : List Bytes → Command S
  hash_fields_command =
      with_one λ key.
        ask (λ fs. done (display_list fs)) (λ ctx. hash_fields S.etcd S.proto S.grpc fuel key)

  abbrev pub hash_values_command : List Bytes → Command S
  hash_values_command = with_one λ key.
      ask (λ vs. done (display_val_list vs)) (λ ctx. hash_values S.etcd S.proto S.grpc fuel key)

  -- `client.SetHashField(args[1], args[1], args[2])`
  abbrev pub set_hash_field_command : List Bytes → Command S
  set_hash_field_command = with_three λ key field value.
      ask silent
        (λ ctx. set_hash_field S.etcd S.proto S.grpc fuel ctx field field (string_in value))

  abbrev pub del_hash_field_command : List Bytes → Command S
  del_hash_field_command =
      with_two
        λ key field. ask silent (λ ctx. del_hash_field S.etcd S.proto S.grpc fuel ctx key field)
