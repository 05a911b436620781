-- ===== src/Cli/Lists.antt =====
-- The commands of cli/cli.go on lists.
use mydis_old.Prelude.{ℕ, List, Bytes}
use mydis_old.Value.{string_in}
use mydis_old.Cli.{
  Setting, Command, number, text, silent, printed, ask, with_one, with_two, with_three, with_int,
}
use mydis_old.Cli.Keys.{text_of}
use mydis_old.Client.Lists.{
  get_list_item, set_list_item, list_limit, list_length, list_insert, list_append, list_pop_left,
  list_pop_left_block, list_pop_right, list_pop_right_block, list_has, list_delete,
  list_delete_item,
}

module _ {S : Setting} (fuel : ℕ) where
  abbrev pub get_list_item_command : List Bytes → Command S
  get_list_item_command = with_two λ key index.
      with_int index
        λ i. ask (printed text) (λ ctx. text_of (get_list_item S.etcd S.proto S.grpc fuel key i))

  abbrev pub set_list_item_command : List Bytes → Command S
  set_list_item_command = with_three λ key index value.
      with_int index λ i.
        ask silent (λ ctx. set_list_item S.etcd S.proto S.grpc fuel ctx key i (string_in value))

  abbrev pub list_limit_command : List Bytes → Command S
  list_limit_command = with_two λ key limit.
      with_int limit λ i. ask silent (λ ctx. list_limit S.etcd S.proto S.grpc fuel ctx key i)

  abbrev pub list_length_command : List Bytes → Command S
  list_length_command =
      with_one λ key. ask (printed number) (λ ctx. list_length S.etcd S.proto S.grpc fuel key)

  abbrev pub list_insert_command : List Bytes → Command S
  list_insert_command = with_three λ key index value.
      with_int index
        λ i. ask silent (λ ctx. list_insert S.etcd S.proto S.grpc fuel ctx key i (string_in value))

  abbrev pub list_append_command : List Bytes → Command S
  list_append_command = with_two λ key value.
      ask silent (λ ctx. list_append S.etcd S.proto S.grpc fuel ctx key (string_in value))

  abbrev pub list_pop_left_command : List Bytes → Command S
  list_pop_left_command =
      with_one λ key.
        ask (printed text) (λ ctx. text_of (list_pop_left S.etcd S.proto S.grpc fuel ctx key))

  abbrev pub list_pop_left_block_command : List Bytes → Command S
  list_pop_left_block_command = with_two λ key seconds. with_int seconds λ i.
      ask (printed text) (λ ctx. text_of (list_pop_left_block S.etcd S.proto S.grpc fuel ctx key i))

  abbrev pub list_pop_right_command : List Bytes → Command S
  list_pop_right_command =
      with_one λ key.
        ask (printed text) (λ ctx. text_of (list_pop_right S.etcd S.proto S.grpc fuel ctx key))

  abbrev pub list_pop_right_block_command : List Bytes → Command S
  list_pop_right_block_command = with_two λ key seconds. with_int seconds λ i.
      ask (printed text)
        (λ ctx. text_of (list_pop_right_block S.etcd S.proto S.grpc fuel ctx key i))

  abbrev pub list_has_command : List Bytes → Command S
  list_has_command = with_two λ key value.
      ask (printed number) (λ ctx. list_has S.etcd S.proto S.grpc fuel key (string_in value))

  abbrev pub list_delete_command : List Bytes → Command S
  list_delete_command = with_two λ key index.
      with_int index λ i. ask silent (λ ctx. list_delete S.etcd S.proto S.grpc fuel ctx key i)

  abbrev pub list_delete_item_command : List Bytes → Command S
  list_delete_item_command = with_two λ key value.
      ask (printed number)
        (λ ctx. list_delete_item S.etcd S.proto S.grpc fuel ctx key (string_in value))
