-- ===== src/Cli/Ends/Tables.antt =====
-- The tables of commands of cli/cli.go: which of them end.

use mydis_old.Cli.Ends.{AllEnd, cli_ends_rules, all_blocking}
use mydis_old.Cli.Dispatch.{
  first_commands, key_commands, list_commands, hash_commands, user_commands,
}
use mydis_old.Prelude.{ℕ, beq}
use mydis_old.Client.Ends.Values.{
  Ends-clear, Ends-decrement_float, Ends-decrement_int, Ends-delete, Ends-get, Ends-get_many,
  Ends-has, Ends-increment_float, Ends-increment_int, Ends-keys, Ends-keys_with_prefix, Ends-set,
  Ends-set_expire, Ends-set_nx,
}
use mydis_old.Client.Ends.Lists.{
  Ends-get_list_item, Ends-list_append, Ends-list_delete, Ends-list_delete_item, Ends-list_has,
  Ends-list_insert, Ends-list_length, Ends-list_limit, Ends-list_pop_left, Ends-list_pop_right,
  Ends-set_list_item,
}
use mydis_old.Client.Ends.Hashes.{
  Ends-del_hash_field, Ends-get_hash_field, Ends-hash_fields, Ends-hash_has, Ends-hash_values,
  Ends-set_hash_field,
}
use mydis_old.Cli.{Setting}

module _ (S : Setting) (fuel : ℕ) where
  pub first_commands-AllEnd : AllEnd fuel (first_commands {S = S})
  unfolding first_commands
  first_commands-AllEnd = search cli_ends_rules depth 30 fits 3000

  pub key_commands-AllEnd : AllEnd fuel (key_commands {S = S} fuel)
  unfolding key_commands
  key_commands-AllEnd =
      search
        (
          cli_ends_rules, Ends-clear, Ends-decrement_float, Ends-decrement_int, Ends-delete,
          Ends-get, Ends-get_many, Ends-has, Ends-increment_float, Ends-increment_int, Ends-keys,
          Ends-keys_with_prefix, Ends-set, Ends-set_expire, Ends-set_nx,
        )
        depth 30 fits 3000

  pub hash_commands-AllEnd : AllEnd fuel (hash_commands {S = S} fuel)
  unfolding hash_commands
  hash_commands-AllEnd =
      search
        (
          cli_ends_rules, Ends-del_hash_field, Ends-get_hash_field, Ends-hash_fields, Ends-hash_has,
          Ends-hash_values, Ends-set_hash_field,
        )
        depth 30 fits 3000

  pub list_commands-AllEnd : AllEnd fuel (list_commands {S = S} fuel)
  unfolding list_commands beq
  list_commands-AllEnd =
      search
        (
          cli_ends_rules, all_blocking, Ends-get_list_item, Ends-list_append, Ends-list_delete,
          Ends-list_delete_item, Ends-list_has, Ends-list_insert, Ends-list_length, Ends-list_limit,
          Ends-list_pop_left, Ends-list_pop_right, Ends-set_list_item,
        )
        depth 30 fits 3000

  pub user_commands-AllEnd : AllEnd fuel (user_commands {S = S})
  unfolding user_commands
  user_commands-AllEnd = search cli_ends_rules depth 50 fits 3000
