-- ===== src/Cli/Dispatch.antt =====
-- `command` and `prompt` of cli/cli.go: from a line to a command's run.
use mydis_old.Prelude.{
  ℕ, Option, none, some, List, [], ◌∷◌, ◌++◌, Bytes, codes, beq, ◌==◌, if◌then◌else◌,
}
use mydis_old.Cli.{Setting, Command, stopped, done, give, unknown_command}
use mydis_old.Auth.Permissions.{trim_space, to_upper}
use mydis_old.Cli.Help.{help, display_help}
use mydis_old.Cli.Users.{
  quit_command, set_lock_timeout_command, watch_command, unwatch_command, auth_enable_command,
  auth_disable_command, authenticate_command, user_add_command, user_get_command, user_list_command,
  user_delete_command, user_change_pass_command, user_grant_role_command, user_revoke_role_command,
  role_add_command, role_get_command, role_list_command, role_delete_command,
  role_grant_perm_command, role_revoke_perm_command,
}
use mydis_old.Cli.Keys.{
  keys_command, keys_with_prefix_command, has_command, set_expire_command, delete_command,
  clear_command, get_command, get_many_command, set_command, set_nx_command, set_int_command,
  set_float_command, increment_int_command, decrement_int_command, increment_float_command,
  decrement_float_command,
}
use mydis_old.Cli.Lists.{
  get_list_item_command, set_list_item_command, list_limit_command, list_length_command,
  list_insert_command, list_append_command, list_pop_left_command, list_pop_left_block_command,
  list_pop_right_command, list_pop_right_block_command, list_has_command, list_delete_command,
  list_delete_item_command,
}
use mydis_old.Cli.Hashes.{
  get_hash_field_command, hash_has_command, hash_fields_command, hash_values_command,
  set_hash_field_command, del_hash_field_command,
}

-- A name in the chain of tests, and the branch under it.
abbrev pub Entry : Setting → Type 0
Entry S = Bytes × (List Bytes → Command S)

module _ {S : Setting} where
  abbrev help_command : List Bytes → Command S
  help_command args = give (done (display_help help))

  -- The first branch whose name is `cmd`.
  unfoldable pub find_command : Bytes → List (Entry S) → Option (List Bytes → Command S)
  find_command cmd [] = none
  find_command cmd ((name, f) ∷ es) =
      let rest = find_command cmd es in if beq cmd name then some f else rest

  unfoldable pub first_commands : List (Entry S)
  first_commands = (codes "QUIT", quit_command) ∷ (codes "HELP", help_command) ∷ []

  unfoldable pub key_commands : ℕ → List (Entry S)
  key_commands fuel =
      (codes "KEYS", keys_command fuel)
      ∷ (codes "KEYSWITHPREFIX", keys_with_prefix_command fuel)
      ∷ (codes "HAS", has_command fuel)
      ∷ (codes "SETEXPIRE", set_expire_command fuel)
      ∷ (codes "DELETE", delete_command fuel)
      ∷ (codes "CLEAR", clear_command fuel)
      ∷ (codes "GET", get_command fuel)
      ∷ (codes "GETMANY", get_many_command fuel)
      ∷ (codes "SET", set_command fuel)
      ∷ (codes "SETNX", set_nx_command fuel)
      ∷ (codes "SETINT", set_int_command fuel)
      ∷ (codes "SETFLOAT", set_float_command fuel)
      ∷ (codes "INCREMENTINT", increment_int_command fuel)
      ∷ (codes "DECREMENTINT", decrement_int_command fuel)
      ∷ (codes "INCREMENTFLOAT", increment_float_command fuel)
      ∷ (codes "DECREMENTFLOAT", decrement_float_command fuel)
      ∷ []

  unfoldable pub list_commands : ℕ → List (Entry S)
  list_commands fuel =
      (codes "GETLISTITEM", get_list_item_command fuel)
      ∷ (codes "SETLISTITEM", set_list_item_command fuel)
      ∷ (codes "LISTLIMIT", list_limit_command fuel)
      ∷ (codes "LISTLENGTH", list_length_command fuel)
      ∷ (codes "LISTINSERT", list_insert_command fuel)
      ∷ (codes "LISTAPPEND", list_append_command fuel)
      ∷ (codes "LISTPOPLEFT", list_pop_left_command fuel)
      ∷ (codes "LISTPOPLEFTBLK", list_pop_left_block_command fuel)
      ∷ (codes "LISTPOPRIGHT", list_pop_right_command fuel)
      ∷ (codes "LISTPOPRIGHTBLK", list_pop_right_block_command fuel)
      ∷ (codes "LISTHAS", list_has_command fuel)
      ∷ (codes "LISTDELETE", list_delete_command fuel)
      ∷ (codes "LISTDELETEITEM", list_delete_item_command fuel)
      ∷ []

  unfoldable pub hash_commands : ℕ → List (Entry S)
  hash_commands fuel =
      (codes "GETHASHFIELD", get_hash_field_command fuel)
      ∷ (codes "HASHHAS", hash_has_command fuel)
      ∷ (codes "HASHFIELDS", hash_fields_command fuel)
      ∷ (codes "HASHVALUES", hash_values_command fuel)
      ∷ (codes "SETHASHFIELD", set_hash_field_command fuel)
      ∷ (codes "DELHASHFIELD", del_hash_field_command fuel)
      ∷ []

  unfoldable pub user_commands : List (Entry S)
  user_commands =
      (codes "SETLOCKTIMEOUT", set_lock_timeout_command)
      ∷ (codes "WATCH", watch_command)
      ∷ (codes "UNWATCH", unwatch_command)
      ∷ (codes "AUTHENABLE", auth_enable_command)
      ∷ (codes "AUTHDISABLE", auth_disable_command)
      ∷ (codes "AUTHENTICATE", authenticate_command)
      ∷ (codes "USERADD", user_add_command)
      ∷ (codes "USERGET", user_get_command)
      ∷ (codes "USERLIST", user_list_command)
      ∷ (codes "USERDELETE", user_delete_command)
      ∷ (codes "USERCHANGEPASS", user_change_pass_command)
      ∷ (codes "USERGRANTROLE", user_grant_role_command)
      ∷ (codes "USERREVOKEROLE", user_revoke_role_command)
      ∷ (codes "ROLEADD", role_add_command)
      ∷ (codes "ROLEGET", role_get_command)
      ∷ (codes "ROLELIST", role_list_command)
      ∷ (codes "ROLEDELETE", role_delete_command)
      ∷ (codes "ROLEGRANTPERM", role_grant_perm_command)
      ∷ (codes "ROLEREVOKEPERM", role_revoke_perm_command)
      ∷ []

  -- The chain of tests of `command`, in its order.
  unfoldable pub commands : ℕ → List (Entry S)
  unfolding first_commands key_commands list_commands hash_commands user_commands
  commands fuel =
      first_commands
      ++ key_commands fuel
      ++ list_commands fuel
      ++ hash_commands fuel
      ++ user_commands

  abbrev pub run_found : Option (List Bytes → Command S) → Bytes → List Bytes → Command S
  run_found none cmd args = give (stopped (unknown_command cmd))
  run_found (some f) cmd args = f args

  unfoldable pub command : ℕ → Bytes → List Bytes → Command S
  command fuel cmd args = run_found (find_command cmd (commands fuel)) cmd args

-- strings.Split(s, " "): the pieces between the spaces. The first piece and the others.
abbrev pub split_spaces : Bytes → Bytes × List Bytes
split_spaces [] = ([], [])
split_spaces (b ∷ bs) =
    let (word, words) = split_spaces bs in if b == 32 then ([], word ∷ words) else (b ∷ word, words)

-- What a trimmed line has: a command's name in capitals and its arguments.
abbrev pub words_of : Bytes → Option (Bytes × List Bytes)
words_of [] = none
words_of (b ∷ bs) = let (word, words) = split_spaces (b ∷ bs) in some (to_upper word, words)

unfoldable pub read_line : Bytes → Option (Bytes × List Bytes)
read_line s = words_of (trim_space s)

-- A line at the prompt; it has been read without an error.
unfoldable pub prompt : {S : Setting} → ℕ → Bytes → Command S
unfolding command read_line
prompt fuel s = elim (read_line s) [
  | none ↦ give (done [])
  | some (cmd, args) ↦ command fuel cmd args
]
