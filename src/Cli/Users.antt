-- ===== src/Cli/Users.antt =====
-- The commands of cli/cli.go on the client itself, on watches, and on users, roles and permissions.
use mydis_old.Cli.{
  Outcome, unrecognized_type, finish_reply, end_of_file, Setting, Command, done, silent, ask_auth,
  give, stopped, with_one, with_two, with_three, with_int,
}
use mydis_old.Runtime.{waiting, ok}
use mydis_old.Client.Events.Connection.Calls.{Link, watch_call, close_call}
use mydis_old.Server.Context.{Context}
use mydis_old.Errors.{Reply}
use mydis_old.Prelude.{false, Option, none, some, List, [], Bytes}
use mydis_old.Auth.{Permission}
use mydis_old.Watch.{WatchRequest}
use mydis_old.Cli.Display.{display_list, display_perms}
use mydis_old.Client.Metadata.{set_lock_timeout}
use mydis_old.Client.Events.{watch_request, unwatch_request}
use mydis_old.Auth.Permissions.{get_permission}
use mydis_old.Client.Auth.{
  auth_enable, auth_disable, authenticate, user_add, user_get, user_list, user_delete,
  user_change_password, user_grant_role, user_revoke_role, role_add, role_get, role_list,
  role_delete, role_grant_permission, role_revoke_permission,
}

module _ {S : Setting} where
  abbrev pub set_lock_timeout_command : List Bytes → Command S
  set_lock_timeout_command = with_one λ seconds.
      with_int seconds λ d. λ s w. (ok (done []), record s { ctx = set_lock_timeout d s.ctx }, w)

  -- What follows a call on the connection; one that waits for ever is a command that does.
  abbrev pub after_call : Outcome S.proto.Float → Option (Link S.streams) → Command S
  after_call o none s w = (waiting, s, w)
  after_call o (some l) s w = (ok o, record s { link = l }, w)

  unfoldable pub send_request : WatchRequest → Command S
  send_request r s w = after_call (done []) (watch_call S.streams r s.link) s w

  abbrev pub watch_command : List Bytes → Command S
  watch_command = with_one λ key. send_request (watch_request key false)

  abbrev pub unwatch_command : List Bytes → Command S
  unwatch_command = with_one λ key. send_request (unwatch_request key false)

  -- client.Close(), and io.EOF
  unfoldable pub close_client : Command S
  close_client s w = after_call (stopped end_of_file) (close_call S.streams s.link) s w

  abbrev pub quit_command : List Bytes → Command S
  quit_command args = close_client

  abbrev pub auth_enable_command : List Bytes → Command S
  auth_enable_command args = ask_auth silent (λ ctx. auth_enable S.auth S.grpc ctx)

  abbrev pub auth_disable_command : List Bytes → Command S
  auth_disable_command args = ask_auth silent (λ ctx. auth_disable S.auth S.grpc ctx)

  abbrev logged_in : Reply Bytes × Context × S.auth.State → Command S
  logged_in (r, ctx, t) s w = (ok (finish_reply silent r), record s { ctx = ctx; roles = t }, w)

  abbrev pub authenticate_command : List Bytes → Command S
  authenticate_command = with_two λ username password.
      λ s w. logged_in (authenticate S.auth S.grpc s.ctx username password s.roles) s w

  abbrev pub user_add_command : List Bytes → Command S
  user_add_command = with_two λ x y. ask_auth silent (λ ctx. user_add S.auth S.grpc ctx x y)

  abbrev pub user_get_command : List Bytes → Command S
  user_get_command =
      with_one λ x. ask_auth (λ rs. done (display_list rs)) (λ ctx. user_get S.auth S.grpc ctx x)

  abbrev pub user_list_command : List Bytes → Command S
  user_list_command args =
      ask_auth (λ us. done (display_list us)) (λ ctx. user_list S.auth S.grpc ctx)

  abbrev pub user_delete_command : List Bytes → Command S
  user_delete_command = with_one λ x. ask_auth silent (λ ctx. user_delete S.auth S.grpc ctx x)

  abbrev pub user_change_pass_command : List Bytes → Command S
  user_change_pass_command =
      with_two λ x y. ask_auth silent (λ ctx. user_change_password S.auth S.grpc ctx x y)

  abbrev pub user_grant_role_command : List Bytes → Command S
  user_grant_role_command =
      with_two λ x y. ask_auth silent (λ ctx. user_grant_role S.auth S.grpc ctx x y)

  abbrev pub user_revoke_role_command : List Bytes → Command S
  user_revoke_role_command =
      with_two λ x y. ask_auth silent (λ ctx. user_revoke_role S.auth S.grpc ctx x y)

  abbrev pub role_add_command : List Bytes → Command S
  role_add_command = with_one λ x. ask_auth silent (λ ctx. role_add S.auth S.grpc ctx x)

  abbrev pub role_get_command : List Bytes → Command S
  role_get_command =
      with_one λ x. ask_auth (λ ps. done (display_perms ps)) (λ ctx. role_get S.auth S.grpc ctx x)

  abbrev pub role_list_command : List Bytes → Command S
  role_list_command args =
      ask_auth (λ rs. done (display_list rs)) (λ ctx. role_list S.auth S.grpc ctx)

  abbrev pub role_delete_command : List Bytes → Command S
  role_delete_command = with_one λ x. ask_auth silent (λ ctx. role_delete S.auth S.grpc ctx x)

  -- `if perm == nil { return errors.New("Unrecognized permType: " + args[2]) }`
  unfoldable pub with_permission : Bytes → Option Permission → (Permission → Command S) → Command S
  with_permission name none f = give (stopped (unrecognized_type name))
  with_permission name (some perm) f = f perm

  abbrev pub role_grant_perm_command : List Bytes → Command S
  role_grant_perm_command = with_three λ role key name.
      with_permission name (get_permission key name)
        λ perm. ask_auth silent (λ ctx. role_grant_permission S.auth S.grpc ctx role perm)

  abbrev pub role_revoke_perm_command : List Bytes → Command S
  role_revoke_perm_command = with_three λ role key name.
      with_permission name (get_permission key name)
        λ perm. ask_auth silent (λ ctx. role_revoke_permission S.auth S.grpc ctx role perm)
