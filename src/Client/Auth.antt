-- ===== src/Client/Auth.antt =====
-- The calls of client/client.go on users, roles and permissions. Their errors are not normalized.
use mydis_old.Prelude.{some, List, Bytes}
use mydis_old.Errors.{Reply, reply, failed}
use mydis_old.Server.Context.{Context}
use mydis_old.Client.Remote.{Grpc}
use mydis_old.Client.Metadata.{keep_token}
use mydis_old.Auth.{
  AuthServer, Permission, answer, auth_disable as auth_disable_handler,
  auth_enable as auth_enable_handler, authenticate as authenticate_handler,
  role_add as role_add_handler, role_delete as role_delete_handler, role_get as role_get_handler,
  role_grant_permission as role_grant_permission_handler, role_list as role_list_handler,
  role_revoke_permission as role_revoke_permission_handler, user_add as user_add_handler,
  user_change_password as user_change_password_handler, user_delete as user_delete_handler,
  user_get as user_get_handler, user_grant_role as user_grant_role_handler,
  user_list as user_list_handler, user_revoke_role as user_revoke_role_handler,
}

-- A call of the generated client: the error is the one that gRPC makes of it.
abbrev pub over_grpc : {S A : Type 0} → Grpc → Reply A × S → Reply A × S
over_grpc G (reply a, s) = (reply a, s)
over_grpc G (failed e, s) = (failed (G.relay e), s)

-- c.ctx after Authenticate, for what it got.
abbrev context_after : Context → Reply Bytes → Context
context_after ctx (reply token) = keep_token token ctx
context_after ctx (failed e) = ctx

module _ (A : AuthServer) (G : Grpc) (ctx : Context) where
  -- `_, err := c.mc.X(c.ctx, ...); return err`
  abbrev only_error : {B : Type 0} → Reply B × A.State → Reply (Unit {0}) × A.State
  only_error x = answer (λ _. tt) (over_grpc G x)

  unfoldable pub auth_enable : A.State → Reply (Unit {0}) × A.State
  auth_enable s = only_error (auth_enable_handler A ctx s)

  unfoldable pub auth_disable : A.State → Reply (Unit {0}) × A.State
  auth_disable s = only_error (auth_disable_handler A ctx s)

  -- The token, and the context of the later calls.
  unfoldable pub authenticate : Bytes → Bytes → A.State → Reply Bytes × Context × A.State
  authenticate username password s =
      let (r, t) =
        answer (λ r. r.token)
          (over_grpc G
            (authenticate_handler A ctx (record { name = username; password = password }) s)) in
      (r, context_after ctx r, t)

  unfoldable pub user_add : Bytes → Bytes → A.State → Reply (Unit {0}) × A.State
  user_add username password s =
      only_error (user_add_handler A ctx (record { name = username; password = password }) s)

  unfoldable pub user_get : Bytes → A.State → Reply (List Bytes) × A.State
  user_get username s =
      answer (λ r. r.roles) (over_grpc G (user_get_handler A ctx (record { name = username }) s))

  unfoldable pub user_list : A.State → Reply (List Bytes) × A.State
  user_list s = answer (λ r. r.users) (over_grpc G (user_list_handler A ctx s))

  unfoldable pub user_delete : Bytes → A.State → Reply (Unit {0}) × A.State
  user_delete username s =
      only_error (user_delete_handler A ctx (some (record { name = username })) s)

  unfoldable pub user_change_password : Bytes → Bytes → A.State → Reply (Unit {0}) × A.State
  user_change_password username password s =
      only_error
        (user_change_password_handler A ctx (record { name = username; password = password }) s)

  unfoldable pub user_grant_role : Bytes → Bytes → A.State → Reply (Unit {0}) × A.State
  user_grant_role username role s =
      only_error (user_grant_role_handler A ctx (record { user = username; role = role }) s)

  unfoldable pub user_revoke_role : Bytes → Bytes → A.State → Reply (Unit {0}) × A.State
  user_revoke_role username role s =
      only_error (user_revoke_role_handler A ctx (record { user = username; role = role }) s)

  unfoldable pub role_add : Bytes → A.State → Reply (Unit {0}) × A.State
  role_add role s = only_error (role_add_handler A ctx (record { name = role }) s)

  unfoldable pub role_get : Bytes → A.State → Reply (List Permission) × A.State
  role_get role s =
      answer (λ r. r.perm) (over_grpc G (role_get_handler A ctx (record { role = role }) s))

  unfoldable pub role_list : A.State → Reply (List Bytes) × A.State
  role_list s = answer (λ r. r.roles) (over_grpc G (role_list_handler A ctx s))

  unfoldable pub role_delete : Bytes → A.State → Reply (Unit {0}) × A.State
  role_delete role s = only_error (role_delete_handler A ctx (record { role = role }) s)

  unfoldable pub role_grant_permission : Bytes → Permission → A.State → Reply (Unit {0}) × A.State
  role_grant_permission role perm s =
      only_error (role_grant_permission_handler A ctx (record { name = role; perm = perm }) s)

  unfoldable pub role_revoke_permission : Bytes → Permission → A.State → Reply (Unit {0}) × A.State
  role_revoke_permission role perm s = only_error (
      role_revoke_permission_handler A ctx
        (record { role = role; key = perm.key; range_end = perm.range_end }) s)
