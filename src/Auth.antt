-- ===== src/Auth.antt =====
-- mydis/auth.go, and GetPermission of mydis/util.go. The authentication of etcd is an unknown `AuthServer`.
pub mod Permissions
pub mod Laws
use mydis_old.Prelude.{
  ℕ, ◌+◌, ◌-◌, Bool, ◌&&◌, ◌||◌, Option, none, some, List, [], ◌∷◌, map, Bytes, codes, beq, leb,
  ◌==◌, if◌then◌else◌, ℤ, pos,
}
use mydis_old.Errors.{Error, other, Reply, reply, failed}
use mydis_old.Prefix.{get_key_prefix}
use mydis_old.Server.Context.{Context}

-- etcdserverpb.ResponseHeader and authpb.Permission
pub record EtcdHeader : Type 0 where
  pub cluster_id : ℕ
  pub member_id : ℕ
  pub raft_term : ℕ
  pub revision : ℤ

pub record EtcdPermission : Type 0 where
  pub key : Bytes
  pub range_end : Bytes
  pub perm_type : ℤ

-- The same of pb/mydis.proto
pub record ResponseHeader : Type 0 where
  pub cluster_id : ℕ
  pub member_id : ℕ
  pub raft_term : ℕ
  pub revision : ℤ

pub record Permission : Type 0 where
  pub key : Bytes
  pub range_end : Bytes
  pub perm_type : ℤ

-- Requests: messages with the same fields share a type.
pub record Credentials : Type 0 where
  pub name : Bytes
  pub password : Bytes

pub record Named : Type 0 where
  pub name : Bytes

pub record OfRole : Type 0 where
  pub role : Bytes

pub record RoleOfUser : Type 0 where
  pub user : Bytes
  pub role : Bytes

pub record Grant (Perm : Type 0) : Type 0 where
  pub name : Bytes
  pub perm : Perm

pub record Revocation : Type 0 where
  pub role : Bytes
  pub key : Bytes
  pub range_end : Bytes

-- Responses, with the header of etcd (a pointer) or of Mydis.
pub record Done (Header : Type 0) : Type 0 where
  pub header : Header

pub record WithToken (Header : Type 0) : Type 0 where
  pub header : Header
  pub token : Bytes

pub record WithRoles (Header : Type 0) : Type 0 where
  pub header : Header
  pub roles : List Bytes

pub record WithUsers (Header : Type 0) : Type 0 where
  pub header : Header
  pub users : List Bytes

pub record WithPermissions (Header Perm : Type 0) : Type 0 where
  pub header : Header
  pub perm : List Perm

abbrev pub EtcdDone : Type 0
EtcdDone = Done (Option EtcdHeader)

-- The calls of etcd's authentication. What a call answers depends on the context, which has the token.
pub record AuthServer : Type 1 where
  pub State : Type 0
  pub enable : Context → State → Reply EtcdDone × State
  pub disable : Context → State → Reply EtcdDone × State
  pub log_in : Context → Credentials → State → Reply (WithToken (Option EtcdHeader)) × State
  pub add_user : Context → Credentials → State → Reply EtcdDone × State
  pub get_user : Context → Named → State → Reply (WithRoles (Option EtcdHeader)) × State
  pub list_users : Context → State → Reply (WithUsers (Option EtcdHeader)) × State
  pub delete_user : Context → Named → State → Reply EtcdDone × State
  pub change_password : Context → Credentials → State → Reply EtcdDone × State
  pub grant_role : Context → RoleOfUser → State → Reply EtcdDone × State
  pub revoke_role : Context → RoleOfUser → State → Reply EtcdDone × State
  pub add_role : Context → Named → State → Reply EtcdDone × State
  pub get_role :
      Context → OfRole → State → Reply (WithPermissions (Option EtcdHeader) EtcdPermission) × State
  pub list_roles : Context → State → Reply (WithRoles (Option EtcdHeader)) × State
  pub delete_role : Context → OfRole → State → Reply EtcdDone × State
  pub grant_permission : Context → Grant EtcdPermission → State → Reply EtcdDone × State
  pub revoke_permission : Context → Revocation → State → Reply EtcdDone × State

abbrev pub convert_header : Option EtcdHeader → ResponseHeader
convert_header none = record { cluster_id = 0; member_id = 0; raft_term = 0; revision = pos 0 }
convert_header (some h) = record {
  cluster_id = h.cluster_id;
  member_id = h.member_id;
  raft_term = h.raft_term;
  revision = h.revision;
}

abbrev pub convert_permission : Permission → EtcdPermission
convert_permission p = record { key = p.key; perm_type = p.perm_type; range_end = p.range_end }

-- The body of the loop of convertPermissions, and its loop.
abbrev pub permission_of : EtcdPermission → Permission
permission_of p = record { key = p.key; perm_type = p.perm_type; range_end = p.range_end }

abbrev pub convert_permissions : List EtcdPermission → List Permission
convert_permissions = map permission_of

-- `if err != nil { return &pb.X{}, err }`, and the response for etcd's response
abbrev pub answer : {S A B : Type 0} → (A → B) → Reply A × S → Reply B × S
answer f (reply a, s) = (reply (f a), s)
answer f (failed e, s) = (failed e, s)

abbrev pub done : EtcdDone → Done ResponseHeader
done r = record { header = convert_header r.header }

module _ (A : AuthServer) where
  unfoldable pub auth_enable : Context → A.State → Reply (Done ResponseHeader) × A.State
  auth_enable ctx s = answer done (A.enable ctx s)

  unfoldable pub auth_disable : Context → A.State → Reply (Done ResponseHeader) × A.State
  auth_disable ctx s = answer done (A.disable ctx s)

  unfoldable pub authenticate :
      Context → Credentials → A.State → Reply (WithToken ResponseHeader) × A.State
  authenticate ctx req s =
      answer (λ r. record { header = convert_header r.header; token = r.token })
        (A.log_in ctx (record { name = req.name; password = req.password }) s)

  unfoldable pub user_add : Context → Credentials → A.State → Reply (Done ResponseHeader) × A.State
  user_add ctx req s =
      answer done (A.add_user ctx (record { name = req.name; password = req.password }) s)

  unfoldable pub user_get : Context → Named → A.State → Reply (WithRoles ResponseHeader) × A.State
  user_get ctx req s =
      answer (λ r. record { header = convert_header r.header; roles = r.roles })
        (A.get_user ctx (record { name = req.name }) s)

  unfoldable pub user_list : Context → A.State → Reply (WithUsers ResponseHeader) × A.State
  user_list ctx s =
      answer (λ r. record { header = convert_header r.header; users = r.users })
        (A.list_users ctx s)

  -- `none` is a nil request.
  unfoldable pub user_delete :
      Context → Option Named → A.State → Reply (Done ResponseHeader) × A.State
  user_delete ctx none s = (failed (other "Unknown error"), s)
  user_delete ctx (some req) s = answer done (A.delete_user ctx (record { name = req.name }) s)

  unfoldable pub user_change_password :
      Context → Credentials → A.State → Reply (Done ResponseHeader) × A.State
  user_change_password ctx req s =
      answer done (A.change_password ctx (record { name = req.name; password = req.password }) s)

  unfoldable pub user_grant_role :
      Context → RoleOfUser → A.State → Reply (Done ResponseHeader) × A.State
  user_grant_role ctx req s =
      answer done (A.grant_role ctx (record { role = req.role; user = req.user }) s)

  unfoldable pub user_revoke_role :
      Context → RoleOfUser → A.State → Reply (Done ResponseHeader) × A.State
  user_revoke_role ctx req s =
      answer done (A.revoke_role ctx (record { user = req.user; role = req.role }) s)

  unfoldable pub role_add : Context → Named → A.State → Reply (Done ResponseHeader) × A.State
  role_add ctx req s = answer done (A.add_role ctx (record { name = req.name }) s)

  unfoldable pub role_get :
      Context → OfRole → A.State → Reply (WithPermissions ResponseHeader Permission) × A.State
  role_get ctx req s =
      answer (λ r. record { header = convert_header r.header; perm = convert_permissions r.perm })
        (A.get_role ctx (record { role = req.role }) s)

  unfoldable pub role_list : Context → A.State → Reply (WithRoles ResponseHeader) × A.State
  role_list ctx s =
      answer (λ r. record { header = convert_header r.header; roles = r.roles })
        (A.list_roles ctx s)

  unfoldable pub role_delete : Context → OfRole → A.State → Reply (Done ResponseHeader) × A.State
  role_delete ctx req s = answer done (A.delete_role ctx (record { role = req.role }) s)

  unfoldable pub role_grant_permission :
      Context → Grant Permission → A.State → Reply (Done ResponseHeader) × A.State
  role_grant_permission ctx req s =
      answer done
        (A.grant_permission ctx (record { name = req.name; perm = convert_permission req.perm }) s)

  unfoldable pub role_revoke_permission :
      Context → Revocation → A.State → Reply (Done ResponseHeader) × A.State
  role_revoke_permission ctx req s = answer done (
      A.revoke_permission ctx (record { key = req.key; range_end = req.range_end; role = req.role })
        s)
