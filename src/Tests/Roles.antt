-- ===== src/Tests/Roles.antt =====
-- Roles with permissions in memory, and the context of a client.
use mathlib.Core.List.{Mem, mem-cons_self}
use mathlib.Core.Path.{subst}
use mydis_old.Prelude.{
  ◌≡◌, refl, ap, ◌∙◌, none, List, [], ◌∷◌, arith, Bytes, codes, beq, beq_refl, if◌then◌else◌,
  le_bytes, pos, Option,
}
use mydis_old.Errors.{other, Reply, reply, failed}
use mydis_old.Prefix.{in_range, get_key_prefix, ends_in_star}
use mydis_old.Server.Context.{background}
use mydis_old.Auth.{
  AuthServer, Permission, EtcdPermission, ResponseHeader, WithPermissions, EtcdHeader, role_get,
  role_grant_permission,
}
use mydis_old.Auth.Laws.{IsAuthServer, role_get-get_permission}
use mydis_old.Auth.Permissions.{get_permission}
use mydis_old.Tests.{key_a, key_z}

abbrev pub Roles : Type 0
Roles = Bytes → List EtcdPermission

abbrev granted_to : Bytes → EtcdPermission → Roles → Roles
granted_to role perm s k = if beq role k then perm ∷ s k else s k

-- Users are not kept.
abbrev refused : {A : Type 0} → Roles → Reply A × Roles
refused s = (failed (other "etcdserver: user name not found"), s)

abbrev pub roles : AuthServer
roles = record {
  State = Roles;
  enable = λ ctx s. (reply (record { header = none }), s);
  disable = λ ctx s. (reply (record { header = none }), s);
  log_in = λ ctx req s. refused s;
  add_user = λ ctx req s. refused s;
  get_user = λ ctx req s. refused s;
  list_users = λ ctx s. (reply (record { header = none; users = [] }), s);
  delete_user = λ ctx req s. refused s;
  change_password = λ ctx req s. refused s;
  grant_role = λ ctx req s. refused s;
  revoke_role = λ ctx req s. refused s;
  add_role = λ ctx req s. (reply (record { header = none }), s);
  get_role = λ ctx req s. (reply (record { header = none; perm = s req.role }), s);
  list_roles = λ ctx s. (reply (record { header = none; roles = [] }), s);
  delete_role =
      λ ctx req s. (reply (record { header = none }), λ k. if beq req.role k then [] else s k);
  grant_permission =
      λ ctx req s. (reply (record { header = none }), granted_to req.name req.perm s);
  revoke_permission =
      λ ctx req s. (reply (record { header = none }), λ k. if beq req.role k then [] else s k);
}

mem-granted_to :
    (role : Bytes) (perm : EtcdPermission) (s : Roles) → Mem perm (granted_to role perm s role)
mem-granted_to role perm s = rw (beq_refl role) mem-cons_self

roles-IsAuthServer : IsAuthServer roles
roles-IsAuthServer = record {
  granted = λ ctx role perm s t u d r e h.
      let after : granted_to role perm s ≡ t = ap (λ x. x.1) e in
      let same : record { header = none; perm = t role } ≡ r = cc in
      subst (λ (l : List EtcdPermission). Mem perm l)
        (ap (λ (f : Roles). f role) after
          ∙ ap (λ (q : WithPermissions (Option EtcdHeader) EtcdPermission). q.perm) same)
        (mem-granted_to role perm s);
}

abbrev any_one : Permission
any_one = record { key = key_a; range_end = 0 ∷ []; perm_type = pos 0 }

abbrev any_permission : EtcdPermission
any_permission = record { key = key_a; range_end = 0 ∷ []; perm_type = pos 0 }

abbrev no_header : ResponseHeader
no_header = record { cluster_id = 0; member_id = 0; raft_term = 0; revision = pos 0 }

abbrev no_roles : Roles
no_roles k = []

-- "a" and the reading of it, granted to the role "z"; the key "b" is allowed too.
role_get-get_permission_example :
    Mem any_one (any_one ∷ [])
    × (in_range any_one.key any_one.range_end (98 ∷ []) ≡ le_bytes key_a (98 ∷ []))
unfolding get_permission get_key_prefix ends_in_star beq role_grant_permission role_get
role_get-get_permission_example =
    role_get-get_permission roles-IsAuthServer background key_z [] 97 (codes " read ") (98 ∷ [])
      any_one no_roles (granted_to key_z any_permission no_roles)
      (granted_to key_z any_permission no_roles) (record { header = no_header })
      (record { header = no_header; perm = any_one ∷ [] }) tt (omega arith, tt) refl refl refl
