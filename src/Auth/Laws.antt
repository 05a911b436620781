-- ===== src/Auth/Laws.antt =====
-- Theorems on permissions, in mydis/auth.go and mydis/util.go.
use mathlib.Core.Path.{ap, sym, subst}
use mathlib.Core.List.{Mem, mem-map_of_mem}
use mydis_old.Prelude.{
  arith, le_bytes, has_prefix, ℕ, Option, none, some, [], ◌∷◌, ◌++◌, ◌≡◌, Bytes, AreBytes,
  if◌then◌else◌, ◌==◌, ℤ,
}
use mydis_old.Auth.Permissions.{with_type, get_permission}
use mydis_old.Prefix.{get_key_prefix, in_range}
use mydis_old.Auth.{
  AuthServer, Permission, EtcdPermission, WithPermissions, EtcdHeader, ResponseHeader, answer,
  role_get, role_grant_permission, permission_of, Done, EtcdDone,
}
use mydis_old.Prefix.Stars.{in_range-get_key_prefix}
use mydis_old.Errors.{Reply, reply, failed}
use mydis_old.Server.Context.{Context}

-- What the server relies on of etcd: a permission that is granted to a role is among those of the role.
pub record IsAuthServer (A : AuthServer) : Type 0 where
  pub granted :
      (ctx : Context) (role : Bytes) (perm : EtcdPermission) (s t u : A.State) (d : EtcdDone)
      (r : WithPermissions (Option EtcdHeader) EtcdPermission)
      → A.grant_permission ctx (record { name = role; perm = perm }) s ≡ (reply d, t)
      → A.get_role ctx (record { role = role }) t ≡ (reply r, u)
      → Mem perm r.perm

answer-reply :
    {S A B : Type 0} (f : A → B) (x : Reply A × S) (b : B) (s : S)
    → answer f x ≡ (reply b, s)
    → (a : A) × (x ≡ (reply a, s)) × (f a ≡ b)
answer-reply f (reply a, t) b s e = (a, cc, cc)
answer-reply f (failed e, t) b s h = absurd (cc)

pub with_type-some :
    (bounds : Bytes × Bytes) (o : Option ℤ) (perm : Permission)
    → with_type bounds o ≡ some perm
    → (perm.key ≡ bounds.0) × (perm.range_end ≡ bounds.1)
with_type-some bounds none perm e = absurd (cc)
with_type-some bounds (some t) perm e =
    let same : record { key = bounds.0; range_end = bounds.1; perm_type = t } ≡ perm =
      ground arith in
    (sym (ap (λ (q : Permission). q.key) same), sym (ap (λ (q : Permission). q.range_end) same))

get_permission-in_range :
    (p : Bytes) (b : ℕ) (name k : Bytes) (perm : Permission)
    → AreBytes p
    → AreBytes k
    → get_permission (p ++ b ∷ []) name ≡ some perm
    → in_range perm.key perm.range_end k
      ≡ (if b == 42 then has_prefix k p else le_bytes (p ++ b ∷ []) k)
unfolding get_permission
get_permission-in_range p b name k perm hp hk e =
    let (at, to) = with_type-some (get_key_prefix (p ++ b ∷ [])) _ perm e in
    rw (at, to) (in_range-get_key_prefix p b k hp hk)

module _ {A : AuthServer} (L : IsAuthServer A) where
  -- Where etcd keeps the permissions that it grants to a role: if GetPermission recognizes the name
  -- and makes a permission for a key of bytes that is not empty, RoleGrantPermission grants it to a
  -- role without an error, and RoleGet then returns a response, this response has exactly that
  -- permission among its permissions; and the interval of the permission has, of the keys of bytes,
  -- those that begin with what stands before the star, where the key ends in a star, and else every
  -- one that is not less than the key.
  pub role_get-get_permission :
      (ctx : Context) (role p : Bytes) (b : ℕ) (name k : Bytes) (perm : Permission)
      (s t u : A.State) (d : Done ResponseHeader) (r : WithPermissions ResponseHeader Permission)
      → AreBytes p
      → AreBytes k
      → get_permission (p ++ b ∷ []) name ≡ some perm
      → role_grant_permission A ctx (record { name = role; perm = perm }) s ≡ (reply d, t)
      → role_get A ctx (record { role = role }) t ≡ (reply r, u)
      → Mem perm r.perm
        × (in_range perm.key perm.range_end k
            ≡ (if b == 42 then has_prefix k p else le_bytes (p ++ b ∷ []) k))
  unfolding role_grant_permission role_get
  role_get-get_permission ctx role p b name k perm s t u d r hp hk e g h =
      let (d0, eg, _) = answer-reply _ _ d t g in
      let (r0, eh, same) = answer-reply _ _ r u h in
      (
        subst (λ (q : WithPermissions ResponseHeader Permission). Mem perm q.perm) same
            (mem-map_of_mem permission_of (L.granted ctx role _ s t u d0 r0 eg eh)),
        get_permission-in_range p b name k perm hp hk e,
      )
