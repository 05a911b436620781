-- ===== src/Auth/Permissions.antt =====
-- GetPermission of mydis/util.go.
use mydis_old.Prelude.{
  ◌-◌, Bool, ◌&&◌, ◌||◌, Option, none, some, [], ◌∷◌, map, Bytes, codes, beq, leb, ◌==◌,
  if◌then◌else◌, ℕ, ℤ, pos,
}
use mydis_old.Prefix.{get_key_prefix}
use mydis_old.Auth.{Permission}

-- strings.TrimSpace and strings.ToUpper, on ASCII.
abbrev pub is_space : ℕ → Bool
is_space b = leb 9 b && leb b 13 || b == 32

abbrev pub trim_left : Bytes → Bytes
trim_left [] = []
trim_left (b ∷ bs) = let rest = trim_left bs in if is_space b then rest else b ∷ bs

abbrev pub before_space : ℕ → Bytes → Bytes
before_space b [] = if is_space b then [] else b ∷ []
before_space b (c ∷ bs) = b ∷ c ∷ bs

abbrev pub trim_right : Bytes → Bytes
trim_right [] = []
trim_right (b ∷ bs) = before_space b (trim_right bs)

abbrev pub trim_space : Bytes → Bytes
trim_space s = trim_right (trim_left s)

abbrev pub to_upper : Bytes → Bytes
to_upper = map (λ b. if leb 97 b && leb b 122 then b - 32 else b)

-- pb.Permission_Type_value
abbrev pub permission_type_value : Bytes → Option ℤ
permission_type_value name =
    if beq name (codes "READ")
    then some (pos 0)
    else if beq name (codes "WRITE")
    then some (pos 1)
    else if beq name (codes "READWRITE")
    then some (pos 2)
    else none

-- The permission on the bounds, where its type is known; `none` is a nil pointer.
abbrev pub with_type : Bytes × Bytes → Option ℤ → Option Permission
with_type bounds none = none
with_type bounds (some t) = some (record { key = bounds.0; range_end = bounds.1; perm_type = t })

unfoldable pub get_permission : Bytes → Bytes → Option Permission
get_permission key perm_name =
    with_type (get_key_prefix key) (permission_type_value (to_upper (trim_space perm_name)))
