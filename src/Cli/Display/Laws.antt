-- ===== src/Cli/Display/Laws.antt =====
-- Theorems on the display functions of cli/cli.go.
use mathlib.Core.List.{append_assoc, Permᴰ}
use mydis_old.Prefix.Stars.{get_key_prefix-append}
use mydis_old.Auth.Laws.{with_type-some}
use mydis_old.Cli.Display.{
  starred_key, has_zero_end, lookup_value, display_map, map_line, or_empty_line,
}
use mydis_old.Auth.{Permission}
use mydis_old.Prefix.{get_prefix, get_key_prefix, zero_byte}
use mydis_old.Prelude.{
  some, ◌++◌, ◌≢◌, ℕ, ◌≡◌, refl, ap, inl, inr, false, Bool-cases, List, [], ◌∷◌, map, Bytes, ◌==◌,
  if◌then◌else◌, arith,
}
use mydis_old.Auth.Permissions.{get_permission}
use mydis_old.Server.Hashes.{sort_strings}
use mydis_old.Server.Hashes.Sorting.{sort_strings-perm}
use mydis_old.Value.{Value}

map_line-ext :
    {F : Type 0} (m n : List (Bytes × Value)) (ks : List Bytes)
    → ((k : Bytes) → lookup_value k m ≡ lookup_value k n)
    → map (map_line {F = F} m) ks ≡ map (map_line n) ks
map_line-ext m n [] h = refl
map_line-ext {F} m n (k ∷ ks) h =
    rw (h k) (ap (λ ls. map_line n k ∷ ls) (map_line-ext {F = F} m n ks h))

-- The lines that displayMap prints do not depend on the order in which the map is ranged over: two
-- lists with the same fields in different orders, and the same value under each field, are printed
-- alike.
pub display_map-perm :
    {F : Type 0} (m n : List (Bytes × Value))
    → Permᴰ (map (λ e. e.0) m) (map (λ e. e.0) n)
    → ((k : Bytes) → lookup_value k m ≡ lookup_value k n)
    → display_map {F = F} m ≡ display_map n
unfolding display_map
display_map-perm m n p h =
    rw (sort_strings-perm p)
      (ap or_empty_line (map_line-ext m n (sort_strings (map (λ e. e.0) n)) h))

has_zero_end_lem : (e : Bytes) → e ≢ zero_byte → has_zero_end e ≡ false
has_zero_end_lem [] h = refl
has_zero_end_lem (b ∷ []) h = elim (Bool-cases (b == 0)) [
  | inl z ↦ absurd (h (ground arith))
  | inr z ↦ z
]
has_zero_end_lem (b ∷ c ∷ e) h = refl

-- A permission that GetPermission makes for a prefix and a last byte, where the prefix's interval
-- does not end in the zero byte, is shown by displayPerms with the bare prefix where the last byte
-- is a star, and with a star behind the whole key where it is not.
pub get_permission-starred_key :
    (p : Bytes) (b : ℕ) (name : Bytes) (perm : Permission)
    → get_permission (p ++ b ∷ []) name ≡ some perm
    → get_prefix p ≢ zero_byte
    → starred_key perm ≡ (if b == 42 then p else p ++ b ∷ 42 ∷ [])
unfolding get_permission
get_permission-starred_key p b name perm e h =
    let (at, to) = with_type-some (get_key_prefix (p ++ b ∷ [])) _ perm e in
    rw (at, to, get_key_prefix-append p b)
      (elim (Bool-cases (b == 42)) [
        | inl star ↦ rw (star, has_zero_end_lem (get_prefix p) h) refl
        | inr plain ↦ rw plain (append_assoc p (b ∷ []) (42 ∷ []))
      ])
