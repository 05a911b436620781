-- ===== src/Cli/Display.antt =====
-- The display functions of cli/cli.go.

use mydis_old.Prelude.{
  false, ℕ, zero, suc, ◌-◌, ◌<◌, ltb, ◌==◌, Bool, ◌&&◌, Option, none, some, List, [], ◌∷◌, ◌++◌,
  map, Bytes, codes, beq, le_bytes, length, ℤ, pos, negsuc, eq_ℤ, if◌then◌else◌,
}
use mydis_old.Cli.{Printed, text, whole_value}
use mydis_old.Server.Hashes.{sort_strings}
use mydis_old.Errors.{Reply, reply, failed}
use mydis_old.Value.{Value, to_bytes, of_bytes}
use mydis_old.Auth.{Permission}
pub mod Laws

-- result[key], where a missing key has the empty Value
abbrev pub lookup_value : Bytes → List (Bytes × Value) → Value
lookup_value k [] = of_bytes []
lookup_value k ((j, v) ∷ m) = let rest = lookup_value k m in if beq j k then v else rest

-- `s, _ := val.String()`
abbrev pub shown : Reply Bytes → Bytes
shown (reply b) = b
shown (failed e) = []

-- len(perm.Key) is compared, and one more is kept.
abbrev pub max_perm_len : ℕ → List Permission → ℕ
max_perm_len n [] = n
max_perm_len n (p ∷ ps) = max_perm_len (if ltb n (length p.key) then suc (length p.key) else n) ps

-- perm.RangeEnd is the one byte 0.
abbrev pub has_zero_end : Bytes → Bool
has_zero_end (b ∷ []) = b == 0
has_zero_end _ = false

abbrev pub spaces : ℕ → Bytes
spaces zero = []
spaces (suc n) = 32 ∷ spaces n

abbrev pub starred_key : Permission → Bytes
starred_key p = if has_zero_end p.range_end then p.key ++ 42 ∷ [] else p.key

abbrev pub padded : ℕ → Bytes → Bytes
padded n key = if ltb (length key) n then key ++ spaces (n - length key) else key

-- pb.Permission_Type_name
abbrev pub permission_type_name : ℤ → Bytes
permission_type_name z =
    if eq_ℤ z (pos 0)
    then codes "READ"
    else if eq_ℤ z (pos 1)
    then codes "WRITE"
    else if eq_ℤ z (pos 2)
    then codes "READWRITE"
    else []

module _ {F : Type 0} where
  -- `if len(result) == 0 { fmt.Println("") }` before the lines of the result
  abbrev pub or_empty_line : List (List (Printed F)) → List (List (Printed F))
  or_empty_line [] = (text [] ∷ []) ∷ []
  or_empty_line (l ∷ ls) = l ∷ ls

  abbrev pub text_line : Bytes → List (Printed F)
  text_line b = text b ∷ []

  unfoldable pub display_list : List Bytes → List (List (Printed F))
  display_list xs = or_empty_line (map text_line xs)

  unfoldable pub display_val_list : List Value → List (List (Printed F))
  display_val_list vs = or_empty_line (map (λ v. text_line (shown (to_bytes v))) vs)

  abbrev pub map_line : List (Bytes × Value) → Bytes → List (Printed F)
  map_line m k = text (k ++ codes ":") ∷ whole_value (lookup_value k m) ∷ []

  unfoldable pub display_map : List (Bytes × Value) → List (List (Printed F))
  display_map m = or_empty_line (map (map_line m) (sort_strings (map (λ e. e.0) m)))

  abbrev pub perm_line : ℕ → Permission → List (Printed F)
  perm_line n p =
      text (padded n (starred_key p))
      ∷ text (codes ":")
      ∷ text (permission_type_name p.perm_type)
      ∷ []

  unfoldable pub display_perms : List Permission → List (List (Printed F))
  display_perms ps = or_empty_line (map (perm_line (max_perm_len 0 ps)) ps)
