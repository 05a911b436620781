-- ===== src/Server/Context.antt =====
-- getMaxWait of mydis/type_lock.go, with the part of strconv.ParseInt that it uses.
use mydis_old.Prelude.{
  ℕ, ◌+◌, ◌-◌, ◌*◌, Bool, ◌&&◌, Option, none, some, List, [], ◌∷◌, Bytes, codes, beq, ltb, leb,
  ◌==◌, if◌then◌else◌, ℤ, pos, negsuc, two63,
}

-- metadata.FromContext(ctx): `none` where the context has no metadata.
pub record Context : Type 0 where
  pub metadata : Option (List (Bytes × List Bytes))

-- md[key]
abbrev pub lookup_values : Bytes → List (Bytes × List Bytes) → Option (List Bytes)
lookup_values k [] = none
lookup_values k ((j, v) ∷ md) = if beq j k then some v else lookup_values k md

abbrev pub parse_digits : ℕ → Bytes → Option ℕ
parse_digits n [] = some n
parse_digits n (c ∷ cs) =
    let rest = parse_digits (10 * n + (c - b'0')) cs in
    if leb b'0' c && leb c b'9' then rest else none

-- The digits of a number; there is at least one.
abbrev pub parse_nat : Bytes → Option ℕ
parse_nat [] = none
parse_nat (c ∷ cs) = parse_digits 0 (c ∷ cs)

abbrev pub in_int64 : Bool → Option ℕ → Option ℤ
in_int64 negative none = none
in_int64 Bool.false (some n) = if ltb n two63 then some (pos n) else none
in_int64 Bool.true (some n) =
    if n == 0 then some (pos 0) else if leb n two63 then some (negsuc (n - 1)) else none

-- strconv.ParseInt(s, 10, 64), `none` for an error
unfoldable pub parse_int : Bytes → Option ℤ
parse_int [] = none
parse_int (c ∷ cs) =
    if c == b'-'
    then in_int64 Bool.true (parse_nat cs)
    else if c == b'+'
    then in_int64 Bool.false (parse_nat cs)
    else in_int64 Bool.false (parse_nat (c ∷ cs))

abbrev pub default_max_wait : ℤ
default_max_wait = pos 5

abbrev pub first_wait : Option (List Bytes) → ℤ
first_wait none = default_max_wait
first_wait (some []) = default_max_wait
first_wait (some (v ∷ vs)) = elim (parse_int v) [ none ↦ default_max_wait | some i ↦ i ]

unfoldable pub get_max_wait : Context → ℤ
get_max_wait ctx = elim ctx.metadata [
  | none ↦ default_max_wait
  | some md ↦ first_wait (lookup_values (codes "maxlockwait") md)
]

-- An incoming call with no metadata.
abbrev pub background : Context
background = record { metadata = none }
