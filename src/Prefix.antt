-- ===== src/Prefix.antt =====
-- Key prefixes: `getPrefix` and `GetKeyPrefix` of mydis/util.go, and the interval of keys that a
-- range request names.
pub mod Range
pub mod Stars
use mydis_old.Prelude.{
  ℕ, zero, suc, ◌+◌, ◌-◌, Bool, false, ◌&&◌, [], ◌∷◌, Bytes, codes, beq, le_bytes, lt_bytes, ltb,
  if◌then◌else◌, length, get_or, set, take,
}

-- ZeroByte
abbrev pub zero_byte : Bytes
zero_byte = 0 ∷ []

-- The loop of getPrefix. The count is i + 1, where i is the index that the round looks at.
unfoldable pub prefix_loop : ℕ → Bytes → Bytes
prefix_loop zero end = zero_byte
prefix_loop (suc i) end =
    if ltb (get_or end i 0) 255
    then take (suc i) (set end i (get_or end i 0 + 1))
    else prefix_loop i end

unfoldable pub get_prefix : Bytes → Bytes
unfolding prefix_loop
get_prefix key = prefix_loop (length key) key

-- strings.HasSuffix(key, "*") and strings.TrimSuffix(key, "*"), by the last byte.
unfoldable pub ends_in_star : Bytes → Bool
ends_in_star [] = false
ends_in_star (b ∷ []) = beq (b ∷ []) (codes "*")
ends_in_star (b ∷ c ∷ bs) = ends_in_star (c ∷ bs)

unfoldable trim_star : Bytes → Bytes
unfolding ends_in_star
trim_star key = if ends_in_star key then take (length key - 1) key else key

unfoldable pub get_key_prefix : Bytes → Bytes × Bytes
unfolding get_prefix ends_in_star trim_star
get_key_prefix key =
    if ends_in_star key then (trim_star key, get_prefix (trim_star key)) else (key, zero_byte)

-- The keys that a request for `key` up to `range_end` names, as etcd documents it: one key where
-- the end is empty, all keys from `key` on where it is the zero byte, the half-open interval else.
unfoldable pub in_range : Bytes → Bytes → Bytes → Bool
in_range start [] k = beq start k
in_range start (zero ∷ []) k = le_bytes start k
in_range start end k = le_bytes start k && lt_bytes k end
