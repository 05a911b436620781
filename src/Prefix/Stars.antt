-- ===== src/Prefix/Stars.antt =====
-- Theorems on GetKeyPrefix in mydis/util.go.
use mydis_old.Prefix.{get_prefix, trim_star, in_range, zero_byte, ends_in_star, get_key_prefix}
use mydis_old.Prelude.{
  inr, inl, Bool-cases, le_bytes, has_prefix, length_last, take-length_append, ◌==◌, if◌then◌else◌,
  beq, AreBytes, ◌-◌, [], ◌∷◌, ◌++◌, length, take, ℕ, ◌≡◌, refl, Bytes,
}
use mydis_old.Prefix.Range.{in_range-get_prefix}

ends_in_star-one : (b : ℕ) → ends_in_star (b ∷ []) ≡ (b == 42)
unfolding ends_in_star beq
ends_in_star-one b = elim (Bool-cases (b == 42)) [ inl e ↦ rw e refl | inr e ↦ rw e refl ]

ends_in_star-append : (p : Bytes) (b : ℕ) → ends_in_star (p ++ b ∷ []) ≡ (b == 42)
unfolding ends_in_star
ends_in_star-append [] b = ends_in_star-one b
ends_in_star-append (a ∷ []) b = ends_in_star-one b
ends_in_star-append (a ∷ c ∷ p) b = ends_in_star-append (c ∷ p) b

take-append_one : (p : Bytes) (b : ℕ) → take (length (p ++ b ∷ []) - 1) (p ++ b ∷ []) ≡ p
take-append_one p b = take-length_append p (b ∷ []) _ (length_last p b)

-- The bounds for a key by its last byte.
pub get_key_prefix-append :
    (p : Bytes) (b : ℕ)
    → get_key_prefix (p ++ b ∷ [])
      ≡ (if b == 42 then (p, get_prefix p) else (p ++ b ∷ [], zero_byte))
unfolding get_key_prefix get_prefix trim_star
get_key_prefix-append p b = elim (Bool-cases (b == 42)) [
  | inl star ↦ rw (ends_in_star-append p b, star, take-append_one p b) refl
  | inr plain ↦ rw (ends_in_star-append p b, plain) refl
]

in_range-zero_byte : (start k : Bytes) → in_range start zero_byte k ≡ le_bytes start k
unfolding in_range
in_range-zero_byte start k = refl

-- For a key of bytes that is not empty (its last byte is split off), the interval that GetKeyPrefix
-- makes of it has, of the keys of bytes, those that begin with what stands before the star, where
-- the last byte is a star, and else every one that is not less than the key.
pub in_range-get_key_prefix :
    (p : Bytes) (b : ℕ) (k : Bytes)
    → AreBytes p
    → AreBytes k
    → in_range (get_key_prefix (p ++ b ∷ [])).0 (get_key_prefix (p ++ b ∷ [])).1 k
      ≡ (if b == 42 then has_prefix k p else le_bytes (p ++ b ∷ []) k)
in_range-get_key_prefix p b k hp hk = rw (get_key_prefix-append p b) (elim (Bool-cases (b == 42)) [
  | inl star ↦ rw star (in_range-get_prefix p k hp hk)
  | inr plain ↦ rw plain (in_range-zero_byte (p ++ b ∷ []) k)
])
