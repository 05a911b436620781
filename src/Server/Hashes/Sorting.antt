-- ===== src/Server/Hashes/Sorting.antt =====
-- Theorems on sort.Strings, in mydis/type_hash.go and cli/cli.go.
use mathlib.Core.List.{Permᴰ}
use mydis_old.Prelude.{◌≡◌, refl, ◌∙◌, true, false, List, [], ◌∷◌, Bytes, le_bytes, arith}
use mydis_old.Server.Hashes.{insert_sorted, sort_strings}

-- The order of byte strings is total, antisymmetric and transitive.
le_bytes_total : (a b : Bytes) → le_bytes a b ≡ false → le_bytes b a ≡ true
unfolding le_bytes
le_bytes_total [] b h = absurd (cc)
le_bytes_total (x ∷ a) [] h = refl
le_bytes_total (x ∷ a) (y ∷ b) h = ground (arith, le_bytes_total a b)

le_bytes_antisymm : (a b : Bytes) → le_bytes a b ≡ true → le_bytes b a ≡ true → a ≡ b
unfolding le_bytes
le_bytes_antisymm [] [] h k = refl
le_bytes_antisymm [] (y ∷ b) h k = absurd (cc)
le_bytes_antisymm (x ∷ a) [] h k = absurd (cc)
le_bytes_antisymm (x ∷ a) (y ∷ b) h k = ground (arith, le_bytes_antisymm a b)

le_bytes_trans : (a b c : Bytes) → le_bytes a b ≡ true → le_bytes b c ≡ true → le_bytes a c ≡ true
unfolding le_bytes
le_bytes_trans [] b c h k = refl
le_bytes_trans (x ∷ a) [] c h k = absurd (cc)
le_bytes_trans (x ∷ a) (y ∷ b) [] h k = absurd (cc)
le_bytes_trans (x ∷ a) (y ∷ b) (z ∷ c) h k = ground (arith, le_bytes_trans a b c)

insert_sorted_comm :
    (x y : Bytes) (zs : List Bytes)
    → insert_sorted x (insert_sorted y zs) ≡ insert_sorted y (insert_sorted x zs)
insert_sorted_comm x y [] = ground (arith, le_bytes_total x y, le_bytes_antisymm x y)
insert_sorted_comm x y (z ∷ zs) = ground (
  arith,
  le_bytes_total x y,
  le_bytes_antisymm x y,
  le_bytes_trans y x z,
  le_bytes_trans x y z,
  insert_sorted_comm x y zs,
)

-- The order of a list does not matter to its sorting.
pub sort_strings-perm : {xs ys : List Bytes} → Permᴰ xs ys → sort_strings xs ≡ sort_strings ys
sort_strings-perm Permᴰ.nil = refl
sort_strings-perm (Permᴰ.cons {l₁ = xs} {l₂ = ys} e p) = rw (e, sort_strings-perm p) refl
sort_strings-perm (Permᴰ.swap {a = a} {b = b} {l = l} e f) =
    rw (e, f) (insert_sorted_comm _ _ (sort_strings l))
sort_strings-perm (Permᴰ.trans p q) = sort_strings-perm p ∙ sort_strings-perm q
