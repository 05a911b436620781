-- ===== src/Server/Items/Laws.antt =====
-- Theorems on the slice operations of mydis/type_list.go and on enforceListLimit of mydis/util.go.
use mathlib.Core.List.{append-nil}
use mydis_old.Prelude.{
  take-length_append, ◌*ℤ◌, beq_iff, leb_ℤ, ◌+ℤ◌, ◌-64◌, ◌==◌, wrap64, ◌-ℤ◌, ltb, length-take, ℕ,
  zero, suc, ◌+◌, ◌-◌, ◌≤◌, ◌<◌, ◌≡◌, ◌≢◌, refl, ◌∙◌, ap, inl, inr, false, Option, none, some, [],
  ◌∷◌, ◌++◌, arith, Bytes, length, get_elem?, take, drop, ℤ, pos, negsuc, Bool-cases, leb,
  if◌then◌else◌, beq, eq_of_beq, length-append, length-drop, two63,
}
use mydis_old.Server.Items.{
  past_end, before_start, from_end, slice_from, Items, insert_item, delete_item, find_item,
  enforce_list_limit, copy_to, cut_last, limited, read_item, size,
}
use native.Mathlib.Nat.{zero-add}
use mydis_old.Prefix.{zero_byte}

drop-eq-nil : (xs : Items) (n : ℕ) → length xs ≤ n → drop n xs ≡ []
drop-eq-nil [] zero h = refl
drop-eq-nil [] (suc n) h = refl
drop-eq-nil (x ∷ xs) zero h = absurd (omega arith)
drop-eq-nil (x ∷ xs) (suc n) h = drop-eq-nil xs n (omega arith)

leb-suc : (a b : ℕ) → leb (suc a) (suc b) ≡ leb a b
leb-suc a b = ground arith

leb_of_ltb : (a b : ℕ) → leb (suc a) b ≡ ltb a b
leb_of_ltb a b = ground arith

sub_one : (a : ℕ) → suc a - 1 ≡ a
sub_one a = omega arith

sub-suc : (a b : ℕ) → suc a - suc b ≡ a - b
sub-suc a b = omega arith

suc-add_lem : (a b : ℕ) → suc a + b ≡ suc (a + b)
suc-add_lem a b = omega arith

-- copy over the rest of the list, by one place: what stands before stays.
copy_to-cons :
    (x : Bytes) (xs : Items) (i : ℕ) (src : Items)
    → copy_to (x ∷ xs) (suc i) src ≡ x ∷ copy_to xs i src
unfolding copy_to
copy_to-cons x xs i src = rw (sub-suc (length xs) i, suc-add_lem i (length src))

-- A copy of a list that is one item longer over the whole of a list.
copy_to-zero :
    (x : Bytes) (xs : Items) (z : Bytes) → copy_to (xs ++ z ∷ []) 0 (x ∷ (xs ++ z ∷ [])) ≡ x ∷ xs
unfolding copy_to
copy_to-zero x xs z =
    rw
      (
        take-length_append (x ∷ xs) (z ∷ []) (length (xs ++ z ∷ []) - 0)
            (omega (arith, length-append xs (z ∷ []))),
        drop-eq-nil (xs ++ z ∷ []) (0 + suc (length (xs ++ z ∷ []))) (omega arith),
      )
      (append-nil (x ∷ xs))

insert_item-cons :
    (x : Bytes) (xs : Items) (i : ℕ) (v : Bytes)
    → insert_item (x ∷ xs) (suc i) v ≡ x ∷ insert_item xs i v
unfolding insert_item
insert_item-cons x xs i v =
    rw
      (
        leb-suc (length xs) i,
        copy_to-cons x (xs ++ zero_byte ∷ []) (suc i) (drop i (xs ++ zero_byte ∷ [])),
      )
      (elim (Bool-cases (leb (length xs) i)) [ inl e ↦ rw e | inr e ↦ rw e ])

-- An insert in front.
insert_item-zero : (xs : Items) (v : Bytes) → insert_item xs 0 v ≡ v ∷ xs
unfolding insert_item
insert_item-zero [] v = refl
insert_item-zero (x ∷ xs) v =
    rw (copy_to-cons x (xs ++ zero_byte ∷ []) 0 (x ∷ (xs ++ zero_byte ∷ [])))
      (rw (copy_to-zero x xs zero_byte) (ground arith))

insert_item-nil : (i : ℕ) (v : Bytes) → insert_item [] i v ≡ v ∷ []
unfolding insert_item
insert_item-nil i v = ground arith

-- The slice operations of ListInsert (append, copy, assignment) put the item between the first i
-- items and the rest, or at the end where the index lies behind the list.
pub insert_item-append :
    (xs : Items) (i : ℕ) (v : Bytes) → insert_item xs i v ≡ take i xs ++ (v ∷ drop i xs)
insert_item-append xs zero v = insert_item-zero xs v
insert_item-append [] (suc i) v = insert_item-nil (suc i) v
insert_item-append (x ∷ xs) (suc i) v =
    insert_item-cons x xs i v ∙ ap (λ (t : Items). x ∷ t) (insert_item-append xs i v)

length-copy_to :
    (xs : Items) (i : ℕ) (src : Items) → i ≤ length xs → length xs ≤ length (copy_to xs i src)
unfolding copy_to
length-copy_to xs i src h = omega (
  arith,
  length-append (take i xs) (take (length xs - i) src ++ drop (i + length src) xs),
  length-append (take (length xs - i) src) (drop (i + length src) xs),
  length-take i xs,
  length-take (length xs - i) src,
  length-drop (i + length src) xs,
)

cut_last-cons : (x : Bytes) (ys : Items) → 0 < length ys → cut_last (x ∷ ys) ≡ x ∷ cut_last ys
unfolding cut_last
cut_last-cons x [] h = absurd (omega arith)
cut_last-cons x (y ∷ ys) h = rw (sub_one (suc (length ys)), sub_one (length ys)) refl

cut_last-append : (xs : Items) (l : Bytes) → cut_last (xs ++ l ∷ []) ≡ xs
cut_last-append [] l = unfold cut_last in refl
cut_last-append (x ∷ xs) l =
    cut_last-cons x (xs ++ l ∷ []) (omega (arith, length-append xs (l ∷ [])))
    ∙ ap (λ (t : Items). x ∷ t) (cut_last-append xs l)

-- The last item of a list.
drop_last : (x : Bytes) (xs : Items) → (l : Bytes) × (drop (length xs) (x ∷ xs) ≡ l ∷ [])
drop_last x [] = (x, refl)
drop_last x (y ∷ ys) = drop_last y ys

take-all : (xs : Items) (n : ℕ) → length xs ≤ n → take n xs ≡ xs
take-all [] zero h = refl
take-all [] (suc n) h = refl
take-all (x ∷ xs) zero h = absurd (omega arith)
take-all (x ∷ xs) (suc n) h = ap (λ (t : Items). x ∷ t) (take-all xs n (omega arith))

copy_to-front :
    (x : Bytes) (xs : Items) (l : Bytes)
    → drop (length xs) (x ∷ xs) ≡ l ∷ []
    → copy_to (x ∷ xs) 0 xs ≡ xs ++ l ∷ []
unfolding copy_to
copy_to-front x xs l e =
    rw (take-all xs (suc (length xs) - 0) (omega arith), zero-add (length xs), e) refl

-- The copy and the cut of ListDelete.
cut_last-copy_to :
    (xs : Items) (i : ℕ)
    → i < length xs
    → cut_last (copy_to xs i (drop (suc i) xs)) ≡ take i xs ++ drop (suc i) xs
cut_last-copy_to [] i h = absurd (omega arith)
cut_last-copy_to (x ∷ xs) zero h =
    let (l, e) = drop_last x xs in ap cut_last (copy_to-front x xs l e) ∙ cut_last-append xs l
cut_last-copy_to (x ∷ xs) (suc i) h =
    ap cut_last (copy_to-cons x xs i (drop (suc i) xs))
    ∙ cut_last-cons x (copy_to xs i (drop (suc i) xs))
        (omega (arith, length-copy_to xs i (drop (suc i) xs)))
    ∙ ap (λ (t : Items). x ∷ t) (cut_last-copy_to xs i (omega arith))

-- The slice operations of ListDelete and ListDeleteItem (copy, cut) remove exactly the item at an
-- index of the list; at any other index they panic.
pub delete_item-append :
    (xs : Items) (i : ℕ)
    → delete_item xs i ≡ (if ltb i (length xs) then some (take i xs ++ drop (suc i) xs) else none)
unfolding delete_item
delete_item-append xs i = elim (Bool-cases (ltb i (length xs))) [
  | inl e ↦ rw (e, leb_of_ltb i (length xs)) (rw e (rw (cut_last-copy_to xs i (ground arith))))
  | inr e ↦ rw (leb_of_ltb i (length xs), e) refl
]

-- The first index of a value in the list, counted from `i`.
abbrev pub FirstFrom : Items → Bytes → ℕ → ℤ → Type 0
FirstFrom xs v i (negsuc n) = (n ≡ 0) × ((j : ℕ) → get_elem? xs j ≢ some v)
FirstFrom xs v i (pos n) =
    (j : ℕ) × (n ≡ i + j) × (get_elem? xs j ≡ some v) × ((k : ℕ) → get_elem? (take j xs) k ≢ some v)

some-ne : (x v : Bytes) → beq x v ≡ false → ◌≢◌ {A = Option Bytes} (some x) (some v)
some-ne x v h e = ground (arith, beq_iff x v)

absent-cons :
    (x : Bytes) (xs : Items) (v : Bytes)
    → beq x v ≡ false
    → ((j : ℕ) → get_elem? xs j ≢ some v)
    → (j : ℕ) → get_elem? (x ∷ xs) j ≢ some v
absent-cons x xs v h a zero = some-ne x v h
absent-cons x xs v h a (suc j) = a j

FirstFrom-cons :
    (x : Bytes) (xs : Items) (v : Bytes) (i : ℕ) (z : ℤ)
    → beq x v ≡ false
    → FirstFrom xs v (i + 1) z
    → FirstFrom (x ∷ xs) v i z
FirstFrom-cons x xs v i (negsuc n) h (e, a) = (e, absent-cons x xs v h a)
FirstFrom-cons x xs v i (pos n) h (j, e, at, before) =
    (suc j, omega arith, at, absent-cons x (take j xs) v h before)

-- The search of ListHas and ListDeleteItem returns the first index of the value, or -1 where the
-- value is not in the list.
pub find_item-FirstFrom : (xs : Items) (v : Bytes) (i : ℕ) → FirstFrom xs v i (find_item xs v i)
unfolding find_item
find_item-FirstFrom [] v i = (refl, λ j e. cc)
find_item-FirstFrom (x ∷ xs) v i = elim (Bool-cases (beq x v)) [
  | inl e ↦ rw e (0, omega arith, ap some (eq_of_beq x v e), λ k q. cc)
  | inr e ↦
      rw e (FirstFrom-cons x xs v i (find_item xs v (i + 1)) e (find_item-FirstFrom xs v (i + 1)))
]

sub64_pos : (n m : ℕ) → m ≤ n → n < two63 → (pos n -64 pos m) ≡ pos (n - m)
unfolding wrap64 ◌-ℤ◌
sub64_pos n m h l = ground arith

drop_none : (xs : Items) (n : ℕ) → n ≡ 0 → drop n xs ≡ xs
drop_none xs n h = rw h

slice_from_lem : (xs : Items) (n : ℕ) → n ≤ length xs → slice_from xs (pos n) ≡ some (drop n xs)
slice_from_lem xs n h = ground arith

limited_lem :
    (xs : Items) (limit : ℕ)
    → length xs < two63
    → limited xs (pos limit) ≡ some (if limit == 0 then xs else drop (length xs - limit) xs)
limited_lem xs zero small = refl
limited_lem xs (suc l) small = elim (Bool-cases (leb_ℤ (size xs) (pos (suc l)))) [
  | inl e ↦ rw (e, drop_none xs (length xs - suc l) (ground arith)) (ground arith)
  | inr e ↦
      rw (e, sub64_pos (length xs) (suc l) (ground arith) small)
        (slice_from_lem xs (length xs - suc l) (omega arith) ∙ ground arith)
]

-- The last items, as many as the limit; all where it is 0.
abbrev pub kept : Items → ℕ → Items
kept xs limit = if limit == 0 then xs else drop (length xs - limit) xs

-- For a list shorter than 2^63 and a limit that is not negative, enforceListLimit never panics; it
-- leaves all items where the limit is 0 and else the last items, at most as many as the limit, and
-- changes nothing else.
pub enforce_list_limit_lem :
    (key : Bytes) (xs : Items) (limit : ℕ)
    → length xs < two63
    → enforce_list_limit (record { key = key; value = xs; limit = pos limit })
      ≡ some (record { key = key; value = kept xs limit; limit = pos limit })
unfolding enforce_list_limit
enforce_list_limit_lem key xs limit small = rw (limited_lem xs limit small)

get_elem?-none : (xs : Items) (i : ℕ) → length xs ≤ i → get_elem? xs i ≡ none
get_elem?-none [] i h = refl
get_elem?-none (x ∷ xs) zero h = absurd (omega arith)
get_elem?-none (x ∷ xs) (suc i) h = get_elem?-none xs i (omega arith)

pub past_end_pos : (xs : Items) (i : ℕ) → i < two63 → past_end (pos i) xs ≡ ltb (length xs + 1) i
unfolding wrap64 ◌-ℤ◌
past_end_pos xs i h = ground arith

pub past_end_negsuc : (xs : Items) (i : ℕ) → suc i < two63 → past_end (negsuc i) xs ≡ false
unfolding wrap64 ◌-ℤ◌
past_end_negsuc xs i h = ground arith

pub before_start_negsuc :
    (xs : Items) (i : ℕ) → suc i < two63 → before_start (negsuc i) xs ≡ ltb (length xs) i
unfolding wrap64 ◌-ℤ◌ ◌*ℤ◌
before_start_negsuc xs i h = ground arith

pub from_end_negsuc :
    (xs : Items) (i : ℕ)
    → suc i < two63
    → length xs < two63
    → from_end (negsuc i) xs
      ≡ (if ltb i (length xs) then pos (length xs - 1 - i) else negsuc (i - length xs))
unfolding wrap64 ◌+ℤ◌
from_end_negsuc xs i h small = ground arith

-- The item that GetListItem picks at an index that is not negative, from a list that is not empty
-- (length and index below 2^63): the item at the index; a panic at the length and at the length
-- plus one; the last item from there on.
pub read_item_pos :
    (xs : Items) (i : ℕ)
    → 0 < length xs
    → length xs < two63
    → i < two63
    → read_item xs (pos i)
      ≡ (if ltb (length xs + 1) i then get_elem? xs (length xs - 1) else get_elem? xs i)
unfolding read_item
read_item_pos xs i p small h = elim (Bool-cases (ltb (length xs + 1) i)) [
  | inl e ↦ rw (past_end_pos xs i h, e, sub64_pos (length xs) 1 p small) refl
  | inr e ↦ rw (past_end_pos xs i h, e) refl
]

-- The item that GetListItem picks at the index -(i + 1), from a list that is not empty (length and
-- i + 1 below 2^63): the item at that distance from the end; a panic where i is the length; the
-- first item from there on.
pub read_item_negsuc :
    (xs : Items) (i : ℕ)
    → 0 < length xs
    → length xs < two63
    → suc i < two63
    → read_item xs (negsuc i) ≡ (
        if ltb i (length xs)
        then get_elem? xs (length xs - 1 - i)
        else if i == length xs
        then none
        else get_elem? xs 0)
unfolding read_item
read_item_negsuc xs i p small h = elim (Bool-cases (ltb (length xs) i)) [
  | inl e ↦ rw (past_end_negsuc xs i h, before_start_negsuc xs i h, e) (ground arith)
  | inr e ↦
      rw (past_end_negsuc xs i h, before_start_negsuc xs i h, e, from_end_negsuc xs i h small)
        (ground arith)
]
