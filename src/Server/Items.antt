-- ===== src/Server/Items.antt =====
-- The slices of mydis/type_list.go: what its handlers do with the items of a list. `none` is the
-- panic of an index or of a slice that is out of range.
pub mod Laws
use mydis_old.Prelude.{
  ℕ, suc, ◌+◌, ◌-◌, ◌≤◌, Bool, true, false, Option, none, some, List, [], ◌∷◌, ◌++◌, Bytes, beq,
  ltb, leb, ◌==◌, if◌then◌else◌, length, get_elem?, set, take, drop, ℤ, pos, negsuc, ltb_ℤ, leb_ℤ,
  ◌-64◌, ◌+64◌, ◌*64◌, is_negative,
}
use mydis_old.Prefix.{zero_byte}
use mydis_old.Pb.{PbList}

abbrev pub Items : Type 0
Items = List Bytes

-- int64(len(lst.Value))
abbrev pub size : Items → ℤ
size xs = pos (length xs)

-- xs[i], xs[i] = v, xs[i:]
abbrev pub item_at : Items → ℤ → Option Bytes
item_at xs (pos i) = get_elem? xs i
item_at xs (negsuc i) = none

abbrev pub write_item : Items → ℤ → Bytes → Option Items
write_item xs (pos i) v = if ltb i (length xs) then some (set xs i v) else none
write_item xs (negsuc i) v = none

abbrev pub slice_from : Items → ℤ → Option Items
slice_from xs (pos i) = if leb i (length xs) then some (drop i xs) else none
slice_from xs (negsuc i) = none

-- copy(dst[at:], src): as many items as fit are written over those from `at` on.
unfoldable pub copy_to : Items → ℕ → Items → Items
copy_to dst at src = take at dst ++ (take (length dst - at) src ++ drop (at + length src) dst)

-- li.Index-1 > length, and li.Index < 0 && li.Index*-1-1 > length
abbrev pub past_end : ℤ → Items → Bool
past_end i xs = ltb_ℤ (size xs) (i -64 pos 1)

abbrev pub before_start : ℤ → Items → Bool
before_start i xs = if is_negative i then ltb_ℤ (size xs) (i *64 negsuc 0 -64 pos 1) else false

-- lst.Value[li.Index], or lst.Value[length+li.Index] for an index below 0
abbrev pub from_end : ℤ → Items → ℤ
from_end i xs = if is_negative i then size xs +64 i else i

-- The index that GetListItem reads, after its two corrections.
abbrev pub clamp_high : ℤ → Items → ℤ
clamp_high i xs = if past_end i xs then size xs -64 pos 1 else i

abbrev pub clamp_low : ℤ → Items → ℤ
clamp_low i xs = if before_start i xs then pos 0 else i

unfoldable pub read_item : Items → ℤ → Option Bytes
read_item xs i = let j = clamp_low (clamp_high i xs) xs in item_at xs (from_end j xs)

-- `if li.Index < 0 { li.Index = 0 }`
abbrev pub non_negative : ℤ → ℕ
non_negative (pos n) = n
non_negative (negsuc n) = 0

-- The two branches of ListInsert.
unfoldable pub insert_item : Items → ℕ → Bytes → Items
insert_item xs i v =
    if leb (length xs) i
    then xs ++ v ∷ []
    else let longer = xs ++ zero_byte ∷ [] in set (copy_to longer (suc i) (drop i longer)) i v

-- The last item becomes ZeroByte and is cut off.
unfoldable pub cut_last : Items → Items
cut_last xs = take (length xs - 1) (set xs (length xs - 1) zero_byte)

-- copy(lst.Value[i:], lst.Value[i+1:]) and the cut of ListDelete; the first slice is taken first.
unfoldable pub delete_item : Items → ℕ → Option Items
delete_item xs i =
    if leb (suc i) (length xs) then some (cut_last (copy_to xs i (drop (suc i) xs))) else none

-- The index of the first item that equals `v`, or -1: the loops of ListHas and ListDeleteItem.
unfoldable pub find_item : Items → Bytes → ℕ → ℤ
find_item [] v i = negsuc 0
find_item (x ∷ xs) v i = let rest = find_item xs v (i + 1) in if beq x v then pos i else rest

-- enforceListLimit
abbrev pub limited : Items → ℤ → Option Items
limited xs (pos ℕ.zero) = some xs
limited xs limit = if leb_ℤ (size xs) limit then some xs else slice_from xs (size xs -64 limit)

abbrev pub with_items : PbList → Option Items → Option PbList
with_items lst none = none
with_items lst (some xs) = some (record lst { value = xs })

unfoldable pub enforce_list_limit : PbList → Option PbList
enforce_list_limit lst = with_items lst (limited lst.value lst.limit)
