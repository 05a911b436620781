-- ===== src/Tests/Values.antt =====
-- Set, Get, SetNX, Delete and SetExpire.

use mydis_old.Prefix.Stars.{in_range-get_key_prefix}
use mydis_old.Prelude.{
  le_bytes, ◌≡◌, refl, true, false, [], ◌∷◌, arith, pos, Bytes, beq, has_prefix,
}
use mydis_old.Prefix.{get_key_prefix, get_prefix, in_range}
use mydis_old.Prefix.Range.{in_range-get_prefix}
use mydis_old.Etcd.Memory.{memory, memory-IsEtcd}
use mydis_old.Runtime.Laws.{Gives}
use mydis_old.Pb.{Key, ByteValue}
use mydis_old.Server.Context.{background}
use mydis_old.Server.Waiting.{get_lock_name}
use mydis_old.Server.Locks.Laws.{with_lock}
use mydis_old.Server.Keys.{set_expire}
use mydis_old.Server.Keys.Laws.{set_expire_empties}
use mydis_old.Server.Values.{set_nx}
use mydis_old.Server.Values.Laws.{set_nx_leaks}
use mydis_old.Tests.{key_a, store_with, within, a, holding}

abbrev five : Bytes
five = 5 ∷ []

abbrev a_is_five : ByteValue
a_is_five = record { key = key_a; value = five }

-- "a\255" ends at "b".
in_range-get_prefix_example :
    in_range (97 ∷ 255 ∷ []) (get_prefix (97 ∷ 255 ∷ [])) (97 ∷ 255 ∷ 3 ∷ [])
    ≡ has_prefix (97 ∷ 255 ∷ 3 ∷ []) (97 ∷ 255 ∷ [])
in_range-get_prefix_example =
    in_range-get_prefix (97 ∷ 255 ∷ []) (97 ∷ 255 ∷ 3 ∷ []) (omega arith, (omega arith, tt))
      (omega arith, (omega arith, (omega arith, tt)))

-- Get with Block and a timeout of two seconds.
abbrev blocking : Key
blocking = record a { block = true; block_timeout = pos 2 }

set_nx_leaks_example :
    Gives memory-IsEtcd
      (set_nx memory 1 background a_is_five)
      (store_with (6 ∷ []))
      7
      false
      (with_lock memory-IsEtcd (store_with (6 ∷ [])) key_a)
unfolding beq get_lock_name
set_nx_leaks_example =
    set_nx_leaks memory-IsEtcd 0 background key_a five (6 ∷ []) (store_with (6 ∷ [])) 7 refl refl
      refl refl

set_expire_empties_example :
    Gives memory-IsEtcd
      (set_expire memory (within (pos 60)))
      (store_with five)
      7
      tt
      (holding key_a [] (store_with five))
set_expire_empties_example =
    set_expire_empties memory-IsEtcd (within (pos 60)) (store_with five) 7 refl (λ e. cc)

-- A key with no star: the interval has every key from it on.
in_range-get_key_prefix_example :
    in_range (get_key_prefix (97 ∷ 98 ∷ [])).0 (get_key_prefix (97 ∷ 98 ∷ [])).1 (99 ∷ [])
    ≡ le_bytes (97 ∷ 98 ∷ []) (99 ∷ [])
in_range-get_key_prefix_example =
    in_range-get_key_prefix (97 ∷ []) 98 (99 ∷ []) (omega arith, tt) (omega arith, tt)
