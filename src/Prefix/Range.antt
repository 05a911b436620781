-- ===== src/Prefix/Range.antt =====
-- Theorems on getPrefix of mydis/util.go.
use mydis_old.Prelude.{
  ℕ, zero, suc, ◌+◌, ◌<◌, ◌≡◌, ◌≢◌, refl, ◌∙◌, ◌&&◌, Option, none, some, [], ◌∷◌, arith, Bytes,
  AreBytes, has_prefix, le_bytes, lt_bytes, ltb, if◌then◌else◌, length, get_or, set, take,
}
use mydis_old.Prefix.{zero_byte, prefix_loop, get_prefix, in_range}

-- The end of the interval, by recursion from the first byte: `none` where all bytes are 255.
upper_bound : Bytes → Option Bytes
upper_bound [] = none
upper_bound (b ∷ bs) = elim (upper_bound bs) [
  | none ↦ if ltb b 255 then some ((b + 1) ∷ []) else none
  | some e ↦ some (b ∷ e)
]

-- The loop of getPrefix with `none` where it runs out.
loop_end : ℕ → Bytes → Option Bytes
loop_end zero end = none
loop_end (suc i) end =
    if ltb (get_or end i 0) 255
    then some (take (suc i) (set end i (get_or end i 0 + 1)))
    else loop_end i end

abbrev end_or_zero : Option Bytes → Bytes
end_or_zero none = zero_byte
end_or_zero (some e) = e

prefix_loop-loop_end : (i : ℕ) (key : Bytes) → prefix_loop i key ≡ end_or_zero (loop_end i key)
unfolding prefix_loop loop_end
prefix_loop-loop_end zero key = refl
prefix_loop-loop_end (suc i) key = ground (arith, prefix_loop-loop_end i key)

-- One more byte in front: the loop ends within the rest, or looks at that byte.
abbrev bound_step : ℕ → Option Bytes → Option Bytes
bound_step b none = if ltb b 255 then some ((b + 1) ∷ []) else none
bound_step b (some e) = some (b ∷ e)

loop_end-cons : (i b : ℕ) (bs : Bytes) → loop_end (suc i) (b ∷ bs) ≡ bound_step b (loop_end i bs)
unfolding loop_end
loop_end-cons zero b bs = ground arith
loop_end-cons (suc i) b bs = ground (arith, loop_end-cons i b bs)

loop_end-upper_bound : (key : Bytes) → loop_end (length key) key ≡ upper_bound key
unfolding upper_bound
loop_end-upper_bound [] = unfold loop_end in refl
loop_end-upper_bound (b ∷ bs) =
    loop_end-cons (length bs) b bs ∙ rw (loop_end-upper_bound bs) (ground arith)

get_prefix-upper_bound : (key : Bytes) → get_prefix key ≡ end_or_zero (upper_bound key)
unfolding get_prefix
get_prefix-upper_bound key = prefix_loop-loop_end (length key) key ∙ rw (loop_end-upper_bound key)

-- What the bound says of a key `k`.
abbrev Below : Option Bytes → Bytes → Bytes → Type 0
Below none key k = le_bytes key k ≡ has_prefix k key
Below (some e) key k = (le_bytes key k && lt_bytes k e) ≡ has_prefix k key

Below-bound_step :
    (o : Option Bytes) (b c : ℕ) (bs cs : Bytes)
    → b < 256
    → c < 256
    → Below o bs cs
    → Below (bound_step b o) (b ∷ bs) (c ∷ cs)
unfolding le_bytes lt_bytes has_prefix
Below-bound_step none b c bs cs hb hc h = ground arith
Below-bound_step (some e) b c bs cs hb hc h = ground arith

Below-bound_step_nil : (o : Option Bytes) (b : ℕ) (bs : Bytes) → Below (bound_step b o) (b ∷ bs) []
unfolding le_bytes lt_bytes has_prefix
Below-bound_step_nil none b bs = ground arith
Below-bound_step_nil (some e) b bs = refl

upper_bound-cons : (b : ℕ) (bs : Bytes) → upper_bound (b ∷ bs) ≡ bound_step b (upper_bound bs)
unfolding upper_bound
upper_bound-cons b bs = ground arith

Below-upper_bound : (key k : Bytes) → AreBytes key → AreBytes k → Below (upper_bound key) key k
Below-upper_bound [] k hk hks = unfold upper_bound le_bytes has_prefix in refl
Below-upper_bound (b ∷ bs) [] hk hks = rw (upper_bound-cons b bs) (Below-bound_step_nil _ b bs)
Below-upper_bound (b ∷ bs) (c ∷ cs) hk hks =
    rw (upper_bound-cons b bs)
      (Below-bound_step _ b c bs cs hk.0 hks.0 (Below-upper_bound bs cs hk.1 hks.1))

-- The end is neither of the two that etcd reads in a way of its own.
abbrev IsProper : Option Bytes → Type 0
IsProper none = Unit
IsProper (some e) = (e ≢ []) × (e ≢ zero_byte)

bound_step-IsProper : (o : Option Bytes) (b : ℕ) → IsProper o → IsProper (bound_step b o)
bound_step-IsProper none b h = ground arith
bound_step-IsProper (some e) b h = ground arith

upper_bound-IsProper : (key : Bytes) → IsProper (upper_bound key)
upper_bound-IsProper [] = unfold upper_bound in tt
upper_bound-IsProper (b ∷ bs) =
    rw (upper_bound-cons b bs) (bound_step-IsProper _ b (upper_bound-IsProper bs))

in_range-end_or_zero :
    (o : Option Bytes) (key k : Bytes)
    → IsProper o
    → Below o key k
    → in_range key (end_or_zero o) k ≡ has_prefix k key
unfolding in_range
in_range-end_or_zero none key k p h = h
in_range-end_or_zero (some []) key k p h = absurd (p.0 refl)
in_range-end_or_zero (some (zero ∷ [])) key k p h = absurd (p.1 refl)
in_range-end_or_zero (some (zero ∷ x ∷ r)) key k p h = h
in_range-end_or_zero (some (suc n ∷ r)) key k p h = h

-- For a prefix and a key of bytes, the key lies in the interval from the prefix to what getPrefix
-- makes of it exactly when it begins with the prefix; this includes the empty prefix and prefixes
-- that end in 255.
pub in_range-get_prefix :
    (key k : Bytes) → AreBytes key → AreBytes k → in_range key (get_prefix key) k ≡ has_prefix k key
in_range-get_prefix key k hk hks = rw (get_prefix-upper_bound key) (
    in_range-end_or_zero (upper_bound key) key k (upper_bound-IsProper key)
      (Below-upper_bound key k hk hks))
