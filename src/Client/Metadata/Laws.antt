-- ===== src/Client/Metadata/Laws.antt =====
-- Theorems on SetLockTimeout and LogOut of client/client.go, and on getMaxWait of mydis/type_lock.go.
use mydis_old.Prelude.{
  beq_refl, ℕ, zero, suc, ◌+◌, ◌<◌, ◌≤◌, ◌≡◌, refl, ◌∙◌, inl, inr, true, false, some, [], ◌∷◌,
  arith, Bytes, codes, if◌then◌else◌, ℤ, pos, negsuc, ltb, ltb_ℤ, Bool-cases, two63,
}
use Prim.Native.Nat.{◌/◌, ◌%◌}
use mydis_old.Server.Context.{Context, get_max_wait, parse_int, parse_digits, in_int64}
use mydis_old.Client.Metadata.{format_digits, format_int, set_lock_timeout}

-- Reading the digits of a number in front of others.
parse_digits-format_digits :
    (fuel n : ℕ) (ds : Bytes)
    → n < fuel
    → parse_digits 0 (format_digits fuel n ds) ≡ parse_digits n ds
unfolding format_digits
parse_digits-format_digits zero n ds h = absurd (omega arith)
parse_digits-format_digits (suc fuel) n ds h = elim (Bool-cases (ltb n 10)) [
  | inl small ↦ rw small (ground arith)
  | inr big ↦
      rw big (
        parse_digits-format_digits fuel (n / 10) ((48 + n % 10) ∷ ds) (ground arith) ∙ ground arith)
]

-- The first digit.
format_digits-cons :
    (fuel n : ℕ) (ds : Bytes)
    → n < fuel
    → (c : ℕ) × (cs : Bytes) × (format_digits fuel n ds ≡ c ∷ cs) × (48 ≤ c)
unfolding format_digits
format_digits-cons zero n ds h = absurd (omega arith)
format_digits-cons (suc fuel) n ds h = elim (Bool-cases (ltb n 10)) [
  | inl small ↦ rw small (48 + n, ds, refl, omega arith)
  | inr big ↦ rw big (format_digits-cons fuel (n / 10) ((48 + n % 10) ∷ ds) (ground arith))
]

parse_int-cons :
    (c : ℕ) (cs : Bytes) → 48 ≤ c → parse_int (c ∷ cs) ≡ in_int64 false (parse_digits 0 (c ∷ cs))
unfolding parse_int
parse_int-cons c cs h = ground arith

parse_int-digits :
    (b : Bytes) (c : ℕ) (cs : Bytes)
    → b ≡ c ∷ cs
    → 48 ≤ c
    → parse_int b ≡ in_int64 false (parse_digits 0 b)
parse_int-digits b c cs e h = rw e (parse_int-cons c cs h)

-- A number that is not negative is read back from its digits.
parse_int-format_int : (n : ℕ) → n < two63 → parse_int (format_int (pos n)) ≡ some (pos n)
unfolding format_int
parse_int-format_int n h =
    let (c, cs, e, d) = format_digits-cons (suc n) n [] (omega arith) in
    parse_int-digits (format_digits (suc n) n []) c cs e d
    ∙ rw (parse_digits-format_digits (suc n) n [] (omega arith)) (ground arith)

-- The seconds that SetLockTimeout asks for.
abbrev pub at_least_one : ℤ → ℤ
at_least_one seconds = if ltb_ℤ seconds (pos 1) then pos 1 else seconds

get_max_wait_entry :
    (b : Bytes) (z : ℤ)
    → parse_int b ≡ some z
    → get_max_wait (record { metadata = some ((codes "maxlockwait", b ∷ []) ∷ []) }) ≡ z
unfolding get_max_wait
get_max_wait_entry b z e = ground (arith, beq_refl (codes "maxlockwait"))

-- For any context and any seconds below 2^63, the server's getMaxWait reads from the context that
-- the client's SetLockTimeout makes the seconds that were set, or 1 where they are fewer.
pub get_max_wait-set_lock_timeout :
    (seconds : ℤ) (ctx : Context)
    → ltb_ℤ seconds (pos two63) ≡ true
    → get_max_wait (set_lock_timeout seconds ctx) ≡ at_least_one seconds
unfolding set_lock_timeout
get_max_wait-set_lock_timeout (pos zero) ctx h =
    get_max_wait_entry (format_int (pos 1)) (pos 1) (parse_int-format_int 1 (omega arith))
get_max_wait-set_lock_timeout (pos (suc n)) ctx h =
    get_max_wait_entry (format_int (at_least_one (pos (suc n)))) (at_least_one (pos (suc n)))
      (rw (the_number n) (parse_int-format_int (suc n) (ground arith)))
  where
    the_number : (n : ℕ) → at_least_one (pos (suc n)) ≡ pos (suc n)
    the_number n = ground arith
get_max_wait-set_lock_timeout (negsuc n) ctx h =
    get_max_wait_entry (format_int (at_least_one (negsuc n))) (at_least_one (negsuc n))
      (rw (one n) (parse_int-format_int 1 (omega arith)))
  where
    one : (n : ℕ) → at_least_one (negsuc n) ≡ pos 1
    one n = ground arith
