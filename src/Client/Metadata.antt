-- ===== src/Client/Metadata.antt =====
-- The context of a client: SetLockTimeout, LogOut, and what Authenticate does with its token.
pub mod Laws
pub mod Tokens
use mydis_old.Prelude.{
  ◌%◌, ◌/◌, ℕ, zero, suc, ◌+◌, Option, none, some, List, [], ◌∷◌, Bytes, codes, beq, if◌then◌else◌,
  ℤ, pos, negsuc, ltb, ltb_ℤ,
}
use mydis_old.Server.Context.{Context}

abbrev pub Entries : Type 0
Entries = List (Bytes × List Bytes)

-- `md[key] = values` and `delete(md, key)`
unfoldable pub put_entry : Bytes → List Bytes → Entries → Entries
put_entry k v [] = (k, v) ∷ []
put_entry k v ((j, x) ∷ md) =
    let rest = put_entry k v md in if beq j k then (j, v) ∷ md else (j, x) ∷ rest

unfoldable pub delete_entry : Bytes → Entries → Entries
delete_entry k [] = []
delete_entry k ((j, x) ∷ md) =
    let rest = delete_entry k md in if beq j k then rest else (j, x) ∷ rest

-- The digits of a number in front of others; the first argument bounds their number.
unfoldable pub format_digits : ℕ → ℕ → Bytes → Bytes
format_digits zero n ds = ds
format_digits (suc fuel) n ds =
    let rest = format_digits fuel (n / 10) ((48 + n % 10) ∷ ds) in
    if ltb n 10 then (48 + n) ∷ ds else rest

-- strconv.FormatInt(z, 10)
unfoldable pub format_int : ℤ → Bytes
unfolding format_digits
format_int (pos n) = format_digits (suc n) n []
format_int (negsuc n) = b'-' ∷ format_digits (suc (suc n)) (suc n) []

-- metadata.FromContext, with an empty map where the context has none
abbrev pub entries_of : Context → Entries
entries_of ctx = elim ctx.metadata [ none ↦ [] | some md ↦ md ]

-- SetLockTimeout: the context's metadata becomes a map with this one entry.
unfoldable pub set_lock_timeout : ℤ → Context → Context
unfolding format_int
set_lock_timeout seconds ctx =
    let wait : ℤ = if ltb_ℤ seconds (pos 1) then pos 1 else seconds in
    record { metadata = some ((codes "maxlockwait", format_int wait ∷ []) ∷ []) }

-- The context after Authenticate has got a token.
unfoldable pub keep_token : Bytes → Context → Context
unfolding put_entry
keep_token token ctx = record {
  metadata = some (put_entry (codes "token") (token ∷ []) (entries_of ctx));
}

unfoldable pub log_out : Context → Context
unfolding delete_entry
log_out ctx = record { metadata = some (delete_entry (codes "token") (entries_of ctx)) }
