-- ===== src/Client/Metadata/Tokens.antt =====
-- Theorems on the token in the context, for Authenticate and LogOut of client/client.go.
use mydis_old.Server.Context.{first_wait, Context, get_max_wait, lookup_values}
use mydis_old.Client.Metadata.{entries_of, Entries, put_entry, delete_entry, keep_token, log_out}
use mydis_old.Prelude.{
  beq_refl, none, some, List, [], ◌∷◌, ◌≡◌, refl, Bytes, codes, beq, eq_of_beq, Bool-cases, inl,
  inr, arith, false, sym, ap, ◌∙◌, Option,
}

lookup_values-put_entry :
    (j k : Bytes) (v : List Bytes) (md : Entries)
    → beq k j ≡ false
    → lookup_values j (put_entry k v md) ≡ lookup_values j md
unfolding put_entry
lookup_values-put_entry j k v [] h = rw h refl
lookup_values-put_entry j k v ((i, x) ∷ md) h = elim (Bool-cases (beq i k)) [
  | inl e ↦ rw (eq_of_beq i k e, beq_refl k, h) refl
  | inr e ↦ rw (e, lookup_values-put_entry j k v md h) refl
]

lookup_values-delete_entry :
    (j k : Bytes) (md : Entries)
    → beq k j ≡ false
    → lookup_values j (delete_entry k md) ≡ lookup_values j md
unfolding delete_entry
lookup_values-delete_entry j k [] h = refl
lookup_values-delete_entry j k ((i, x) ∷ md) h = elim (Bool-cases (beq i k)) [
  | inl e ↦ rw (eq_of_beq i k e, beq_refl k, h) (lookup_values-delete_entry j k md h)
  | inr e ↦ rw (e, lookup_values-delete_entry j k md h) refl
]

token_is_no_wait : beq (codes "token") (codes "maxlockwait") ≡ false
unfolding beq
token_is_no_wait = refl

lookup_values-deleted : (k : Bytes) (md : Entries) → lookup_values k (delete_entry k md) ≡ none
unfolding delete_entry
lookup_values-deleted k [] = refl
lookup_values-deleted k ((i, x) ∷ md) = ground (arith, lookup_values-deleted k md)

-- A context with no metadata has the default wait, as one with no entry has.
get_max_wait-metadata :
    (m : Option Entries)
    → get_max_wait (record { metadata = m })
      ≡ first_wait (lookup_values (codes "maxlockwait") (entries_of (record { metadata = m })))
unfolding get_max_wait
get_max_wait-metadata none = refl
get_max_wait-metadata (some md) = refl

get_max_wait-entries :
    (md : Entries) (ctx : Context)
    → lookup_values (codes "maxlockwait") md ≡ lookup_values (codes "maxlockwait") (entries_of ctx)
    → get_max_wait (record { metadata = some md }) ≡ get_max_wait ctx
get_max_wait-entries md ctx e =
    get_max_wait-metadata (some md) ∙ ap first_wait e ∙ sym (get_max_wait-metadata ctx.metadata)

-- For any context, Authenticate and LogOut of the client leave the lock timeout that the server's
-- getMaxWait reads as it was, and LogOut leaves no token.
pub get_max_wait-keep_token :
    (token : Bytes) (ctx : Context)
    → (get_max_wait (keep_token token ctx) ≡ get_max_wait ctx)
      × (get_max_wait (log_out ctx) ≡ get_max_wait ctx)
      × (lookup_values (codes "token") (entries_of (log_out ctx)) ≡ none)
unfolding keep_token log_out
get_max_wait-keep_token token ctx = (
  get_max_wait-entries _ ctx
      (lookup_values-put_entry _ (codes "token") (token ∷ []) (entries_of ctx) token_is_no_wait),
  get_max_wait-entries _ ctx
      (lookup_values-delete_entry _ (codes "token") (entries_of ctx) token_is_no_wait),
  lookup_values-deleted (codes "token") (entries_of ctx),
)
