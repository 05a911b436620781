-- ===== src/Server/Ends/Reads.antt =====
-- Handlers that take no lock, of mydis/type_keys.go, type_bytes.go, type_list.go and type_hash.go: they end.
use mydis_old.Server.Ends.{
  Ends-fail, Ends-crash, Ends-pure, Ends-bind, Ends-handle, Ends, ends_rules,
}
use mydis_old.Etcd.{range_response, ResponseOp, Etcd, put_response, delete_response}
use mydis_old.Server.Values.{gather, get_field, get_many}
use mydis_old.Pb.{Fields, Hash, Key, Proto, ListItem, HashField, Expiration, plain_key}
use mydis_old.Server.Hashes.{fields, get_hash, get_hash_field, hash_fields, hash_has, hash_values}
use mydis_old.Runtime.{fail, ◌>>=◌, pure, Prog}
use mydis_old.Server.Ends.Handlers.{Ends-get_hash, Ends-or_crash, Ends-get_list}
use mydis_old.Server.Keys.{clear, keys, keys_with_prefix, set_expire}
use mydis_old.Server.Lists.{get_list_item, list_has, list_length}
use mydis_old.Prelude.{Option, none, some, ℕ, refl, List, [], ◌∷◌, Bytes}
use mydis_old.Errors.{hash_field_not_found}

module _ (E : Etcd) where
  pub Ends-keys : Ends (keys E)
  unfolding keys
  Ends-keys = search ends_rules

  pub Ends-keys_with_prefix : (key : Key) → Ends (keys_with_prefix E key)
  unfolding keys_with_prefix
  Ends-keys_with_prefix key = search ends_rules

  pub Ends-set_expire : (ex : Expiration) → Ends (set_expire E ex)
  unfolding set_expire
  Ends-set_expire ex = search ends_rules

  pub Ends-clear : Ends (clear E)
  unfolding clear
  Ends-clear = search ends_rules

  Ends-gather : (ks : List Bytes) (rs : List ResponseOp) (h : Fields) → Ends (gather E ks rs h)
  Ends-gather ks [] h = Ends-pure h
  Ends-gather [] (r ∷ rs) h = Ends-crash
  Ends-gather (k ∷ ks) (range_response res ∷ rs) h = Ends-gather ks rs _
  Ends-gather (k ∷ ks) (put_response ∷ rs) h = Ends-crash
  Ends-gather (k ∷ ks) (delete_response ∷ rs) h = Ends-crash

  pub Ends-get_many : (keys : List Bytes) → Ends (get_many E keys)
  unfolding get_many
  Ends-get_many [] = Ends-pure []
  Ends-get_many (k ∷ ks) = search (ends_rules, Ends-gather)

  module _ (P : Proto) (fuel : ℕ) where
    pub Ends-list_length : (k : Bytes) → Ends (list_length E P fuel (plain_key k))
    unfolding list_length
    Ends-list_length k =
        Ends-bind _ _ (Ends-get_list E fuel P (plain_key k) refl) (λ l. search ends_rules)

    pub Ends-list_has : (li : ListItem) → Ends (list_has E P fuel li)
    unfolding list_has
    Ends-list_has li =
        Ends-handle _ _ _ (Ends-get_list E fuel P (plain_key li.key) refl) (λ l. search ends_rules)
          (λ e. search ends_rules)

    pub Ends-get_list_item : (li : ListItem) → Ends (get_list_item E P fuel li)
    unfolding get_list_item
    Ends-get_list_item li =
        Ends-bind _ _ (Ends-get_list E fuel P (plain_key li.key) refl)
          (λ l. search (ends_rules, Ends-or_crash))

    Ends-field :
        (o : Option Bytes)
        → Ends {E = E} {A = Bytes} (elim o [ none ↦ fail hash_field_not_found | some b ↦ pure b ])
    Ends-field none = Ends-fail hash_field_not_found
    Ends-field (some b) = Ends-pure b

    hash_read :
        {A : Type 0} (k : Bytes) (f : Hash → Prog E A)
        → ((h : Hash) → Ends (f h))
        → Ends (get_hash E P fuel (plain_key k) >>= f)
    hash_read k f h = Ends-bind _ _ (Ends-get_hash E fuel P (plain_key k) refl) h

    pub Ends-get_hash_field : (hf : HashField) → Ends (get_hash_field E P fuel hf)
    unfolding get_hash_field
    Ends-get_hash_field hf =
        hash_read hf.key _ (λ h. Ends-field (get_field hf.field (fields h.value)))

    pub Ends-hash_has : (hf : HashField) → Ends (hash_has E P fuel hf)
    unfolding hash_has
    Ends-hash_has hf = hash_read hf.key _ (λ h. search ends_rules)

    pub Ends-hash_fields : (k : Bytes) → Ends (hash_fields E P fuel (plain_key k))
    unfolding hash_fields
    Ends-hash_fields k = hash_read k _ (λ h. search ends_rules)

    pub Ends-hash_values : (k : Bytes) → Ends (hash_values E P fuel (plain_key k))
    unfolding hash_values
    Ends-hash_values k = hash_read k _ (λ h. search ends_rules)
