-- ===== src/Client/Values/Laws.antt =====
-- Theorems on the client's Get and Set, through the server to etcd.
use mydis_old.Prelude.{
  [], ℕ, suc, ◌≡◌, ◌≢◌, refl, ◌∙◌, inl, inr, true, false, Option, none, some, Bytes, beq, beq_refl,
  if◌then◌else◌, Option-cases,
}
use mydis_old.Client.Values.{get, set}
use mydis_old.Errors.{Error, reply, key_not_found, key_locked}
use mydis_old.Etcd.{Etcd}
use mydis_old.Etcd.Laws.{IsEtcd}
use mydis_old.Runtime.{Prog, World, ok, arrive, ◌>>◌}
use mydis_old.Runtime.Laws.{Gives, Fails, quiet}
use mydis_old.Pb.{Proto}
use mydis_old.Value.{Value, Input, of_bytes, of_error, new_value, to_bytes}
use mydis_old.Server.Context.{Context, get_max_wait}
use mydis_old.Server.Waiting.Laws.{locked}
use mydis_old.Server.Locks.{is_invalid}
use mydis_old.Server.Locks.Laws.{Suffices, ne_nil_of_valid}
use mydis_old.Server.Values.{set as set_handler}
use mydis_old.Server.Values.Laws.{get_lem, set-Gives, set-Fails}
use mydis_old.Client.Remote.{Grpc, called}
use mydis_old.Client.Remote.Laws.{IsGrpc, IsPackageError, normalize_error-relay}

-- The Value of what a key holds.
abbrev pub value_at : Option Bytes → Value
value_at none = of_error key_not_found
value_at (some b) = of_bytes b

module _ {E : Etcd} (L : IsEtcd E) {G : Grpc} (GL : IsGrpc G) where
  -- Where gRPC passes the texts of errors on, while etcd is up and whatever other clients do, the
  -- client's Get of a key that is not empty returns the Value of what the key holds when etcd is
  -- asked, or a Value with ErrKeyNotFound, and writes nothing.
  pub client_get_lem :
      (fuel : ℕ) (key : Bytes) (w : World E)
      → L.up (arrive w).store ≡ true
      → key ≢ []
      → get E G fuel key w ≡ (ok (value_at (L.view (arrive w).store key)), arrive w)
  unfolding get
  client_get_lem fuel key w u h = elim (Option-cases (L.view (arrive w).store key)) [
    | inl e ↦
        rw (get_lem L fuel key w u h) (rw e (rw (normalize_error-relay GL key_not_found tt) refl))
    | inr (b, e) ↦ rw (get_lem L fuel key w u h) (rw e refl)
  ]

  -- Errors of the package pass through a call.
  called-Fails :
      {A : Type 0} (m : Prog E A) (s : E.Store) (c : ℕ) (e : Error) (v : Bytes → Option Bytes)
      → IsPackageError e
      → Fails L m s c e v
      → Fails L (called G m) s c e v
  called-Fails m s c e v p (s', c', r, u, same) =
      (s', c', rw r (rw (normalize_error-relay GL e p) refl), u, same)

  called-Gives :
      {A : Type 0} (m : Prog E A) (s : E.Store) (c : ℕ) (a : A) (v : Bytes → Option Bytes)
      → Gives L m s c a v
      → Gives L (called G m) s c a v
  called-Gives m s c a v (s', r, u, same) = (s', rw r refl, u, same)

  module _ (P : Proto) (fuel : ℕ) (ctx : Context) (key : Bytes) (v : Input P.Float) (b : Bytes)
      (coded : to_bytes (new_value P v) ≡ reply b) (s : E.Store) (c : ℕ) (up : L.up s ≡ true)
      (good : is_invalid key ≡ false) where
    pub client_set-Gives :
        locked L s key ≡ false
        → Gives L
            (set E G (suc fuel) ctx P key v)
            s
            c
            tt
            (λ k. if beq key k then some b else L.view s k)
    unfolding set
    client_set-Gives free = rw coded (
        called-Gives (set_handler E (suc fuel) ctx (record { key = key; value = b })) s c tt
          (λ k. if beq key k then some b else L.view s k)
          (set-Gives L fuel ctx (record { key = key; value = b }) s c up good free))

    -- The client's Get after it, in the store that the Set leaves.
    pub client_get-after :
        (t : E.Store)
        → L.up t ≡ true
        → L.view t key ≡ (if beq key key then some b else L.view s key)
        → get E G (suc fuel) key (quiet t c) ≡ (ok (of_bytes b), quiet t c)
    client_get-after t u same =
        client_get_lem (suc fuel) key (quiet t c) u (ne_nil_of_valid key good)
        ∙ rw (same, beq_refl key) refl

    -- Where gRPC passes the texts of errors on: on a valid key that is not locked, run alone (no
    -- other client writes, etcd is up), the client's Set of a value that NewValue encodes as bytes,
    -- followed by its Get, returns the Value of these bytes, stores them and changes no other key.
    pub set-get :
        locked L s key ≡ false
        → Gives L
            (set E G (suc fuel) ctx P key v >> get E G (suc fuel) key)
            s
            c
            (of_bytes b)
            (λ k. if beq key k then some b else L.view s k)
    set-get free =
        let (t, e, u, same) = client_set-Gives free in
        (t, rw e (client_get-after t u (same key)), u, same)

    -- Where gRPC passes the texts of errors on: on a valid key that is locked, run alone (no other
    -- client writes, etcd is up), the client's Set of a value that NewValue encodes returns
    -- ErrKeyLocked itself and changes no key, where the rounds reach past the deadline.
    pub client_set-Fails :
        locked L s key ≡ true
        → Suffices fuel c (get_max_wait ctx)
        → Fails L (set E G fuel ctx P key v) s c key_locked (L.view s)
    unfolding set
    client_set-Fails held enough = rw coded (
        called-Fails (set_handler E fuel ctx (record { key = key; value = b })) s c key_locked
          (L.view s) tt
          (set-Fails L fuel ctx (record { key = key; value = b }) s c up good held enough))
