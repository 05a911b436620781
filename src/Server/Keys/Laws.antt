-- ===== src/Server/Keys/Laws.antt =====
-- Theorems on Delete and SetExpire of mydis/type_keys.go.
use mydis_old.Etcd.{PutRequest, Etcd, delete_op}
use mydis_old.Prelude.{ℕ, suc, ◌≡◌, ◌≢◌, refl, true, false, none, some, [], ◌∷◌, beq, if◌then◌else◌}
use mydis_old.Errors.{key_locked}
use mydis_old.Prefix.{in_range}
use mydis_old.Etcd.Laws.{IsEtcd}
use mydis_old.Runtime.{call}
use mydis_old.Runtime.Laws.{Gives, Fails}
use mydis_old.Pb.{Key, Expiration}
use mydis_old.Server.Context.{Context, get_max_wait}
use mydis_old.Server.Waiting.{deadline}
use mydis_old.Server.Waiting.Laws.{locked, retry-Gives, retry-Fails}
use mydis_old.Server.Waiting.Names.{IsSendable-delete}
use mydis_old.Server.Keys.{delete, set_expire}
use mydis_old.Server.Locks.Laws.{Suffices}

module _ {E : Etcd} (L : IsEtcd E) (fuel : ℕ) (ctx : Context) where
  -- On a key that is not locked and not empty, Delete run alone (no other client writes, etcd is
  -- up) removes the key and changes no other key.
  pub delete-Gives :
      (key : Key) (s : E.Store) (c : ℕ)
      → L.up s ≡ true
      → key.key ≢ []
      → locked L s key.key ≡ false
      → Gives L
          (delete E (suc fuel) ctx key)
          s
          c
          tt
          (λ k. if beq key.key k then none else L.view s k)
  unfolding delete in_range
  delete-Gives key s c u ne free =
      retry-Gives L false false (deadline c (get_max_wait ctx)) key.key (delete_op key.key [] ∷ [])
        fuel s c u (IsSendable-delete key.key key.key ne) free

  -- On a locked key that is not empty, Delete run alone (no other client writes, etcd is up)
  -- returns ErrKeyLocked and changes no key, where the rounds reach past the deadline.
  pub delete-Fails :
      (key : Key) (s : E.Store) (c : ℕ)
      → L.up s ≡ true
      → key.key ≢ []
      → locked L s key.key ≡ true
      → Suffices fuel c (get_max_wait ctx)
      → Fails L (delete E fuel ctx key) s c key_locked (L.view s)
  unfolding delete
  delete-Fails key s c u ne held (pos_fuel, enough) =
      retry-Fails L false false (deadline c (get_max_wait ctx)) key.key (delete_op key.key [] ∷ [])
        fuel s c u (IsSendable-delete key.key key.key ne) held refl enough pos_fuel

module _ {E : Etcd} (L : IsEtcd E) where
  -- On a key that is not empty, SetExpire run alone (no other client writes, etcd is up) replaces
  -- the value by the empty value and changes no other key.
  pub set_expire_empties :
      (ex : Expiration) (s : E.Store) (c : ℕ)
      → L.up s ≡ true
      → ex.key ≢ []
      → Gives L (set_expire E ex) s c tt (λ k. if beq ex.key k then some [] else L.view s k)
  unfolding set_expire call
  set_expire_empties ex s c u ne =
      let (id, e) = L.lease_reply s ex.exp u in
      let t = (E.lease_grant ex.exp s).1 in
      let put : PutRequest = record { key = ex.key; value = []; lease = id } in
      (
        (E.put put t).1,
        rw e (rw (L.put_reply t put (L.lease_up s ex.exp u) ne) refl),
        L.put_up t put (L.lease_up s ex.exp u),
        λ k. rw (L.put_view t put k (L.lease_up s ex.exp u) ne, L.lease_view s ex.exp k),
      )
