-- ===== src/Client/Ends/Hashes.antt =====
-- The calls of client/client.go on hashes come to an end.
use mydis_old.Prelude.{ℕ, false, Bytes, is_negative, ◌≡◌}
use mydis_old.Etcd.{Etcd}
use mydis_old.Pb.{Proto}
use mydis_old.Server.Context.{Context, get_max_wait}
use mydis_old.Server.Locks.Laws.{Suffices}
use mydis_old.Server.Ends.{Ends, Ends-handle, Ends-bind, Ends-pure, Ends-fail, Ends-lift}
use mydis_old.Value.{Input}
use mydis_old.Client.Remote.{Grpc}
use mydis_old.Client.Ends.{Ends-called, Ends-as_value, Ends-remote}
use mydis_old.Server.Ends.Reads.{
  Ends-get_hash_field as Ends-get_hash_field_handler, Ends-hash_fields as Ends-hash_fields_handler,
  Ends-hash_has as Ends-hash_has_handler, Ends-hash_values as Ends-hash_values_handler,
}
use mydis_old.Server.Ends.Handlers.{
  Ends-del_hash_field as Ends-del_hash_field_handler,
  Ends-set_hash_field as Ends-set_hash_field_handler,
}
use mydis_old.Client.Hashes.{
  get_hash_field, hash_has, hash_fields, hash_values, set_hash_field, del_hash_field,
}

module _ (E : Etcd) (P : Proto) (G : Grpc) (fuel : ℕ) where
  pub Ends-get_hash_field : (k f : Bytes) → Ends (get_hash_field E P G fuel k f)
  unfolding get_hash_field
  Ends-get_hash_field k f = Ends-as_value G _ (Ends-get_hash_field_handler E P fuel _)

  pub Ends-hash_has : (k f : Bytes) → Ends (hash_has E P G fuel k f)
  unfolding hash_has
  Ends-hash_has k f = Ends-called G _ (Ends-hash_has_handler E P fuel _)

  pub Ends-hash_fields : (k : Bytes) → Ends (hash_fields E P G fuel k)
  unfolding hash_fields
  Ends-hash_fields k = Ends-called G _ (Ends-hash_fields_handler E P fuel k)

  pub Ends-hash_values : (k : Bytes) → Ends (hash_values E P G fuel k)
  unfolding hash_values
  Ends-hash_values k =
      Ends-bind _ _ (Ends-called G _ (Ends-hash_values_handler E P fuel k)) (λ v. Ends-pure _)

module _ (E : Etcd) (P : Proto) (G : Grpc) (fuel : ℕ) (ctx : Context)
    (enough : (t : ℕ) → Suffices fuel t (get_max_wait ctx))
    (waits : is_negative (get_max_wait ctx) ≡ false) where
  pub Ends-set_hash_field :
      (k f : Bytes) (v : Input P.Float) → Ends (set_hash_field E P G fuel ctx k f v)
  unfolding set_hash_field
  Ends-set_hash_field k f v =
      Ends-handle _ _ _ (Ends-lift _)
        (λ b. Ends-remote G _ (Ends-set_hash_field_handler E P fuel ctx enough waits _))
        (λ e. Ends-fail _)

  pub Ends-del_hash_field : (k f : Bytes) → Ends (del_hash_field E P G fuel ctx k f)
  unfolding del_hash_field
  Ends-del_hash_field k f =
      Ends-called G _ (Ends-del_hash_field_handler E P fuel ctx enough waits _)
