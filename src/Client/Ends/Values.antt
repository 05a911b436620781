-- ===== src/Client/Ends/Values.antt =====
-- The calls of client/client.go on keys, values and numbers come to an end.
use mydis_old.Prelude.{ℕ, ℤ, refl, false, List, Bytes, is_negative, ◌≡◌}
use mydis_old.Etcd.{Etcd}
use mydis_old.Pb.{Proto, plain_key}
use mydis_old.Server.Context.{Context, get_max_wait}
use mydis_old.Server.Locks.Laws.{Suffices}
use mydis_old.Server.Ends.{Ends, Ends-bind, Ends-pure}
use mydis_old.Value.{Input}
use mydis_old.Client.Remote.{Grpc}
use mydis_old.Client.Ends.{Ends-called, Ends-encoded, Ends-as_value}
use mydis_old.Server.Ends.Reads.{
  Ends-clear as Ends-clear_handler, Ends-get_many as Ends-get_many_handler,
  Ends-keys as Ends-keys_handler, Ends-keys_with_prefix as Ends-keys_with_prefix_handler,
  Ends-set_expire as Ends-set_expire_handler,
}
use mydis_old.Server.Ends.Handlers.{
  Ends-delete as Ends-delete_handler, Ends-get as Ends-get_handler,
  Ends-increment_float as Ends-increment_float_handler,
  Ends-increment_int as Ends-increment_int_handler, Ends-set_nx as Ends-set_nx_handler,
  Ends-has as Ends-has_key, Ends-decrement_int as Ends-decrement_int_handler,
  Ends-decrement_float as Ends-decrement_float_handler,
}
use mydis_old.Server.Values.Laws.{set_ends}
use mydis_old.Client.Keys.{keys, keys_with_prefix, has, set_expire, clear, delete}
use mydis_old.Client.Values.{
  get, get_many, set, set_nx, increment_int, decrement_int, increment_float, decrement_float,
}

module _ (E : Etcd) (G : Grpc) where
  pub Ends-keys : Ends (keys E G)
  unfolding keys
  Ends-keys = Ends-called G _ (Ends-keys_handler E)

  pub Ends-keys_with_prefix : (k : Bytes) → Ends (keys_with_prefix E G k)
  unfolding keys_with_prefix
  Ends-keys_with_prefix k = Ends-called G _ (Ends-keys_with_prefix_handler E (plain_key k))

  pub Ends-has : (k : Bytes) → Ends (has E G k)
  unfolding has
  Ends-has k = Ends-called G _ (Ends-has_key E (plain_key k))

  pub Ends-set_expire : (k : Bytes) (z : ℤ) → Ends (set_expire E G k z)
  unfolding set_expire
  Ends-set_expire k z = Ends-called G _ (Ends-set_expire_handler E _)

  pub Ends-clear : Ends (clear E G)
  unfolding clear
  Ends-clear = Ends-called G _ (Ends-clear_handler E)

  module _ (fuel : ℕ) where
    pub Ends-get : (k : Bytes) → Ends (get E G fuel k)
    unfolding get
    Ends-get k = Ends-as_value G _ (Ends-get_handler E fuel (plain_key k) refl)

    pub Ends-get_many : (ks : List Bytes) → Ends (get_many E G fuel ks)
    unfolding get_many
    Ends-get_many ks =
        Ends-bind _ _ (Ends-called G _ (Ends-get_many_handler E ks)) (λ m. Ends-pure _)

module _ (E : Etcd) (P : Proto) (G : Grpc) (fuel : ℕ) (ctx : Context)
    (enough : (t : ℕ) → Suffices fuel t (get_max_wait ctx))
    (waits : is_negative (get_max_wait ctx) ≡ false) where
  pub Ends-delete : (k : Bytes) → Ends (delete E G fuel ctx k)
  unfolding delete
  Ends-delete k = Ends-called G _ (Ends-delete_handler E P fuel ctx enough waits (plain_key k))

  pub Ends-set : (k : Bytes) (v : Input P.Float) → Ends (set E G fuel ctx P k v)
  unfolding set
  Ends-set k v =
      Ends-encoded P v _
        (λ b. Ends-called G _ (record { ends = λ w. set_ends E fuel ctx _ w (enough w.clock) }))

  pub Ends-set_nx : (k : Bytes) (v : Input P.Float) → Ends (set_nx E G fuel ctx P k v)
  unfolding set_nx
  Ends-set_nx k v =
      Ends-encoded P v _ (λ b. Ends-called G _ (Ends-set_nx_handler E P fuel ctx enough waits _))

  pub Ends-increment_int : (k : Bytes) (z : ℤ) → Ends (increment_int E G fuel ctx P k z)
  unfolding increment_int
  Ends-increment_int k z =
      Ends-bind _ _ (Ends-called G _ (Ends-increment_int_handler E P fuel ctx enough waits _))
        (λ v. Ends-pure _)

  pub Ends-decrement_int : (k : Bytes) (z : ℤ) → Ends (decrement_int E G fuel ctx P k z)
  unfolding decrement_int
  Ends-decrement_int k z =
      Ends-bind _ _ (Ends-called G _ (Ends-decrement_int_handler E P fuel ctx enough waits _))
        (λ v. Ends-pure _)

  pub Ends-increment_float : (k : Bytes) (z : P.Float) → Ends (increment_float E G fuel ctx P k z)
  unfolding increment_float
  Ends-increment_float k z =
      Ends-bind _ _ (Ends-called G _ (Ends-increment_float_handler E P fuel ctx enough waits _))
        (λ v. Ends-pure _)

  pub Ends-decrement_float : (k : Bytes) (z : P.Float) → Ends (decrement_float E G fuel ctx P k z)
  unfolding decrement_float
  Ends-decrement_float k z =
      Ends-bind _ _ (Ends-called G _ (Ends-decrement_float_handler E P fuel ctx enough waits _))
        (λ v. Ends-pure _)
