-- ===== src/Client/Ends.antt =====
-- The calls of client/client.go that come to an end.
pub mod Values
pub mod Lists
pub mod Hashes
use mydis_old.Prelude.{ℕ, ℤ, refl, false, List, [], ◌∷◌, Bytes, is_negative, ◌≡◌}
use mydis_old.Etcd.{Etcd}
use mydis_old.Errors.{Error, Reply}
use mydis_old.Runtime.{Prog, lift, handle, fail}
use mydis_old.Pb.{Proto, plain_key}
use mydis_old.Server.Context.{Context, get_max_wait}
use mydis_old.Server.Locks.Laws.{Suffices}
use mydis_old.Server.Ends.{
  Ends, ends_rules, Ends-handle, Ends-bind, Ends-pure, Ends-fail, Ends-lift,
}
use mydis_old.Value.{Value, Input, new_value, to_bytes}
use mydis_old.Client.Remote.{Grpc, remote, called, as_value, encoded}

module _ {E : Etcd} {A : Type 0} where
  pub Ends-remote : (G : Grpc) (m : Prog E A) → Ends m → Ends (remote G m)
  Ends-remote G m h = search ends_rules

  pub Ends-called : (G : Grpc) (m : Prog E A) → Ends m → Ends (called G m)
  Ends-called G m h =
      Ends-handle _ _ _ (Ends-remote G m h) (λ a. Ends-pure a) (λ e. search ends_rules)

  pub Ends-encoded :
      (P : Proto) (v : Input P.Float) (next : Bytes → Prog E A)
      → ((b : Bytes) → Ends (next b))
      → Ends (encoded P v next)
  Ends-encoded P v next h = Ends-handle _ _ _ (Ends-lift _) h (λ e. Ends-fail e)

module _ {E : Etcd} where
  pub Ends-as_value : (G : Grpc) (m : Prog E Bytes) → Ends m → Ends (as_value G m)
  Ends-as_value G m h =
      Ends-handle _ _ _ (Ends-remote G m h) (λ a. search ends_rules) (λ e. search ends_rules)
