-- ===== src/Server/Ends.antt =====
-- Programs that end, for any etcd and whatever other clients do: the parts that handlers are made of.
pub mod All
pub mod Handlers
pub mod Pops
pub mod Reads
use mydis_old.Prelude.{
  ℕ, ◌≢◌, ◌≡◌, refl, inl, inr, true, false, Bool, Option, none, some, Bool-cases, if◌then◌else◌,
  is_negative, Bytes,
}
use mydis_old.Errors.{Error, Reply}
use mydis_old.Etcd.{Etcd}
use mydis_old.Runtime.{
  Prog, World, Result, ok, err, waiting, pure, fail, crash, handle, ignore, lift, query, call,
  ◌>>=◌, ◌>>◌,
}
use mydis_old.Runtime.Laws.{continue-ne-waiting, lift-ne-waiting, query-ne-waiting, call-ne-waiting}
use mydis_old.Pb.{Key, Codec, plain_key}
use mydis_old.Server.Context.{Context, get_max_wait}
use mydis_old.Server.Locks.{lock, unlock}
use mydis_old.Server.Locks.Laws.{Suffices}
use mydis_old.Server.Values.{get}
use mydis_old.Server.Numbers.{decode}

module _ {E : Etcd} where
  pub record Ends {A : Type 0} (m : Prog E A) : Type 0 where
    pub ends : (w : World E) → (m w).0 ≢ waiting

  pub Ends-pure : {A : Type 0} (a : A) → Ends (pure a)
  Ends-pure a = record { ends = λ w p. absurd (cc) }

  pub Ends-fail : {A : Type 0} (e : Error) → Ends {A = A} (fail e)
  Ends-fail e = record { ends = λ w p. absurd (cc) }

  pub Ends-crash : {A : Type 0} → Ends {A = A} crash
  Ends-crash = record { ends = λ w p. absurd (cc) }

  pub Ends-lift : {A : Type 0} (r : Reply A) → Ends (lift r)
  Ends-lift r = record { ends = lift-ne-waiting r }

  pub Ends-query : {A : Type 0} (f : E.Store → Reply A) → Ends (query f)
  Ends-query f = record { ends = query-ne-waiting f }

  pub Ends-call : {A : Type 0} (f : E.Store → Reply A × E.Store) → Ends (call f)
  Ends-call f = record { ends = call-ne-waiting f }

  pub Ends-handle :
      {A B : Type 0} (m : Prog E A) (f : A → Prog E B) (g : Error → Prog E B)
      → Ends m
      → ((a : A) → Ends (f a))
      → ((e : Error) → Ends (g e))
      → Ends (handle m f g)
  Ends-handle m f g em ef eg = record {
    ends = λ w.
        continue-ne-waiting (m w).0 f g (m w).1 (em.ends w) (λ a v. (ef a).ends v)
          (λ e v. (eg e).ends v);
  }

  pub Ends-if :
      {A : Type 0} (b : Bool) (p q : Prog E A) → Ends p → Ends q → Ends (if b then p else q)
  Ends-if true p q ep eq = ep
  Ends-if false p q ep eq = eq

  pub Ends-bind :
      {A B : Type 0} (m : Prog E A) (f : A → Prog E B)
      → Ends m
      → ((a : A) → Ends (f a))
      → Ends (m >>= f)
  Ends-bind m f em ef = Ends-handle m f fail em ef (λ e. Ends-fail e)

pub ruleset ends_rules =
    (Ends-pure, Ends-fail, Ends-crash, Ends-lift, Ends-query, Ends-call, Ends-if, Ends-handle)

module _ {E : Etcd} where
  pub Ends-decode : {M : Type 0} (c : Codec M) (b : Bytes) → Ends {E = E} (decode c b)
  Ends-decode c b = search ends_rules

  pub Ends-ignore : {A : Type 0} (m : Prog E A) → Ends m → Ends (ignore m)
  Ends-ignore m h = search ends_rules
