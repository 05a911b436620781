-- ===== src/Runtime.antt =====
-- Go's side of a handler: results with errors and panics, the clock, and what the other clients of
-- the store do between two of a handler's steps.
pub mod Laws
use mydis_old.Prelude.{ℕ, ◌+◌, Bool, List, [], ◌∷◌, ℤ, pos, ltb_ℤ}
use mydis_old.Errors.{Error, Reply, reply, failed}
use mydis_old.Etcd.{Etcd}

-- How a handler ends: with a value, with an error (the value beside it is not used), with a panic,
-- or not at all within the rounds that it is given.
pub data Result {ℓ} (A : Type ℓ) : Type ℓ where
  ok : A → Result A
  err : Error → Result A
  panic waiting : Result A

-- What happens before the handler's next step: other clients' writes, and time that passes.
pub record Turn (E : Etcd) : Type 0 where
  pub step : E.Store → E.Store
  pub late : ℕ

-- The clock counts nanoseconds. Where `turns` is empty nobody else writes.
pub record World (E : Etcd) : Type 0 where
  pub store : E.Store
  pub clock : ℕ
  pub turns : List (Turn E)

abbrev pub Prog : Etcd → Type 0 → Type 0
Prog E A = World E → Result A × World E

module _ {E : Etcd} where
  abbrev pub take_turn : List (Turn E) → World E → World E
  take_turn [] w = record w { turns = [] }
  take_turn (t ∷ ts) w = record { store = t.step w.store; clock = w.clock + t.late; turns = ts }

  -- The world in which the handler's next step is made.
  abbrev pub arrive : World E → World E
  arrive w = take_turn w.turns w

  abbrev pub pure : {A : Type 0} → A → Prog E A
  pure a w = (ok a, w)

  abbrev pub fail : {A : Type 0} → Error → Prog E A
  fail e w = (err e, w)

  abbrev pub crash : {A : Type 0} → Prog E A
  crash w = (panic, w)

  abbrev pub continue : {A B : Type 0} → Result A → (A → Prog E B) → (Error → Prog E B) → Prog E B
  continue (ok a) f g w = f a w
  continue (err e) f g w = g e w
  continue panic f g w = (panic, w)
  continue waiting f g w = (waiting, w)

  -- `a, err := m; if err != nil { g } else { f }`
  abbrev pub handle : {A B : Type 0} → Prog E A → (A → Prog E B) → (Error → Prog E B) → Prog E B
  handle m f g w = let (r, w') = m w in continue r f g w'

  infixl 5 ◌>>=◌ ◌>>◌
  abbrev pub ◌>>=◌ : {A B : Type 0} → Prog E A → (A → Prog E B) → Prog E B
  m >>= f = handle m f fail

  abbrev pub ◌>>◌ : {A B : Type 0} → Prog E A → Prog E B → Prog E B
  m >> k = m >>= λ _. k

  -- A call whose results are dropped.
  abbrev pub ignore : {A : Type 0} → Prog E A → Prog E (Unit {0})
  ignore m = handle m (λ _. pure tt) (λ _. pure tt)

  abbrev pub lift : {A : Type 0} → Reply A → Prog E A
  lift (reply a) w = (ok a, w)
  lift (failed e) w = (err e, w)

  abbrev pub settle : {A : Type 0} → Reply A × E.Store → Prog E A
  settle (r, s) w = lift r (record w { store = s })

  -- A call of etcd that reads, and one that may write.
  unfoldable pub query : {A : Type 0} → (E.Store → Reply A) → Prog E A
  query f w = let w' = arrive w in lift (f w'.store) w'

  unfoldable pub call : {A : Type 0} → (E.Store → Reply A × E.Store) → Prog E A
  call f w = let w' = arrive w in settle (f w'.store) w'

  -- time.Sleep
  unfoldable pub sleep : ℕ → Prog E (Unit {0})
  sleep d w = let w' = arrive w in (ok tt, record w' { clock = w'.clock + d })

  -- time.Now, and time.Now().After(t)
  abbrev pub now : Prog E ℕ
  now w = (ok w.clock, w)

  abbrev pub now_after : ℤ → Prog E Bool
  now_after t w = (ok (ltb_ℤ t (pos w.clock)), w)
