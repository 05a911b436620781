-- ===== src/Runtime/Laws.antt =====
-- Runs in which nobody else writes, and what a call of etcd does to the world in any run.
use mydis_old.Prelude.{◌≢◌, ℕ, ◌≤◌, ◌≡◌, refl, ◌⊎◌, inl, inr, true, List, [], ◌∷◌, arith, Bytes}
use mydis_old.Errors.{Error, Reply, reply, failed}
use mydis_old.Etcd.{Etcd}
use mydis_old.Etcd.Laws.{IsEtcd, View}
use mydis_old.Runtime.{
  Result, ok, err, panic, waiting, Turn, World, Prog, take_turn, arrive, query, call, lift, handle,
  continue,
}

module _ {E : Etcd} where
  -- Nobody else writes, and no time passes between the handler's steps.
  abbrev pub quiet : E.Store → ℕ → World E
  quiet s c = record { store = s; clock = c; turns = [] }

  clock-take_turn : (ts : List (Turn E)) (w : World E) → w.clock ≤ (take_turn ts w).clock
  clock-take_turn [] w = omega arith
  clock-take_turn (t ∷ ts) w = omega arith

  pub clock-arrive : (w : World E) → w.clock ≤ (arrive w).clock
  clock-arrive w = clock-take_turn w.turns w

  -- The world after a call.
  abbrev pub after : {A : Type 0} → (E.Store → Reply A × E.Store) → World E → World E
  after f w = record (arrive w) { store = (f (arrive w).store).1 }

  -- A call answers or fails.
  abbrev pub Called : {A : Type 0} → (E.Store → Reply A × E.Store) → World E → Type 0
  Called {A} f w =
      ((a : A) × (call f w ≡ (ok a, after f w))) ⊎ ((e : Error) × (call f w ≡ (err e, after f w)))

  lift-cases :
      {A : Type 0} (r : Reply A) (w : World E)
      → ((a : A) × (lift r w ≡ (ok a, w))) ⊎ ((e : Error) × (lift r w ≡ (err e, w)))
  lift-cases (reply a) w = inl (a, refl)
  lift-cases (failed e) w = inr (e, refl)

  pub call-cases : {A : Type 0} (f : E.Store → Reply A × E.Store) (w : World E) → Called f w
  unfolding call
  call-cases f w = lift-cases (f (arrive w).store).0 (after f w)

  -- What all of the turns satisfy.
  abbrev pub Turns : (Turn E → Type 0) → List (Turn E) → Type 0
  Turns Q [] = Unit
  Turns Q (t ∷ ts) = Q t × Turns Q ts

  -- The store satisfies `I`, and the turns to come are of the kind `Q` and keep `I`.
  abbrev pub Steady : (E.Store → Type 0) → (Turn E → Type 0) → World E → Type 0
  Steady I Q w = I w.store × Turns (λ t. Q t × ((s : E.Store) → I s → I (t.step s))) w.turns

  take_turn-Steady :
      (I : E.Store → Type 0) (Q : Turn E → Type 0) (ts : List (Turn E)) (w : World E)
      → I w.store
      → Turns (λ t. Q t × ((s : E.Store) → I s → I (t.step s))) ts
      → Steady I Q (take_turn ts w)
  take_turn-Steady I Q [] w i h = (i, tt)
  take_turn-Steady I Q (t ∷ ts) w i h = (h.0.1 w.store i, h.1)

  pub arrive-Steady :
      (I : E.Store → Type 0) (Q : Turn E → Type 0) (w : World E)
      → Steady I Q w
      → Steady I Q (arrive w)
  arrive-Steady I Q w (i, h) = take_turn-Steady I Q w.turns w i h

module _ {E : Etcd} (L : IsEtcd E) where
  -- Run alone on the store `s`, the program returns `a` and leaves the values `v`.
  abbrev pub Gives : {A : Type 0} → Prog E A → E.Store → ℕ → A → View → Type 0
  Gives m s c a v =
      (s' : E.Store) × (m (quiet s c) ≡ (ok a, quiet s' c))
      × (L.up s' ≡ true)
      × ((k : Bytes) → L.view s' k ≡ v k)

  -- It returns the error `e` and leaves the values `v`.
  abbrev pub Fails : {A : Type 0} → Prog E A → E.Store → ℕ → Error → View → Type 0
  Fails m s c e v =
      (s' : E.Store) × (c' : ℕ) × (m (quiet s c) ≡ (err e, quiet s' c'))
      × (L.up s' ≡ true)
      × ((k : Bytes) → L.view s' k ≡ v k)

  module _ {A B : Type 0} (m : Prog E A) (f : A → Prog E B) (g : Error → Prog E B) where
    -- A call that returns a value is followed by its continuation.
    pub Gives-handle :
        {s : E.Store} {c : ℕ} {a : A} {b : B} {v v' : View}
        → Gives m s c a v
        → ((t : E.Store) → L.up t ≡ true → ((k : Bytes) → L.view t k ≡ v k) → Gives (f a) t c b v')
        → Gives (handle m f g) s c b v'
    Gives-handle {c} (t, e, u, same) next =
        let (t', e', u', same') = next t u same in (t', rw e e', u', same')

    pub Fails-handle :
        {s : E.Store} {c : ℕ} {a : A} {x : Error} {v v' : View}
        → Gives m s c a v
        → ((t : E.Store) → L.up t ≡ true → ((k : Bytes) → L.view t k ≡ v k) → Fails (f a) t c x v')
        → Fails (handle m f g) s c x v'
    Fails-handle {c} (t, e, u, same) next =
        let (t', c', e', u', same') = next t u same in (t', c', rw e e', u', same')

module _ {E : Etcd} {A B : Type 0} where
  -- Only a part that may wait makes the whole wait.
  pub continue-ne-waiting :
      (r : Result A) (f : A → Prog E B) (g : Error → Prog E B) (w : World E)
      → r ≢ waiting
      → ((a : A) (v : World E) → (f a v).0 ≢ waiting)
      → ((e : Error) (v : World E) → (g e v).0 ≢ waiting)
      → (continue r f g w).0 ≢ waiting
  continue-ne-waiting (ok a) f g w n hf hg = hf a w
  continue-ne-waiting (err e) f g w n hf hg = hg e w
  continue-ne-waiting panic f g w n hf hg = λ p. absurd (cc)
  continue-ne-waiting waiting f g w n hf hg = absurd (n refl)

module _ {E : Etcd} {A : Type 0} where
  pub lift-ne-waiting : (r : Reply A) (w : World E) → (lift r w).0 ≢ waiting
  lift-ne-waiting (reply a) w = λ p. absurd (cc)
  lift-ne-waiting (failed e) w = λ p. absurd (cc)

  pub query-ne-waiting : (f : E.Store → Reply A) (w : World E) → (query f w).0 ≢ waiting
  unfolding query
  query-ne-waiting f w = lift-ne-waiting (f (arrive w).store) (arrive w)

  pub call-ne-waiting : (f : E.Store → Reply A × E.Store) (w : World E) → (call f w).0 ≢ waiting
  unfolding call
  call-ne-waiting f w =
      lift-ne-waiting (f (arrive w).store).0 (record (arrive w) { store = (f (arrive w).store).1 })
