-- ===== src/Server/Waiting/Live.antt =====
-- Theorems on the loop for a lock in mydis/type_lock.go, where it waits without a timeout.

use mydis_old.Server.Waiting.Laws.{slept, locked, retry_unlocked, retry-locked}
use mydis_old.Prelude.{
  ◌⊎◌, ℕ, zero, suc, ◌<◌, ◌≡◌, refl, ◌∙◌, ap, inl, inr, Bool, true, false, ◌&&◌, List, [], ◌∷◌,
  arith, Bytes, ℤ, pos, ltb_ℤ, Bool-cases, length,
}
use mydis_old.Runtime.{take_turn, Turn, Prog, World, ok, arrive, sleep}
use mydis_old.Etcd.{Etcd, RequestOp}
use mydis_old.Etcd.Laws.{IsEtcd, IsSendable}
use mydis_old.Runtime.Laws.{Turns}
use mydis_old.Server.Waiting.{retry, wait_for_lock, unless_locked}

and_false : (b : Bool) → (b && false) ≡ false
and_false true = refl
and_false false = refl

module _ {E : Etcd} (L : IsEtcd E) (key : Bytes) where
  -- Another client's step that keeps the member up.
  abbrev pub KeepsUp : Turn E → Type 0
  KeepsUp t = (s : E.Store) → L.up s ≡ true → L.up (t.step s) ≡ true

  -- After the step the key is not locked.
  abbrev pub Unlocks : Turn E → Type 0
  Unlocks t = (s : E.Store) → L.up s ≡ true → locked L (t.step s) key ≡ false

  -- The step locks the key only if it was locked.
  abbrev pub KeepsFree : Turn E → Type 0
  KeepsFree t =
      (s : E.Store) → L.up s ≡ true → locked L s key ≡ false → locked L (t.step s) key ≡ false

  -- At one of the steps the key is unlocked, and no later step locks it again.
  pub data Frees : List (Turn E) → Type 0 where
    unlocks_now :
        {t : Turn E} {ts : List (Turn E)}
        → KeepsUp t
        → Unlocks t
        → Turns KeepsUp ts
        → Turns KeepsFree ts
        → Frees (t ∷ ts)
    unlocks_later : {t : Turn E} {ts : List (Turn E)} → KeepsUp t → Frees ts → Frees (t ∷ ts)

  -- The key is not locked now, and no step to come locks it.
  abbrev pub IsFree : E.Store → List (Turn E) → Type 0
  IsFree s ts = (L.up s ≡ true) × (locked L s key ≡ false) × Turns KeepsUp ts × Turns KeepsFree ts

  take_turn-IsFree :
      (ts : List (Turn E)) (w : World E)
      → IsFree w.store ts
      → IsFree (take_turn ts w).store (take_turn ts w).turns
  take_turn-IsFree [] w h = h
  take_turn-IsFree (t ∷ ts) w (u, f, ups, frees) =
      (ups.0 w.store u, frees.0 w.store u f, ups.1, frees.1)

  -- After a step the key is free for good, or a later step will free it.
  abbrev Nearer : ℕ → World E → Type 0
  Nearer n w =
      (L.up w.store ≡ true) × (IsFree w.store w.turns ⊎ (Frees w.turns × (length w.turns < n)))

  take_turn-Frees :
      (ts : List (Turn E)) (w : World E)
      → L.up w.store ≡ true
      → Frees ts
      → Nearer (length ts) (take_turn ts w)
  take_turn-Frees [] w u h = elim h [ ]
  take_turn-Frees (t ∷ ts) w u (unlocks_now keeps unlocks ups frees) =
      (keeps w.store u, inl (keeps w.store u, unlocks w.store u, ups, frees))
  take_turn-Frees (t ∷ ts) w u (unlocks_later keeps later) =
      (keeps w.store u, inr (later, omega arith))

  module _ (end : ℤ) (ops : List RequestOp) (h : IsSendable (unless_locked key ops)) where
    -- The rounds of a wait without a timeout.
    abbrev rounds_of : ℕ → Prog E (Unit {0})
    rounds_of n = retry E false true end (unless_locked key ops) n

    retry-IsFree :
        (rounds : ℕ) (w : World E)
        → 0 < rounds
        → IsFree w.store w.turns
        → (rounds_of rounds w).0 ≡ ok tt
    retry-IsFree zero w p free = absurd (omega arith)
    retry-IsFree (suc rounds) w p free =
        let (u, f, ups, frees) = take_turn-IsFree w.turns w free in
        ap (λ r. r.0) (retry_unlocked L false true end key ops rounds w u h f)

    -- The world in which the transaction has found the key locked.
    abbrev refused_in : World E → World E
    refused_in w = record (arrive w) { store = (E.txn (unless_locked key ops) (arrive w).store).1 }

    -- A round on a locked key sleeps, and the next round follows.
    retry_sleeps :
        (rounds : ℕ) (w : World E)
        → L.up (arrive w).store ≡ true
        → locked L (arrive w).store key ≡ true
        → rounds_of (suc rounds) w ≡ rounds_of rounds (slept (refused_in w))
    unfolding wait_for_lock sleep
    retry_sleeps rounds w u held =
        retry-locked L false true end key ops rounds w u h held
        ∙ rw (and_false (ltb_ℤ end (pos (slept (refused_in w)).clock))) refl

    -- Where the key is unlocked for good in the end, the loop gets the lock.
    pub retry-Frees :
        (rounds : ℕ) (w : World E)
        → L.up w.store ≡ true
        → Frees w.turns
        → length w.turns < rounds
        → (rounds_of rounds w).0 ≡ ok tt
    retry-Frees zero w u frees r = absurd (omega arith)
    retry-Frees (suc rounds) w u frees r =
        let (up, near) = take_turn-Frees w.turns w u frees in
        elim (Bool-cases (locked L (arrive w).store key)) [
          | inr f ↦ ap (λ r. r.0) (retry_unlocked L false true end key ops rounds w up h f)
          | inl held ↦ rw (retry_sleeps rounds w up held) (elim near [
            | inl free ↦ absurd (ground (arith, free.1, held))
            | inr (later, n) ↦
                let (up', near') =
                  take_turn-Frees (arrive w).turns (refused_in w)
                    (L.txn_up (arrive w).store (unless_locked key ops) up) later in
                elim near' [
                  | inl free ↦ retry-IsFree rounds (slept (refused_in w)) (omega (arith, n)) free
                  | inr (later', n') ↦
                      retry-Frees rounds (slept (refused_in w)) up' later' (omega (arith, n, n'))
                ]
          ])
        ]
