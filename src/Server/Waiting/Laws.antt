-- ===== src/Server/Waiting/Laws.antt =====
-- Theorems on the loop for a lock in mydis/type_lock.go, mydis/type_bytes.go and mydis/type_keys.go.
use mydis_old.Prelude.{
  ◌∙◌, ℕ, zero, suc, ◌+◌, ◌*◌, ◌≤ℤ◌, ◌≤◌, ◌<◌, ◌≡◌, ◌≢◌, refl, ◌⊎◌, inl, inr, Bool, true, false,
  not, ◌&&◌, List, arith, Bytes, ℤ, pos, ltb_ℤ, pos_part, neg_part, Bool-cases,
}
use mydis_old.Prefix.{zero_byte}
use mydis_old.Errors.{key_locked}
use mydis_old.Etcd.{Etcd, TxnRequest, RequestOp}
use mydis_old.Etcd.Laws.{IsEtcd, IsSendable, writes, holds_value}
use mydis_old.Runtime.{Turn, Prog, ok, err, waiting, World, arrive, call, sleep}
use mydis_old.Runtime.Laws.{
  clock-arrive, call-cases, after, quiet, Gives, Fails, Steady, arrive-Steady,
}
use mydis_old.Server.Waiting.{get_lock_name, retry, wait_for_lock, delay, unless_locked}

-- The world after `time.Sleep(delay)`.
abbrev pub slept : {E : Etcd} → World E → World E
slept w = record (arrive w) { clock = (arrive w).clock + delay }

module _ {E : Etcd} (at_once forever : Bool) (end : ℤ) (again : Prog E (Unit {0}))
    (w : World E) where
  -- A wait gives up, at once or after the sleep, or makes another round.
  wait_for_lock-cases :
      (wait_for_lock E at_once forever end again w ≡ (err key_locked, w))
      ⊎ (wait_for_lock E at_once forever end again w ≡ (err key_locked, slept w))
      ⊎ ((wait_for_lock E at_once forever end again w ≡ again (slept w))
          × ((ltb_ℤ end (pos (slept w).clock) && not forever) ≡ false))
  unfolding wait_for_lock sleep
  wait_for_lock-cases = elim (Bool-cases at_once) [
    | inl o ↦ inl (rw o)
    | inr o ↦ elim (Bool-cases (ltb_ℤ end (pos (slept w).clock) && not forever)) [
      | inl l ↦ inr (inl (rw (o, l)))
      | inr l ↦ inr (inr (rw (o, l), l))
    ]
  ]

module _ (E : Etcd) (at_once forever : Bool) (end : ℤ) (req : TxnRequest) where
  wait_for_lock-ne-waiting :
      (again : Prog E (Unit {0})) (w : World E)
      → forever ≡ false
      → ((w' : World E) → w.clock + delay ≤ w'.clock → pos w'.clock ≤ℤ end → (again w').0 ≢ waiting)
      → (wait_for_lock E at_once forever end again w).0 ≢ waiting
  unfolding wait_for_lock sleep
  wait_for_lock-ne-waiting again w nf h =
      ground (arith, clock-arrive w, h (record (arrive w) { clock = (arrive w).clock + delay }))

  -- Where the rounds reach past the deadline, the loop ends within them: whatever etcd answers,
  -- and whatever the other clients do.
  pub retry_ends :
      (rounds : ℕ) (w : World E)
      → forever ≡ false
      → pos_part end < neg_part end + w.clock + rounds * delay
      → 0 < rounds
      → (retry E at_once forever end req rounds w).0 ≢ waiting
  unfolding retry
  retry_ends zero w nf h r = absurd (omega arith)
  retry_ends (suc rounds) w nf h r = elim (call-cases (E.txn req) w) [
    | inl (a, e) ↦ rw e (
        ground (
          arith,
          clock-arrive w,
          wait_for_lock-ne-waiting (retry E at_once forever end req rounds) (after (E.txn req) w) nf
              (λ v lv lend.
                retry_ends rounds v nf (omega (arith, clock-arrive w))
                  (omega (arith, clock-arrive w))),
        ))
    | inr (x, e) ↦ rw e (λ p. cc)
  ]

module _ {E : Etcd} (L : IsEtcd E) where
  -- The key's lock is held.
  abbrev pub locked : E.Store → Bytes → Bool
  locked s key = holds_value (L.view s (get_lock_name key)) zero_byte

  module _ (at_once forever : Bool) (end : ℤ) (key : Bytes) (ops : List RequestOp) where
    -- One round on a key that is not locked does the work.
    pub retry_unlocked :
        (rounds : ℕ) (w : World E)
        → L.up (arrive w).store ≡ true
        → IsSendable (unless_locked key ops)
        → locked (arrive w).store key ≡ false
        → retry E at_once forever end (unless_locked key ops) (suc rounds) w ≡ (
          ok tt,
          record (arrive w) { store = (E.txn (unless_locked key ops) (arrive w).store).1 },
        )
    unfolding retry call
    retry_unlocked rounds w u h free =
        rw (L.txn_reply (arrive w).store (unless_locked key ops) u h) (rw free)

    -- A round on a locked key waits.
    pub retry-locked :
        (rounds : ℕ) (w : World E)
        → L.up (arrive w).store ≡ true
        → IsSendable (unless_locked key ops)
        → locked (arrive w).store key ≡ true
        → retry E at_once forever end (unless_locked key ops) (suc rounds) w
          ≡ wait_for_lock E at_once forever end
              (retry E at_once forever end (unless_locked key ops) rounds)
              (record (arrive w) { store = (E.txn (unless_locked key ops) (arrive w).store).1 })
    unfolding retry call
    retry-locked rounds w u h free =
        rw (L.txn_reply (arrive w).store (unless_locked key ops) u h) (rw free)

    -- Alone, on a key that is not locked, the loop does its operations.
    pub retry-Gives :
        (rounds : ℕ) (s : E.Store) (c : ℕ)
        → L.up s ≡ true
        → IsSendable (unless_locked key ops)
        → locked s key ≡ false
        → Gives L
            (retry E at_once forever end (unless_locked key ops) (suc rounds))
            s
            c
            tt
            (writes (L.view s) ops)
    retry-Gives rounds s c u h free = (
      (E.txn (unless_locked key ops) s).1,
      retry_unlocked rounds (quiet s c) u h free,
      L.txn_up s (unless_locked key ops) u,
      λ k. rw (L.txn_view s (unless_locked key ops) k u h) (rw free),
    )

    locked-txn :
        (s : E.Store)
        → L.up s ≡ true
        → IsSendable (unless_locked key ops)
        → locked s key ≡ true
        → (k : Bytes) → L.view (E.txn (unless_locked key ops) s).1 k ≡ L.view s k
    locked-txn s u h held k = rw (L.txn_view s (unless_locked key ops) k u h) (rw held)

    locked-txn_self :
        (s : E.Store)
        → L.up s ≡ true
        → IsSendable (unless_locked key ops)
        → locked s key ≡ true
        → locked (E.txn (unless_locked key ops) s).1 key ≡ true
    locked-txn_self s u h held = rw (locked-txn s u h held (get_lock_name key)) held

    -- Alone, on a locked key, the loop gives up at the deadline and has changed nothing.
    pub retry-Fails :
        (rounds : ℕ) (s : E.Store) (c : ℕ)
        → L.up s ≡ true
        → IsSendable (unless_locked key ops)
        → locked s key ≡ true
        → forever ≡ false
        → pos_part end < neg_part end + c + rounds * delay
        → 0 < rounds
        → Fails L
            (retry E at_once forever end (unless_locked key ops) rounds)
            s
            c
            key_locked
            (L.view s)
    retry-Fails zero s c u h held nf m r = absurd (omega arith)
    retry-Fails (suc rounds) s c u h held nf m r =
        rw (retry-locked rounds (quiet s c) u h held)
          (elim (wait_for_lock-cases at_once forever end again (quiet s' c)) [
            | inl e ↦ (s', c, e, up', same)
            | inr (inl e) ↦ (s', c + delay, e, up', same)
            | inr (inr (e, early)) ↦
                let (t, d, f, ut, vt) =
                  retry-Fails rounds s' (c + delay) up' h (locked-txn_self s u h held) nf
                    (ground arith) (ground arith) in
                (t, d, e ∙ f, ut, λ k. vt k ∙ same k)
          ])
      where
        again : Prog E (Unit {0})
        again = retry E at_once forever end (unless_locked key ops) rounds

        s' : E.Store
        s' = (E.txn (unless_locked key ops) s).1

        up' : L.up s' ≡ true
        up' = L.txn_up s (unless_locked key ops) u

        same : (k : Bytes) → L.view s' k ≡ L.view s k
        same = locked-txn s u h held

    module _ (I : E.Store → Type 0) (Q : Turn E → Type 0) where
      -- What the loop's good end says: its last transaction found the key not locked, and nobody
      -- else wrote between that test and the work.
      abbrev pub Acquired : World E → Type 0
      Acquired w' =
          (s : E.Store) × I s
          × (locked s key ≡ false)
          × (w'.store ≡ (E.txn (unless_locked key ops) s).1)
          × Steady I Q w'

      -- So it is in any run in which the member stays up, as an invariant `I` of the store says.
      pub retry_atomic :
          (rounds : ℕ) (w : World E)
          → ((s : E.Store) → I s → L.up s ≡ true)
          → ((s : E.Store) → I s → I (E.txn (unless_locked key ops) s).1)
          → Steady I Q w
          → IsSendable (unless_locked key ops)
          → (retry E at_once forever end (unless_locked key ops) rounds w).0 ≡ ok tt
          → Acquired (retry E at_once forever end (unless_locked key ops) rounds w).1
      retry_atomic zero w up keep u h = unfold retry in λ e. absurd (cc)
      retry_atomic (suc rounds) w up keep u h = elim (Bool-cases (locked s key)) [
        | inl held ↦
            rw (retry-locked rounds w (up s is) h held)
              (elim (wait_for_lock-cases at_once forever end again held_world) [
                | inl e ↦ rw e (λ p. absurd (cc))
                | inr (inl e) ↦ rw e (λ p. absurd (cc))
                | inr (inr (e, early)) ↦ rw e (
                    retry_atomic rounds (slept held_world) up keep
                      (arrive-Steady I Q held_world (keep s is, steady.1)) h)
              ])
        | inr free ↦
            rw (retry_unlocked rounds w (up s is) h free)
              (λ e. (s, is, free, refl, (keep s is, steady.1)))
      ]
        where
          again : Prog E (Unit {0})
          again = retry E at_once forever end (unless_locked key ops) rounds

          steady : Steady I Q (arrive w)
          steady = arrive-Steady I Q w u

          s : E.Store
          s = (arrive w).store

          is : I s
          is = steady.0

          held_world : World E
          held_world = record (arrive w) { store = (E.txn (unless_locked key ops) s).1 }
