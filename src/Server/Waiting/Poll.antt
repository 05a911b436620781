-- ===== src/Server/Waiting/Poll.antt =====
-- Theorems on the loop of Get and the pops, in mydis/type_bytes.go and mydis/type_list.go.
use mydis_old.Prelude.{
  ℕ, zero, suc, ◌+◌, ◌*◌, ◌≤◌, ◌<◌, ◌≢◌, inl, inr, Bool, arith, ◌*ℤ◌, pos, Bool-cases,
}
use mydis_old.Errors.{Error}
use mydis_old.Etcd.{Etcd}
use mydis_old.Runtime.{Prog, World, waiting, sleep}
use mydis_old.Runtime.Laws.{continue-ne-waiting}
use mydis_old.Server.Waiting.{poll, poll_on, timed_out, poll_delay, second}

module _ (E : Etcd) {A : Type 0} (again : Prog E A) (missing : Error → Bool) (timeout : ℕ) where
  poll_on-ne-waiting :
      (waited : ℕ) (next : Prog E A) (e : Error) (w : World E)
      → 0 < timeout
      → (waited < timeout * second → (v : World E) → (next v).0 ≢ waiting)
      → (poll_on E missing (pos timeout) waited next e w).0 ≢ waiting
  unfolding poll_on sleep ◌*ℤ◌
  poll_on-ne-waiting waited next e w p h = elim (Bool-cases (missing e)) [
    | inr no_more ↦ rw no_more (λ q. absurd (cc))
    | inl more ↦ rw more (elim (Bool-cases (timed_out waited (pos timeout))) [
      | inl late ↦ rw late (λ q. absurd (cc))
      | inr early ↦ rw early (h (ground arith) _)
    ])
  ]

  -- Where the thing waited for is looked for without a wait, and the rounds reach past a positive
  -- timeout, the loop ends within them.
  pub poll_ends :
      (rounds waited : ℕ) (w : World E)
      → ((v : World E) → (again v).0 ≢ waiting)
      → 0 < timeout
      → 0 < rounds
      → timeout * second ≤ waited + rounds * poll_delay
      → (poll E again missing (pos timeout) waited rounds w).0 ≢ waiting
  unfolding poll
  poll_ends zero waited w n p r h = absurd (omega arith)
  poll_ends (suc rounds) waited w n p r h =
      continue-ne-waiting _ _ _ _ (n w) (λ a v e. absurd (cc))
        λ e v.
          poll_on-ne-waiting (waited + poll_delay) _ e v p
            λ early u. poll_ends rounds (waited + poll_delay) u n p (omega arith) (omega arith)
