-- ===== src/Watch/Controller/Laws.antt =====
-- Theorems on the WatchController of mydis/watch.go.

use mathlib.Core.Path.{subst}
use mydis_old.Watch.Laws.{on_request-Synced, on_requests-Synced, IsWatchStreams, Synced, proper}
use mydis_old.Prelude.{
  ◌+ℤ◌, true, Bool-cases, inl, inr, eq_ℤ_iff, eq_ℤ_refl, wrap64-eq_of_IsInt64, two63, ℤ, pos,
  negsuc, eq_ℤ, ◌≡◌, refl, ℕ, zero, suc, ◌<◌, [], ◌∷◌, arith, none, some, ◌+64◌,
}
use mydis_old.Watch.{
  on_requests, WatchStreams, WatchRequest, Watcher, new_watcher, on_request, watch_end,
}
use mydis_old.Watch.Controller.{
  new_controller, unregister_all, Watchers, find_watcher, delete_watcher, WatchController, register,
  unregister, update_watcher, close_controller, Run, starts, opens, asks, closes,
}

-- An id that is given before the n-th.
abbrev IsGiven : ℕ → ℤ → Type 0
IsGiven n (pos k) = k < n
IsGiven n (negsuc k) = ⊥

module _ {S : WatchStreams} (IS : IsWatchStreams S) where
  -- The ids of a register are given and differ, and each Watcher is in step with its stream.
  abbrev pub AreWatchers : ℕ → Watchers S → Type 0
  AreWatchers n [] = Unit
  AreWatchers n ((i, w) ∷ ws) =
      IsGiven n i × (find_watcher S i ws ≡ none) × Synced IS w × AreWatchers n ws

  pub record IsController (n : ℕ) (c : WatchController S) : Type 0 where
    pub counts : c.next_id ≡ pos n
    pub free : find_watcher S c.next_id c.watchers ≡ none
    pub watching : AreWatchers n c.watchers

  find_watcher-delete_self :
      (i : ℤ) (ws : Watchers S) → find_watcher S i (delete_watcher S i ws) ≡ none
  unfolding find_watcher delete_watcher
  find_watcher-delete_self i [] = refl
  find_watcher-delete_self i ((j, w) ∷ ws) = ground (arith, find_watcher-delete_self i ws)

  find_watcher-delete_none :
      (i j : ℤ) (ws : Watchers S)
      → find_watcher S i ws ≡ none
      → find_watcher S i (delete_watcher S j ws) ≡ none
  unfolding find_watcher delete_watcher
  find_watcher-delete_none i j [] e = refl
  find_watcher-delete_none i j ((k, w) ∷ ws) e = ground (arith, find_watcher-delete_none i j ws)

  delete_watcher-none :
      (i : ℤ) (ws : Watchers S) → find_watcher S i ws ≡ none → delete_watcher S i ws ≡ ws
  unfolding find_watcher delete_watcher
  delete_watcher-none i [] e = refl
  delete_watcher-none i ((k, w) ∷ ws) e = ground (arith, delete_watcher-none i ws)

  AreWatchers-delete :
      (n : ℕ) (j : ℤ) (ws : Watchers S) → AreWatchers n ws → AreWatchers n (delete_watcher S j ws)
  unfolding delete_watcher
  AreWatchers-delete n j [] h = tt
  AreWatchers-delete n j ((k, w) ∷ ws) (g, f, sy, h) = elim (Bool-cases (eq_ℤ k j)) [
    | inl e ↦ rw e (AreWatchers-delete n j ws h)
    | inr e ↦ rw e (g, find_watcher-delete_none k j ws f, sy, AreWatchers-delete n j ws h)
  ]

  -- An id that is not given yet is no one's.
  find_watcher-fresh :
      (n : ℕ) (ws : Watchers S) → AreWatchers n ws → find_watcher S (pos n) ws ≡ none
  unfolding find_watcher
  find_watcher-fresh n [] h = refl
  find_watcher-fresh n ((pos k, w) ∷ ws) (g, f, sy, h) = ground (arith, find_watcher-fresh n ws h)
  find_watcher-fresh n ((negsuc k, w) ∷ ws) (g, f, sy, h) = absurd g

  IsGiven-suc : (n : ℕ) (i : ℤ) → IsGiven n i → IsGiven (suc n) i
  IsGiven-suc n (pos k) h = omega arith
  IsGiven-suc n (negsuc k) h = h

  AreWatchers-suc : (n : ℕ) (ws : Watchers S) → AreWatchers n ws → AreWatchers (suc n) ws
  AreWatchers-suc n [] h = tt
  AreWatchers-suc n ((i, w) ∷ ws) (g, f, sy, h) = (IsGiven-suc n i g, f, sy, AreWatchers-suc n ws h)

  found-IsGiven :
      (n : ℕ) (i : ℤ) (w : Watcher S) (ws : Watchers S)
      → find_watcher S i ws ≡ some w
      → AreWatchers n ws
      → IsGiven n i × Synced IS w
  unfolding find_watcher
  found-IsGiven n i w [] e h = absurd (cc)
  found-IsGiven n i w ((j, v) ∷ ws) e (g, f, sy, h) = elim (Bool-cases (eq_ℤ j i)) [
    | inl p ↦
        let same : v ≡ w = ground arith in
        (subst (IsGiven n) (eq_ℤ_iff j i p) g, subst (λ (u : Watcher S). Synced IS u) same sy)
    | inr p ↦ found-IsGiven n i w ws (ground arith) h
  ]

  IsController-of_parts :
      (n : ℕ) (c : WatchController S)
      → c.next_id ≡ pos n
      → AreWatchers n c.watchers
      → IsController n c
  IsController-of_parts n c e h = record {
    counts = e;
    free = rw e (find_watcher-fresh n c.watchers h);
    watching = h;
  }

  new_watcher-Synced : Synced IS (new_watcher S)
  unfolding on_requests
  new_watcher-Synced = on_requests-Synced IS [] tt

  next_pos : (n : ℕ) → (pos n +ℤ pos 1) ≡ pos (suc n)
  unfolding ◌+ℤ◌
  next_pos n = ground arith

  next_id_lem :
      (n : ℕ) (c : WatchController S)
      → suc n < two63
      → c.next_id ≡ pos n
      → c.next_id +64 pos 1 ≡ pos (suc n)
  next_id_lem n c small e = rw (e, next_pos n) (wrap64-eq_of_IsInt64 (pos (suc n)) small)

  register-IsController :
      (n : ℕ) (c : WatchController S)
      → suc n < two63
      → IsController n c
      → IsController (suc n) (register S c)
  register-IsController n c small h =
      let others : AreWatchers n (delete_watcher S c.next_id c.watchers) =
        AreWatchers-delete n c.next_id c.watchers h.watching in
      IsController-of_parts (suc n) (register S c) (next_id_lem n c small h.counts) (
        rw h.counts (omega arith),
        find_watcher-delete_self c.next_id c.watchers,
        new_watcher-Synced,
        AreWatchers-suc n _ others,
      )

  update_watcher-IsController :
      (n : ℕ) (c : WatchController S) (i : ℤ) (w : Watcher S) (r : WatchRequest)
      → find_watcher S i c.watchers ≡ some w
      → proper r.key (watch_end r) ≡ true
      → IsController n c
      → IsController n (update_watcher S i (on_request S r w) c)
  update_watcher-IsController n c i w r e p h =
      let (g, sy) = found-IsGiven n i w c.watchers e h.watching in
      IsController-of_parts n (update_watcher S i (on_request S r w) c) h.counts (
        g,
        find_watcher-delete_self i c.watchers,
        on_request-Synced IS r w p sy,
        AreWatchers-delete n i c.watchers h.watching,
      )

  -- After any sequence of steps of a WatchController in which fewer than 2^63 Watchers are made,
  -- and whose requests are each on one key or on bounds in their order: nextID is the number of
  -- Watchers made and no Watcher has it, the registered Watchers have different ids below it, and
  -- the etcd stream of each watches exactly the intervals of the requests in its map.
  pub Run-IsController : (n : ℕ) (c : WatchController S) → n < two63 → Run S n c → IsController n c
  Run-IsController n c small starts = IsController-of_parts zero (new_controller S) refl tt
  Run-IsController n c small (opens {n = m} {c = d} r) =
      register-IsController m d small (Run-IsController m d (omega arith) r)
  Run-IsController n c small (asks {c = d} i w q r f p) =
      update_watcher-IsController n d i w q f p (Run-IsController n d small r)
  Run-IsController n c small (closes {c = d} i r) =
      let h = Run-IsController n d small r in
      IsController-of_parts n (unregister S i d) h.counts
        (AreWatchers-delete n i d.watchers h.watching)

  unregister_all-Run :
      (n : ℕ) (es : Watchers S) (c : WatchController S)
      → Run S n c
      → Run S n (unregister_all S es c)
  unfolding unregister_all
  unregister_all-Run n [] c r = r
  unregister_all-Run n ((i, w) ∷ es) c r = unregister_all-Run n es _ (closes i r)

  delete_watcher-head :
      (i : ℤ) (w : Watcher S) (ws : Watchers S)
      → find_watcher S i ws ≡ none
      → delete_watcher S i ((i, w) ∷ ws) ≡ ws
  unfolding delete_watcher
  delete_watcher-head i w ws f = rw (eq_ℤ_refl i) (delete_watcher-none i ws f)

  unregister_all-nil :
      (n : ℕ) (es : Watchers S) (c : WatchController S)
      → AreWatchers n es
      → c.watchers ≡ es
      → (unregister_all S es c).watchers ≡ []
  unfolding unregister_all
  unregister_all-nil n [] c h e = e
  unregister_all-nil n ((i, w) ∷ es) c (g, f, sy, h) e =
      unregister_all-nil n es (unregister S i c) h (rw e (delete_watcher-head i w es f))

  -- After any sequence of steps of a WatchController in which fewer than 2^63 Watchers are made,
  -- and whose requests are each on one key or on bounds in their order, Close leaves no Watcher in
  -- the register, and is itself a sequence of such steps.
  pub close_controller-nil :
      (n : ℕ) (c : WatchController S)
      → n < two63
      → Run S n c
      → Run S n (close_controller S c) × ((close_controller S c).watchers ≡ [])
  unfolding close_controller
  close_controller-nil n c small r = (
    unregister_all-Run n c.watchers c r,
    unregister_all-nil n c.watchers c (Run-IsController n c small r).watching refl,
  )
