-- ===== src/Watch/Controller.antt =====
-- The WatchController of mydis/watch.go: its register of Watchers, and the steps that the
-- processes of its Watchers make in any order.
pub mod Laws
use mydis_old.Prelude.{
  ℤ, pos, negsuc, eq_ℤ, ◌+64◌, ◌≡◌, true, Option, none, some, List, [], ◌∷◌, if◌then◌else◌, ℕ, zero,
  suc,
}
use mydis_old.Watch.Laws.{proper}
use mydis_old.Watch.{WatchStreams, WatchRequest, Watcher, new_watcher, on_request, watch_end}

module _ (S : WatchStreams) where
  -- A Go map[int64]*Watcher.
  abbrev pub Watchers : Type 0
  Watchers = List (ℤ × Watcher S)

  unfoldable pub find_watcher : ℤ → Watchers → Option (Watcher S)
  find_watcher i [] = none
  find_watcher i ((j, w) ∷ ws) = let rest = find_watcher i ws in if eq_ℤ j i then some w else rest

  -- delete(w.watchers, id)
  unfoldable pub delete_watcher : ℤ → Watchers → Watchers
  delete_watcher i [] = []
  delete_watcher i ((j, w) ∷ ws) =
      let rest = delete_watcher i ws in if eq_ℤ j i then rest else (j, w) ∷ rest

  abbrev pub assign_watcher : ℤ → Watcher S → Watchers → Watchers
  assign_watcher i w ws = (i, w) ∷ delete_watcher i ws

  pub record WatchController : Type 0 where
    pub watchers : Watchers
    pub next_id : ℤ

  -- NewWatchController
  abbrev pub new_controller : WatchController
  new_controller = record { watchers = []; next_id = pos 0 }

  -- NewWatcher
  abbrev pub register : WatchController → WatchController
  register c = record {
    watchers = assign_watcher c.next_id (new_watcher S) c.watchers;
    next_id = c.next_id +64 pos 1;
  }

  -- What follows the end of a background process.
  abbrev pub unregister : ℤ → WatchController → WatchController
  unregister i c = record c { watchers = delete_watcher i c.watchers }

  -- A Watcher is a pointer: what its process does is seen through the register.
  abbrev pub update_watcher : ℤ → Watcher S → WatchController → WatchController
  update_watcher i w c = record c { watchers = assign_watcher i w c.watchers }

  -- The Watchers are collected first and closed then.
  unregister_all : Watchers → WatchController → WatchController
  unregister_all [] c = c
  unregister_all ((i, w) ∷ ws) c = unregister_all ws (unregister i c)

  -- Close of the WatchController, when the processes of its Watchers have ended.
  unfoldable pub close_controller : WatchController → WatchController
  unfolding unregister_all
  close_controller c = unregister_all c.watchers c

  -- The steps: a client comes, the process of a Watcher takes a request on one key or on bounds in their order, or ends. The reading of events changes
  -- no state. The count is that of the Watchers made so far.
  pub data Run : ℕ → WatchController → Type 0 where
    starts : Run zero new_controller
    opens : {n : ℕ} {c : WatchController} → Run n c → Run (suc n) (register c)
    asks :
        {n : ℕ} {c : WatchController} (i : ℤ) (w : Watcher S) (r : WatchRequest)
        → Run n c
        → find_watcher i c.watchers ≡ some w
        → proper r.key (watch_end r) ≡ true
        → Run n (update_watcher i (on_request S r w) c)
    closes : {n : ℕ} {c : WatchController} (i : ℤ) → Run n c → Run n (unregister i c)
