-- ===== src/Client/Events/Connection/Idle.antt =====
-- Calls of Watch, Unwatch and Close on a connection that nobody else uses.
use mydis_old.Prelude.{
  ap, ◌∙◌, ◌≡◌, ◌≢◌, refl, true, false, Bool, not, none, some, [], ◌∷◌, if◌then◌else◌,
}
use mydis_old.Watch.{WatchRequest, WatchStreams}
use mydis_old.Client.Events.Connection.{Connection, ready, read_locked}
use mydis_old.Client.Events.Connection.Calls.{
  Others, run_sender, takes_request, await, Link, watch_call, close_call,
}

-- The sender is before its select, and no goroutine holds the read lock.
pub record IsIdle (c : Connection) : Type 0 where
  pub is_free : read_locked c ≡ false
  pub before_select : c.sender ≡ ready

run_sender_lem : (c : Connection) → c.sender ≡ ready → run_sender c ≡ c
run_sender_lem c e = rw e refl

await-now :
    (allowed : Connection → Bool) (turns : Others) (c : Connection)
    → c.sender ≡ ready
    → allowed c ≡ true
    → await allowed turns c ≡ some (c, turns)
unfolding await
await-now allowed [] c e h =
    ap (λ d. if allowed d then some (d, []) else none) (run_sender_lem c e) ∙ rw h refl
await-now allowed (turn ∷ turns) c e h =
    ap
      (λ d. if allowed d then some (d, turn ∷ turns) else await allowed turns (turn (run_sender c)))
      (run_sender_lem c e)
    ∙ rw h refl

module _ (S : WatchStreams) where
  pub watch_call-ne-none :
      (r : WatchRequest) (l : Link S) → IsIdle l.connection → watch_call S r l ≢ none
  unfolding watch_call
  watch_call-ne-none r l h =
      rw (await-now takes_request l.others l.connection h.before_select (rw h.before_select refl))
        (λ e. absurd (cc))

  pub close_call-ne-none : (l : Link S) → IsIdle l.connection → close_call S l ≢ none
  unfolding close_call
  close_call-ne-none l h =
      rw
        (
          await-now (λ c. not (read_locked c)) l.others l.connection h.before_select
              (rw h.is_free refl),
          await-now takes_request l.others (record l.connection { closing = true }) h.before_select
              (rw h.before_select refl),
        )
        (λ e. absurd (cc))
