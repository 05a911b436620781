-- ===== src/Client/Events/Connection/Stuck.antt =====
-- The goroutine of client/client.go that watches the keys again after a reconnect.
use mathlib.Core.Path.{subst}
use mydis_old.Prelude.{
  [], ◌++◌, ◌≡◌, ◌≢◌, refl, sym, ◌∙◌, ◌⊎◌, inl, inr, true, false, List, ◌∷◌, Bytes,
}
use mydis_old.Client.Events.Connection.{
  channel_ids, reads_id, counts_id, Connection, Sender, ready, answering, noting, Rewatch, starting,
  finished, offering, awaiting, Step, rewatches, sends_again, sends, answers_again, answers, notes,
  opens, shuts, receives, delivers, delivered, takes, breaks, hangs_up, closes, ends, Steps, stays,
  goes, start_rewatch, next_key, read_locked, rewatch_request,
}
use mydis_old.Client.Events.Connection.Held.{
  channel_ids-update_channel, is_ended, is_stuck, is_stuck-ended, stuck_offer, stuck_send,
  stuck_answer_again, stuck_answer, ended_lem, not_ended, stuck_read_locked,
}

-- What only a holder of the write lock changes is as it was, unless the sender has returned.
abbrev pub Kept : Connection → Connection → Type 0
Kept c d =
    (is_ended d.sender ≡ true)
    ⊎ ((d.watching ≡ c.watching) × (channel_ids d ≡ channel_ids c) × (d.closing ≡ c.closing))

stuck_at :
    (c : Connection) (g : Rewatch) (s : Sender)
    → c.rewatch ≡ g
    → c.sender ≡ s
    → is_stuck c.rewatch c.sender ≡ true
    → is_stuck g s ≡ true
stuck_at c g s e f h =
    subst (λ x. is_stuck x s ≡ true) e (subst (λ x. is_stuck c.rewatch x ≡ true) f h)

stuck_sends :
    (c : Connection) (s : Sender)
    → c.sender ≡ s
    → is_stuck c.rewatch c.sender ≡ true
    → is_stuck c.rewatch s ≡ true
stuck_sends c s f h = stuck_at c c.rewatch s refl f h

-- Where it is stuck, the write lock is free only after the sender has returned.
stuck_free :
    (c : Connection) (d : Connection)
    → is_stuck c.rewatch c.sender ≡ true
    → read_locked c ≡ false
    → c.sender ≡ d.sender
    → Kept c d
stuck_free c d h f e = inl (subst (λ s. is_ended s ≡ true) e (stuck_read_locked c h f))

step-is_stuck :
    (c d : Connection)
    → Step c d
    → is_stuck c.rewatch c.sender ≡ true
    → is_stuck d.rewatch d.sender ≡ true
step-is_stuck c d (rewatches e) h =
    subst (λ s. is_stuck (next_key c.watching) s ≡ true)
      (sym (ended_lem c.sender (stuck_at c starting c.sender e refl h)))
      (is_stuck-ended (next_key c.watching))
step-is_stuck c d (sends_again k ks sent e f) h =
    stuck_offer k ks (rewatch_request k) sent (stuck_at c (offering k ks) ready e f h)
step-is_stuck c d (sends r sent e) h = stuck_send c.rewatch r sent (stuck_sends c ready e h)
step-is_stuck c d (answers_again r sent ks e f) h =
    stuck_answer_again ks r sent (stuck_at c (awaiting ks) (answering r sent) f e h)
step-is_stuck c d (answers r sent n e f) h =
    stuck_answer c.rewatch r sent (stuck_sends c (answering r sent) e h)
step-is_stuck c d (notes r e f) h = absurd (not_ended c (noting r) e refl (stuck_read_locked c h f))
step-is_stuck c d reads_id h = h
step-is_stuck c d (counts_id i b x f) h = h
step-is_stuck c d (opens i b x g f) h = h
step-is_stuck c d (shuts i f) h = h
step-is_stuck c d (receives e f) h = h
step-is_stuck c d (delivers e i ids q f g l) h = h
step-is_stuck c d (delivered e f) h = h
step-is_stuck c d (takes e i q f) h = h
step-is_stuck c d (breaks f) h = h
step-is_stuck c d (hangs_up f g) h = is_stuck-ended c.rewatch
step-is_stuck c d (closes f) h = h
step-is_stuck c d (ends f g) h = is_stuck-ended c.rewatch

step-Kept : (c d : Connection) → Step c d → is_stuck c.rewatch c.sender ≡ true → Kept c d
step-Kept c d (rewatches e) h = inr (refl, refl, refl)
step-Kept c d (sends_again k ks sent e f) h = inr (refl, refl, refl)
step-Kept c d (sends r sent e) h = inr (refl, refl, refl)
step-Kept c d (answers_again r sent ks e f) h = inr (refl, refl, refl)
step-Kept c d (answers r sent n e f) h = inr (refl, refl, refl)
step-Kept c d (notes r e f) h = absurd (not_ended c (noting r) e refl (stuck_read_locked c h f))
step-Kept c d reads_id h = inr (refl, refl, refl)
step-Kept c d (counts_id i b x f) h = inr (refl, refl, refl)
step-Kept c d (opens i b x g f) h = stuck_free c d h f refl
step-Kept c d (shuts i f) h = stuck_free c d h f refl
step-Kept c d (receives e f) h = inr (refl, refl, refl)
step-Kept c d (delivers e i ids q f g l) h =
    inr (refl, channel_ids-update_channel i (q ++ e ∷ []) c.channels, refl)
step-Kept c d (delivered e f) h = inr (refl, refl, refl)
step-Kept c d (takes e i q f) h = inr (refl, channel_ids-update_channel i q c.channels, refl)
step-Kept c d (breaks f) h = inr (refl, refl, refl)
step-Kept c d (hangs_up f g) h = inl refl
step-Kept c d (closes f) h = stuck_free c d h f refl
step-Kept c d (ends f g) h = inl refl

step-is_ended : (c d : Connection) → Step c d → is_ended c.sender ≡ true → is_ended d.sender ≡ true
step-is_ended c d (rewatches e) h = h
step-is_ended c d (sends_again k ks sent e f) h = absurd (not_ended c ready f refl h)
step-is_ended c d (sends r sent e) h = absurd (not_ended c ready e refl h)
step-is_ended c d (answers_again r sent ks e f) h = absurd (not_ended c (answering r sent) e refl h)
step-is_ended c d (answers r sent n e f) h = absurd (not_ended c (answering r sent) e refl h)
step-is_ended c d (notes r e f) h = absurd (not_ended c (noting r) e refl h)
step-is_ended c d reads_id h = h
step-is_ended c d (counts_id i b x f) h = h
step-is_ended c d (opens i b x g f) h = h
step-is_ended c d (shuts i f) h = h
step-is_ended c d (receives e f) h = h
step-is_ended c d (delivers e i ids q f g l) h = h
step-is_ended c d (delivered e f) h = h
step-is_ended c d (takes e i q f) h = h
step-is_ended c d (breaks f) h = h
step-is_ended c d (hangs_up f g) h = refl
step-is_ended c d (closes f) h = h
step-is_ended c d (ends f g) h = refl

-- It stays stuck, and what it keeps others from changing stays.
Steps-is_stuck :
    (c d : Connection)
    → Steps c d
    → is_stuck c.rewatch c.sender ≡ true
    → (is_stuck d.rewatch d.sender ≡ true) × Kept c d
Steps-is_stuck c d stays h = (h, inr (refl, refl, refl))
Steps-is_stuck c d (goes {d = m} run s) h =
    let (k, kept) = Steps-is_stuck c m run h in
    (
      step-is_stuck m d s k,
      elim kept [
        | inl e ↦ inl (step-is_ended m d s e)
        | inr (a, b, f) ↦ elim (step-Kept m d s k) [
          | inl e ↦ inl e
          | inr (a', b', f') ↦ inr (a' ∙ a, b' ∙ b, f' ∙ f)
        ]
      ],
    )

finished_ended :
    (c : Connection)
    → is_stuck c.rewatch c.sender ≡ true
    → is_ended c.sender ≡ false
    → c.rewatch ≢ finished
finished_ended c h n e = absurd (cc (stuck_at c finished c.sender e refl h, n))

start_rewatch-is_stuck :
    (c : Connection) (k j : Bytes) (ks : List Bytes)
    → c.watching ≡ k ∷ j ∷ ks
    → is_stuck (start_rewatch c).rewatch (start_rewatch c).sender ≡ true
start_rewatch-is_stuck c k j ks e = subst (λ l. is_stuck (next_key l) c.sender ≡ true) (sym e) refl

-- Deadlock after a reconnect: once the goroutine that watches the keys again has taken the lock
-- with two or more keys to watch, then after any steps of the connection by which its sender has
-- not returned, that goroutine has not finished, and the watched keys, the ids of the open event
-- channels and the flag of Close are as they were: no request is noted, and no NewEventChannel,
-- CloseEventChannel or Close gets the lock.
pub start_rewatch_stuck :
    (c d : Connection) (k j : Bytes) (ks : List Bytes)
    → c.watching ≡ k ∷ j ∷ ks
    → Steps (start_rewatch c) d
    → is_ended d.sender ≡ false
    → (d.rewatch ≢ finished)
      × (d.watching ≡ c.watching)
      × (channel_ids d ≡ channel_ids c)
      × (d.closing ≡ c.closing)
start_rewatch_stuck c d k j ks e run n =
    let (h, kept) = Steps-is_stuck (start_rewatch c) d run (start_rewatch-is_stuck c k j ks e) in
    elim kept [ inl q ↦ absurd (cc) | inr (a, b, f) ↦ (finished_ended d h n, a, b, f) ]
