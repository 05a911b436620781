-- ===== src/Client/Events/Connection/Held.antt =====
-- Where the goroutine that watches the keys again (client/client.go) waits with the read lock.

use mydis_old.Client.Events.Connection.{
  is_ready, update_channel, Connection, Sender, ready, ended, answering, noting, Rewatch, starting,
  finished, offering, awaiting, next_key, after_answer, read_locked, rewatch_locks,
}
use mydis_old.Prelude.{
  ℤ, eq_ℤ, map, ap, Bool-cases, ◌≡◌, ◌≢◌, refl, ◌⊎◌, inl, inr, true, false, Bool, ◌||◌, not, List,
  [], ◌∷◌, Bytes, arith,
}
use mydis_old.Watch.{Event, WatchRequest}

abbrev pub is_ended : Sender → Bool
is_ended ready = false
is_ended ended = true
is_ended (answering r sent) = false
is_ended (noting r) = false

abbrev pub is_noting : Sender → Bool
is_noting ready = false
is_noting ended = false
is_noting (answering r sent) = false
is_noting (noting r) = true

-- There are two keys left, or one that the sender will not take.
abbrev pub is_stuck : Rewatch → Sender → Bool
is_stuck starting s = is_ended s
is_stuck finished s = is_ended s
is_stuck (offering k []) s = is_ended s || is_noting s
is_stuck (offering k (j ∷ ks)) s = true
is_stuck (awaiting []) s = is_ended s
is_stuck (awaiting (j ∷ ks)) s = not (is_ready s)

pub is_stuck-ended : (g : Rewatch) → is_stuck g ended ≡ true
is_stuck-ended starting = refl
is_stuck-ended finished = refl
is_stuck-ended (offering k []) = refl
is_stuck-ended (offering k (j ∷ ks)) = refl
is_stuck-ended (awaiting []) = refl
is_stuck-ended (awaiting (j ∷ ks)) = refl

pub stuck_offer :
    (k : Bytes) (ks : List Bytes) (r : WatchRequest) (sent : Bool)
    → is_stuck (offering k ks) ready ≡ true
    → is_stuck (awaiting ks) (answering r sent) ≡ true
stuck_offer k [] r sent h = absurd (cc)
stuck_offer k (j ∷ ks) r sent h = refl

pub stuck_send :
    (g : Rewatch) (r : WatchRequest) (sent : Bool)
    → is_stuck g ready ≡ true
    → is_stuck g (answering r sent) ≡ true
stuck_send starting r sent h = absurd (cc)
stuck_send finished r sent h = absurd (cc)
stuck_send (offering k []) r sent h = absurd (cc)
stuck_send (offering k (j ∷ ks)) r sent h = refl
stuck_send (awaiting []) r sent h = absurd (cc)
stuck_send (awaiting (j ∷ ks)) r sent h = refl

pub stuck_answer_again :
    (ks : List Bytes) (r : WatchRequest) (sent : Bool)
    → is_stuck (awaiting ks) (answering r sent) ≡ true
    → is_stuck (next_key ks) (after_answer r sent) ≡ true
stuck_answer_again [] r sent h = absurd (cc)
stuck_answer_again (j ∷ ks) r false h = is_stuck-ended (offering j ks)
stuck_answer_again (j ∷ []) r true h = refl
stuck_answer_again (j ∷ i ∷ ks) r true h = refl

pub stuck_answer :
    (g : Rewatch) (r : WatchRequest) (sent : Bool)
    → is_stuck g (answering r sent) ≡ true
    → is_stuck g (after_answer r sent) ≡ true
stuck_answer g r false h = is_stuck-ended g
stuck_answer starting r true h = absurd (cc)
stuck_answer finished r true h = absurd (cc)
stuck_answer (offering k []) r true h = absurd (cc)
stuck_answer (offering k (j ∷ ks)) r true h = refl
stuck_answer (awaiting []) r true h = absurd (cc)
stuck_answer (awaiting (j ∷ ks)) r true h = refl

-- A goroutine that is stuck holds the read lock.
pub stuck_locks :
    (g : Rewatch) (s : Sender)
    → is_stuck g s ≡ true
    → (is_ended s ≡ true) ⊎ (rewatch_locks g ≡ true)
stuck_locks starting s h = inl h
stuck_locks finished s h = inl h
stuck_locks (offering k ks) s h = inr refl
stuck_locks (awaiting ks) s h = inr refl

pub ended_lem : (s : Sender) → is_ended s ≡ true → s ≡ ended
ended_lem ready h = absurd (cc)
ended_lem ended h = refl
ended_lem (answering r sent) h = absurd (cc)
ended_lem (noting r) h = absurd (cc)

pub not_ended :
    (c : Connection) (s : Sender) → c.sender ≡ s → is_ended s ≡ false → is_ended c.sender ≢ true
not_ended c s e n h = absurd (cc)

pub stuck_read_locked :
    (c : Connection)
    → is_stuck c.rewatch c.sender ≡ true
    → read_locked c ≡ false
    → is_ended c.sender ≡ true
stuck_read_locked c h f = elim (stuck_locks c.rewatch c.sender h) [
  | inl e ↦ e
  | inr l ↦ absurd (ground arith)
]

-- An event that goes in or out leaves the ids of the channels.
pub channel_ids-update_channel :
    (i : ℤ) (q : List Event) (cs : List (ℤ × List Event))
    → map (λ x. x.0) (update_channel i q cs) ≡ map (λ x. x.0) cs
unfolding update_channel
channel_ids-update_channel i q [] = refl
channel_ids-update_channel i q ((j, p) ∷ cs) = elim (Bool-cases (eq_ℤ j i)) [
  | inl y ↦ rw y (ap (λ l. j ∷ l) (channel_ids-update_channel i q cs))
  | inr n ↦ rw n (ap (λ l. j ∷ l) (channel_ids-update_channel i q cs))
]
