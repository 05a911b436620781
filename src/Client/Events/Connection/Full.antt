-- ===== src/Client/Events/Connection/Full.antt =====
-- Event channels of client/client.go that are full.
use mathlib.Core.Path.{subst}
use mydis_old.Prelude.{
  ◌++◌, ◌≡◌, ◌≢◌, refl, sym, ap, ◌∙◌, inl, inr, true, false, Bool, Bool-cases, some, List, [], ◌∷◌,
  arith, ℤ, eq_ℤ, eq_ℤ_iff, length, ltb,
}
use mydis_old.Client.Events.Connection.{
  channel_ids, reads_id, counts_id, Connection, Step, rewatches, sends_again, sends, answers_again,
  answers, notes, opens, shuts, receives, delivers, delivered, takes, breaks, hangs_up, closes,
  ends, find_channel, update_channel, delivering, read_locked, receiver_locks,
}
use mydis_old.Client.Events.Connection.Held.{channel_ids-update_channel}
use mydis_old.Watch.{Event}

-- A step in which an event is received from the channel.
unfoldable pub is_take : {c d : Connection} → ℤ → Step c d → Bool
is_take i (takes e j q f) = eq_ℤ j i
is_take i s = false

-- Steps in which none is.
pub data UnreadSteps (i : ℤ) : Connection → Connection → Type 0 where
  stays_unread : {c : Connection} → UnreadSteps i c c
  goes_unread :
      {c d e : Connection}
      → UnreadSteps i c d
      → (s : Step d e) → is_take i s ≡ false
      → UnreadSteps i c e

find_channel-update_channel :
    (i j : ℤ) (q : List Event) (cs : List (ℤ × List Event))
    → eq_ℤ j i ≡ false
    → find_channel i (update_channel j q cs) ≡ find_channel i cs
unfolding find_channel update_channel
find_channel-update_channel i j q [] n = refl
find_channel-update_channel i j q ((k, p) ∷ cs) n = elim (Bool-cases (eq_ℤ k j)) [
  | inl y ↦
      let m : eq_ℤ k i ≡ false = subst (λ x. eq_ℤ x i ≡ false) (sym (eq_ℤ_iff k j y)) n in
      rw (y, m) (find_channel-update_channel i j q cs n)
  | inr m ↦ rw m (ground (arith, find_channel-update_channel i j q cs n))
]

-- The receiver waits to send an event to the channel, which has no room for it.
pub record IsFull (i : ℤ) (e : Event) (ids : List ℤ) (q : List Event) (c : Connection)
    : Type 0 where
  pub sending : c.receiver ≡ delivering e (i ∷ ids)
  pub holding : find_channel i c.channels ≡ some q
  pub full : ltb (length q) 100 ≡ false

IsFull-keeps :
    {i : ℤ} {e : Event} {ids : List ℤ} {q : List Event} (c d : Connection)
    → d.receiver ≡ c.receiver
    → find_channel i d.channels ≡ find_channel i c.channels
    → IsFull i e ids q c
    → IsFull i e ids q d
IsFull-keeps c d f g h = record { sending = f ∙ h.sending; holding = g ∙ h.holding; full = h.full }

-- A receiver that waits holds the read lock.
full_locks :
    {i : ℤ} {e : Event} {ids : List ℤ} {q : List Event} (c : Connection)
    → IsFull i e ids q c
    → read_locked c ≢ false
full_locks {i} {e} {ids} c h f = absurd (ground (arith, ap receiver_locks h.sending))

IsFull-delivers :
    {i : ℤ} {e : Event} {ids : List ℤ} {q : List Event} (c : Connection) (x : Event) (j : ℤ)
    (js : List ℤ) (p : List Event)
    → c.receiver ≡ delivering x (j ∷ js)
    → find_channel j c.channels ≡ some p
    → ltb (length p) 100 ≡ true
    → ¬ IsFull i e ids q c
IsFull-delivers c x j js p f g l h = absurd (cc (h.sending, h.holding, h.full, f, g, l))

step-IsFull :
    {i : ℤ} {e : Event} {ids : List ℤ} {q : List Event} (c d : Connection) (s : Step c d)
    → is_take i s ≡ false
    → IsFull i e ids q c
    → IsFull i e ids q d
unfolding is_take
step-IsFull c d (rewatches f) n h = IsFull-keeps c d refl refl h
step-IsFull c d (sends_again k ks sent f g) n h = IsFull-keeps c d refl refl h
step-IsFull c d (sends r sent f) n h = IsFull-keeps c d refl refl h
step-IsFull c d (answers_again r sent ks f g) n h = IsFull-keeps c d refl refl h
step-IsFull c d (answers r sent m f g) n h = IsFull-keeps c d refl refl h
step-IsFull c d (notes r f g) n h = IsFull-keeps c d refl refl h
step-IsFull c d reads_id n h = IsFull-keeps c d refl refl h
step-IsFull c d (counts_id j b y f) n h = IsFull-keeps c d refl refl h
step-IsFull c d (opens j b y g f) n h = absurd (full_locks c h f)
step-IsFull c d (shuts j f) n h = absurd (full_locks c h f)
step-IsFull c d (receives x f) n h = absurd (cc (h.sending, f))
step-IsFull c d (delivers x j ids p f g l) n h = absurd (IsFull-delivers c x j ids p f g l h)
step-IsFull c d (delivered x f) n h = absurd (cc (h.sending, f))
step-IsFull {i} c d (takes x j p f) n h =
    IsFull-keeps c d refl (find_channel-update_channel i j p c.channels n) h
step-IsFull c d (breaks f) n h = absurd (cc (h.sending, f))
step-IsFull c d (hangs_up f g) n h = IsFull-keeps c d refl refl h
step-IsFull c d (closes f) n h = IsFull-keeps c d refl refl h
step-IsFull c d (ends f g) n h = IsFull-keeps c d refl refl h

step-unchanged :
    {i : ℤ} {e : Event} {ids : List ℤ} {q : List Event} (c d : Connection)
    → Step c d
    → IsFull i e ids q c
    → (d.watching ≡ c.watching) × (channel_ids d ≡ channel_ids c) × (d.closing ≡ c.closing)
step-unchanged c d (rewatches f) h = (refl, refl, refl)
step-unchanged c d (sends_again k ks sent f g) h = (refl, refl, refl)
step-unchanged c d (sends r sent f) h = (refl, refl, refl)
step-unchanged c d (answers_again r sent ks f g) h = (refl, refl, refl)
step-unchanged c d (answers r sent m f g) h = (refl, refl, refl)
step-unchanged c d (notes r f g) h = absurd (full_locks c h g)
step-unchanged c d reads_id h = (refl, refl, refl)
step-unchanged c d (counts_id j b y f) h = (refl, refl, refl)
step-unchanged c d (opens j b y g f) h = absurd (full_locks c h f)
step-unchanged c d (shuts j f) h = absurd (full_locks c h f)
step-unchanged c d (receives x f) h = (refl, refl, refl)
step-unchanged c d (delivers x j ids p f g l) h =
    (refl, channel_ids-update_channel j (p ++ x ∷ []) c.channels, refl)
step-unchanged c d (delivered x f) h = (refl, refl, refl)
step-unchanged c d (takes x j p f) h = (refl, channel_ids-update_channel j p c.channels, refl)
step-unchanged c d (breaks f) h = (refl, refl, refl)
step-unchanged c d (hangs_up f g) h = (refl, refl, refl)
step-unchanged c d (closes f) h = absurd (full_locks c h f)
step-unchanged c d (ends f g) h = (refl, refl, refl)

-- Where the receiver waits to send an event to an event channel that holds 100 events, then after
-- any steps in which no event is received from that channel, it still waits and the channel is
-- still open and full, and the watched keys, the ids of the open event channels and the flag of
-- Close are as they were: no request is noted, and no NewEventChannel, CloseEventChannel or Close
-- gets the lock.
pub IsFull-UnreadSteps :
    (i : ℤ) (e : Event) (ids : List ℤ) (q : List Event) (c d : Connection)
    → IsFull i e ids q c
    → UnreadSteps i c d
    → IsFull i e ids q d
      × (d.watching ≡ c.watching)
      × (channel_ids d ≡ channel_ids c)
      × (d.closing ≡ c.closing)
IsFull-UnreadSteps i e ids q c d h stays_unread = (h, refl, refl, refl)
IsFull-UnreadSteps i e ids q c d h (goes_unread {d = m} run s n) =
    let (k, a, b, f) = IsFull-UnreadSteps i e ids q c m h run in
    let (a', b', f') = step-unchanged m d s k in (step-IsFull m d s n k, a' ∙ a, b' ∙ b, f' ∙ f)
