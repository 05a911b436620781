-- ===== src/Tests/Connection.antt =====
-- A connection that watches two keys again, and one with a full event channel.
use mydis_old.Client.Events.Connection.{
  channel_ids, Connection, Steps, stays, goes, sends_again, answers_again, start_rewatch, ready,
  starting, finished, receiving, delivering, answering, offering, noting, rewatch_request,
  has_suffix, find_channel, sends,
}
use mydis_old.Prelude.{ℕ, zero, suc, ◌≡◌, ◌≢◌, refl, true, false, List, [], ◌∷◌, codes, pos, beq}
use mydis_old.Watch.{Event}
use mydis_old.Client.Events.{watch_request, watched_key}
use mydis_old.Client.Events.Connection.Stuck.{start_rewatch_stuck}
use mydis_old.Client.Events.Connection.Requests.{rewatch_request-watched_key}
use mydis_old.Client.Events.Connection.Full.{
  IsFull, stays_unread, goes_unread, IsFull-UnreadSteps, is_take,
}
use mydis_old.Tests.{key_a, key_z}

abbrev pub two_keys : Connection
two_keys = record {
  watching = key_a ∷ key_z ∷ [];
  channels = [];
  new_id = pos 0;
  closing = false;
  callers = 0;
  opening = [];
  sender = ready;
  rewatch = starting;
  receiver = receiving;
}

-- The first key is watched again; the second is not taken.
abbrev first_key : Connection
first_key = record two_keys { sender = noting (rewatch_request key_a); rewatch = offering key_z [] }

first_key_lem : Steps (start_rewatch two_keys) first_key
first_key_lem =
    goes (goes stays (sends_again key_a (key_z ∷ []) true refl refl))
      (answers_again (rewatch_request key_a) true (key_z ∷ []) refl refl)

start_rewatch_stuck_example :
    (first_key.rewatch ≢ finished)
    × (first_key.watching ≡ two_keys.watching)
    × (channel_ids first_key ≡ channel_ids two_keys)
    × (first_key.closing ≡ two_keys.closing)
start_rewatch_stuck_example =
    start_rewatch_stuck two_keys first_key key_a key_z [] refl first_key_lem refl

rewatch_request-watched_key_example :
    (rewatch_request (watched_key (watch_request key_a true))
      ≡ watch_request (codes "a*_MYDIS_WITHPREFIX") true)
    × (rewatch_request (watched_key (watch_request key_a false)) ≡ watch_request key_a false)
unfolding has_suffix beq
rewatch_request-watched_key_example = rewatch_request-watched_key key_a

abbrev change : Event
change = record {
  kind = pos 0;
  current = record { key = key_a; value = [] };
  previous = record { key = key_a; value = [] };
}

abbrev changes : ℕ → List Event
changes zero = []
changes (suc n) = change ∷ changes n

abbrev no_room : Connection
no_room = record two_keys {
  channels = (pos 0, changes 100) ∷ [];
  receiver = delivering change (pos 0 ∷ []);
}

no_room-IsFull : IsFull (pos 0) change [] (changes 100) no_room
unfolding find_channel
no_room-IsFull = record { sending = refl; holding = refl; full = refl }

abbrev asked : Connection
asked = record no_room { sender = answering (watch_request key_z false) true; callers = 1 }

IsFull-UnreadSteps_example :
    IsFull (pos 0) change [] (changes 100) asked
    × (asked.watching ≡ no_room.watching)
    × (channel_ids asked ≡ channel_ids no_room)
    × (asked.closing ≡ no_room.closing)
unfolding is_take
IsFull-UnreadSteps_example =
    IsFull-UnreadSteps (pos 0) change [] (changes 100) no_room asked no_room-IsFull
      (goes_unread stays_unread (sends (watch_request key_z false) true refl) refl)
