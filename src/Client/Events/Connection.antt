-- ===== src/Client/Events/Connection.antt =====
-- The background process of client/client.go and what runs beside it on one connection: the goroutine
-- that watches the keys again, the receiver, calls of Watch and Unwatch, event channels and Close.
pub mod Held
pub mod Calls
pub mod Idle
pub mod Stuck
pub mod Full
pub mod Requests
use mydis_old.Prelude.{
  ℕ, suc, ◌≡◌, ◌<◌, true, false, Bool, ◌||◌, Option, none, some, List, [], ◌∷◌, ◌++◌, map, Bytes,
  codes, beq, if◌then◌else◌, ℤ, pos, eq_ℤ, ◌+64◌, length, ltb,
}
use mydis_old.Watch.{WatchRequest, Event}
use mydis_old.Client.Events.{watch_request, note_request}

-- The sender: before select; before it answers on resCh, with the result of Send; before it takes
-- the lock to note the request; returned.
pub data Sender : Type 0 where
  ready ended : Sender
  answering : WatchRequest → Bool → Sender
  noting : WatchRequest → Sender

abbrev pub is_ready : Sender → Bool
is_ready ready = true
is_ready ended = false
is_ready (answering r sent) = false
is_ready (noting r) = false

-- The goroutine that watches again: before it takes the lock; sending a request on reqCh, with the
-- keys behind it; waiting on resCh; returned.
pub data Rewatch : Type 0 where
  starting finished : Rewatch
  offering : Bytes → List Bytes → Rewatch
  awaiting : List Bytes → Rewatch

-- The receiver: before Recv; sending an event to the channels that are left; before it writes to
-- closeCh.
pub data Receiver : Type 0 where
  receiving broken : Receiver
  delivering : Event → List ℤ → Receiver

-- A call of NewEventChannel, with its id: before `c.newID++`, and before it takes the lock.
pub data Opening : Type 0 where
  counting registering : ℤ → Opening

-- A channel has the events that were sent and not yet received. `callers` is the number of the calls
-- of Watch and Unwatch that wait on resCh; `opening` has the calls of NewEventChannel.
pub record Connection : Type 0 where
  pub watching : List Bytes
  pub channels : List (ℤ × List Event)
  pub new_id : ℤ
  pub closing : Bool
  pub callers : ℕ
  pub opening : List Opening
  pub sender : Sender
  pub rewatch : Rewatch
  pub receiver : Receiver

-- The read lock of c.lock is held for the whole loop over c.watching, and over c.watchers.
abbrev pub rewatch_locks : Rewatch → Bool
rewatch_locks starting = false
rewatch_locks finished = false
rewatch_locks (offering k ks) = true
rewatch_locks (awaiting ks) = true

abbrev pub receiver_locks : Receiver → Bool
receiver_locks receiving = false
receiver_locks broken = false
receiver_locks (delivering e ids) = true

abbrev pub read_locked : Connection → Bool
read_locked c = rewatch_locks c.rewatch || receiver_locks c.receiver

-- strings.HasSuffix
unfoldable pub has_suffix : Bytes → Bytes → Bool
has_suffix [] suffix = beq [] suffix
has_suffix (b ∷ bs) suffix = beq (b ∷ bs) suffix || has_suffix bs suffix

-- The request for a key of c.watching.
unfoldable pub rewatch_request : Bytes → WatchRequest
rewatch_request key = watch_request key (has_suffix key (codes "*_MYDIS_WITHPREFIX"))

abbrev pub next_key : List Bytes → Rewatch
next_key [] = finished
next_key (k ∷ ks) = offering k ks

abbrev pub start_rewatch : Connection → Connection
start_rewatch c = record c { rewatch = next_key c.watching }

-- After the answer the sender returns where Send failed.
abbrev pub after_answer : WatchRequest → Bool → Sender
after_answer r false = ended
after_answer r true = noting r

unfoldable pub find_channel : ℤ → List (ℤ × List Event) → Option (List Event)
find_channel i [] = none
find_channel i ((j, q) ∷ cs) = let rest = find_channel i cs in if eq_ℤ j i then some q else rest

unfoldable pub delete_channel : ℤ → List (ℤ × List Event) → List (ℤ × List Event)
delete_channel i [] = []
delete_channel i ((j, q) ∷ cs) =
    let rest = delete_channel i cs in if eq_ℤ j i then rest else (j, q) ∷ rest

-- What a channel holds after an event went in or out; the channel is a pointer.
unfoldable pub update_channel : ℤ → List Event → List (ℤ × List Event) → List (ℤ × List Event)
update_channel i q [] = []
update_channel i q ((j, p) ∷ cs) =
    let rest = update_channel i q cs in if eq_ℤ j i then (j, q) ∷ rest else (j, p) ∷ rest

-- NewEventChannel before it takes the lock: the id is read, and the next one is counted.
abbrev pub read_new_id : Connection → Connection
read_new_id c = record c { opening = counting c.new_id ∷ c.opening }

abbrev pub count_new_id : ℤ → List Opening → List Opening → Connection → Connection
count_new_id i before behind c = record c {
  new_id = c.new_id +64 pos 1;
  opening = before ++ registering i ∷ behind;
}

-- NewEventChannel with the lock.
abbrev pub register_channel : ℤ → List Opening → List Opening → Connection → Connection
register_channel i before behind c = record c {
  channels = (i, []) ∷ delete_channel i c.channels;
  opening = before ++ behind;
}

abbrev pub close_event_channel : ℤ → Connection → Connection
close_event_channel i c = record c { channels = delete_channel i c.channels }

abbrev pub channel_ids : Connection → List ℤ
channel_ids c = map (λ x. x.0) c.channels

-- A request that the sender has sent is noted.
abbrev pub note : WatchRequest → Connection → Connection
note r c = record c { sender = ready; watching = note_request r c.watching }

-- What may happen next. A write lock is taken only where no read lock is held.
pub data Step : Connection → Connection → Type 0 where
  rewatches : {c : Connection} → c.rewatch ≡ starting → Step c (start_rewatch c)
  sends_again :
      {c : Connection} (k : Bytes) (ks : List Bytes) (sent : Bool)
      → c.rewatch ≡ offering k ks
      → c.sender ≡ ready
      → Step c (record c { sender = answering (rewatch_request k) sent; rewatch = awaiting ks })
  sends :
      {c : Connection} (r : WatchRequest) (sent : Bool)
      → c.sender ≡ ready
      → Step c (record c { sender = answering r sent; callers = suc c.callers })
  answers_again :
      {c : Connection} (r : WatchRequest) (sent : Bool) (ks : List Bytes)
      → c.sender ≡ answering r sent
      → c.rewatch ≡ awaiting ks
      → Step c (record c { sender = after_answer r sent; rewatch = next_key ks })
  answers :
      {c : Connection} (r : WatchRequest) (sent : Bool) (n : ℕ)
      → c.sender ≡ answering r sent
      → c.callers ≡ suc n
      → Step c (record c { sender = after_answer r sent; callers = n })
  notes :
      {c : Connection} (r : WatchRequest)
      → c.sender ≡ noting r
      → read_locked c ≡ false
      → Step c (note r c)
  reads_id : {c : Connection} → Step c (read_new_id c)
  counts_id :
      {c : Connection} (i : ℤ) (before behind : List Opening)
      → c.opening ≡ before ++ counting i ∷ behind
      → Step c (count_new_id i before behind c)
  opens :
      {c : Connection} (i : ℤ) (before behind : List Opening)
      → c.opening ≡ before ++ registering i ∷ behind
      → read_locked c ≡ false
      → Step c (register_channel i before behind c)
  shuts : {c : Connection} (i : ℤ) → read_locked c ≡ false → Step c (close_event_channel i c)
  receives :
      {c : Connection} (e : Event)
      → c.receiver ≡ receiving
      → Step c (record c { receiver = delivering e (channel_ids c) })
  delivers :
      {c : Connection} (e : Event) (i : ℤ) (ids : List ℤ) (q : List Event)
      → c.receiver ≡ delivering e (i ∷ ids)
      → find_channel i c.channels ≡ some q
      → ltb (length q) 100 ≡ true
      → Step c (record c {
        receiver = delivering e ids;
        channels = update_channel i (q ++ e ∷ []) c.channels;
      })
  delivered :
      {c : Connection} (e : Event)
      → c.receiver ≡ delivering e []
      → Step c (record c { receiver = receiving })
  takes :
      {c : Connection} (e : Event) (i : ℤ) (q : List Event)
      → find_channel i c.channels ≡ some (e ∷ q)
      → Step c (record c { channels = update_channel i q c.channels })
  breaks : {c : Connection} → c.receiver ≡ receiving → Step c (record c { receiver = broken })
  hangs_up :
      {c : Connection}
      → c.receiver ≡ broken
      → c.sender ≡ ready
      → Step c (record c { sender = ended })
  closes : {c : Connection} → read_locked c ≡ false → Step c (record c { closing = true })
  ends :
      {c : Connection} → c.closing ≡ true → c.sender ≡ ready → Step c (record c { sender = ended })

-- Steps one after the other.
pub data Steps : Connection → Connection → Type 0 where
  stays : {c : Connection} → Steps c c
  goes : {c d e : Connection} → Steps c d → Step d e → Steps c e
