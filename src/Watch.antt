-- ===== src/Watch.antt =====
-- The Watcher of mydis/watch.go: what one round of its background process does.
pub mod Laws
pub mod Controller
use mydis_old.Prelude.{
  Bool, true, false, ◌||◌, ◌&&◌, Option, none, some, List, [], ◌∷◌, ◌++◌, Bytes, codes, beq,
  has_prefix, if◌then◌else◌, ℤ, pos, negsuc, ◌==◌,
}
use mydis_old.Prefix.{get_prefix}
use mydis_old.Etcd.{KeyValue}
use mydis_old.Pb.{ByteValue}

pub record WatchRequest : Type 0 where
  pub key : Bytes
  pub rev : ℤ
  pub prefix : Bool
  pub cancel : Bool
  pub id : ℤ

-- The kind of an event, put or delete, is a number of the enumeration.
pub record Event : Type 0 where
  pub kind : ℤ
  pub current : ByteValue
  pub previous : ByteValue

-- The watch streams of etcd: a watch on an interval of keys has an ID in its stream.
pub record WatchStreams : Type 1 where
  pub Stream : Type 0
  pub fresh : Stream
  pub watch : Bytes → Bytes → ℤ → Stream → ℤ × Stream
  pub cancel_watch : ℤ → Stream → Stream

-- mvccpb.Event, with `none` for a nil pointer.
pub record StreamEvent : Type 0 where
  pub event_kind : ℤ
  pub kv : Option KeyValue
  pub prev_kv : Option KeyValue

-- w.watching: a map from RequestID.
abbrev pub Watching : Type 0
Watching = List (Bytes × WatchRequest)

unfoldable pub find_request : Bytes → Watching → Option WatchRequest
find_request h [] = none
find_request h ((g, r) ∷ ws) = let rest = find_request h ws in if beq g h then some r else rest

unfoldable pub delete_request : Bytes → Watching → Watching
delete_request h [] = []
delete_request h ((g, r) ∷ ws) =
    let rest = delete_request h ws in if beq g h then rest else (g, r) ∷ rest

unfoldable pub request_id : WatchRequest → Bytes
request_id r = if r.prefix then r.key ++ codes "*_MYDIS_WITHPREFIX" else r.key

-- The end of the interval that is watched.
unfoldable pub watch_end : WatchRequest → Bytes
watch_end r = if r.prefix then get_prefix r.key else []

-- r.Key == key || (r.Prefix && strings.HasPrefix(key, r.Key))
unfoldable pub matches : WatchRequest → Bytes → Bool
matches r key = beq r.key key || (r.prefix && has_prefix key r.key)

abbrev value_of : Option KeyValue → ByteValue
value_of none = record { key = []; value = [] }
value_of (some kv) = record { key = kv.key; value = kv.value }

abbrev pub to_event : StreamEvent → Event
to_event e = record { kind = e.event_kind; current = value_of e.kv; previous = value_of e.prev_kv }

-- What is sent for one event: once for each request that matches.
unfoldable pub sends : Event → Bytes → Watching → List Event
sends ev key [] = []
sends ev key ((h, r) ∷ ws) = let rest = sends ev key ws in if matches r key then ev ∷ rest else rest

-- `none` is the panic of e.Kv.Key with a nil pointer, which happens only if something is watched.
abbrev pub send_event : Watching → StreamEvent → Option (List Event)
send_event [] e = some []
send_event (w ∷ ws) e = elim e.kv [
  | none ↦ none
  | some kv ↦ some (sends (to_event e) kv.key (w ∷ ws))
]

abbrev join_sent : Option (List Event) → Option (List Event) → Option (List Event)
join_sent none b = none
join_sent (some xs) none = none
join_sent (some xs) (some ys) = some (xs ++ ys)

-- `case r := <-streamCh`
unfoldable pub on_events : Watching → List StreamEvent → Option (List Event)
on_events ws [] = some []
on_events ws (e ∷ es) = join_sent (send_event ws e) (on_events ws es)

module _ (S : WatchStreams) where
  pub record Watcher : Type 0 where
    pub stream : S.Stream
    pub watching : Watching

  -- NewWatcher, with the stream that its background process opens.
  abbrev pub new_watcher : Watcher
  new_watcher = record { stream = S.fresh; watching = [] }

  abbrev pub start_watch : WatchRequest → Watcher → Watcher
  start_watch r w =
      let (i, s) = S.watch r.key (watch_end r) r.rev w.stream in
      record { stream = s; watching = (request_id r, record r { id = i }) ∷ w.watching }

  abbrev pub stop_watch : WatchRequest → WatchRequest → Watcher → Watcher
  stop_watch r wr w = record {
    stream = S.cancel_watch wr.id w.stream;
    watching = delete_request (request_id r) w.watching;
  }

  -- `case r := <-w.reqCh`
  unfoldable pub on_request : WatchRequest → Watcher → Watcher
  on_request r w = elim (find_request (request_id r) w.watching) [
    | none ↦ start_watch r w
    | some wr ↦ if r.cancel then stop_watch r wr w else w
  ]

  -- The requests of a client, one after the other.
  unfoldable pub on_requests : List WatchRequest → Watcher → Watcher
  unfolding on_request
  on_requests [] w = w
  on_requests (r ∷ rs) w = on_requests rs (on_request r w)
