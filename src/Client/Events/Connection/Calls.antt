-- ===== src/Client/Events/Connection/Calls.antt =====
-- Watch, Unwatch and Close of client/client.go, called while other goroutines run: a call waits for
-- the sender and for the lock, and it may wait for ever.
use mydis_old.Prelude.{true, Bool, not, Option, none, some, List, [], ◌∷◌, if◌then◌else◌}
use mydis_old.Watch.{WatchRequest, WatchStreams, Watcher, on_request}
use mydis_old.Client.Events.Connection.{
  Connection, Sender, ready, ended, answering, noting, is_ready, read_locked, note, after_answer,
}

-- What the other goroutines do to the connection, each time that the call waits.
abbrev pub Others : Type 0
Others = List (Connection → Connection)

-- The sender notes a request by itself, once the lock is free.
abbrev sender_goes : Sender → Connection → Connection
sender_goes ready c = c
sender_goes ended c = c
sender_goes (answering r sent) c = c
sender_goes (noting r) c = if read_locked c then c else note r c

abbrev pub run_sender : Connection → Connection
run_sender c = sender_goes c.sender c

-- The sender is before its select.
abbrev pub takes_request : Connection → Bool
takes_request c = is_ready c.sender

-- Waits until the connection allows the call to go on; `none` is to wait for ever.
unfoldable pub await : (Connection → Bool) → Others → Connection → Option (Connection × Others)
await allowed [] c = if allowed (run_sender c) then some (run_sender c, []) else none
await allowed (turn ∷ turns) c =
    let rest = await allowed turns (turn (run_sender c)) in
    if allowed (run_sender c) then some (run_sender c, turn ∷ turns) else rest

module _ (S : WatchStreams) where
  -- The connection, whether Send succeeds on its stream, the Watcher of the server at the other end,
  -- and the other goroutines.
  pub record Link : Type 0 where
    pub connection : Connection
    pub stream_up : Bool
    pub watcher : Watcher S
    pub others : Others

  -- `c.reqCh <- r` and `<-c.resCh`: the sender takes the request, sends it and answers.
  abbrev request_taken : WatchRequest → Link → Option (Connection × Others) → Option Link
  request_taken r l none = none
  request_taken r l (some (c, turns)) = some (record l {
    connection = record c { sender = after_answer r l.stream_up };
    watcher = if l.stream_up then on_request S r l.watcher else l.watcher;
    others = turns;
  })

  unfoldable pub watch_call : WatchRequest → Link → Option Link
  watch_call r l = request_taken r l (await takes_request l.others l.connection)

  -- `c.closeCh <- struct{}{}`: the sender takes it and returns.
  abbrev hung_up : Link → Option (Connection × Others) → Option Link
  hung_up l none = none
  hung_up l (some (c, turns)) =
      some (record l { connection = record c { sender = ended }; others = turns })

  -- `c.closing = true` under the lock, and what follows.
  abbrev closing_set : Link → Option (Connection × Others) → Option Link
  closing_set l none = none
  closing_set l (some (c, turns)) =
      hung_up l (await takes_request turns (record c { closing = true }))

  unfoldable pub close_call : Link → Option Link
  close_call l = closing_set l (await (λ c. not (read_locked c)) l.others l.connection)
