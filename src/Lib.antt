-- ===== src/Lib.antt =====
-- Mydis, a distributed cache on etcd: the request handlers of its server, its client
-- and its command line.
--
-- A Mydis server embeds an etcd member and answers requests on byte strings, numbers, lists and
-- hashes by etcd requests. A key is locked while the key getLockName(key) holds the zero byte.
-- Handlers that read and write a value take the lock, read, and store the new value in the
-- transaction that gives up the lock (UnlockThenSet).
--
-- Files and code (paths from the root of the repository):
--   Prelude        byte strings, lists, integers and int64 arithmetic over the native numbers
--   Errors         util/errors.go
--   Prefix         getPrefix and GetKeyPrefix of mydis/util.go, and the interval of keys that an
--                  etcd request with such bounds names
--   Etcd           the embedded etcd as a parameter (`Etcd`), its laws (`IsEtcd`), and a store in
--                  memory that meets them
--   Runtime        results, errors, panics, the clock and other clients, as a state monad
--   Pb             the messages of pb/mydis.proto that the handlers use; marshalling and floats are a
--                  parameter (`Proto`) with round trip laws (`IsProto`), which Pb/Simple meets
--   Server.Context getMaxWait of mydis/type_lock.go
--   Server.Waiting the two wait loops: for a lock (Set, Delete and LockWithTimeout have the same
--                  loop), and for a key or an item (Get and the two pops have the same loop)
--   Server.Keys    mydis/type_keys.go, getRangeRequestFromKey and kvsToList of mydis/util.go
--   Server.Locks   mydis/type_lock.go
--   Server.Values  mydis/type_bytes.go
--   Server.Numbers mydis/type_int.go and mydis/type_float.go
--   Server.Items   the slice operations of mydis/type_list.go, enforceListLimit of mydis/util.go
--   Server.Lists   mydis/type_list.go
--   Server.Hashes  mydis/type_hash.go
--   Server.Hashes.Sorting
--                  the order of sorted names, of HashFields and of the maps and help that are shown
--   Server.Locked  the frame of the proofs on handlers that lock, read and store
--   Server.Ends    programs that end for any etcd and any steps of other clients: the handlers that
--                  take a lock, and the pops
--   Server.Waiting.Live, Server.Locks.Live
--                  waiting for a lock that another client gives up
--   Watch          the background process of a Watcher in mydis/watch.go, round by round, with the watch
--                  streams of etcd as a parameter (`WatchStreams`, `IsWatchStreams`)
--   Watch.Controller
--                  the WatchController of mydis/watch.go; its register, and the steps of the
--                  Watchers' processes in any order as a relation (`Run`)
--   Auth           mydis/auth.go and GetPermission of mydis/util.go, with the authentication of etcd
--                  as a parameter (`AuthServer`, `IsAuthServer`)
--   Cache          the abstract cache that the handlers for keys, locks and byte values implement
--   Client         client/client.go: its calls on the handlers of the server, the errors that pass
--                  through gRPC (a parameter, `Grpc` and `IsGrpc`), the context's metadata, and the
--                  watch requests together with the Watcher that handles them (Client.Events)
--   Client.Events.Connection
--                  one connection of the client's background process: the sender, the receiver, the
--                  goroutine that watches the keys again, event channels and Close as a relation
--                  (`Step`); a read lock is held while one of the two loops over the maps runs, and
--                  Lock, change and Unlock are one step (that a waiting writer keeps new readers
--                  out is left out, which only adds steps); Calls has Watch, Unwatch and Close as
--                  one caller meets them, with what the other goroutines do while it waits
--   Client.Ends    the calls of the client that end for any etcd and any steps of other clients
--   Cli            cli/cli.go: a command is a function from a session (the client's context, the state of
--                  the authentication, its connection) to what is printed and returned; Keys, Lists,
--                  Hashes and Users have the branches of `command`, Dispatch the chain of tests and
--                  the reading of a line, Display and Help what is printed, Main the program's
--                  arguments
--   Proxy          mydis/websocket_proxy.go: the request that is made of a websocket's, and the
--                  messages that are passed on
--   Value          util/value.go, and the conversions of maps in util/util.go
--   Tests          the theorems at concrete inputs
--
-- A handler is a function from a world to a result and a world. The world has the store, the clock in
-- nanoseconds, and the turns: what other clients do to the store, and how much time passes, before
-- each etcd call and each sleep of the handler. A run alone has no turns. A result is a value, an
-- error, a panic, or `waiting`, where the rounds (the fuel of the wait loops) are used up. A round for
-- a lock sleeps 1 ms and a round for an item 10 ms, so that a timeout of n seconds is over within
-- 1000 n + 1 rounds, or 100 n; the theorems on termination say so for any etcd and any turns. In the
-- other theorems one round is enough, or the same bound is a hypothesis.
--
-- Modelled more simply than the code: a value that is returned beside an error is dropped; nil and
-- empty slices are one, but nil and empty maps are two; a range over a map goes in the order of the
-- list that stands for it; the rounding of waited.Seconds() and the overflow of a Duration that
-- counts the waiting are left out (the overflow of a deadline is not). Strings are their bytes.
-- Permission names and the lines at the prompt are ASCII; the conversion of a text to a float is a
-- parameter. A request is no nil pointer, but that of UserDelete may be one.
--
-- Not modelled: the goroutine of Watch that sends events, and channels that block (mydis/watch.go),
-- dialling, the resolver and the start of another connection (client/client.go), the terminal and the
-- exit of the command line (cli/cli.go), the pipes and connections of the websocket proxy
-- (mydis/websocket_proxy.go), the start of the server (mydis/server.go, server/), the certificates
-- (util/certs.go) and the generated code (pb/*.go). etcd, gRPC and the protocol buffers are libraries.
pub mod Prelude
pub mod Errors
pub mod Prefix
pub mod Etcd
pub mod Runtime
pub mod Pb
pub mod Server
pub mod Tests
pub mod Watch
pub mod Value
pub mod Client
pub mod Auth
pub mod Cli
pub mod Proxy
pub mod Cache
