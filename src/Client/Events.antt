-- ===== src/Client/Events.antt =====
-- The watch requests of client/client.go: what the client sends, what it keeps of it, and what the
-- Watcher of the server makes of it.
pub mod Laws
pub mod Connection
use mydis_old.Prelude.{
  true, false, Bool, List, [], ◌∷◌, ◌++◌, Bytes, codes, beq, if◌then◌else◌, pos,
}
use mydis_old.Watch.{WatchRequest, WatchStreams, Watcher, on_request}

-- c.watching: a map[string]struct{}.
unfoldable pub holds_key : Bytes → List Bytes → Bool
holds_key k [] = false
holds_key k (j ∷ ks) = let rest = holds_key k ks in if beq j k then true else rest

unfoldable pub delete_key : Bytes → List Bytes → List Bytes
delete_key k [] = []
delete_key k (j ∷ ks) = let rest = delete_key k ks in if beq j k then rest else j ∷ rest

abbrev pub put_key : Bytes → List Bytes → List Bytes
put_key k ks = k ∷ delete_key k ks

-- The requests that Watch and Unwatch send.
abbrev pub watch_request : Bytes → Bool → WatchRequest
watch_request key prefix = record {
  key = key;
  rev = pos 0;
  prefix = prefix;
  cancel = false;
  id = pos 0;
}

abbrev pub unwatch_request : Bytes → Bool → WatchRequest
unwatch_request key prefix = record {
  key = key;
  rev = pos 0;
  prefix = prefix;
  cancel = true;
  id = pos 0;
}

unfoldable pub watched_key : WatchRequest → Bytes
watched_key r = if r.prefix then r.key ++ codes "*_MYDIS_WITHPREFIX" else r.key

-- What the background process keeps of a request that it has sent.
unfoldable pub note_request : WatchRequest → List Bytes → List Bytes
unfolding watched_key
note_request r ks = if r.cancel then delete_key (watched_key r) ks else put_key (watched_key r) ks

module _ (S : WatchStreams) where
  -- A request that is sent: the client keeps its key, and the Watcher handles it.
  abbrev pub exchange : WatchRequest → List Bytes × Watcher S → List Bytes × Watcher S
  exchange r (ks, w) = (note_request r ks, on_request S r w)

  unfoldable pub exchange_all : List WatchRequest → List Bytes × Watcher S → List Bytes × Watcher S
  exchange_all [] x = x
  exchange_all (r ∷ rs) x = exchange_all rs (exchange r x)
