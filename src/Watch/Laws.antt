-- ===== src/Watch/Laws.antt =====
-- Theorems on the Watcher of mydis/watch.go.
use mydis_old.Prelude.{
  Option-cases, lt_bytes, eq_ℤ, eq_ℤ_iff, eq_ℤ_refl, ◌≡◌, ◌≢◌, refl, sym, ◌∙◌, inl, inr, Bool, true,
  ◌||◌, ◌&&◌, Option, none, some, List, [], ◌∷◌, arith, Bytes, AreBytes, beq, eq_of_beq, has_prefix,
  if◌then◌else◌, ℤ, Bool-cases,
}
use mydis_old.Prefix.{in_range}
use mydis_old.Prefix.Range.{in_range-get_prefix}
use mydis_old.Watch.{
  WatchRequest, WatchStreams, Watching, Watcher, find_request, delete_request, request_id,
  watch_end, matches, new_watcher, start_watch, stop_watch, on_request, on_requests,
}

has_prefix_refl : (k : Bytes) → has_prefix k k ≡ true
unfolding has_prefix
has_prefix_refl [] = refl
has_prefix_refl (b ∷ bs) = ground (arith, has_prefix_refl bs)

or_and_lem : (k key : Bytes) → (beq k key || (true && has_prefix key k)) ≡ has_prefix key k
or_and_lem k key = elim (Bool-cases (beq k key)) [
  | inl e ↦ rw (e, sym (eq_of_beq k key e), has_prefix_refl k) refl
  | inr e ↦ rw e refl
]

-- For a request and a key of bytes, the test by which a Watcher sends an event picks exactly the
-- keys that a range request with the bounds of the request names.
pub matches-in_range :
    (r : WatchRequest) (key : Bytes)
    → AreBytes r.key
    → AreBytes key
    → matches r key ≡ in_range r.key (watch_end r) key
unfolding matches watch_end in_range
matches-in_range r key hr hk = elim (Bool-cases r.prefix) [
  | inl p ↦ rw p (or_and_lem r.key key ∙ sym (in_range-get_prefix r.key key hr hk))
  | inr p ↦ rw p (ground arith)
]

-- The interval with this ID among the requests.
unfoldable pub by_id : ℤ → Watching → Option (Bytes × Bytes)
by_id i [] = none
by_id i ((h, r) ∷ ws) =
    let rest = by_id i ws in if eq_ℤ r.id i then some (r.key, watch_end r) else rest

-- An interval that etcd takes for a watch: one key, or bounds in their order.
abbrev pub proper : Bytes → Bytes → Bool
proper k [] = true
proper k (e ∷ end) = lt_bytes k (e ∷ end)

-- What the server relies on of the watch streams: a stream has intervals by their IDs; a watch on an
-- interval that is not empty gets an ID that is not in use, and a cancelled ID is not in use.
pub record IsWatchStreams (S : WatchStreams) : Type 0 where
  pub active : S.Stream → ℤ → Option (Bytes × Bytes)
  pub active_fresh : (i : ℤ) → active S.fresh i ≡ none
  pub watch_fresh :
      (s : S.Stream) (k end : Bytes) (rev : ℤ)
      → proper k end ≡ true
      → active s (S.watch k end rev s).0 ≡ none
  pub watch_active :
      (s : S.Stream) (k end : Bytes) (rev i : ℤ)
      → proper k end ≡ true
      → active (S.watch k end rev s).1 i
        ≡ (if eq_ℤ (S.watch k end rev s).0 i then some (k, end) else active s i)
  pub cancel_active :
      (s : S.Stream) (i j : ℤ)
      → active (S.cancel_watch i s) j ≡ (if eq_ℤ i j then none else active s j)

-- The requests have different identities, and different IDs in the stream.
abbrev pub Distinct : Watching → Type 0
Distinct [] = Unit
Distinct ((h, r) ∷ ws) = (find_request h ws ≡ none) × (by_id r.id ws ≡ none) × Distinct ws

find_request-delete_request :
    (h g : Bytes) (ws : Watching)
    → find_request h ws ≡ none
    → find_request h (delete_request g ws) ≡ none
unfolding find_request delete_request
find_request-delete_request h g [] e = refl
find_request-delete_request h g ((f, r) ∷ ws) e = ground (arith, find_request-delete_request h g ws)

by_id-delete_none :
    (i : ℤ) (g : Bytes) (ws : Watching) → by_id i ws ≡ none → by_id i (delete_request g ws) ≡ none
unfolding by_id delete_request
by_id-delete_none i g [] e = refl
by_id-delete_none i g ((f, r) ∷ ws) e = ground (arith, by_id-delete_none i g ws)

delete_request-none :
    (g : Bytes) (ws : Watching) → find_request g ws ≡ none → delete_request g ws ≡ ws
unfolding find_request delete_request
delete_request-none g [] e = refl
delete_request-none g ((f, r) ∷ ws) e = ground (arith, delete_request-none g ws)

Distinct-delete_request : (g : Bytes) (ws : Watching) → Distinct ws → Distinct (delete_request g ws)
unfolding delete_request
Distinct-delete_request g [] d = tt
Distinct-delete_request g ((f, r) ∷ ws) (a, b, d) = elim (Bool-cases (beq f g)) [
  | inl e ↦ rw e (Distinct-delete_request g ws d)
  | inr e ↦ rw e (
    find_request-delete_request f g ws a,
    by_id-delete_none r.id g ws b,
    Distinct-delete_request g ws d,
  )
]

by_id-find_request :
    (g : Bytes) (ws : Watching) (wr : WatchRequest)
    → find_request g ws ≡ some wr
    → by_id wr.id ws ≢ none
unfolding find_request by_id
by_id-find_request g [] wr e = absurd (cc)
by_id-find_request g ((f, r) ∷ ws) wr e = elim (Bool-cases (beq f g)) [
  | inl p ↦
      let same : r ≡ wr = ground arith in rw (sym same) (rw (eq_ℤ_refl r.id) (λ q. absurd (cc)))
  | inr p ↦ elim (Bool-cases (eq_ℤ r.id wr.id)) [
    | inl q ↦ rw q (λ z. absurd (cc))
    | inr q ↦ rw q (by_id-find_request g ws wr (ground arith))
  ]
]

-- What is watched after a cancelation.
by_id-delete_request :
    (j : ℤ) (g : Bytes) (ws : Watching) (wr : WatchRequest)
    → find_request g ws ≡ some wr
    → Distinct ws
    → by_id j (delete_request g ws) ≡ (if eq_ℤ wr.id j then none else by_id j ws)
unfolding find_request by_id delete_request
by_id-delete_request j g [] wr e d = absurd (cc)
by_id-delete_request j g ((f, r) ∷ ws) wr e (a, b, d) = elim (Bool-cases (beq f g)) [
  | inl p ↦
      let same : r ≡ wr = ground arith in
      let gone : find_request g ws ≡ none = rw (sym (eq_of_beq f g p)) a in
      rw (p, sym same, delete_request-none g ws gone)
        (elim (Bool-cases (eq_ℤ r.id j)) [
          | inl q ↦ rw q (rw (sym (eq_ℤ_iff r.id j q)) b)
          | inr q ↦ rw q refl
        ])
  | inr p ↦
      let there : find_request g ws ≡ some wr = ground arith in
      elim (Bool-cases (eq_ℤ r.id j)) [
        | inr q ↦ rw (p, q) (by_id-delete_request j g ws wr there d)
        | inl q ↦ elim (Bool-cases (eq_ℤ wr.id j)) [
          | inr z ↦ rw (p, z) (rw q refl)
          | inl z ↦ absurd (
              by_id-find_request g ws wr there (rw (eq_ℤ_iff wr.id j z, sym (eq_ℤ_iff r.id j q)) b))
        ]
      ]
]

module _ {S : WatchStreams} (IS : IsWatchStreams S) where
  -- The stream watches what the watcher's map says, under the IDs that the map says.
  pub record Synced (w : Watcher S) : Type 0 where
    pub distinct : Distinct w.watching
    pub watched : (i : ℤ) → IS.active w.stream i ≡ by_id i w.watching

  start_watch-Synced :
      (r : WatchRequest) (w : Watcher S)
      → proper r.key (watch_end r) ≡ true
      → find_request (request_id r) w.watching ≡ none
      → Synced w
      → Synced (start_watch S r w)
  unfolding by_id watch_end
  start_watch-Synced r w p e sy = record {
    distinct = (
      e,
      sym (sy.watched (S.watch r.key (watch_end r) r.rev w.stream).0)
          ∙ IS.watch_fresh w.stream r.key (watch_end r) r.rev p,
      sy.distinct,
    );
    watched = λ i. IS.watch_active w.stream r.key (watch_end r) r.rev i p ∙ rw (sy.watched i) refl;
  }

  stop_watch-Synced :
      (r wr : WatchRequest) (w : Watcher S)
      → find_request (request_id r) w.watching ≡ some wr
      → Synced w
      → Synced (stop_watch S r wr w)
  stop_watch-Synced r wr w e sy = record {
    distinct = Distinct-delete_request (request_id r) w.watching sy.distinct;
    watched = λ i.
        IS.cancel_active w.stream wr.id i
        ∙ rw (sy.watched i)
            (sym (by_id-delete_request i (request_id r) w.watching wr e sy.distinct));
  }

  -- A request keeps the stream and the map in step.
  pub on_request-Synced :
      (r : WatchRequest) (w : Watcher S)
      → proper r.key (watch_end r) ≡ true
      → Synced w
      → Synced (on_request S r w)
  unfolding on_request request_id
  on_request-Synced r w p sy = elim (Option-cases (find_request (request_id r) w.watching)) [
    | inl e ↦ rw (e, on_request) (start_watch-Synced r w p e sy)
    | inr (wr, e) ↦
        rw (e, on_request)
          (elim (Bool-cases r.cancel) [
            | inl c ↦ rw c (stop_watch-Synced r wr w e sy)
            | inr c ↦ rw c sy
          ])
  ]

  abbrev pub AllProper : List WatchRequest → Type 0
  AllProper [] = Unit
  AllProper (r ∷ rs) = (proper r.key (watch_end r) ≡ true) × AllProper rs

  on_requests_from :
      (rs : List WatchRequest) (w : Watcher S)
      → AllProper rs
      → Synced w
      → Synced (on_requests S rs w)
  unfolding on_requests
  on_requests_from [] w p sy = sy
  on_requests_from (r ∷ rs) w (p, ps) sy =
      on_requests_from rs (on_request S r w) ps (on_request-Synced r w p sy)

  -- After any sequence of a client's requests on a new Watcher, each on one key or on bounds in
  -- their order, the etcd stream watches exactly the intervals of the requests in the Watcher's
  -- map, under the IDs recorded there, and no two entries of the map share a RequestID or an ID.
  pub on_requests-Synced :
      (rs : List WatchRequest) → AllProper rs → Synced (on_requests S rs (new_watcher S))
  unfolding by_id
  on_requests-Synced rs p =
      on_requests_from rs (new_watcher S) p (record { distinct = tt; watched = IS.active_fresh })
