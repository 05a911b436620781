-- ===== src/Client/Events/Laws.antt =====
-- Theorems on the watch requests of client/client.go.
use mydis_old.Prelude.{
  ◌≡◌, refl, sym, ◌∙◌, true, false, Bool, Option, none, some, List, [], ◌∷◌, Bytes, beq, beq_refl,
  eq_of_beq, Bool-cases, Option-cases, inl, inr, if◌then◌else◌, arith, ap,
}
use mydis_old.Watch.{
  WatchRequest, WatchStreams, Watching, Watcher, find_request, delete_request, request_id,
  new_watcher, on_request,
}
use mydis_old.Client.Events.{
  holds_key, delete_key, put_key, watched_key, note_request, exchange_all,
}

abbrev pub is_some : {A : Type 0} → Option A → Bool
is_some none = false
is_some (some a) = true

-- Each request to cancel a watch is for a key that the client has in its map.
abbrev pub CancelsWatched : List Bytes → List WatchRequest → Type 0
CancelsWatched ks [] = Unit
CancelsWatched ks (r ∷ rs) =
    (r.cancel ≡ true → holds_key (watched_key r) ks ≡ true) × CancelsWatched (note_request r ks) rs

beq_other : (i j k : Bytes) → beq i j ≡ false → beq j k ≡ true → beq i k ≡ false
beq_other i j k e q = rw (sym (eq_of_beq j k q)) e

holds_key-delete_key :
    (k j : Bytes) (ks : List Bytes)
    → holds_key k (delete_key j ks) ≡ (if beq j k then false else holds_key k ks)
unfolding holds_key delete_key
holds_key-delete_key k j [] = ground arith
holds_key-delete_key k j (i ∷ ks) = elim (Bool-cases (beq i j)) [
  | inl e ↦ rw (eq_of_beq i j e, beq_refl j) (holds_key-delete_key k j ks ∙ ground arith)
  | inr e ↦ rw e (elim (Bool-cases (beq j k)) [
    | inl q ↦ rw (q, beq_other i j k e q) (holds_key-delete_key k j ks ∙ rw q refl)
    | inr q ↦ rw (q, holds_key-delete_key k j ks, q) refl
  ])
]

holds_key-put_key :
    (k j : Bytes) (ks : List Bytes)
    → holds_key k (put_key j ks) ≡ (if beq j k then true else holds_key k ks)
unfolding holds_key
holds_key-put_key k j ks = elim (Bool-cases (beq j k)) [
  | inl e ↦ rw e refl
  | inr e ↦ rw e (holds_key-delete_key k j ks ∙ rw e refl)
]

find_request-deleted :
    (k j : Bytes) (ws : Watching)
    → is_some (find_request k (delete_request j ws))
      ≡ (if beq j k then false else is_some (find_request k ws))
unfolding find_request delete_request
find_request-deleted k j [] = ground arith
find_request-deleted k j ((i, r) ∷ ws) = elim (Bool-cases (beq i j)) [
  | inl e ↦ rw (eq_of_beq i j e, beq_refl j) (find_request-deleted k j ws ∙ ground arith)
  | inr e ↦ rw e (elim (Bool-cases (beq j k)) [
    | inl q ↦ rw (q, beq_other i j k e q) (find_request-deleted k j ws ∙ rw q refl)
    | inr q ↦ elim (Bool-cases (beq i k)) [
      | inl z ↦ rw (q, z) refl
      | inr z ↦ rw (q, z) (find_request-deleted k j ws ∙ rw q refl)
    ]
  ])
]

found-cons :
    (k g : Bytes) (r : WatchRequest) (ws : Watching)
    → is_some (find_request k ((g, r) ∷ ws))
      ≡ (if beq g k then true else is_some (find_request k ws))
unfolding find_request
found-cons k g r ws = elim (Bool-cases (beq g k)) [ inl e ↦ rw e refl | inr e ↦ rw e refl ]

module _ {S : WatchStreams} where
  -- The keys of the client are the entries of the Watcher.
  abbrev Agrees : List Bytes → Watcher S → Type 0
  Agrees ks w = (k : Bytes) → holds_key k ks ≡ is_some (find_request k w.watching)

  exchange-Agrees :
      (r : WatchRequest) (ks : List Bytes) (w : Watcher S)
      → (r.cancel ≡ true → holds_key (watched_key r) ks ≡ true)
      → Agrees ks w
      → Agrees (note_request r ks) (on_request S r w)
  unfolding note_request on_request watched_key request_id
  exchange-Agrees r ks w c h k = elim (Option-cases (find_request (request_id r) w.watching)) [
    | inl e ↦ elim (Bool-cases r.cancel) [
      | inl y ↦
          let wrong : true ≡ false = sym (c y) ∙ h (watched_key r) ∙ ap is_some e in absurd (cc)
      | inr n ↦
          rw (e, n, on_request)
            (holds_key-put_key k (request_id r) ks
              ∙ rw (h k) (sym (found-cons k (request_id r) _ w.watching)))
    ]
    | inr (wr, e) ↦ elim (Bool-cases r.cancel) [
      | inl y ↦
          rw (e, y, on_request)
            (holds_key-delete_key k (request_id r) ks
              ∙ rw (h k) (sym (find_request-deleted k (request_id r) w.watching)))
      | inr n ↦
          rw (e, n, on_request)
            (holds_key-put_key k (request_id r) ks ∙ (elim (Bool-cases (beq (request_id r) k)) [
              | inl q ↦ rw q (rw (sym (eq_of_beq (request_id r) k q), e) refl)
              | inr q ↦ rw q (h k)
            ]))
    ]
  ]

  exchange_all-Agrees :
      (rs : List WatchRequest) (ks : List Bytes) (w : Watcher S)
      → CancelsWatched ks rs
      → Agrees ks w
      → Agrees (exchange_all S rs (ks, w)).0 (exchange_all S rs (ks, w)).1
  unfolding exchange_all
  exchange_all-Agrees [] ks w c h = h
  exchange_all-Agrees (r ∷ rs) ks w (c, cs) h =
      exchange_all-Agrees rs _ _ cs (exchange-Agrees r ks w c h)

holds_key-nil : (k : Bytes) → holds_key k [] ≡ is_some (find_request k [])
unfolding holds_key find_request
holds_key-nil k = refl

-- After any sequence of watch requests in which only watches are cancelled that the client has in
-- its map, sent by the client one after the other and handled by a new Watcher of the server, a key
-- is in the map of the client exactly when it is the RequestID of an entry in the map of the
-- Watcher.
pub exchange_all_lem :
    (S : WatchStreams) (rs : List WatchRequest) (k : Bytes)
    → CancelsWatched [] rs
    → holds_key k (exchange_all S rs ([], new_watcher S)).0
      ≡ is_some (find_request k (exchange_all S rs ([], new_watcher S)).1.watching)
exchange_all_lem S rs k c = exchange_all-Agrees rs [] (new_watcher S) c holds_key-nil k
