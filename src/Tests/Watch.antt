-- ===== src/Tests/Watch.antt =====
-- Watch streams that meet the laws, and the requests of a client.
use mydis_old.Client.Events.Laws.{exchange_all_lem}
use mydis_old.Watch.{
  find_request, on_request, WatchRequest, WatchStreams, watch_end, on_requests, new_watcher,
}
use mydis_old.Prelude.{
  is_some, beq, ◌+ℤ◌, wrap64, eq_ℤ, ℕ, zero, suc, ◌≡◌, refl, true, false, Option, none, some, List,
  [], ◌∷◌, ◌++◌, arith, Bytes, if◌then◌else◌, ◌==◌, ℤ, pos, negsuc, length, lt_bytes,
}
use mydis_old.Client.Events.{
  delete_key, exchange_all, holds_key, unwatch_request, watched_key, note_request, watch_request,
}
use mydis_old.Watch.Controller.Laws.{Run-IsController, IsController}
use mydis_old.Watch.Controller.{
  starts, opens, asks, new_controller, register, update_watcher, Run, WatchController,
  delete_watcher, find_watcher,
}
use mydis_old.Prefix.{get_prefix}
use mydis_old.Watch.Laws.{IsWatchStreams, Synced, on_requests-Synced}
use mydis_old.Tests.{key_a, key_z}

-- The intervals by their numbers; a cancelled one leaves its place empty.
abbrev Slots : Type 0
Slots = List (Option (Bytes × Bytes))

abbrev slot : Slots → ℕ → Option (Bytes × Bytes)
slot [] n = none
slot (x ∷ l) zero = x
slot (x ∷ l) (suc n) = slot l n

abbrev clear_slot : Slots → ℕ → Slots
clear_slot [] n = []
clear_slot (x ∷ l) zero = none ∷ l
clear_slot (x ∷ l) (suc n) = x ∷ clear_slot l n

slot-length : (l : Slots) → slot l (length l) ≡ none
slot-length [] = refl
slot-length (x ∷ l) = slot-length l

slot-append :
    (l : Slots) (x : Option (Bytes × Bytes)) (n : ℕ)
    → slot (l ++ x ∷ []) n ≡ (if length l == n then x else slot l n)
slot-append [] x zero = refl
slot-append [] x (suc n) = ground arith
slot-append (y ∷ l) x zero = ground arith
slot-append (y ∷ l) x (suc n) = ground (arith, slot-append l x n)

slot-clear_slot :
    (l : Slots) (m n : ℕ) → slot (clear_slot l m) n ≡ (if m == n then none else slot l n)
slot-clear_slot [] m n = ground arith
slot-clear_slot (x ∷ l) zero zero = refl
slot-clear_slot (x ∷ l) zero (suc n) = ground arith
slot-clear_slot (x ∷ l) (suc m) zero = ground arith
slot-clear_slot (x ∷ l) (suc m) (suc n) = ground (arith, slot-clear_slot l m n)

abbrev slot_of : Slots → ℤ → Option (Bytes × Bytes)
slot_of l (pos n) = slot l n
slot_of l (negsuc n) = none

abbrev cancel_slot : ℤ → Slots → Slots
cancel_slot (pos n) l = clear_slot l n
cancel_slot (negsuc n) l = l

abbrev pub slots : WatchStreams
slots = record {
  Stream = Slots;
  fresh = [];
  watch = λ k end rev l. (pos (length l), l ++ some (k, end) ∷ []);
  cancel_watch = cancel_slot;
}

slot_of_fresh : (i : ℤ) → slot_of [] i ≡ none
slot_of_fresh (pos n) = refl
slot_of_fresh (negsuc n) = refl

slot_of-append :
    (l : Slots) (x : Option (Bytes × Bytes)) (i : ℤ)
    → slot_of (l ++ x ∷ []) i ≡ (if eq_ℤ (pos (length l)) i then x else slot_of l i)
slot_of-append l x (pos n) = slot-append l x n
slot_of-append l x (negsuc n) = refl

slot_of-cancel_slot :
    (l : Slots) (i j : ℤ) → slot_of (cancel_slot i l) j ≡ (if eq_ℤ i j then none else slot_of l j)
slot_of-cancel_slot l (pos m) (pos n) = slot-clear_slot l m n
slot_of-cancel_slot l (pos m) (negsuc n) = refl
slot_of-cancel_slot l (negsuc m) (pos n) = refl
slot_of-cancel_slot l (negsuc m) (negsuc n) = ground arith

abbrev slots-IsWatchStreams : IsWatchStreams slots
slots-IsWatchStreams = record {
  active = slot_of;
  active_fresh = slot_of_fresh;
  watch_fresh = λ l k end rev p. slot-length l;
  watch_active = λ l k end rev i p. slot_of-append l (some (k, end)) i;
  cancel_active = slot_of-cancel_slot;
}

abbrev with_prefix : WatchRequest
with_prefix = record { key = key_a; rev = pos 0; prefix = true; cancel = false; id = pos 0 }

abbrev plain : WatchRequest
plain = record { key = key_z; rev = pos 0; prefix = false; cancel = false; id = pos 0 }

-- Two watches, the first of which is cancelled.
abbrev requests : List WatchRequest
requests = with_prefix ∷ plain ∷ record with_prefix { cancel = true } ∷ []

on_requests-Synced_example :
    Synced slots-IsWatchStreams (on_requests slots requests (new_watcher slots))
unfolding watch_end lt_bytes get_prefix
on_requests-Synced_example =
    on_requests-Synced slots-IsWatchStreams requests (refl, (refl, (refl, tt)))

-- Two clients; the first asks for a watch.
abbrev two_watchers : WatchController slots
two_watchers = register slots (register slots (new_controller slots))

abbrev one_watch : WatchController slots
one_watch =
    update_watcher slots (pos 0) (on_request slots with_prefix (new_watcher slots)) two_watchers

one_watch-Run : Run slots 2 one_watch
unfolding find_watcher watch_end lt_bytes get_prefix delete_watcher wrap64 ◌+ℤ◌
one_watch-Run = asks (pos 0) (new_watcher slots) with_prefix (opens (opens starts)) refl refl

Run-IsController_example : IsController slots-IsWatchStreams 2 one_watch
Run-IsController_example =
    Run-IsController slots-IsWatchStreams 2 one_watch (omega arith) one_watch-Run

abbrev asked : List WatchRequest
asked = watch_request key_a true ∷ watch_request key_z false ∷ unwatch_request key_a true ∷ []

-- The first watch is cancelled; the second stays, on both sides.
exchange_all_lem_example :
    holds_key key_z (exchange_all slots asked ([], new_watcher slots)).0
    ≡ is_some (find_request key_z (exchange_all slots asked ([], new_watcher slots)).1.watching)
unfolding note_request watched_key holds_key delete_key beq
exchange_all_lem_example =
    exchange_all_lem slots asked key_z ((λ c. absurd (cc)), ((λ c. absurd (cc)), ((λ c. refl), tt)))
