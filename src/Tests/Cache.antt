-- ===== src/Tests/Cache.antt =====
-- A sequence of requests.
use mydis_old.Prelude.{
  is_negative, ℕ, suc, ◌≡◌, refl, ap, false, none, List, [], ◌∷◌, arith, beq, length,
}
use mydis_old.Etcd.Memory.{memory, memory-IsEtcd, empty}
use mydis_old.Server.Context.{background, get_max_wait}
use mydis_old.Server.Waiting.Names.{length-get_lock_name}
use mydis_old.Server.Locks.Laws.{Suffices}
use mydis_old.Cache.{Cache, Request, read, remove, hold, release, write, serve_all, perform_all}
use mydis_old.Cache.Models.{IsKey, Models}
use mydis_old.Cache.Refines.{Refines}
use mydis_old.Cache.Runs.{perform_all-Refines}
use mydis_old.Tests.{key_a}
use mydis_old.Tests.Locks.{enough_rounds}

abbrev no_values : Cache
no_values = record { value = λ k. none; held = λ k. false }

empty-Models : Models empty no_values
empty-Models = record {
  values = λ k h. refl;
  holds = λ k h. refl;
  no_nested = λ k h. refl;
  is_clean = refl;
}

key_a-IsKey : IsKey key_a
unfolding beq
key_a-IsKey = record {
  valid = refl;
  no_lock = λ j e. omega (arith, length-get_lock_name j, ap length e);
}

abbrev requests : List Request
requests =
    write key_a (5 ∷ [])
    ∷ hold key_a
    ∷ write key_a (6 ∷ [])
    ∷ read key_a
    ∷ release key_a
    ∷ remove key_a
    ∷ []

pub rounds_background : (t : ℕ) → Suffices (suc 5999) t (get_max_wait background)
unfolding get_max_wait
rounds_background t = enough_rounds t

pub not_forever : is_negative (get_max_wait background) ≡ false
unfolding get_max_wait
not_forever = refl

perform_all-Refines_example :
    Refines memory-IsEtcd 5999 background rounds_background not_forever
      (perform_all memory (suc 5999) background requests)
      empty
      7
      (serve_all requests no_values).0
      (serve_all requests no_values).1
perform_all-Refines_example =
    perform_all-Refines memory-IsEtcd 5999 background rounds_background not_forever requests empty 7
      no_values
      (key_a-IsKey, (key_a-IsKey, (key_a-IsKey, (key_a-IsKey, (key_a-IsKey, (key_a-IsKey, tt))))))
      refl empty-Models
