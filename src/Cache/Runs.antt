-- ===== src/Cache/Runs.antt =====
-- Sequences of requests to the handlers against the cache.
use mydis_old.Prelude.{true, ℕ, suc, ◌≡◌, refl, false, List, [], ◌∷◌, is_negative}
use mydis_old.Cache.{Cache, Request, serve, serve_all, perform_all}
use mydis_old.Etcd.{Etcd}
use mydis_old.Etcd.Laws.{IsEtcd}
use mydis_old.Server.Context.{Context, get_max_wait}
use mydis_old.Server.Locks.Laws.{Suffices}
use mydis_old.Cache.Models.{Models}
use mydis_old.Cache.Refines.{AreKeys, Refines, perform-Refines}

module _ {E : Etcd} (L : IsEtcd E) (fuel : ℕ) (ctx : Context)
    (enough : (t : ℕ) → Suffices (suc fuel) t (get_max_wait ctx))
    (waits : is_negative (get_max_wait ctx) ≡ false) where
  -- For any sequence of Get, Has, Set, SetNX, Delete, Lock and Unlock requests, run alone on keys
  -- that are valid and not names of locks, with a longest wait that is not negative and rounds that
  -- reach past it: the handlers give the answers of an abstract cache of values and locks (in which
  -- a lock refuses changes with ErrKeyLocked, and SetNX on a present key keeps the lock), and the
  -- etcd keys they leave stand for the cache that is left.
  pub perform_all-Refines :
      (rs : List Request) (s : E.Store) (t : ℕ) (c : Cache)
      → AreKeys rs
      → L.up s ≡ true
      → Models (L.view s) c
      → Refines L fuel ctx enough waits
          (perform_all E (suc fuel) ctx rs)
          s
          t
          (serve_all rs c).0
          (serve_all rs c).1
  unfolding perform_all
  perform_all-Refines [] s t c keys u m = (s, t, refl, u, m)
  perform_all-Refines (r ∷ rs) s t c (key, keys) u m =
      let (s', t', e, u', m') = perform-Refines L fuel ctx enough waits s t c u m r key in
      let (s'', t'', e', u'', m'') = perform_all-Refines rs s' t' (serve r c).1 keys u' m' in
      (s'', t'', rw e (rw e' refl), u'', m'')
