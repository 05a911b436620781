-- ===== src/Cache/Refines.antt =====
-- The handlers of mydis/type_keys.go, mydis/type_lock.go and mydis/type_bytes.go against the cache.
use mydis_old.Prelude.{
  ℕ, suc, ◌≡◌, refl, ◌∙◌, ap, inl, inr, true, false, Bool, Option, none, some, List, [], ◌∷◌, Bytes,
  Bool-cases, Option-cases, beq_refl, is_negative, is_some,
}
use mydis_old.Errors.{Error, key_locked}
use mydis_old.Prefix.{zero_byte}
use mydis_old.Etcd.{Etcd}
use mydis_old.Etcd.Laws.{IsEtcd, View, holds_value}
use mydis_old.Runtime.{Prog, ok}
use mydis_old.Runtime.Laws.{Gives, Fails, quiet}
use mydis_old.Pb.{plain_key}
use mydis_old.Server.Context.{Context, get_max_wait}
use mydis_old.Server.Waiting.{get_lock_name}
use mydis_old.Server.Waiting.Laws.{locked}
use mydis_old.Server.Locks.{lock, unlock}
use mydis_old.Server.Locks.Laws.{
  Suffices, ne_nil_of_valid, lock-Gives, lock_with_timeout-Fails, unlock-Gives,
}
use mydis_old.Server.Keys.{delete}
use mydis_old.Server.Keys.Laws.{delete-Gives, delete-Fails}
use mydis_old.Server.Values.{get, set, set_nx}
use mydis_old.Server.Values.Laws.{
  answer, get_lem, has_lem, set-Gives, set-Fails, set_nx_absent, set_nx_leaks,
}
use mydis_old.Cache.{
  Cache, Request, read, exists, remove, hold, release, write, write_new, Answer, done, flag,
  refused, put_value, put_held, unless_held, insert_value, found_value, serve, perform, answered,
}
use mydis_old.Cache.Models.{IsKey, Models, put_view, Models-put_value, Models-put_held}

Models-of_view : (v v' : View) (c : Cache) → ((k : Bytes) → v k ≡ v' k) → Models v' c → Models v c
Models-of_view v v' c same m = record {
  values = λ k h. same k ∙ m.values k h;
  holds = λ k h.
      ap (λ (o : Option Bytes). holds_value o zero_byte) (same (get_lock_name k)) ∙ m.holds k h;
  no_nested = λ k h.
      ap (λ (o : Option Bytes). holds_value o zero_byte) (same (get_lock_name (get_lock_name k)))
      ∙ m.no_nested k h;
  is_clean = ap (λ (o : Option Bytes). holds_value o zero_byte) (same zero_byte) ∙ m.is_clean;
}

-- The key of a request.
abbrev pub key_of : Request → Bytes
key_of (read k) = k
key_of (exists k) = k
key_of (remove k) = k
key_of (hold k) = k
key_of (release k) = k
key_of (write k v) = k
key_of (write_new k v) = k

abbrev pub AreKeys : List Request → Type 0
AreKeys [] = Unit
AreKeys (r ∷ rs) = IsKey (key_of r) × AreKeys rs

module _ {E : Etcd} (L : IsEtcd E) (fuel : ℕ) (ctx : Context)
    (enough : (t : ℕ) → Suffices (suc fuel) t (get_max_wait ctx))
    (waits : is_negative (get_max_wait ctx) ≡ false) where
  -- The program gives the answer and leaves a store that stands for the cache.
  abbrev pub Refines : {A : Type 0} → Prog E A → E.Store → ℕ → A → Cache → Type 0
  Refines m s t a d =
      (s' : E.Store) × (t' : ℕ) × (m (quiet s t) ≡ (ok a, quiet s' t'))
      × (L.up s' ≡ true)
      × Models (L.view s') d

  module _ (s : E.Store) (t : ℕ) (c : Cache) (u : L.up s ≡ true) (m : Models (L.view s) c) where
    Refines-Gives :
        {A : Type 0} (p : Prog E A) (f : A → Answer) (a : A) (v : View) (d : Cache)
        → Gives L p s t a v
        → Models v d
        → Refines (answered E (suc fuel) ctx p f) s t (f a) d
    Refines-Gives p f a v d (s', e, u', same) md =
        (s', t, rw e refl, u', Models-of_view (L.view s') v d same md)

    Refines-Fails :
        {A : Type 0} (p : Prog E A) (f : A → Answer) (e : Error)
        → Fails L p s t e (L.view s)
        → Refines (answered E (suc fuel) ctx p f) s t (refused e) c
    Refines-Fails p f e (s', t', r, u', same) =
        (s', t', rw r refl, u', Models-of_view (L.view s') (L.view s) c same m)

    module _ (k : Bytes) (key : IsKey k) where
      held-locked : (b : Bool) → c.held k ≡ b → locked L s k ≡ b
      held-locked b e = m.holds k key ∙ e

      -- A request that a lock refuses.
      Refines-unless_held :
          {A : Type 0} (p : Prog E A) (f : A → Answer) (r : Answer × Cache)
          → (locked L s k ≡ true → Fails L p s t key_locked (L.view s))
          → (locked L s k ≡ false → Refines (answered E (suc fuel) ctx p f) s t r.0 r.1)
          → Refines (answered E (suc fuel) ctx p f) s t (unless_held k c r).0 (unless_held k c r).1
      Refines-unless_held p f r fails gives = elim (Bool-cases (c.held k)) [
        | inl e ↦ rw e (Refines-Fails p f key_locked (fails (held-locked true e)))
        | inr e ↦ rw e (gives (held-locked false e))
      ]

      perform-read : Refines (perform E (suc fuel) ctx (read k)) s t (found_value (c.value k)) c
      unfolding perform
      perform-read = elim (Option-cases (c.value k)) [
        | inl e ↦ rw e (s, t, rw (get_now_lem, m.values k key ∙ e) refl, u, m)
        | inr (b, e) ↦ rw e (s, t, rw (get_now_lem, m.values k key ∙ e) refl, u, m)
      ]
        where
          get_now_lem :
              get E (suc fuel) (plain_key k) (quiet s t) ≡ (answer L (L.view s k), quiet s t)
          get_now_lem = get_lem L (suc fuel) k (quiet s t) u (ne_nil_of_valid k key.valid)

      perform-exists :
          Refines (perform E (suc fuel) ctx (exists k)) s t (flag (is_some (c.value k))) c
      unfolding perform
      perform-exists = (
        s,
        t,
        rw (has_lem L k (quiet s t) u (ne_nil_of_valid k key.valid), m.values k key) refl,
        u,
        m,
      )

      perform-release : Refines (perform E (suc fuel) ctx (release k)) s t done (put_held k false c)
      unfolding perform
      perform-release =
          Refines-Gives (unlock E (suc fuel) ctx (plain_key k)) (λ x. done) tt
            (put_view (get_lock_name k) none (L.view s)) (put_held k false c)
            (unlock-Gives L fuel ctx (plain_key k) s t u (m.no_nested k key))
            (Models-put_held k key none (L.view s) c m false refl)

      lock-Fails :
          locked L s k ≡ true
          → Fails L (lock E (suc fuel) ctx (plain_key k)) s t key_locked (L.view s)
      unfolding lock
      lock-Fails h =
          lock_with_timeout-Fails L (suc fuel) ctx (record { key = k; exp = get_max_wait ctx }) s t
            u h waits (enough t)

      perform-hold :
          Refines (perform E (suc fuel) ctx (hold k)) s t (serve (hold k) c).0 (serve (hold k) c).1
      unfolding perform
      perform-hold =
          Refines-unless_held (lock E (suc fuel) ctx (plain_key k)) (λ x. done)
            (done, put_held k true c) lock-Fails
            λ free.
              Refines-Gives (lock E (suc fuel) ctx (plain_key k)) (λ x. done) tt
                (put_view (get_lock_name k) (some zero_byte) (L.view s)) (put_held k true c)
                (lock-Gives L fuel ctx (plain_key k) s t u free)
                (Models-put_held k key (some zero_byte) (L.view s) c m true (beq_refl zero_byte))

      perform-remove :
          Refines
            (perform E (suc fuel) ctx (remove k))
            s
            t
            (serve (remove k) c).0
            (serve (remove k) c).1
      unfolding perform
      perform-remove =
          Refines-unless_held (delete E (suc fuel) ctx (plain_key k)) (λ x. done)
            (done, put_value k none c)
            (λ h.
              delete-Fails L (suc fuel) ctx (plain_key k) s t u (ne_nil_of_valid k key.valid) h
                (enough t))
            λ free.
              Refines-Gives (delete E (suc fuel) ctx (plain_key k)) (λ x. done) tt
                (put_view k none (L.view s)) (put_value k none c)
                (delete-Gives L fuel ctx (plain_key k) s t u (ne_nil_of_valid k key.valid) free)
                (Models-put_value k key none (L.view s) c m)

      module _ (v : Bytes) where
        perform-write :
            Refines
              (perform E (suc fuel) ctx (write k v))
              s
              t
              (serve (write k v) c).0
              (serve (write k v) c).1
        unfolding perform
        perform-write =
            Refines-unless_held (set E (suc fuel) ctx (record { key = k; value = v })) (λ x. done)
              (done, put_value k (some v) c)
              (λ h.
                set-Fails L (suc fuel) ctx (record { key = k; value = v }) s t u key.valid h
                  (enough t))
              λ free.
                Refines-Gives (set E (suc fuel) ctx (record { key = k; value = v })) (λ x. done) tt
                  (put_view k (some v) (L.view s)) (put_value k (some v) c)
                  (set-Gives L fuel ctx (record { key = k; value = v }) s t u key.valid free)
                  (Models-put_value k key (some v) (L.view s) c m)

        set_nx-Fails :
            locked L s k ≡ true
            → Fails L
                (set_nx E (suc fuel) ctx (record { key = k; value = v }))
                s
                t
                key_locked
                (L.view s)
        unfolding set_nx
        set_nx-Fails h = let (s', t', e, u', same) = lock-Fails h in (s', t', rw e refl, u', same)

        set_nx-Refines :
            locked L s k ≡ false
            → Refines
                (answered E
                  (suc fuel)
                  ctx
                  (set_nx E (suc fuel) ctx (record { key = k; value = v }))
                  flag)
                s
                t
                (insert_value k v (c.value k) c).0
                (insert_value k v (c.value k) c).1
        set_nx-Refines free = elim (Option-cases (c.value k)) [
          | inl e ↦ rw e (
              Refines-Gives (set_nx E (suc fuel) ctx (record { key = k; value = v })) flag true
                (put_view k (some v) (put_view (get_lock_name k) none (L.view s)))
                (put_value k (some v) (put_held k false c))
                (set_nx_absent L fuel ctx k v s t u m.is_clean key.valid free (m.values k key ∙ e))
                (Models-put_value k key (some v) (put_view (get_lock_name k) none (L.view s))
                  (put_held k false c) (Models-put_held k key none (L.view s) c m false refl)))
          | inr (x, e) ↦ rw e (
              Refines-Gives (set_nx E (suc fuel) ctx (record { key = k; value = v })) flag false
                (put_view (get_lock_name k) (some zero_byte) (L.view s)) (put_held k true c)
                (set_nx_leaks L fuel ctx k v x s t u key.valid free (m.values k key ∙ e))
                (Models-put_held k key (some zero_byte) (L.view s) c m true (beq_refl zero_byte)))
        ]

        perform-write_new :
            Refines
              (perform E (suc fuel) ctx (write_new k v))
              s
              t
              (serve (write_new k v) c).0
              (serve (write_new k v) c).1
        unfolding perform
        perform-write_new =
            Refines-unless_held (set_nx E (suc fuel) ctx (record { key = k; value = v })) flag
              (insert_value k v (c.value k) c) set_nx-Fails set_nx-Refines

    -- A handler answers as the cache does, and leaves what stands for the cache after the request.
    pub perform-Refines :
        (r : Request)
        → IsKey (key_of r)
        → Refines (perform E (suc fuel) ctx r) s t (serve r c).0 (serve r c).1
    perform-Refines (read k) key = perform-read k key
    perform-Refines (exists k) key = perform-exists k key
    perform-Refines (remove k) key = perform-remove k key
    perform-Refines (hold k) key = perform-hold k key
    perform-Refines (release k) key = perform-release k key
    perform-Refines (write k v) key = perform-write k key v
    perform-Refines (write_new k v) key = perform-write_new k key v
