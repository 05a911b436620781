-- ===== src/Cache/Models.antt =====
-- When the keys of etcd stand for a cache, and what a write in etcd does to the cache.
use mydis_old.Prelude.{
  ◌≡◌, ◌≢◌, refl, sym, ap, false, Option, Bool, Bytes, beq, if◌then◌else◌, Bool-cases, inl, inr,
  arith, beq_iff, beq_refl, eq_of_beq,
}
use mydis_old.Prefix.{zero_byte}
use mydis_old.Etcd.Laws.{View, holds_value}
use mydis_old.Server.Waiting.{get_lock_name}
use mydis_old.Server.Waiting.Names.{beq_ne, beq-get_lock_name_ne, get_lock_name-ne-zero_byte}
use mydis_old.Server.Locks.{is_invalid}
use mydis_old.Cache.{Cache, put_value, put_held}

-- A key that a client may use: valid, and not the name of a lock.
pub record IsKey (k : Bytes) : Type 0 where
  pub valid : is_invalid k ≡ false
  pub no_lock : (j : Bytes) → get_lock_name j ≢ k

-- The values are those of the keys; a lock is held where its key holds the zero byte; no lock is
-- itself locked; and the key ZeroByte does not hold the zero byte.
pub record Models (v : View) (c : Cache) : Type 0 where
  pub values : (k : Bytes) → IsKey k → v k ≡ c.value k
  pub holds : (k : Bytes) → IsKey k → holds_value (v (get_lock_name k)) zero_byte ≡ c.held k
  pub no_nested :
      (k : Bytes) → IsKey k → holds_value (v (get_lock_name (get_lock_name k))) zero_byte ≡ false
  pub is_clean : holds_value (v zero_byte) zero_byte ≡ false

abbrev pub put_view : Bytes → Option Bytes → View → View
put_view k o v j = if beq k j then o else v j

put_view_ne : (k j : Bytes) (o : Option Bytes) (v : View) → k ≢ j → put_view k o v j ≡ v j
put_view_ne k j o v h = rw (beq_ne k j h) refl

ne_zero_byte : (k : Bytes) → is_invalid k ≡ false → k ≢ zero_byte
unfolding beq
ne_zero_byte k h e = absurd (ground (arith, h, e))

ne_of_beq : (a b : Bytes) → beq a b ≡ false → a ≢ b
ne_of_beq a b h e = ground (arith, h, beq_iff a b)

-- Names of locks are equal where the keys are.
beq-get_lock_names : (a b : Bytes) → beq (get_lock_name a) (get_lock_name b) ≡ beq a b
beq-get_lock_names a b = elim (Bool-cases (beq a b)) [
  | inl p ↦ rw (p, eq_of_beq a b p, beq_refl (get_lock_name b)) refl
  | inr p ↦ rw p (beq-get_lock_name_ne a b (ne_of_beq a b p))
]

module _ (k : Bytes) (key : IsKey k) (o : Option Bytes) (v : View) (c : Cache)
    (m : Models v c) where
  -- A write to the key.
  pub Models-put_value : Models (put_view k o v) (put_value k o c)
  Models-put_value = record {
    values = λ j h. ap (λ (x : Option Bytes). if beq k j then o else x) (m.values j h);
    holds =
        λ j h. rw (put_view_ne k (get_lock_name j) o v (λ e. key.no_lock j (sym e))) (m.holds j h);
    no_nested = λ j h.
        rw
          (put_view_ne k (get_lock_name (get_lock_name j)) o v
            (λ e. key.no_lock (get_lock_name j) (sym e)))
          (m.no_nested j h);
    is_clean = rw (put_view_ne k zero_byte o v (ne_zero_byte k key.valid)) m.is_clean;
  }

  -- A write to the key's lock.
  pub Models-put_held :
      (b : Bool)
      → holds_value o zero_byte ≡ b
      → Models (put_view (get_lock_name k) o v) (put_held k b c)
  Models-put_held b e = record {
    values = λ j h. rw (put_view_ne (get_lock_name k) j o v (h.no_lock k)) (m.values j h);
    holds = λ j h. elim (Bool-cases (beq k j)) [
      | inl p ↦ rw (beq-get_lock_names k j, p) e
      | inr p ↦ rw (beq-get_lock_names k j, p) (m.holds j h)
    ];
    no_nested = λ j h.
        rw
          (
            beq-get_lock_names k (get_lock_name j),
            beq_ne k (get_lock_name j) (λ q. key.no_lock j (sym q)),
          )
          (m.no_nested j h);
    is_clean =
        rw (put_view_ne (get_lock_name k) zero_byte o v (get_lock_name-ne-zero_byte k)) m.is_clean;
  }
