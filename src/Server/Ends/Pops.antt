-- ===== src/Server/Ends/Pops.antt =====
-- When the pops of mydis/type_list.go end, for any etcd and whatever other clients do.
use mydis_old.Prelude.{
  arith, ℤ, ℕ, ◌≡◌, refl, true, false, Bool, Bytes, if◌then◌else◌, ◌&&◌, pos, ◌*◌, ◌<◌, ◌≤◌,
  is_negative,
}
use mydis_old.Server.Waiting.{poll, second, poll_delay}
use mydis_old.Errors.{Error}
use mydis_old.Server.Ends.{Ends-bind, Ends-handle, Ends-pure, Ends-ignore, Ends, ends_rules}
use mydis_old.Etcd.{Etcd}
use mydis_old.Server.Ends.Handlers.{
  Ends-lock, Ends-unlock, Ends-get_list, Ends-unlock_and_fail, Ends-store_popped,
}
use mydis_old.Server.Lists.{is_nothing_yet, End, pop_or_wait, pop_now, list_pop}
use mydis_old.Server.Waiting.Poll.{poll_ends}
use mydis_old.Server.Values.{is_nil}
use mydis_old.Pb.{Key, Proto}
use mydis_old.Server.Locks.Laws.{Suffices}
use mydis_old.Runtime.{Prog}
use mydis_old.Server.Context.{Context, get_max_wait}

module _ {E : Etcd} where
  -- The loop of a pop, where the pop of each round ends.
  Ends-poll :
      {A : Type 0} (again : Prog E A) (missing : Error → Bool) (wait : ℤ) (timeout fuel : ℕ)
      → wait ≡ pos timeout
      → Ends again
      → 0 < timeout
      → 0 < fuel
      → timeout * second ≤ fuel * poll_delay
      → Ends (poll E again missing wait 0 fuel)
  Ends-poll again missing wait timeout fuel at ea p f h = record {
    ends = λ w. rw at (poll_ends E again missing timeout fuel 0 w ea.ends p f (omega arith));
  }

  Ends-where_both :
      {A : Type 0} (a b : Bool) (p q : Prog E A)
      → (b ≡ true → Ends p)
      → Ends q
      → Ends (if a && b then p else q)
  Ends-where_both true true p q ep eq = ep refl
  Ends-where_both true false p q ep eq = eq
  Ends-where_both false b p q ep eq = eq

module _ (E : Etcd) (P : Proto) (fuel : ℕ) (ctx : Context)
    (enough : (t : ℕ) → Suffices fuel t (get_max_wait ctx))
    (waits : is_negative (get_max_wait ctx) ≡ false) where
  Ends-pop_or_wait :
      (end : End) (wait : Prog E Bytes) (key : Key)
      → (key.block ≡ true → Ends wait)
      → Ends (pop_or_wait E P fuel ctx end wait key)
  unfolding pop_or_wait
  Ends-pop_or_wait end wait key ew = Ends-bind _ _ (Ends-lock E P fuel ctx enough waits key) λ u.
      Ends-bind _ _
        (Ends-handle _ _ _ (Ends-get_list E fuel P (record key { block = false }) refl)
          (λ lst. Ends-pure lst)
          (λ e. search (ends_rules, Ends-unlock_and_fail E P fuel ctx enough waits)))
        λ lst.
          Ends-where_both (is_nil lst.value) key.block _ _
            (λ b.
              Ends-bind _ _ (Ends-ignore _ (Ends-unlock E P fuel ctx enough waits key)) (λ v. ew b))
            (search (
              ends_rules,
              Ends-unlock_and_fail E P fuel ctx enough waits,
              Ends-store_popped E P fuel ctx enough waits,
            ))

  Ends-pop_now : (end : End) (key : Key) → Ends (pop_now E P fuel ctx end key)
  unfolding pop_now
  Ends-pop_now end key = Ends-pop_or_wait end _ (record key { block = false }) (λ e. absurd (cc))

  -- For any etcd, also one that fails, and any steps of other clients: a pop from either end of a
  -- list, with a positive block timeout, comes to an end, also where it blocks, where the longest
  -- wait for a lock is not negative and the rounds of 1 ms reach past it and past the block
  -- timeout.
  pub Ends-list_pop :
      (end : End) (key : Key) (timeout : ℕ)
      → key.block_timeout ≡ pos timeout
      → 0 < timeout
      → 0 < fuel
      → timeout * second ≤ fuel * poll_delay
      → Ends (list_pop E P fuel ctx end key)
  unfolding list_pop
  Ends-list_pop end key timeout at p f h =
      Ends-pop_or_wait end _ key λ b.
        Ends-poll _ is_nothing_yet key.block_timeout timeout fuel at (Ends-pop_now end key) p f h

  pub Ends-list_pop_at_once :
      (end : End) (key : Key) → key.block ≡ false → Ends (list_pop E P fuel ctx end key)
  unfolding list_pop
  Ends-list_pop_at_once end key b = Ends-pop_or_wait end _ key (λ e. absurd (cc))
