-- ===== src/Etcd/Memory.antt =====
-- A store in memory that meets the laws: the values of the keys as a function.
use mydis_old.Prelude.{refl, true, if◌then◌else◌, pos, some, beq, none}
use mydis_old.Errors.{reply}
use mydis_old.Prefix.{in_range}
use mydis_old.Etcd.{Etcd}
use mydis_old.Etcd.Laws.{View, IsEtcd, all_hold, chosen, writes, responds, found}

abbrev pub memory : Etcd
memory = record {
  Store = View;
  range = λ r s. reply (found r.key r.keys_only (s r.key));
  txn = λ r s. (
    reply (record { succeeded = all_hold s r.compare; responses = responds s (chosen s r) }),
    writes s (chosen s r),
  );
  put = λ r s. (reply tt, λ k. if beq r.key k then some r.value else s k);
  lease_grant = λ ttl s. (reply (pos 1), s);
  delete_range = λ k end s. (reply tt, λ j. if in_range k end j then none else s j);
}

abbrev pub memory-IsEtcd : IsEtcd memory
memory-IsEtcd = record {
  view = λ s k. s k;
  up = λ s. true;
  range_found = λ s k o u h. refl;
  txn_reply = λ s r u h. refl;
  txn_view = λ s r k u h. refl;
  txn_up = λ s r u. refl;
  put_reply = λ s r u h. refl;
  put_view = λ s r k u h. refl;
  put_up = λ s r u. refl;
  lease_reply = λ s t u. (pos 1, refl);
  lease_view = λ s t k. refl;
  lease_up = λ s t u. refl;
  delete_reply = λ s k e u h. refl;
  delete_view = λ s k e j u h. refl;
  delete_up = λ s k e u. refl;
}

-- No key at all.
abbrev pub empty : View
empty k = none
