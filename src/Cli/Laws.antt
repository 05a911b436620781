-- ===== src/Cli/Laws.antt =====
-- Theorems on runs of commands of cli/cli.go.
use mydis_old.Prelude.{
  ℕ, suc, ◌≡◌, refl, true, false, some, [], ◌∷◌, Bytes, beq, codes, if◌then◌else◌,
}
use mydis_old.Etcd.Laws.{IsEtcd}
use mydis_old.Runtime.{ok}
use mydis_old.Runtime.Laws.{quiet}
use mydis_old.Value.{string_in, new_value, to_bytes}
use mydis_old.Server.Waiting.Laws.{locked}
use mydis_old.Server.Locks.{is_invalid}
use mydis_old.Client.Remote.Laws.{IsGrpc}
use mydis_old.Client.Values.Laws.{client_set-Gives, client_get-after}
use mydis_old.Cli.{Setting, Session, done, text, with_two, with_one, ask}
use mydis_old.Cli.Dispatch.{command, commands, find_command, key_commands, first_commands}

module _ {S : Setting} where
  module _ (L : IsEtcd S.etcd) (GL : IsGrpc S.grpc) where
    -- Where etcd keeps its laws and gRPC passes the texts of errors on: on a valid key that is not
    -- locked, run alone (no other client writes, etcd is up), the command SET stores the text and
    -- prints nothing, the command GET after it prints this text, and no other key is changed.
    pub set_command-get_command :
        (fuel : ℕ) (key value : Bytes) (s : Session S) (d : S.etcd.Store) (c : ℕ)
        → L.up d ≡ true
        → is_invalid key ≡ false
        → locked L d key ≡ false
        → (t : S.etcd.Store) × (command (suc fuel) (codes "SET") (key ∷ value ∷ []) s (quiet d c)
            ≡ (ok (done []), s, quiet t c))
          × (command (suc fuel) (codes "GET") (key ∷ []) s (quiet t c)
              ≡ (ok (done ((text value ∷ []) ∷ [])), s, quiet t c))
          × ((k : Bytes) → L.view t k ≡ (if beq key k then some value else L.view d k))
    unfolding command find_command commands first_commands key_commands beq with_two with_one ask
        to_bytes new_value
    set_command-get_command fuel key value s d c up good free =
        let (t, e, u, same) =
          client_set-Gives L GL S.proto fuel s.ctx key (string_in value) value refl d c up good
            free in
        (
          t,
          rw e refl,
          rw
              (client_get-after L GL S.proto fuel s.ctx key (string_in value) value refl d c up good
                t u (same key))
              refl,
          same,
        )
