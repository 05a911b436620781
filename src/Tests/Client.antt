-- ===== src/Tests/Client.antt =====
-- The client, with a gRPC that passes the texts of errors on.
use mydis_old.Prelude.{◌≡◌, refl, [], ◌∷◌, pos, Bytes, beq}
use mydis_old.Errors.{other, error_text}
use mydis_old.Etcd.Memory.{memory, memory-IsEtcd, empty}
use mydis_old.Runtime.{◌>>◌}
use mydis_old.Runtime.Laws.{Gives}
use mydis_old.Pb.Simple.{simple}
use mydis_old.Value.{of_bytes, new_value, int_in, to_bytes}
use mydis_old.Server.Context.{background, get_max_wait}
use mydis_old.Client.Remote.{Grpc}
use mydis_old.Client.Remote.Laws.{IsGrpc}
use mydis_old.Client.Metadata.{set_lock_timeout}
use mydis_old.Client.Metadata.Laws.{get_max_wait-set_lock_timeout, at_least_one}
use mydis_old.Client.Values.{get, set}
use mydis_old.Client.Values.Laws.{set-get}
use mydis_old.Tests.{key_a, holding}

-- The text of the error is all that is passed on.
abbrev pub texts : Grpc
texts = record { relay = λ e. other (error_text e); error_desc = error_text }

pub texts-IsGrpc : IsGrpc texts
unfolding error_text
texts-IsGrpc = record { desc_relay = λ e. refl }

get_max_wait-set_lock_timeout_example :
    get_max_wait (set_lock_timeout (pos 30) background) ≡ at_least_one (pos 30)
get_max_wait-set_lock_timeout_example = get_max_wait-set_lock_timeout (pos 30) background refl

-- The bytes of the number 42.
abbrev forty_two : Bytes
forty_two = 0 ∷ 0 ∷ 42 ∷ []

set-get_example :
    Gives memory-IsEtcd
      (set memory texts 1 background simple key_a (int_in (pos 42)) >> get memory texts 1 key_a)
      empty
      7
      (of_bytes forty_two)
      (holding key_a forty_two empty)
unfolding beq to_bytes new_value
set-get_example =
    set-get memory-IsEtcd texts-IsGrpc simple 0 background key_a (int_in (pos 42)) forty_two refl
      empty 7 refl refl refl
