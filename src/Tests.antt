-- ===== src/Tests.antt =====
-- Runs of the handlers on a store in memory: the theorems at concrete inputs.
pub mod Locks
pub mod Live
pub mod Ends
pub mod Values
pub mod Items
pub mod Lists
pub mod Hashes
pub mod Watch
pub mod Client
pub mod Cache
pub mod Roles
pub mod Value
pub mod Cli
pub mod Connection
pub mod Proxy
use mydis_old.Prelude.{ℕ, Option, none, some, List, [], ◌∷◌, Bytes, ℤ, pos, beq, if◌then◌else◌}
use mydis_old.Prefix.{zero_byte}
use mydis_old.Etcd.Laws.{View}
use mydis_old.Etcd.Memory.{memory, empty}
use mydis_old.Runtime.{Turn, World}
use mydis_old.Pb.{Expiration, plain_key, Key}
use mydis_old.Server.Waiting.{get_lock_name}

-- The key "a", and another client's key "z".
abbrev pub key_a : Bytes
key_a = 97 ∷ []

abbrev pub key_z : Bytes
key_z = 122 ∷ []

abbrev pub holding : Bytes → Bytes → View → View
holding key value s k = if beq key k then some value else s k

-- The store in which "a" is locked.
abbrev pub store_locked : View
store_locked = holding (get_lock_name key_a) zero_byte empty

-- The store in which "a" has a value.
abbrev pub store_with : Bytes → View
store_with value = holding key_a value empty

-- Another client writes "z".
abbrev pub write_z : Turn memory
write_z = record { step = holding key_z (1 ∷ []); late = 3 }

-- A run during which the other client writes twice.
abbrev pub busy : View → World memory
busy s = record { store = s; clock = 100; turns = write_z ∷ write_z ∷ [] }

abbrev pub within : ℤ → Expiration
within seconds = record { key = key_a; exp = seconds }

abbrev pub a : Key
a = plain_key key_a
