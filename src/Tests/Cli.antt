-- ===== src/Tests/Cli.antt =====
-- Commands of a session with a server in memory.
use mathlib.Core.List.{Permᴰ}
use mydis_old.Tests.Connection.{two_keys}
use mydis_old.Prelude.{
  true, ap, get_or, if◌then◌else◌, ◌++◌, arith, ℤ, beq, ◌≡◌, ◌≢◌, refl, some, List, [], ◌∷◌, Bytes,
  codes, pos,
}
use mydis_old.Client.Events.Connection.{finished}
use mydis_old.Cli.Capitals.{command-capitals}
use mydis_old.Cli.{unknown_command, done, text, Setting, Session, stopped}
use mydis_old.Auth.Permissions.{to_upper, get_permission}
use mydis_old.Cli.Laws.{set_command-get_command}
use mydis_old.Cli.Lines.{read_line-join_words}
use mydis_old.Cli.Dispatch.{read_line, command, commands, find_command}
use mydis_old.Etcd.Laws.{View}
use mydis_old.Tests.Client.{texts-IsGrpc, texts}
use mydis_old.Etcd.Memory.{memory-IsEtcd, memory, empty}
use mydis_old.Runtime.Laws.{quiet}
use mydis_old.Prefix.{zero_byte, prefix_loop, get_prefix, ends_in_star, get_key_prefix}
use mydis_old.Runtime.{ok}
use mydis_old.Pb.Simple.{simple}
use mydis_old.Server.Context.{background, parse_int}
use mydis_old.Value.{of_bytes, Value}
use mydis_old.Watch.{new_watcher}
use mydis_old.Cli.Display.{display_map, starred_key}
use mydis_old.Cli.Display.Laws.{display_map-perm, get_permission-starred_key}
use mydis_old.Cli.Usage.{command-needs, complaint}
use mydis_old.Tests.{key_a, busy}
use mydis_old.Tests.Roles.{roles}
use mydis_old.Tests.Watch.{slots}

-- Floats are integers here.
abbrev local : Setting
local = record {
  etcd = memory;
  proto = simple;
  grpc = texts;
  auth = roles;
  streams = slots;
  parse_float = parse_int;
}

abbrev session : Session local
session = record {
  ctx = background;
  roles = λ role. [];
  link = record {
    connection = record two_keys { rewatch = finished };
    stream_up = true;
    watcher = new_watcher slots;
    others = [];
  };
}

abbrev get_answer : List Bytes
get_answer = codes "a" ∷ []

command-needs_example : command {S = local} 6000 (codes "SET") get_answer session (busy empty) ≡ (
  ok (stopped (complaint (codes "SET") (find_command {S = local} (codes "SET") (commands 6000)))),
  session,
  busy empty,
)
unfolding beq
command-needs_example = command-needs 6000 (codes "SET") get_answer session (busy empty) refl refl

one : Value
one = of_bytes (49 ∷ [])

display_map-perm_example :
    display_map {F = ℤ} ((codes "b", one) ∷ (codes "a", one) ∷ [])
    ≡ display_map ((codes "a", one) ∷ (codes "b", one) ∷ [])
unfolding beq
display_map-perm_example =
    display_map-perm ((codes "b", one) ∷ (codes "a", one) ∷ [])
      ((codes "a", one) ∷ (codes "b", one) ∷ []) (Permᴰ.swap refl refl) (λ k. ground arith)

get_permission-starred_key_example :
    starred_key (record { perm_type = pos 0; key = codes "ab"; range_end = zero_byte })
    ≡ codes "ab*"
unfolding beq get_permission get_key_prefix ends_in_star get_prefix prefix_loop
get_permission-starred_key_example =
    get_permission-starred_key (codes "a") 98 (codes "read")
      (record { perm_type = pos 0; key = codes "ab"; range_end = zero_byte }) refl
      (λ e. absurd (cc))

set_command-get_command_example :
    (t : View) × (command {S = local} 1
        (codes "SET")
        (key_a ∷ codes "5" ∷ [])
        session
        (quiet empty 7)
      ≡ (ok (done []), session, quiet t 7))
    × (command {S = local} 1 (codes "GET") (key_a ∷ []) session (quiet t 7)
        ≡ (ok (done ((text (codes "5") ∷ []) ∷ [])), session, quiet t 7))
    × ((k : Bytes) → t k ≡ (if beq key_a k then some (codes "5") else empty k))
unfolding beq
set_command-get_command_example =
    set_command-get_command memory-IsEtcd texts-IsGrpc 0 key_a (codes "5") session empty 7 refl refl
      refl

read_line-join_words_example :
    read_line (32 ∷ codes "set a b" ++ 10 ∷ []) ≡ some (codes "SET", codes "a" ∷ codes "b" ∷ [])
read_line-join_words_example =
    read_line-join_words (32 ∷ []) (codes "set") (codes "a" ∷ codes "b" ∷ []) (10 ∷ []) refl refl
      refl refl

lower_case : to_upper (codes "get") ≢ codes "get"
lower_case e = omega (arith, ap (λ xs. get_or xs 0 0) e)

command-capitals_example :
    command {S = local} 6000 (codes "get") get_answer session (busy empty)
    ≡ (ok (stopped (unknown_command (codes "get"))), session, busy empty)
command-capitals_example =
    command-capitals 6000 (codes "get") get_answer session (busy empty) lower_case
