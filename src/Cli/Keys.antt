-- ===== src/Cli/Keys.antt =====
-- The commands of cli/cli.go on keys, values and numbers.
use mydis_old.Prelude.{ℕ, List, [], ◌∷◌, Bytes, some}
use mydis_old.Runtime.{Prog, ◌>>=◌, lift}
use mydis_old.Etcd.{Etcd}
use mydis_old.Value.{Value, to_bytes, string_in, int_in, float_in}
use mydis_old.Cli.{
  Setting, Command, flag, number, text, real, done, silent, printed, ask, give, stopped, with_one,
  with_two, with_int, with_float, not_enough_args,
}
use mydis_old.Cli.Display.{display_list, display_map}
use mydis_old.Client.Keys.{keys, keys_with_prefix, has, set_expire, delete, clear}
use mydis_old.Client.Values.{
  get, get_many, set, set_nx, increment_int, decrement_int, increment_float, decrement_float,
}

abbrev pub first_or_empty : List Bytes → Bytes
first_or_empty [] = []
first_or_empty (a ∷ args) = a

-- `client.X(...).String()`
abbrev pub text_of : {E : Etcd} → Prog E Value → Prog E Bytes
text_of m = do v ← m; lift (to_bytes v)

module _ {S : Setting} where
  unfoldable pub with_one_or_more : (List Bytes → Command S) → List Bytes → Command S
  with_one_or_more f [] = give (stopped not_enough_args)
  with_one_or_more f (a ∷ args) = f (a ∷ args)

module _ {S : Setting} (fuel : ℕ) where
  abbrev pub keys_command : List Bytes → Command S
  keys_command args = ask (λ ks. done (display_list ks)) (λ ctx. keys S.etcd S.grpc)

  abbrev pub keys_with_prefix_command : List Bytes → Command S
  keys_with_prefix_command args =
      ask (λ ks. done (display_list ks))
        (λ ctx. keys_with_prefix S.etcd S.grpc (first_or_empty args))

  abbrev pub has_command : List Bytes → Command S
  has_command = with_one λ key. ask (printed flag) (λ ctx. has S.etcd S.grpc key)

  abbrev pub set_expire_command : List Bytes → Command S
  set_expire_command =
      with_two λ key d. with_int d λ i. ask silent (λ ctx. set_expire S.etcd S.grpc key i)

  abbrev pub delete_command : List Bytes → Command S
  delete_command = with_one λ key. ask silent (λ ctx. delete S.etcd S.grpc fuel ctx key)

  abbrev pub clear_command : List Bytes → Command S
  clear_command args = ask silent (λ ctx. clear S.etcd S.grpc)

  abbrev pub get_command : List Bytes → Command S
  get_command = with_one λ key. ask (printed text) (λ ctx. text_of (get S.etcd S.grpc fuel key))

  abbrev pub get_many_command : List Bytes → Command S
  get_many_command =
      with_one_or_more
        λ keys. ask (λ m. done (display_map m)) (λ ctx. get_many S.etcd S.grpc fuel keys)

  abbrev pub set_command : List Bytes → Command S
  set_command =
      with_two
        λ key value. ask silent (λ ctx. set S.etcd S.grpc fuel ctx S.proto key (string_in value))

  -- The result is printed, and then the error for missing arguments is returned.
  abbrev pub set_nx_command : List Bytes → Command S
  set_nx_command = with_two λ key value.
      ask (λ b. record { lines = (flag b ∷ []) ∷ []; problem = some not_enough_args })
        (λ ctx. set_nx S.etcd S.grpc fuel ctx S.proto key (string_in value))

  abbrev pub set_int_command : List Bytes → Command S
  set_int_command = with_two λ key value.
      with_int value λ i. ask silent (λ ctx. set S.etcd S.grpc fuel ctx S.proto key (int_in i))

  abbrev pub set_float_command : List Bytes → Command S
  set_float_command = with_two λ key value.
      with_float value λ f. ask silent (λ ctx. set S.etcd S.grpc fuel ctx S.proto key (float_in f))

  abbrev pub increment_int_command : List Bytes → Command S
  increment_int_command = with_two λ key by.
      with_int by
        λ i. ask (printed number) (λ ctx. increment_int S.etcd S.grpc fuel ctx S.proto key i)

  abbrev pub decrement_int_command : List Bytes → Command S
  decrement_int_command = with_two λ key by.
      with_int by
        λ i. ask (printed number) (λ ctx. decrement_int S.etcd S.grpc fuel ctx S.proto key i)

  abbrev pub increment_float_command : List Bytes → Command S
  increment_float_command = with_two λ key by.
      with_float by
        λ f. ask (printed real) (λ ctx. increment_float S.etcd S.grpc fuel ctx S.proto key f)

  abbrev pub decrement_float_command : List Bytes → Command S
  decrement_float_command = with_two λ key by.
      with_float by
        λ f. ask (printed real) (λ ctx. decrement_float S.etcd S.grpc fuel ctx S.proto key f)
