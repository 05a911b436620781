-- ===== src/Cli/Help.antt =====
-- The table of commands in cli/cli.go, and its display.
use mydis_old.Prelude.{
  beq, if◌then◌else◌, List, [], ◌∷◌, ◌++◌, map, Bytes, codes, some, none, Option,
}
use mydis_old.Cli.{Printed, text}
use Prim.Native.String.{String}
use mydis_old.Server.Hashes.{sort_strings}

-- A command's name, and what `help` has for it.
pub record HelpEntry : Type 0 where
  pub name : Bytes
  pub usage : Bytes
  pub desc : Bytes

abbrev pub help_entry : String → String → String → HelpEntry
help_entry name usage desc = record { name = codes name; usage = codes usage; desc = codes desc }

-- help
abbrev pub help : List HelpEntry
help =
    help_entry "KEYS" "KEYS" "Get a list of keys in the cache"
    ∷ help_entry "KEYSWITHPREFIX" "KEYSWITHPREFIX key" "Get a list of keys with the given prefix"
    ∷ help_entry "HAS" "HAS key" "Checks if the cache has the given key"
    ∷ help_entry "SETEXPIRE" "SETEXPIRE key duration" "Sets the expiration on a key"
    ∷ help_entry "DELETE" "DELETE key" "Delete a key from the cache"
    ∷ help_entry "CLEAR" "CLEAR" "Clear the cache"
    ∷ help_entry "GET" "GET key" "Get a string from the cache"
    ∷ help_entry "SET" "SET key value" "Set a string in the cache"
    ∷ help_entry "SETNX" "SETNX key value"
        "Set a string in the cache only if the key doesn't already exist"
    ∷ help_entry "SETINT" "SETINT key int" "Set an integeer in the cache"
    ∷ help_entry "SETFLOAT" "SETFLOAT key float" "Set a float in the cache"
    ∷ help_entry "INCREMENTINT" "INCREMENTINT key by"
        "Increment an integer by the given number and return the result"
    ∷ help_entry "DECREMENTINT" "DECREMENTINT key by"
        "Decrement an integer by the given number and return the result"
    ∷ help_entry "INCREMENTFLOAT" "INCREMENTFLOAT key by"
        "Increment a float by the given number and return the result"
    ∷ help_entry "DECREMENTFLOAT" "DECREMENTFLOAT key by"
        "Decrement a float by the given number and return the result"
    ∷ help_entry "GETLISTITEM" "GETLISTITEM key index" "Get a single item from a list by index"
    ∷ help_entry "SETLISTITEM" "SETLISTITEM key index value" "Set a single item in a list by index"
    ∷ help_entry "LISTLIMIT" "LISTLIMIT key limit"
        "Set the maximum length of a list, removing items from the top once reached"
    ∷ help_entry "LISTLENGTH" "LISTLENGTH key" "Get the number of items in a list"
    ∷ help_entry "LISTINSERT" "LISTINSERT key index value"
        "Insert a new item to a list at the given index"
    ∷ help_entry "LISTAPPEND" "LISTAPPEND key value" "Insert a new item at the end of the list"
    ∷ help_entry "LISTPOPLEFT" "LISTPOPLEFT key" "Returns and removes the first item in a list"
    ∷ help_entry "LISTPOPLEFTBLK" "LISTPOPLEFTBLK key seconds"
        "Returns and removes the first item in a list or waits the given seconds for a new value"
    ∷ help_entry "LISTPOPRIGHT" "LISTPOPRIGHT key" "Returns and removes the last item in a list"
    ∷ help_entry "LISTPOPRIGHTBLK" "LISTPOPRIGHTBLK key seconds"
        "Returns and removes the last item in a list or waits the given seconds for a new value"
    ∷ help_entry "LISTHAS" "LISTHAS key value" "Determines if a list contains an item"
    ∷ help_entry "LISTDELETE" "LISTDELETE key index" "Removes an item from a list by index"
    ∷ help_entry "LISTDELETEITEM" "LISTDELETEITEM key value"
        "Removes first occurance of value from a list, returns index of removed item or -1 for not found"
    ∷ help_entry "GETHASHFIELD" "GETHASHFIELD key field" "Get a single value from a hash"
    ∷ help_entry "HASHHAS" "HASHHAS key field" "Determines if a hash has a given field"
    ∷ help_entry "HASHFIELDS" "HASHFIELDS key" "Get a list of the fields in a hash"
    ∷ help_entry "HASHVALUES" "HASHVALUES key" "Get a list of the values in a hash"
    ∷ help_entry "SETHASHFIELD" "SETHASHFIELD key field value" "Set a single value in a hash"
    ∷ help_entry "DELHASHFIELD" "DELHASHFIELD key field" "Delete a field from a hash"
    ∷ help_entry "LOCK" "LOCK key" "Lock a key"
    ∷ help_entry "LOCKWITHTIMEOUT" "LOCKWITHTIMEOUT key seconds" "Lock a key with custom timeout"
    ∷ help_entry "UNLOCK" "UNLOCK key" "Unlock a key"
    ∷ help_entry "SETLOCKTIMEOUT" "SETLOCKTIMEOUT seconds" "Set the default lock timeout"
    ∷ help_entry "WATCH" "WATCH key" "Watch for changes to a key"
    ∷ help_entry "UNWATCH" "UNWATCH key" "Unwatch for changes to a key"
    ∷ help_entry "AUTHENABLE" "AUTHENABLE" "Enable authentication"
    ∷ help_entry "AUTHDISABLE" "AUTHDISABLE" "Disable authentication"
    ∷ help_entry "AUTHENTICATE" "AUTHENTICATE username password" "Authenticate a user"
    ∷ help_entry "USERADD" "USERADD username password" "Add a new user"
    ∷ help_entry "USERGET" "USERGET username" "Get detailed user information"
    ∷ help_entry "USERLIST" "USERLIST" "Get list of all users"
    ∷ help_entry "USERDELETE" "USERDELETE username" "Delete a specific user"
    ∷ help_entry "USERCHANGEPASS" "USERCHANGEPASS username password"
        "Change the password for a user"
    ∷ help_entry "USERGRANTROLE" "USERGRANTROLE username role" "Grant a role to a user"
    ∷ help_entry "USERREVOKEROLE" "USERREVOKEROLE username role" "Revoke a role from a user"
    ∷ help_entry "ROLEADD" "ROLEADD role" "Add a new role"
    ∷ help_entry "ROLEGET" "ROLEGET role" "Get detailed information for a role"
    ∷ help_entry "ROLELIST" "ROLELIST" "Returns a list of roles"
    ∷ help_entry "ROLEDELETE" "ROLEDELETE role" "Delete a role"
    ∷ help_entry "ROLEGRANTPERM" "ROLEGRANTPERM role key permType"
        "Grant a permission to a role, key can end with '*', permType can be one of: READ, WRITE, READWRITE"
    ∷ help_entry "ROLEREVOKEPERM" "ROLEREVOKEPERM role key permType"
        "Revoke a permission from a role, key can end with '*', permType can be one of: READ, WRITE, READWRITE"
    ∷ []

abbrev pub find_help : Bytes → List HelpEntry → Option HelpEntry
find_help name [] = none
find_help name (e ∷ es) = let rest = find_help name es in if beq e.name name then some e else rest

-- commands[name], where a missing name has empty texts
abbrev pub usage_of : Bytes → List HelpEntry → Bytes
usage_of name es = elim (find_help name es) [ none ↦ [] | some e ↦ e.usage ]

abbrev pub desc_of : Bytes → List HelpEntry → Bytes
desc_of name es = elim (find_help name es) [ none ↦ [] | some e ↦ e.desc ]

module _ {F : Type 0} where
  abbrev line : String → List (Printed F)
  line s = text (codes s) ∷ []

  abbrev pub help_lines : List HelpEntry → List Bytes → List (List (Printed F))
  help_lines es [] = []
  help_lines es (name ∷ names) =
      (text name ∷ [])
      ∷ (text (codes "\tUsage:") ∷ text (usage_of name es) ∷ [])
      ∷ (text (codes "\tDesc: ") ∷ text (desc_of name es) ∷ [])
      ∷ help_lines es names

  unfoldable pub display_help : List HelpEntry → List (List (Printed F))
  display_help es =
      line "Commands:" ∷ help_lines es (sort_strings (map (λ e. e.name) es))
      ++ line "\nAdditional Commands:"
        ∷ line "QUIT"
        ∷ line "\tUsage: QUIT"
        ∷ line "\tDesc: Quit program"
        ∷ []
