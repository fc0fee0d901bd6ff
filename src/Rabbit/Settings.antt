-- ===== src/Rabbit/Settings.antt =====
-- deleteSettings, createSettings, listSettings and the command line of rabbitmq-manager.go.
pub mod Accounts
pub mod Laws
pub mod Runs
use platform_configure.Prelude.{
  ℕ, zero, suc, Bytes, Err, codes, bytes_eq, Bool, List, [], ◌∷◌, ◌++◌, none, some, if◌then◌else◌,
}
use platform_configure.Rabbit.Interface.{UserSettings, Permissions, PermissionInfo, Connectors}

-- A call returns its text and its error, or the program panics with an error.
pub data Exit : Type 0 where
  returns : Bytes → Err → Exit
  panics : Bytes → Exit

abbrev pub key_of : Bytes → Bytes
key_of app = codes "app/" ++ app ++ codes "/rabbitmq"

abbrev pub url_of : Bytes → Bytes → Bytes → Bytes
url_of name password vhost =
    codes "amqp://" ++ name ++ codes ":" ++ password ++ codes "@rabbitmq:5672/" ++ vhost

abbrev pub chars : Bytes
chars = codes "ABCDEFGHIJKLMNOPQRSTUVWXYZabcdefghijklmnopqrstuvwxyz0123456789"

-- `chars[i]`; the index is below the length.
unfoldable pub char_at : Bytes → ℕ → ℕ
char_at [] i = 0
char_at (c ∷ cs) zero = c
char_at (c ∷ cs) (suc i) = char_at cs i

abbrev pub all_rights : Permissions
all_rights = record { configure = codes ".*"; write = codes ".*"; read = codes ".*" }

-- The report's template, executed.
unfoldable pub entries : List PermissionInfo → Bytes
entries [] = []
entries (p ∷ perms) =
    codes "Name:\t"
    ++ p.user
    ++ codes "\n\tVHost:\t\t"
    ++ p.vhost
    ++ codes "\n\tConfigure:\t"
    ++ p.granted.configure
    ++ codes "\n\tWrite:\t\t"
    ++ p.granted.write
    ++ codes "\n\tRead:\t\t"
    ++ p.granted.read
    ++ codes "\n"
    ++ entries perms

unfoldable pub report : List PermissionInfo → Bytes
unfolding entries
report perms = codes "Access Control and Permissions:\n\n" ++ entries perms ++ codes "\n"

pub record Flags : Type 0 where
  pub delete : Bytes
  pub create : Bytes
  pub list : Bool

module _ {S : Type 0} (c : Connectors S) where
  -- Errors of the broker are only printed.
  unfoldable pub delete_settings : Bytes → S → Exit × S
  delete_settings name s =
      let s1 = (c.r.delete_vhost name s).1 in
      let s2 = (c.r.delete_user name s1).1 in
      let (err, s3) = c.s.delete (key_of name) s2 in (returns (codes "DONE\n") err, s3)

  -- The loop of `randomString`.
  unfoldable pub random_string : ℕ → S → Bytes × S
  random_string zero s = ([], s)
  random_string (suc n) s =
      let (i, s1) = c.intn 62 s in
      let (rest, s2) = random_string n s1 in (char_at chars i ∷ rest, s2)

  unfoldable pub create_user : Bytes → S → Bytes × Err × S
  create_user name s =
      let (password, s1) = random_string 20 s in
      let (answer, s2) =
        c.r.put_user name (record { name = name; password = password; tags = codes "autocreated" })
          s1 in
      (password, answer.err, s2)

  unfoldable pub create_settings : Bytes → Bytes → S → Exit × S
  create_settings name vhost s =
      let (password, no_user, s1) = create_user name s in
      let (vhost_put, s2) = c.r.put_vhost vhost s1 in
      let (rights_set, s3) = c.r.update_permissions_in vhost name all_rights s2 in
      let (err, s4) = c.s.set (key_of vhost) (url_of name password vhost) s3 in
      elim no_user [
        | some e ↦ (panics e, s1)
        | none ↦ elim vhost_put.err [
          | some e ↦ (panics e, s2)
          | none ↦ elim rights_set.err [
            | some e ↦ (panics e, s3)
            | none ↦ (returns (codes "DONE.\nNew Password was set\n") err, s4)
          ]
        ]
      ]

  unfoldable pub list_settings : S → Exit × S
  list_settings s =
      let (perms, err, s1) = c.r.list_permissions s in
      elim err [ some e ↦ (panics e, s1) | none ↦ (returns (report perms) none, s1) ]

  unfoldable pub switch_by_command_line : Flags → S → Exit × S
  switch_by_command_line f s =
      if bytes_eq f.delete []
      then (if bytes_eq f.create []
          then (if f.list then list_settings s else (returns [] (some (codes "Invalid flag.")), s))
          else create_settings f.create f.create s)
      else delete_settings f.delete s

  -- The exit status: log.Fatalf ends with 1, a panic with 2.
  unfoldable pub main : Flags → S → ℕ × S
  main f s =
      let (exit, s1) = switch_by_command_line f s in
      elim exit [
        | panics e ↦ (2, s1)
        | returns text err ↦ elim err [ some e ↦ (1, s1) | none ↦ (0, s1) ]
      ]
