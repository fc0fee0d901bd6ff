-- ===== src/Rabbit/Settings/Runs.antt =====
-- What a whole run of rabbitmq-manager leaves in the broker and in the store.
use platform_configure.Prelude.{
  Bytes, ◌∙◌, ◌≡◌, ◌≢◌, ap, bytes_eq, length, All, [], Option, none, some, true, false, arith,
  if◌then◌else◌,
}
use platform_configure.Rabbit.Interface.{Connectors}
use platform_configure.Rabbit.Settings.{
  key_of, url_of, Flags, create_settings, switch_by_command_line, main,
}
use platform_configure.Rabbit.Settings.Accounts.{IsBacked, accepted, is_refused}
use platform_configure.Rabbit.Settings.Laws.{
  put_answer, create_settings_refused, IsAlnum, succeeds, create_settings_ok,
  create_settings_failed, delete_settings_ok, delete_settings_failed, value-list_settings,
}

module _ {S : Type 0} (c : Connectors S) (password value : Bytes → S → Option Bytes)
    (B : IsBacked c password value) where
  -- Whatever the flags, a run that does not exit with status 0 leaves the store as it was: no
  -- address is written for an account that could not be made. Assumed: the broker and rand.Intn
  -- do not touch the store, and setting or deleting a key that fails changes nothing.
  pub value-main_failed :
      (f : Flags) (q : Bytes) (s : S) → (main c f s).0 ≢ 0 → value q (main c f s).1 ≡ value q s
  unfolding main switch_by_command_line
  value-main_failed f q s h = ground (
    arith,
    create_settings_failed c password value B f.create f.create q s,
    delete_settings_failed c password value B f.delete q s,
    value-list_settings c password value B q s,
  )

  -- The flags ask for an account to be created and the program exits with status 0.
  main_creates :
      (f : Flags) (s : S)
      → bytes_eq f.delete [] ≡ true
      → bytes_eq f.create [] ≡ false
      → (main c f s).0 ≡ 0
      → let after = create_settings c f.create f.create s in
        (succeeds after.0 ≡ true) × ((main c f s).1 ≡ after.1)
  unfolding main switch_by_command_line
  main_creates f s no_delete some_create ok = ground arith

  pub main_created :
      (f : Flags) (s : S)
      → bytes_eq f.delete [] ≡ true
      → bytes_eq f.create [] ≡ false
      → accepted (put_answer c f.create s) ≡ true
      → (main c f s).0 ≡ 0
      → (pw : Bytes) × (password f.create (main c f s).1 ≡ some pw)
        × (value (key_of f.create) (main c f s).1 ≡ some (url_of f.create pw f.create))
        × (length pw ≡ 20)
        × All IsAlnum pw
  main_created f s no_delete some_create put ok =
      let (done, same) = main_creates f s no_delete some_create ok in
      let (pw, in_broker, in_store, long, alnum) =
        create_settings_ok c password value B f.create f.create s put done in
      (
        pw,
        ap (password f.create) same ∙ in_broker,
        ap (value (key_of f.create)) same ∙ in_store,
        long,
        alnum,
      )

  pub main_refused :
      (f : Flags) (s : S)
      → bytes_eq f.delete [] ≡ true
      → bytes_eq f.create [] ≡ false
      → is_refused (put_answer c f.create s) ≡ true
      → (main c f s).0 ≡ 0
      → (pw : Bytes) × ((q : Bytes) → password q (main c f s).1 ≡ password q s)
        × (value (key_of f.create) (main c f s).1 ≡ some (url_of f.create pw f.create))
        × (length pw ≡ 20)
        × All IsAlnum pw
  main_refused f s no_delete some_create put ok =
      let (done, same) = main_creates f s no_delete some_create ok in
      let (pw, in_broker, in_store, long, alnum) =
        create_settings_refused c password value B f.create f.create s put done in
      (
        pw,
        λ q. ap (password q) same ∙ in_broker q,
        ap (value (key_of f.create)) same ∙ in_store,
        long,
        alnum,
      )

  -- A run with `-delete` that exits with status 0 removes the app's entry and no other.
  pub main_deleted :
      (f : Flags) (q : Bytes) (s : S)
      → bytes_eq f.delete [] ≡ false
      → (main c f s).0 ≡ 0
      → value q (main c f s).1 ≡ (if bytes_eq (key_of f.delete) q then none else value q s)
  unfolding main switch_by_command_line
  main_deleted f q s some_delete ok =
      ground (arith, delete_settings_ok c password value B f.delete q s)
