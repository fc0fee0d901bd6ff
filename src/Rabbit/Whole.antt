-- ===== src/Rabbit/Whole.antt =====
-- rabbitmq-manager as it runs: its command line over the real connectors.
use platform_configure.Prelude.{
  none, if◌then◌else◌, Bytes, ◌≡◌, ◌≢◌, bytes_eq, length, All, [], Option, some, true, false,
}
use platform_configure.Rabbit.Settings.{key_of, url_of, Flags, main}
use platform_configure.Rabbit.Settings.Laws.{IsAlnum, put_answer}
use platform_configure.Rabbit.Settings.Accounts.{accepted, is_refused}
use platform_configure.Rabbit.Settings.Runs.{
  main_refused, main_created, main_deleted, value-main_failed,
}
use platform_configure.Rabbit.Session.{World, Session, real_connectors}
use platform_configure.Rabbit.Session.Backing.{IsWorld, real_connectors-IsBacked}

module _ {C W : Type 0} (w : World C W) (password value : Bytes → W → Option Bytes)
    (L : IsWorld w password value) where
  -- A run with `-create` that exits with status 0, and in which the broker answers PutUser with a
  -- status code below 300, leaves an account through every retry of its connections: the broker
  -- has for the app's user a password of twenty letters and digits, and the store has the address
  -- with that user, password and virtual host. Assumed: the broker keeps a user where its status code
  -- is below 300, the store keeps what it is given, opening connections, waiting and reading
  -- change neither, and rand.Intn stays below its bound.
  pub real_main_created :
      (f : Flags) (s : Session C W)
      → bytes_eq f.delete [] ≡ true
      → bytes_eq f.create [] ≡ false
      → accepted (put_answer (real_connectors w) f.create s) ≡ true
      → let (status, after) = main (real_connectors w) f s in
        status ≡ 0
        → (pw : Bytes) × (password f.create after.world ≡ some pw)
          × (value (key_of f.create) after.world ≡ some (url_of f.create pw f.create))
          × (length pw ≡ 20)
          × All IsAlnum pw
  real_main_created =
      main_created (real_connectors w) (λ q s. password q s.world) (λ k s. value k s.world)
        (real_connectors-IsBacked w password value L)

  -- A run with `-create` that exits with status 0 although the broker answers PutUser with a status
  -- code of 400 or more leaves every password in the broker as it was, and in the store the
  -- address with a new password of twenty letters and digits. Assumed: a refused request changes no password, the store keeps what it is
  -- given, opening connections, waiting and reading change neither, and rand.Intn stays below its
  -- bound.
  pub real_main_refused :
      (f : Flags) (s : Session C W)
      → bytes_eq f.delete [] ≡ true
      → bytes_eq f.create [] ≡ false
      → is_refused (put_answer (real_connectors w) f.create s) ≡ true
      → let (status, after) = main (real_connectors w) f s in
        status ≡ 0
        → (pw : Bytes) × ((q : Bytes) → password q after.world ≡ password q s.world)
          × (value (key_of f.create) after.world ≡ some (url_of f.create pw f.create))
          × (length pw ≡ 20)
          × All IsAlnum pw
  real_main_refused =
      main_refused (real_connectors w) (λ q s. password q s.world) (λ k s. value k s.world)
        (real_connectors-IsBacked w password value L)

  -- A run with `-delete` that exits with status 0 removes the app's entry from the store and no
  -- other, through every retry and whatever the broker answers. Assumed: the store keeps what it
  -- is given, deleting an app's key, below which there are no keys, takes that key alone, the
  -- broker does not touch the store, and opening connections, waiting and reading do not either.
  pub real_main_deleted :
      (f : Flags) (q : Bytes) (s : Session C W)
      → bytes_eq f.delete [] ≡ false
      → let (status, after) = main (real_connectors w) f s in
        status ≡ 0
        → value q after.world ≡ (if bytes_eq (key_of f.delete) q then none else value q s.world)
  real_main_deleted =
      main_deleted (real_connectors w) (λ q s. password q s.world) (λ k s. value k s.world)
        (real_connectors-IsBacked w password value L)

  -- A run that exits with another status leaves the store as it was, whatever was tried before.
  -- Assumed: the same of the clients, and that a store's operation that fails changes nothing.
  pub real_value-main_failed :
      (f : Flags) (k : Bytes) (s : Session C W)
      → let (status, after) = main (real_connectors w) f s in
        status ≢ 0 → value k after.world ≡ value k s.world
  real_value-main_failed =
      value-main_failed (real_connectors w) (λ q s. password q s.world) (λ k s. value k s.world)
        (real_connectors-IsBacked w password value L)
