-- ===== src/Rabbit/Settings/Laws.antt =====
-- What creating, deleting and listing settings leave in the broker and in the store.
use platform_configure.Prelude.{
  ℕ, zero, suc, ◌≤◌, ◌<◌, Bytes, Err, codes, ◌∙◌, ◌≡◌, ◌⊎◌, refl, ap, bytes_eq, bytes_eq_refl,
  length, All, leb, Bool, true, false, ◌&&◌, ◌||◌, [], ◌∷◌, Option, none, some, arith,
  if◌then◌else◌,
}
use platform_configure.Rabbit.Interface.{Answer, UserSettings, Connectors}
use platform_configure.Rabbit.Settings.{
  Exit, returns, all_rights, panics, key_of, url_of, chars, char_at, delete_settings, random_string,
  create_user, create_settings, list_settings,
}
use platform_configure.Rabbit.Settings.Accounts.{IsBacked, accepted, is_refused}

-- A letter or a digit.
abbrev pub IsAlnum : ℕ → Type 0
IsAlnum c = ((48 ≤ c) × (c ≤ 57)) ⊎ ((65 ≤ c) × (c ≤ 90)) ⊎ ((97 ≤ c) × (c ≤ 122))

is_alnum : ℕ → Bool
is_alnum c = leb 48 c && leb c 57 || leb 65 c && leb c 90 || leb 97 c && leb c 122

all_alnum : Bytes → Bool
unfolding is_alnum
all_alnum [] = true
all_alnum (c ∷ cs) = is_alnum c && all_alnum cs

chars_alnum : all_alnum chars ≡ true
unfolding all_alnum
chars_alnum = refl

char_at-IsAlnum :
    (cs : Bytes) (i : ℕ) → i < length cs → all_alnum cs ≡ true → IsAlnum (char_at cs i)
unfolding char_at all_alnum is_alnum
char_at-IsAlnum [] i h a = absurd (omega arith)
char_at-IsAlnum (c ∷ cs) zero h a = ground arith
char_at-IsAlnum (c ∷ cs) (suc i) h a = char_at-IsAlnum cs i (omega arith) (ground arith)

abbrev pub succeeds : Exit → Bool
succeeds (panics e) = false
succeeds (returns text err) = elim err [ none ↦ true | some e ↦ false ]

-- The broker's answer to the call of PutUser, which the code does not look at.
abbrev pub put_answer : {S : Type 0} → Connectors S → Bytes → S → Answer
put_answer c name s =
    let (pw, s0) = random_string c 20 s in
    (c.r.put_user name (record { name = name; password = pw; tags = codes "autocreated" }) s0).0

module _ {S : Type 0} (c : Connectors S) (password value : Bytes → S → Option Bytes)
    (B : IsBacked c password value) where
  random_string_ok :
      (n : ℕ) (s : S) → (length (random_string c n s).0 ≡ n) × All IsAlnum (random_string c n s).0
  unfolding random_string
  random_string_ok zero s = (refl, tt)
  random_string_ok (suc n) s =
      let (i, s1) = c.intn 62 s in
      let (long, alnum) = random_string_ok n s1 in
      (ap suc long, (char_at-IsAlnum chars i (B.intn-lt 62 s (omega arith)) chars_alnum, alnum))

  value-random_string : (n : ℕ) (k : Bytes) (s : S) → value k (random_string c n s).1 ≡ value k s
  unfolding random_string
  value-random_string zero k s = refl
  value-random_string (suc n) k s =
      ground (arith, value-random_string n k (c.intn 62 s).1, B.value-intn 62 k s)

  password-random_string :
      (n : ℕ) (q : Bytes) (s : S) → password q (random_string c n s).1 ≡ password q s
  unfolding random_string
  password-random_string zero q s = refl
  password-random_string (suc n) q s =
      ground (arith, password-random_string n q (c.intn 62 s).1, B.password-intn 62 q s)

  -- After the user, nothing that creates the settings touches the broker's passwords.
  password-created :
      (name vhost q : Bytes) (s : S)
      → succeeds (create_settings c name vhost s).0 ≡ true
      → password q (create_settings c name vhost s).1 ≡ password q (create_user c name s).2
  unfolding create_settings
  password-created name vhost q s h =
      let (pw, no_user, s1) = create_user c name s in
      let s2 = (c.r.put_vhost vhost s1).1 in
      let s3 = (c.r.update_permissions_in vhost name all_rights s2).1 in
      ground (
        arith,
        B.password-vhost vhost q s1,
        B.password-rights vhost name q all_rights s2,
        B.password-set (key_of vhost) (url_of name pw vhost) q s3,
      )

  -- The address that creating the settings stores.
  value-created :
      (name vhost : Bytes) (s : S)
      → succeeds (create_settings c name vhost s).0 ≡ true
      → value (key_of vhost) (create_settings c name vhost s).1
        ≡ some (url_of name (create_user c name s).0 vhost)
  unfolding create_settings
  value-created name vhost s h =
      let (pw, no_user, s1) = create_user c name s in
      let s2 = (c.r.put_vhost vhost s1).1 in
      let s3 = (c.r.update_permissions_in vhost name all_rights s2).1 in
      ground (
        arith,
        B.value-set (key_of vhost) (url_of name pw vhost) (key_of vhost) s3,
        bytes_eq_refl (key_of vhost),
      )

  -- When the settings of an app are created without an error and the broker answers PutUser with a
  -- status code below 300, the broker has for its user a password of twenty letters and digits,
  -- and the store has the address with that user, password and virtual host. Assumed: the broker
  -- keeps a user where its status code is below 300, the store keeps what it is given, other calls
  -- leave both alone, and rand.Intn stays below its bound.
  pub create_settings_ok :
      (name vhost : Bytes) (s : S)
      → let after = create_settings c name vhost s in
        accepted (put_answer c name s) ≡ true
        → succeeds after.0 ≡ true
        → (pw : Bytes) × (password name after.1 ≡ some pw)
          × (value (key_of vhost) after.1 ≡ some (url_of name pw vhost))
          × (length pw ≡ 20)
          × All IsAlnum pw
  unfolding create_user
  create_settings_ok name vhost s put h =
      let (pw, s0) = random_string c 20 s in
      let u : UserSettings = record { name = name; password = pw; tags = codes "autocreated" } in
      (
        pw,
        ground (
          arith,
          password-created name vhost name s h,
          B.password-put name name u s0,
          bytes_eq_refl name,
        ),
        value-created name vhost s h,
        (random_string_ok 20 s).0,
        (random_string_ok 20 s).1,
      )

  -- When the broker refuses PutUser and the settings are created without an error nevertheless,
  -- the store has the address with a password of twenty letters and digits, while every password
  -- in the broker is what it was before. Assumed: a refused request changes no password, the store
  -- keeps what it is given, other calls leave the passwords alone, and rand.Intn stays below its
  -- bound.
  pub create_settings_refused :
      (name vhost : Bytes) (s : S)
      → let after = create_settings c name vhost s in
        is_refused (put_answer c name s) ≡ true
        → succeeds after.0 ≡ true
        → (pw : Bytes) × ((q : Bytes) → password q after.1 ≡ password q s)
          × (value (key_of vhost) after.1 ≡ some (url_of name pw vhost))
          × (length pw ≡ 20)
          × All IsAlnum pw
  unfolding create_user
  create_settings_refused name vhost s put h =
      let (pw, s0) = random_string c 20 s in
      let u : UserSettings = record { name = name; password = pw; tags = codes "autocreated" } in
      (
        pw,
        λ q.
            password-created name vhost q s h
            ∙ B.password-put_refused name q u s0 put
            ∙ password-random_string 20 q s,
        value-created name vhost s h,
        (random_string_ok 20 s).0,
        (random_string_ok 20 s).1,
      )

  -- When creating the settings panics or returns an error, the store is as it was: no address is
  -- written for an account that is not there. Assumed: the broker and rand.Intn do not touch the
  -- store, and setting a key that fails changes nothing.
  pub create_settings_failed :
      (name vhost k : Bytes) (s : S)
      → let after = create_settings c name vhost s in
        succeeds after.0 ≡ false → value k after.1 ≡ value k s
  unfolding create_settings create_user
  create_settings_failed name vhost k s h =
      go (c.s.set (key_of vhost) (url_of name pw vhost) s3).0 refl
    where
      pw : Bytes
      pw = (random_string c 20 s).0

      s0 : S
      s0 = (random_string c 20 s).1

      u : UserSettings
      u = record { name = name; password = pw; tags = codes "autocreated" }

      s1 : S
      s1 = (c.r.put_user name u s0).1

      s2 : S
      s2 = (c.r.put_vhost vhost s1).1

      s3 : S
      s3 = (c.r.update_permissions_in vhost name all_rights s2).1

      same : value k s3 ≡ value k s
      same =
          B.value-rights vhost name k all_rights s2
          ∙ B.value-vhost vhost k s1
          ∙ B.value-put name k u s0
          ∙ value-random_string 20 k s

      go :
          (err : Err)
          → (c.s.set (key_of vhost) (url_of name pw vhost) s3).0 ≡ err
          → value k (create_settings c name vhost s).1 ≡ value k s
      go none p = ground (
        arith,
        same,
        value-random_string 20 k s,
        B.value-put name k u s0,
        B.value-vhost vhost k s1,
      )
      go (some e) p = ground (
        arith,
        same,
        value-random_string 20 k s,
        B.value-put name k u s0,
        B.value-vhost vhost k s1,
        B.value-set_failed (key_of vhost) (url_of name pw vhost) k e s3,
      )

  -- When deleting the settings of an app returns no error, the app's entry in the store is gone,
  -- whatever the broker answered, and no other entry has changed. Assumed: the broker does not
  -- touch the store, and deleting the app's key takes that key alone.
  pub delete_settings_ok :
      (name q : Bytes) (s : S)
      → let after = delete_settings c name s in
        succeeds after.0 ≡ true
        → value q after.1 ≡ (if bytes_eq (key_of name) q then none else value q s)
  unfolding delete_settings
  delete_settings_ok name q s h =
      let s1 = (c.r.delete_vhost name s).1 in
      let s2 = (c.r.delete_user name s1).1 in
      ground (
        arith,
        B.value-delete name q s2,
        B.value-delete_user name q s1,
        B.value-delete_vhost name q s,
      )

  pub delete_settings_failed :
      (name q : Bytes) (s : S)
      → succeeds (delete_settings c name s).0 ≡ false
      → value q (delete_settings c name s).1 ≡ value q s
  unfolding delete_settings
  delete_settings_failed name q s h = go (c.s.delete (key_of name) s2).0 refl
    where
      s1 : S
      s1 = (c.r.delete_vhost name s).1

      s2 : S
      s2 = (c.r.delete_user name s1).1

      go :
          (err : Err)
          → (c.s.delete (key_of name) s2).0 ≡ err
          → value q (delete_settings c name s).1 ≡ value q s
      go none p = absurd (ground arith)
      go (some e) p =
          B.value-delete_failed (key_of name) q e s2 p
          ∙ B.value-delete_user name q s1
          ∙ B.value-delete_vhost name q s

  pub value-list_settings : (q : Bytes) (s : S) → value q (list_settings c s).1 ≡ value q s
  unfolding list_settings
  value-list_settings q s = ground (arith, B.value-list q s)
