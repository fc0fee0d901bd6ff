-- ===== src/Rabbit/Settings/Accounts.antt =====
-- What the program relies on: how the calls change the passwords in the broker and the values in
-- the store.
use platform_configure.Prelude.{
  Bool, true, false, ltb, leb, ℕ, ◌<◌, Bytes, ◌≡◌, Option, none, some, bytes_eq, if◌then◌else◌,
}
use platform_configure.Rabbit.Interface.{Answer, UserSettings, Permissions, Connectors}
use platform_configure.Rabbit.Settings.{key_of}

-- The broker has done what was asked for.
abbrev pub accepted : Answer → Bool
accepted a = elim a.err [
  | some e ↦ false
  | none ↦ elim a.response [ none ↦ false | some code ↦ ltb code 300 ]
]

-- The broker has refused it, which is no error for rabbit-hole.
abbrev pub is_refused : Answer → Bool
is_refused a = elim a.err [
  | some e ↦ false
  | none ↦ elim a.response [ none ↦ false | some code ↦ leb 400 code ]
]

-- `password q`: the password of the user `q`. `value k`: what the store has at the key `k`.
pub record IsBacked {S : Type 0} (c : Connectors S) (password value : Bytes → S → Option Bytes)
    : Type 0 where
  pub password-put :
      (name q : Bytes) (u : UserSettings) (s : S)
      → accepted (c.r.put_user name u s).0 ≡ true
      → password q (c.r.put_user name u s).1
        ≡ (if bytes_eq name q then some u.password else password q s)
  pub password-put_refused :
      (name q : Bytes) (u : UserSettings) (s : S)
      → is_refused (c.r.put_user name u s).0 ≡ true
      → password q (c.r.put_user name u s).1 ≡ password q s
  pub password-intn : (n : ℕ) (q : Bytes) (s : S) → password q (c.intn n s).1 ≡ password q s
  pub password-vhost : (v q : Bytes) (s : S) → password q (c.r.put_vhost v s).1 ≡ password q s
  pub password-rights :
      (v n q : Bytes) (p : Permissions) (s : S)
      → password q (c.r.update_permissions_in v n p s).1 ≡ password q s
  pub password-set : (k v q : Bytes) (s : S) → password q (c.s.set k v s).1 ≡ password q s
  -- The broker does not touch the store, nor does drawing a number.
  pub value-put :
      (n k : Bytes) (u : UserSettings) (s : S) → value k (c.r.put_user n u s).1 ≡ value k s
  pub value-vhost : (v k : Bytes) (s : S) → value k (c.r.put_vhost v s).1 ≡ value k s
  pub value-rights :
      (v n k : Bytes) (p : Permissions) (s : S)
      → value k (c.r.update_permissions_in v n p s).1 ≡ value k s
  pub value-intn : (n : ℕ) (k : Bytes) (s : S) → value k (c.intn n s).1 ≡ value k s
  pub value-list : (k : Bytes) (s : S) → value k (c.r.list_permissions s).2 ≡ value k s
  pub value-delete_vhost : (v k : Bytes) (s : S) → value k (c.r.delete_vhost v s).1 ≡ value k s
  pub value-delete_user : (n k : Bytes) (s : S) → value k (c.r.delete_user n s).1 ≡ value k s
  -- Setting changes one key. So does deleting the key of an app, below which there are no keys.
  -- Neither changes anything if it fails.
  pub value-set :
      (k v q : Bytes) (s : S)
      → (c.s.set k v s).0 ≡ none
      → value q (c.s.set k v s).1 ≡ (if bytes_eq k q then some v else value q s)
  pub value-set_failed :
      (k v q e : Bytes) (s : S) → (c.s.set k v s).0 ≡ some e → value q (c.s.set k v s).1 ≡ value q s
  pub value-delete :
      (app q : Bytes) (s : S)
      → (c.s.delete (key_of app) s).0 ≡ none
      → value q (c.s.delete (key_of app) s).1
        ≡ (if bytes_eq (key_of app) q then none else value q s)
  pub value-delete_failed :
      (k q e : Bytes) (s : S) → (c.s.delete k s).0 ≡ some e → value q (c.s.delete k s).1 ≡ value q s
  -- rand.Intn
  pub intn-lt : (n : ℕ) (s : S) → 0 < n → (c.intn n s).0 < n
