-- ===== src/SkvsCli/Laws.antt =====
-- What a run of skvs_cli leaves in the store.
use platform_configure.Prelude.{
  ◌++◌, has_prefix, Bytes, Err, codes, ◌≡◌, ◌≢◌, refl, bytes_eq, eq_of_bytes_eq, List, [], ◌∷◌,
  Option, none, some, arith, if◌then◌else◌, length, Bool, ◌||◌, true, false,
}
use platform_configure.SkvsCli.{
  usage, invalid_parameters, Client, to_lower, finish, get, delete, set, main,
}

-- A key is a namespace too: what is below it is gone when it is deleted, as scripts/enable-gitlab.sh
-- relies on when it deletes `gitlab`.
abbrev pub covers : Bytes → Bytes → Bool
covers key q = bytes_eq key q || has_prefix q (key ++ codes "/")

-- What the program relies on: how the client's calls change the values in the store.
pub record IsStore {S : Type 0} (skvs : Client S) (value : Bytes → S → Option Bytes) : Type 0 where
  pub value-get : (k q : Bytes) (s : S) → value q (skvs.get k s).2 ≡ value q s
  pub value-set :
      (k v q : Bytes) (s : S)
      → (skvs.set k v s).0 ≡ none
      → value q (skvs.set k v s).1 ≡ (if bytes_eq k q then some v else value q s)
  pub value-set_failed :
      (k v q e : Bytes) (s : S)
      → (skvs.set k v s).0 ≡ some e
      → value q (skvs.set k v s).1 ≡ value q s
  pub value-delete :
      (k q : Bytes) (s : S)
      → (skvs.delete k s).0 ≡ none
      → value q (skvs.delete k s).1 ≡ (if covers k q then none else value q s)
  pub value-delete_failed :
      (k q e : Bytes) (s : S)
      → (skvs.delete k s).0 ≡ some e
      → value q (skvs.delete k s).1 ≡ value q s

-- What a command line asks of the store: the value at a key after a run that exits with 0.
abbrev pub wanted : List Bytes → Bytes → Option Bytes → Option Bytes
wanted [] q old = old
wanted (operation ∷ []) q old = old
wanted (operation ∷ key ∷ []) q old =
    if bytes_eq (to_lower operation) (codes "delete")
    then (if covers key q then none else old)
    else old
wanted (operation ∷ key ∷ value ∷ args) q old =
    if bytes_eq (to_lower operation) (codes "set")
    then (if bytes_eq key q then some value else old)
    else old

module _ {S : Type 0} (skvs : Client S) (program : Bytes) (value : Bytes → S → Option Bytes)
    (L : IsStore skvs value) where
  -- A run that exits with status 0 makes the changes that its arguments ask for, and no other; a
  -- run with help, or that gets a value, changes nothing. Deleting a key takes what is below it
  -- too. Assumed: the store keeps what it is given, setting a key touches no other, and deleting
  -- one touches only that key and those below it.
  pub skvs_main_ok :
      (args : List Bytes) (q : Bytes) (s : S)
      → (main skvs program args s).status ≡ 0
      → value q (main skvs program args s).state ≡ wanted args q (value q s)
  unfolding main get delete set finish
  skvs_main_ok [] q s h = refl
  skvs_main_ok (op ∷ []) q s h = ground arith
  skvs_main_ok (op ∷ k ∷ []) q s h =
      ground
        (arith, eq_of_bytes_eq (to_lower op) (codes "get"), L.value-get k q s, L.value-delete k q s)
  skvs_main_ok (op ∷ k ∷ v ∷ args) q s h = ground (
    arith,
    eq_of_bytes_eq (to_lower op) (codes "get"),
    eq_of_bytes_eq (to_lower op) (codes "delete"),
    L.value-set k v q s,
  )

  -- A run that does not exit with status 0 changes nothing. Assumed: getting a value, and an
  -- operation that fails, change nothing.
  pub skvs_main_failed :
      (args : List Bytes) (q : Bytes) (s : S)
      → (main skvs program args s).status ≢ 0
      → value q (main skvs program args s).state ≡ value q s
  unfolding main get delete set finish
  skvs_main_failed [] q s h = refl
  skvs_main_failed (op ∷ []) q s h = ground arith
  skvs_main_failed (op ∷ k ∷ []) q s h = one (skvs.delete k s).0 refl
    where
      one :
          (err : Err)
          → (skvs.delete k s).0 ≡ err
          → value q (main skvs program (op ∷ k ∷ []) s).state ≡ value q s
      one none p = ground (arith, L.value-get k q s)
      one (some e) p = ground (arith, L.value-get k q s, L.value-delete_failed k q e s)
  skvs_main_failed (op ∷ k ∷ v ∷ []) q s h = two (skvs.set k v s).0 refl
    where
      two :
          (err : Err)
          → (skvs.set k v s).0 ≡ err
          → value q (main skvs program (op ∷ k ∷ v ∷ []) s).state ≡ value q s
      two none p = ground arith
      two (some e) p = ground (arith, L.value-set_failed k v q e s)
  skvs_main_failed (op ∷ k ∷ v ∷ x ∷ args) q s h = ground arith

-- The words are no command: it is none of the four, or it has other parameters than it takes.
abbrev pub IsNoCommand : List Bytes → Type 0
IsNoCommand [] = Unit
IsNoCommand (operation ∷ args) =
    let op = to_lower operation in
    (bytes_eq op (codes "get") ≡ true → length args ≢ 1)
    × (bytes_eq op (codes "delete") ≡ true → length args ≢ 1)
    × (bytes_eq op (codes "set") ≡ true → length args ≢ 2)
    × ((bytes_eq op (codes "--help") || bytes_eq op (codes "-h") || bytes_eq op (codes "help"))
        ≡ false)

-- The cases of a switch that all come to the default.
no_case-usage :
    {A : Type 0} {a b c d : Bool} {x y z u : A} (v : A)
    → (a ≡ true → x ≡ u)
    → (b ≡ true → y ≡ u)
    → (c ≡ true → z ≡ u)
    → d ≡ false
    → (if a then x else if b then y else if c then z else if d then v else u) ≡ u
no_case-usage {a = true} v p q r n = p refl
no_case-usage {a = false} {b = true} v p q r n = q refl
no_case-usage {a = false} {b = false} {c = true} v p q r n = r refl
no_case-usage {a = false} {b = false} {c = false} {d = false} v p q r n = refl
no_case-usage {a = false} {b = false} {c = false} {d = true} v p q r n = absurd (cc)

module _ {S : Type 0} (skvs : Client S) (program : Bytes) where
  get_usage :
      (args : List Bytes) (s : S)
      → length args ≢ 1
      → get skvs program args s ≡ invalid_parameters program s
  unfolding get
  get_usage [] s h = refl
  get_usage (k ∷ []) s h = absurd (h refl)
  get_usage (k ∷ x ∷ args) s h = refl

  delete_usage :
      (args : List Bytes) (s : S)
      → length args ≢ 1
      → delete skvs program args s ≡ invalid_parameters program s
  unfolding delete
  delete_usage [] s h = refl
  delete_usage (k ∷ []) s h = absurd (h refl)
  delete_usage (k ∷ x ∷ args) s h = refl

  set_usage :
      (args : List Bytes) (s : S)
      → length args ≢ 2
      → set skvs program args s ≡ invalid_parameters program s
  unfolding set
  set_usage [] s h = refl
  set_usage (k ∷ []) s h = refl
  set_usage (k ∷ v ∷ []) s h = absurd (h refl)
  set_usage (k ∷ v ∷ x ∷ args) s h = refl

  -- With words that are no command, the run exits with status 1, prints the usage to the standard
  -- error and nothing to the standard output, and leaves the store as it is.
  pub skvs_main-usage :
      (args : List Bytes) (s : S)
      → IsNoCommand args
      → main skvs program args s ≡ record { status = 1; out = []; err = usage program; state = s }
  unfolding main
  skvs_main-usage [] s h = refl
  skvs_main-usage (operation ∷ args) s (no_get, no_delete, no_set, no_help) =
      let op = to_lower operation in
      no_case-usage _ (λ e. get_usage args s (no_get e)) (λ e. delete_usage args s (no_delete e))
        (λ e. set_usage args s (no_set e)) no_help
