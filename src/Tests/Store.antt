-- ===== src/Tests/Store.antt =====
-- skvs_cli with a store in memory.
use platform_configure.Prelude.{
  Bytes, eq_of_bytes_eq, has_prefix, if◌then◌else◌, Err, codes, ◌≡◌, refl, bytes_eq, [], ◌∷◌, none,
  some, arith,
}
use platform_configure.Prelude.Table.{Table, lookup}
use platform_configure.SkvsCli.{usage, Client, to_lower, finish, delete, get, set, main}
use platform_configure.SkvsCli.Laws.{
  covers, IsStore, skvs_main_ok, skvs_main_failed, skvs_main-usage,
}

abbrev erase_below : Bytes → Table → Table
erase_below key [] = []
erase_below key ((k, v) ∷ s) =
    if covers key k then erase_below key s else (k, v) ∷ erase_below key s

lookup-erase_below :
    (key q : Bytes) (s : Table)
    → lookup q (erase_below key s) ≡ (if covers key q then none else lookup q s)
lookup-erase_below key q [] = ground arith
lookup-erase_below key q ((k, v) ∷ s) =
    ground (arith, lookup-erase_below key q s, eq_of_bytes_eq k q)

-- Setting a value has the given outcome.
abbrev store : Err → Client Table
store outcome = record {
  get =
      λ k s. elim (lookup k s) [ none ↦ ([], some (codes "not found"), s) | some v ↦ (v, none, s) ];
  set = λ k v s. (outcome, elim outcome [ none ↦ (k, v) ∷ s | some e ↦ s ]);
  delete = λ k s. (none, erase_below k s);
}

store-IsStore : (outcome : Err) → IsStore (store outcome) lookup
store-IsStore outcome = record {
  value-get = λ k q s. ground arith;
  value-set = λ k v q s h. ground arith;
  value-set_failed = λ k v q e s h. ground arith;
  value-delete = λ k q s h. lookup-erase_below k q s;
  value-delete_failed = λ k q e s h. absurd (cc);
}

hostname :
    main
      (store none)
      (codes "skvs")
      (codes "GET" ∷ codes "hostname" ∷ [])
      ((codes "hostname", codes "box") ∷ [])
    ≡ record {
      status = 0;
      out = codes "box";
      err = [];
      state = (codes "hostname", codes "box") ∷ [];
    }
unfolding main get to_lower bytes_eq
hostname = refl

skvs_main_ok_example :
    lookup
      (codes "a")
      (main (store none) (codes "skvs") (codes "Set" ∷ codes "a" ∷ codes "1" ∷ []) []).state
    ≡ some (codes "1")
unfolding main set finish to_lower bytes_eq
skvs_main_ok_example =
    skvs_main_ok (store none) (codes "skvs") lookup (store-IsStore none)
      (codes "Set" ∷ codes "a" ∷ codes "1" ∷ []) (codes "a") [] refl

-- Deleting a namespace, as scripts/enable-gitlab.sh does.
gitlab_deleted :
    (main
      (store none)
      (codes "skvs")
      (codes "delete" ∷ codes "gitlab" ∷ [])
      ((codes "gitlab/enabled", codes " ") ∷ (codes "hostname", codes "box") ∷ [])).state
    ≡ (codes "hostname", codes "box") ∷ []
unfolding main delete finish to_lower bytes_eq has_prefix
gitlab_deleted = refl

skvs_main_failed_example :
    lookup
      (codes "a")
      (main
        (store (some (codes "no answer")))
        (codes "skvs")
        (codes "set" ∷ codes "a" ∷ codes "1" ∷ [])
        []).state
    ≡ none
unfolding main set finish to_lower bytes_eq
skvs_main_failed_example =
    skvs_main_failed (store (some (codes "no answer"))) (codes "skvs") lookup
      (store-IsStore (some (codes "no answer"))) (codes "set" ∷ codes "a" ∷ codes "1" ∷ [])
      (codes "a") [] (λ p. absurd (cc))

skvs_main-usage_example :
    main (store none) (codes "skvs") (codes "get" ∷ []) []
    ≡ record { status = 1; out = []; err = usage (codes "skvs"); state = [] }
unfolding to_lower bytes_eq
skvs_main-usage_example =
    skvs_main-usage (store none) (codes "skvs") (codes "get" ∷ []) []
      ((λ e. (λ l. absurd (cc))), (λ e. absurd (cc)), (λ e. absurd (cc)), refl)
