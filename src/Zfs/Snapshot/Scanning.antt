-- ===== src/Zfs/Snapshot/Scanning.antt =====
-- What the two loops at the start of `TakeSnapshot` find.
use mathlib.Core.Path.{◌≡◌, refl}
use platform_configure.Prelude.{
  Bytes, has_prefix, has_suffix, has_suffix_self, eq_of_bytes_eq, bytes_eq_refl, filter, All,
  member, Bool, true, false, List, [], ◌∷◌, ◌++◌, ◌||◌, map, none, some, append-nil, append_assoc,
  arith, if◌then◌else◌,
}
use platform_configure.Zfs.Snapshot.{collides, fresh, scan_one, scan, full_name, dataset_prefix}

-- Whether a snapshot in the list ends with the text.
abbrev pub ends_one : Bytes → List Bytes → Bool
ends_one full [] = false
ends_one full (ss ∷ rest) = has_suffix ss full || ends_one full rest

-- The snapshots of one dataset, in the order of the listing.
abbrev pub of_dataset : List Bytes → Bytes → List Bytes
of_dataset all n = filter (λ ss. has_prefix ss (dataset_prefix n)) all

abbrev pub of_datasets : List Bytes → List Bytes → List Bytes
of_datasets all [] = []
of_datasets all (n ∷ names) = of_dataset all n ++ of_datasets all names

scan_one_lem :
    (full prefix : Bytes) (all old : List Bytes)
    → scan_one full prefix all old
      ≡ (if ends_one full all then none else some (old ++ filter (λ ss. has_prefix ss prefix) all))
unfolding scan_one
scan_one_lem full prefix [] old = ground (arith, append-nil old)
scan_one_lem full prefix (ss ∷ rest) old = ground (
  arith,
  scan_one_lem full prefix rest old,
  scan_one_lem full prefix rest (old ++ ss ∷ []),
  append_assoc old (ss ∷ []) (filter (λ t. has_prefix t prefix) rest),
)

-- Without a collision the loops collect each dataset's snapshots and one new name per dataset.
pub scan_sound :
    (all : List Bytes) (stamped : Bytes) (names old new : List Bytes) {old' new' : List Bytes}
    → scan all stamped names old new ≡ fresh old' new'
    → (old' ≡ old ++ of_datasets all names)
      × (new' ≡ new ++ map (full_name stamped) names)
      × All (λ n. ends_one (full_name stamped n) all ≡ false) names
unfolding scan
scan_sound all stamped [] old new h = ground (arith, append-nil old, append-nil new)
scan_sound all stamped (n ∷ names) old new {old'} {new'} h =
    let full = full_name stamped n in
    ground (
      arith,
      scan_one_lem full (dataset_prefix n) all old,
      scan_sound all stamped names (old ++ of_dataset all n) (new ++ full ∷ []) {old' = old'}
          {new' = new'},
      append_assoc old (of_dataset all n) (of_datasets all names),
      append_assoc new (full ∷ []) (map (full_name stamped) names),
    )

-- A collision names a new snapshot, and a listed snapshot ends with that name.
pub scan_collision :
    (all : List Bytes) (stamped : Bytes) (names old new : List Bytes) {full : Bytes}
    → scan all stamped names old new ≡ collides full
    → (member full (map (full_name stamped) names) ≡ true) × (ends_one full all ≡ true)
unfolding scan
scan_collision all stamped [] old new h = cc
scan_collision all stamped (n ∷ names) old new {full} h = ground (
  arith,
  scan_one_lem (full_name stamped n) (dataset_prefix n) all old,
  bytes_eq_refl (full_name stamped n),
  scan_collision all stamped names (old ++ of_dataset all n) (new ++ full_name stamped n ∷ [])
      {full = full},
)

-- Without a colliding name the scan goes through.
pub scan_complete :
    (all : List Bytes) (stamped : Bytes) (names old new : List Bytes)
    → All (λ n. ends_one (full_name stamped n) all ≡ false) names
    → scan all stamped names old new
      ≡ fresh (old ++ of_datasets all names) (new ++ map (full_name stamped) names)
unfolding scan
scan_complete all stamped [] old new h = ground (arith, append-nil old, append-nil new)
scan_complete all stamped (n ∷ names) old new h =
    let full = full_name stamped n in
    ground (
      arith,
      scan_one_lem full (dataset_prefix n) all old,
      scan_complete all stamped names (old ++ of_dataset all n) (new ++ full ∷ []),
      append_assoc old (of_dataset all n) (of_datasets all names),
      append_assoc new (full ∷ []) (map (full_name stamped) names),
    )

member→ends : (q : Bytes) (all : List Bytes) → ends_one q all ≡ false → member q all ≡ false
member→ends q [] h = refl
member→ends q (ss ∷ rest) h =
    ground (arith, member→ends q rest, eq_of_bytes_eq ss q, has_suffix_self q)

-- A new name that no listed snapshot ends with is not listed.
pub new-not-listed :
    (all : List Bytes) (stamped q : Bytes) (names : List Bytes)
    → All (λ n. ends_one (full_name stamped n) all ≡ false) names
    → member q (map (full_name stamped) names) ≡ true
    → member q all ≡ false
new-not-listed all stamped q [] h m = cc
new-not-listed all stamped q (n ∷ names) h m = ground (
  arith,
  new-not-listed all stamped q names h.1,
  eq_of_bytes_eq (full_name stamped n) q,
  member→ends (full_name stamped n) all h.0,
)
