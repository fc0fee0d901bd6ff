-- ===== src/Zfs/Memory.antt =====
-- A machine in memory, after the `testBackend` of go/zfs-snapshots/zfs_snapshots_test.go: it shows
-- that what the theorems assume of ZFS and of the file system can hold.
use platform_configure.Prelude.{
  Bytes, Err, codes, ◌≡◌, refl, ap, sym, Bool, true, false, List, [], ◌∷◌, ◌++◌, none, some, arith,
  bytes_eq, bytes_eq_refl, eq_of_bytes_eq, contains, filter, member, member-append, map,
  if◌then◌else◌,
}
use platform_configure.Zfs.Interface.{Driver, Files, Runtime}
use platform_configure.Zfs.Snapshot.{full_name}
use mathlib.Core.List.Perm
use platform_configure.Zfs.Disk.{IsDisk, IsErasable, IsOrder}
use platform_configure.Zfs.Pool.{IsPool, IsUnheld}

pub record Machine : Type 0 where
  pub volumes : List Bytes
  pub pool : List Bytes
  pub files : List (Bytes × Bytes)

abbrev pub without : Bytes → List Bytes → List Bytes
without n [] = []
without n (x ∷ xs) = if bytes_eq x n then without n xs else x ∷ without n xs

abbrev without_file : Bytes → List (Bytes × Bytes) → List (Bytes × Bytes)
without_file n [] = []
without_file n ((p, c) ∷ fs) =
    if bytes_eq p n then without_file n fs else (p, c) ∷ without_file n fs

abbrev all_known : List Bytes → List Bytes → Bool
all_known volumes [] = true
all_known volumes (n ∷ names) = if member n volumes then all_known volumes names else false

abbrev pub not_found : Bytes → Err
not_found n = some (codes "not found: " ++ n)

abbrev paths : List (Bytes × Bytes) → List Bytes
paths [] = []
paths ((p, c) ∷ fs) = p ∷ paths fs

abbrev create_snapshots : List Bytes → Bytes → Machine → Err × Machine
create_snapshots names stamped m =
    if all_known m.volumes names
    then (none, record m { pool = map (full_name stamped) names ++ m.pool })
    else (not_found stamped, m)

abbrev delete_snapshot : Bytes → Machine → Err × Machine
delete_snapshot n m =
    if member n m.pool then (none, record m { pool = without n m.pool }) else (not_found n, m)

abbrev send_snapshots : Bytes → Bytes → Bytes → Machine → Err × Machine
send_snapshots from to path m =
    if (if member to m.pool then member path (paths m.files) else false)
    then (none, record m { files = (path, codes "testsnapshot") ∷ without_file path m.files })
    else (not_found to, m)

abbrev pub memory_driver : Driver Machine
memory_driver = record {
  create_snapshots = create_snapshots;
  snapshots = λ name m. (filter (λ ss. contains ss name) m.pool, none);
  delete_snapshot = delete_snapshot;
  send_snapshots = send_snapshots;
}

abbrev content : Bytes → List (Bytes × Bytes) → Bytes
content n [] = []
content n ((p, c) ∷ fs) = if bytes_eq p n then c else content n fs

abbrev rename : Bytes → Bytes → Machine → Err × Machine
rename old new m =
    if member old (paths m.files)
    then (
      none,
      record m { files = (new, content old m.files) ∷ without_file old (without_file new m.files) },
    )
    else (not_found old, m)

abbrev pub memory_files : Files Machine
memory_files = record {
  create = λ path m. (none, record m { files = (path, []) ∷ without_file path m.files });
  rename = rename;
  remove = λ path m. (none, record m { files = without_file path m.files });
}

-- Maps are iterated in the order of insertion, and slices have no spare capacity.
abbrev pub memory_runtime : Runtime
memory_runtime = record { order = λ files. files; capacity = λ n. n }

abbrev pub in_pool : Bytes → Machine → Bool
in_pool q m = member q m.pool

abbrev pub on_disk : Bytes → Machine → Bool
on_disk q m = member q (paths m.files)

filter-contains : (l : List Bytes) → filter (λ ss. contains ss []) l ≡ l
unfolding contains
filter-contains [] = refl
filter-contains ([] ∷ l) = ap (λ r. [] ∷ r) (filter-contains l)
filter-contains ((c ∷ s) ∷ l) = ap (λ r. (c ∷ s) ∷ r) (filter-contains l)

pub member-without :
    (n q : Bytes) (l : List Bytes)
    → member q (without n l) ≡ (if bytes_eq n q then false else member q l)
member-without n q [] = ground arith
member-without n q (x ∷ xs) = ground (
  arith,
  member-without n q xs,
  eq_of_bytes_eq x n,
  eq_of_bytes_eq n q,
  eq_of_bytes_eq x q,
  bytes_eq_refl x,
  bytes_eq_refl n,
)

pub memory-IsPool : IsPool memory_driver memory_files in_pool
memory-IsPool = record {
  listed-snapshots = λ s q e. ap (member q) (sym (filter-contains s.pool));
  listed-create =
      λ names stamped q s e. ground (arith, member-append q (map (full_name stamped) names) s.pool);
  listed-create_other =
      λ names stamped q s e. ground (arith, member-append q (map (full_name stamped) names) s.pool);
  listed-delete = λ n q s e. ground (arith, member-without n q s.pool);
  listed-delete_failed = λ n q e s h. ground arith;
  listed-send = λ from to path q s. ground arith;
  listed-file_create = λ path q s. refl;
  listed-file_remove = λ path q s. refl;
  listed-file_rename = λ old new q s. ground arith;
}

pub memory-IsUnheld : IsUnheld memory_driver memory_files in_pool
memory-IsUnheld = record { destroyed = λ n s h. ground arith }

member-without_file :
    (n q : Bytes) (fs : List (Bytes × Bytes))
    → member q (paths (without_file n fs)) ≡ (if bytes_eq n q then false else member q (paths fs))
member-without_file n q [] = ground arith
member-without_file n q ((p, c) ∷ fs) = ground (
  arith,
  member-without_file n q fs,
  eq_of_bytes_eq p n,
  eq_of_bytes_eq n q,
  eq_of_bytes_eq p q,
  bytes_eq_refl p,
  bytes_eq_refl n,
)

pub memory-IsDisk : IsDisk memory_driver memory_files on_disk
memory-IsDisk = record {
  exists-create = λ path q s e. ground (arith, member-without_file path q s.files);
  exists-create_failed = λ path q e s h. cc;
  exists-remove = λ path q s h. member-without_file path q s.files;
  exists-remove_failed = λ path q e s h. absurd (cc);
  exists-rename = λ old new q s e. ground (
    arith,
    member-without_file old q (without_file new s.files),
    member-without_file new q s.files,
  );
  exists-send =
      λ from to path q s. ground (arith, member-without_file path q s.files, eq_of_bytes_eq path q);
}

pub memory-IsOrder : IsOrder memory_runtime
memory-IsOrder = record { entries = λ files. Perm.refl files }

pub memory-IsErasable : IsErasable memory_files on_disk
memory-IsErasable = record { removed = λ path s there. refl }
