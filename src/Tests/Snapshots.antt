-- ===== src/Tests/Snapshots.antt =====
-- zfs-snapshots on a machine in memory, with the data of zfs_snapshots_test.go.
mod Newest
mod Sending
use platform_configure.Prelude.{
  ℕ, Bytes, Err, codes, ◌≡◌, ◌≢◌, ◌≤◌, ◌⊎◌, ◌↔◌, refl, ap, Bool, true, false, List, [], ◌∷◌, ◌++◌,
  none, some, arith, All, map, member, replicate, ◌+◌, leb, ◌||◌, if◌then◌else◌, bytes_eq,
  has_prefix, has_suffix, contains, replace_all,
}
use platform_configure.Prelude.FilePath.{join, clean}
use platform_configure.Prelude.Int.{ℤ, pos, negsuc}
use platform_configure.Prelude.Sort.{sort_strings, leb_bytes}
use platform_configure.Zfs.Moment.{Moment, IsValid, format, two, four}
use platform_configure.Zfs.Moment.Order.{rank, leb_bytes-format}
use platform_configure.Zfs.Newest.{labelled, newest}
use platform_configure.Zfs.Newest.Laws.{IsNewest, newest_sound, newest_total}
use platform_configure.Zfs.Newest.Latest.{snapshot_at, newest_latest}
use platform_configure.Zfs.Send.{
  write_streams, write_stream, remove_all, rename_all, record_tmp, send_snapshots,
}
use platform_configure.Zfs.Send.Leftovers.{send_snapshots_clean}
use platform_configure.Zfs.Snapshot.{
  Exit, returns, panics, already_exists, collides, fresh, stamp, full_name, scan, scan_one,
  delete_all, reslice, victims, cleanup, cleanup_unless_zero, create_and_send, take_snapshot,
}
use platform_configure.Zfs.Snapshot.Outcome.{
  unfailed, take_snapshot_failed, take_snapshot_retains, take_snapshot_keeps_all,
}
use platform_configure.Zfs.Snapshot.Retention.{Split, victims-Split, has_room}
use platform_configure.Zfs.Snapshot.Negative.{take_snapshot_negative}
use platform_configure.Zfs.Snapshot.Collision.{take_snapshot_collision}
use platform_configure.Zfs.Snapshot.Scanning.{ends_one, of_datasets, scan_sound}
use platform_configure.Zfs.GoZfs.{Commands, go_zfs}
use platform_configure.Zfs.Main.{Flags, exits, crashes, main, create, ending, fatal}
use platform_configure.Zfs.Main.Laws.{main_failed}
use platform_configure.Zfs.Memory.{
  Machine, memory_driver, memory_files, memory_runtime, in_pool, on_disk, memory-IsPool,
  memory-IsUnheld, memory-IsDisk, memory-IsOrder,
}

abbrev moment : ℕ → Moment
moment s = record { year = 2010; month = 10; day = 21; hour = 14; minute = 1; second = s }

abbrev old_names : List Bytes
old_names =
    codes "foo@bar-2010-10-21-14-01-32"
    ∷ codes "foo@bar-2010-10-21-14-01-33"
    ∷ codes "foo@bar-2010-10-21-14-01-34"
    ∷ []

abbrev machine : Machine
machine = record { volumes = codes "foo" ∷ []; pool = old_names; files = [] }

abbrev foo : List Bytes
foo = codes "foo" ∷ []

run : List Bytes → ℤ → Bool → Machine → Exit × Machine
unfolding take_snapshot create_and_send scan scan_one delete_all cleanup_unless_zero cleanup victims
    reslice sort_strings format two four has_prefix has_suffix contains bytes_eq send_snapshots
    write_streams write_stream remove_all rename_all record_tmp newest join clean replace_all
run names keep send m =
    take_snapshot memory_driver memory_files memory_runtime names (codes "bar") keep send
      (codes "/in") (moment 59) m

keep_two : run foo (pos 2) false machine ≡ (
  returns none,
  record machine {
    pool = codes "foo@bar-2010-10-21-14-01-59" ∷ codes "foo@bar-2010-10-21-14-01-34" ∷ [];
  },
)
unfolding run
keep_two = refl

sent_file : run foo (pos 0) true machine ≡ (
  returns none,
  record machine {
    pool = codes "foo@bar-2010-10-21-14-01-59" ∷ old_names;
    files = (codes "/in/foo-bar-2010-10-21-14-01-59.snap", codes "testsnapshot") ∷ [];
  },
)
unfolding run
sent_file = refl

unknown_volume :
    run (codes "nope" ∷ []) (pos 0) true machine
    ≡ (returns (some (codes "not found: bar-2010-10-21-14-01-59")), machine)
unfolding run
unknown_volume = refl

negative_keep :
    run foo (negsuc 0) false machine
    ≡ (panics, record machine { pool = codes "foo@bar-2010-10-21-14-01-59" ∷ old_names })
unfolding run
negative_keep = refl

-- Two datasets share the count: the one old snapshot of `baz` goes, although 2 are to be kept.
abbrev two_datasets : Machine
two_datasets = record {
  volumes = codes "baz" ∷ codes "foo" ∷ [];
  pool = codes "baz@bar-2010-10-21-14-01-32" ∷ codes "foo@bar-2010-10-21-14-01-32" ∷ [];
  files = [];
}

keep_is_shared :
    (run (codes "baz" ∷ codes "foo" ∷ []) (pos 2) false two_datasets).1.pool
    ≡ codes "baz@bar-2010-10-21-14-01-59"
      ∷ codes "foo@bar-2010-10-21-14-01-59"
      ∷ codes "foo@bar-2010-10-21-14-01-32"
      ∷ []
unfolding run
keep_is_shared = refl

take_snapshot_failed_example :
    in_pool
      (codes "foo@x")
      (take_snapshot memory_driver memory_files memory_runtime
        (codes "nope" ∷ [])
        (codes "bar")
        (pos 0)
        true
        (codes "/in")
        (moment 59)
        machine).1
    ≡ in_pool (codes "foo@x") machine
unfolding run
take_snapshot_failed_example =
    take_snapshot_failed memory_driver memory_files memory_runtime in_pool memory-IsPool
      memory-IsUnheld (codes "nope" ∷ []) (codes "bar") (pos 0) true (codes "/in") (moment 59)
      machine (codes "foo@x") (ap (λ (r : Exit × Machine). r.0) unknown_volume)

take_snapshot_retains_example :
    (gone : List Bytes) × (kept : List Bytes) × Split (of_datasets old_names foo) 1 gone kept
    × ((q : Bytes)
        → in_pool q
            (take_snapshot memory_driver memory_files memory_runtime foo
              (codes "bar")
              (pos 2)
              false
              (codes "/in")
              (moment 59)
              machine).1
          ≡ (if member q gone
              then false
              else member q (map (full_name (stamp (codes "bar") (moment 59))) foo)
                || in_pool q machine))
unfolding run
take_snapshot_retains_example =
    take_snapshot_retains memory_driver memory_files memory_runtime in_pool memory-IsPool
      memory-IsUnheld foo (codes "bar") 1 false (codes "/in") (moment 59) machine
      (ap (λ (r : Exit × Machine). r.0) keep_two)

take_snapshot_keeps_all_example :
    in_pool
      (codes "foo@x")
      (take_snapshot memory_driver memory_files memory_runtime foo
        (codes "bar")
        (pos 0)
        true
        (codes "/in")
        (moment 59)
        machine).1
    ≡ (member (codes "foo@x") (map (full_name (stamp (codes "bar") (moment 59))) foo)
        || in_pool (codes "foo@x") machine)
unfolding run
take_snapshot_keeps_all_example =
    take_snapshot_keeps_all memory_driver memory_files memory_runtime in_pool memory-IsPool foo
      (codes "bar") true (codes "/in") (moment 59) machine (codes "foo@x")
      (ap (λ (r : Exit × Machine). r.0) sent_file)

abbrev flags : Flags
flags = record { keep = pos 0; label = codes "bar"; send = true; dir = codes "/in" }

abbrev create_nope : List Bytes
create_nope = codes "create" ∷ codes "nope" ∷ []

-- With no command the program crashes, where an unknown command prints the usage.
no_command :
    ((main memory_driver memory_files memory_runtime (moment 59) flags [] machine).0 ≡ crashes)
    × ((main memory_driver memory_files memory_runtime (moment 59) flags (codes "x" ∷ []) machine).0
        ≡ exits 0)
unfolding main bytes_eq
no_command = (refl, refl)

negative_ok :
    unfailed
      (take_snapshot memory_driver memory_files memory_runtime foo
        (codes "bar")
        (negsuc 0)
        false
        (codes "/in")
        (moment 59)
        machine).0
    ≡ true
unfolding run
negative_ok = ap (λ (r : Exit × Machine). unfailed r.0) negative_keep

take_snapshot_negative_example :
    let after =
      take_snapshot memory_driver memory_files memory_runtime foo
        (codes "bar")
        (negsuc 0)
        false
        (codes "/in")
        (moment 59)
        machine in
    let new = map (full_name (stamp (codes "bar") (moment 59))) foo in
    let old = of_datasets old_names foo in
    let q = codes "foo@bar-2010-10-21-14-01-32" in
    (after.0 ≡ (if has_room memory_runtime old 0 then returns none else panics))
    × (in_pool q after.1 ≡ (
        if has_room memory_runtime old 0
        then (if member q old then false else member q new || in_pool q machine)
        else member q new || in_pool q machine))
unfolding bytes_eq has_prefix contains
take_snapshot_negative_example =
    take_snapshot_negative memory_driver memory_files memory_runtime in_pool memory-IsPool
      memory-IsUnheld foo (codes "bar") 0 false (codes "/in") (moment 59) machine
      (codes "foo@bar-2010-10-21-14-01-32") refl negative_ok

abbrev stamped : Bytes
stamped = codes "bar-2010-10-21-14-01-59"

scan_run :
    scan old_names stamped foo [] [] ≡ fresh old_names (codes "foo@bar-2010-10-21-14-01-59" ∷ [])
unfolding run
scan_run = refl

abbrev nested_pool : List Bytes
nested_pool = codes "tank/foo@bar-2010-10-21-14-01-59" ∷ []

-- A snapshot of another dataset whose path ends alike counts as a collision.
collision_run : scan nested_pool stamped foo [] [] ≡ collides (codes "foo@bar-2010-10-21-14-01-59")
unfolding run
collision_run = refl

abbrev nested : Machine
nested = record { volumes = codes "foo" ∷ []; pool = nested_pool; files = [] }

take_snapshot_collision_example :
    let full_of = full_name (stamp (codes "bar") (moment 59)) in
    (full : Bytes) × (take_snapshot memory_driver memory_files memory_runtime foo
        (codes "bar")
        (pos 2)
        true
        (codes "/in")
        (moment 59)
        nested
      ≡ (returns (some (already_exists full)), nested))
    × (member full (map full_of foo) ≡ true)
    × (ends_one full nested_pool ≡ true)
unfolding run
take_snapshot_collision_example =
    take_snapshot_collision memory_driver memory_files memory_runtime foo (codes "bar") (pos 2) true
      (codes "/in") (moment 59) nested (codes "foo") refl refl refl
