-- ===== src/Tests/Snapshots/Newest.antt =====
-- The newest snapshots of a label, and the order of their names.
use platform_configure.Prelude.{
  Bytes, Err, codes, ◌≡◌, ◌≤◌, refl, List, [], ◌∷◌, none, arith, All, map, has_prefix,
}
use platform_configure.Prelude.Sort.{sort_strings}
use platform_configure.Zfs.Moment.{Moment, IsValid, format, two, four}
use platform_configure.Zfs.Moment.Order.{rank}
use platform_configure.Zfs.Newest.{labelled, newest}
use platform_configure.Zfs.Newest.Latest.{snapshot_at, newest_latest}
use platform_configure.Tests.Snapshots.{moment, old_names}

abbrev newest_foo : Bytes × Bytes × Err
newest_foo = (codes "foo@bar-2010-10-21-14-01-33", codes "foo@bar-2010-10-21-14-01-34", none)

newest_run : newest old_names (codes "foo") (codes "bar") ≡ newest_foo
unfolding newest sort_strings has_prefix
newest_run = refl

abbrev moments : List Moment
moments = moment 32 ∷ moment 33 ∷ moment 34 ∷ []

moments_run :
    labelled old_names (codes "foo") (codes "bar")
    ≡ map (snapshot_at (codes "foo") (codes "bar")) moments
unfolding has_prefix format two four
moments_run = refl

newest_latest_example :
    (m : Moment) × IsValid m
    × (codes "foo@bar-2010-10-21-14-01-34" ≡ snapshot_at (codes "foo") (codes "bar") m)
    × All (λ n. rank n ≤ rank m) moments
newest_latest_example =
    newest_latest old_names (codes "foo") (codes "bar") moments moments_run (omega arith) newest_run
