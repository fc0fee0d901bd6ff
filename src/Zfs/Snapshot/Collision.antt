-- ===== src/Zfs/Snapshot/Collision.antt =====
-- A run of `TakeSnapshot` that finds a snapshot which exists.
use platform_configure.Prelude.{
  Bytes, ◌≡◌, refl, Bool, true, false, List, [], ◌∷◌, none, some, arith, All, map, member,
  eq_of_bytes_eq,
}
use platform_configure.Prelude.Int.{ℤ}
use platform_configure.Zfs.Interface.{Driver, Files, Runtime}
use platform_configure.Zfs.Moment.{Moment}
use platform_configure.Zfs.Snapshot.{
  returns, Scan, collides, fresh, scan, stamp, full_name, already_exists, take_snapshot,
}
use platform_configure.Zfs.Snapshot.Scanning.{ends_one, scan_sound, scan_collision}

All-member :
    (f : Bytes → Bool) (n : Bytes) (names : List Bytes)
    → All (λ m. f m ≡ false) names
    → member n names ≡ true
    → f n ≡ false
All-member f n [] h m = absurd (cc)
All-member f n (x ∷ xs) h m = ground (arith, All-member f n xs h.1, eq_of_bytes_eq x n, h.0)

module _ {S : Type 0} (d : Driver S) (os : Files S) (rt : Runtime) where
  -- If a listed snapshot ends with the new name of a dataset, even one of another dataset, the run
  -- changes nothing and returns the error that a snapshot with such a name exists.
  pub take_snapshot_collision :
      (names : List Bytes) (label : Bytes) (keep : ℤ) (send : Bool) (dir : Bytes) (now : Moment)
      (s : S) (n : Bytes)
      → let full_of = full_name (stamp label now) in
        (d.snapshots [] s).1 ≡ none
        → member n names ≡ true
        → ends_one (full_of n) (d.snapshots [] s).0 ≡ true
        → (full : Bytes) × (take_snapshot d os rt names label keep send dir now s
            ≡ (returns (some (already_exists full)), s))
          × (member full (map full_of names) ≡ true)
          × (ends_one full (d.snapshots [] s).0 ≡ true)
  unfolding take_snapshot
  take_snapshot_collision names label keep send dir now s n ok named taken =
      go (scan all stamped names [] []) refl
    where
      all : List Bytes
      all = (d.snapshots [] s).0

      stamped : Bytes
      stamped = stamp label now

      go :
          (r : Scan)
          → scan all stamped names [] [] ≡ r
          → (full : Bytes) × (take_snapshot d os rt names label keep send dir now s
              ≡ (returns (some (already_exists full)), s))
            × (member full (map (full_name stamped) names) ≡ true)
            × (ends_one full all ≡ true)
      go (collides full) p =
          let (new, ends) = scan_collision all stamped names [] [] p in
          (full, ground arith, new, ends)
      go (fresh old new) p =
          let (same_old, same_new, free) = scan_sound all stamped names [] [] p in
          let unlike = All-member (λ m. ends_one (full_name stamped m) all) n names free named in
          absurd (ground (arith, unlike))
