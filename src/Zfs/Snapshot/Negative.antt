-- ===== src/Zfs/Snapshot/Negative.antt =====
-- A run of `TakeSnapshot` with a negative `keep`.
use platform_configure.Prelude.{
  ℕ, zero, suc, Bytes, ◌≡◌, inl, inr, refl, sym, ap, ◌∙◌, Bool, true, false, List, [], ◌++◌, ◌+◌,
  none, arith, Bool-cases, map, member, member-append, replicate, bytes_eq, if◌then◌else◌, ◌||◌,
}
use platform_configure.Prelude.Int.{negsuc}
use platform_configure.Prelude.Sort.{sort_strings, member-sort_strings}
use platform_configure.Zfs.Interface.{Driver, Files, Runtime}
use platform_configure.Zfs.Moment.{Moment}
use platform_configure.Zfs.Pool.{IsPool, IsUnheld}
use platform_configure.Zfs.Pool.Deleting.{listed-delete_all}
use platform_configure.Zfs.Snapshot.{
  returns, panics, stamp, full_name, cleanup, cleanup_unless_zero, take_snapshot,
}
use platform_configure.Zfs.Snapshot.Scanning.{of_datasets}
use platform_configure.Zfs.Snapshot.Retention.{has_room, victims-negative}
use platform_configure.Zfs.Snapshot.Outcome.{
  unfailed, stopped, went_on, run_cases, create_and_send_ok,
}

member-replicate_nil :
    (q : Bytes) (m : ℕ) → bytes_eq [] q ≡ false → member q (replicate m []) ≡ false
member-replicate_nil q zero h = refl
member-replicate_nil q (suc m) h = ground (arith, member-replicate_nil q m h)

module _ {S : Type 0} (d : Driver S) (os : Files S) (rt : Runtime) (listed : Bytes → S → Bool)
    (L : IsPool d os listed) (U : IsUnheld d os listed) where
  listed-cleanup_negative :
      (old : List Bytes) (n : ℕ) (q : Bytes) (s : S)
      → bytes_eq [] q ≡ false
      → let (exit, after) = cleanup_unless_zero d rt old (negsuc n) s in
        (exit ≡ (if has_room rt old n then returns none else panics))
        × (listed q after ≡ (
            if has_room rt old n then (if member q old then false else listed q s) else listed q s))
  unfolding cleanup_unless_zero cleanup
  listed-cleanup_negative old n q s named =
      let gone = sort_strings old ++ replicate (n + 2) [] in
      elim (Bool-cases (has_room rt old n)) [
        | inr none_left ↦
            (ground (arith, victims-negative rt old n), ground (arith, victims-negative rt old n))
        | inl all ↦ (
          ground (arith, victims-negative rt old n),
          ground (
            arith,
            victims-negative rt old n,
            listed-delete_all d os listed L U gone q s,
            member-append q (sort_strings old) (replicate (n + 2) []),
            member-sort_strings q old,
            member-replicate_nil q (n + 2) named,
          ),
        )
      ]

  -- A run with a negative `-keep` that returns no error creates the new snapshots. It then deletes
  -- every old snapshot of the named datasets if the capacity of their slice allows a slice of
  -- the length that `cleanup` computes, and else it panics and leaves the old ones.
  -- Assumed: ZFS lists, creates, sends and deletes as documented, and nothing holds a snapshot.
  pub take_snapshot_negative :
      (names : List Bytes) (label : Bytes) (n : ℕ) (send : Bool) (dir : Bytes) (now : Moment)
      (s : S) (q : Bytes)
      → bytes_eq [] q ≡ false
      → let after = take_snapshot d os rt names label (negsuc n) send dir now s in
        let new = map (full_name (stamp label now)) names in
        let old = of_datasets (d.snapshots [] s).0 names in
        unfailed after.0 ≡ true
        → (after.0 ≡ (if has_room rt old n then returns none else panics))
          × (listed q after.1 ≡ (
              if has_room rt old n
              then (if member q old then false else member q new || listed q s)
              else member q new || listed q s))
  take_snapshot_negative names label n send dir now s q named ok =
      elim (run_cases d os rt names label (negsuc n) send dir now s) [
        | stopped m p ↦ absurd (ground arith)
        | went_on listing free p ↦
            let old = of_datasets (d.snapshots [] s).0 names in
            let (s2, c, l) =
              create_and_send_ok d os rt listed L names label (stamp label now) (negsuc n) send dir
                old _ s refl (ap (λ r. unfailed r.0) (sym p) ∙ ok) in
            let (e, f) = listed-cleanup_negative old n q s2 named in
            (ground (arith, p, c, e), ground (arith, p, c, f, l q))
      ]
