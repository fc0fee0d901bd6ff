-- ===== src/Zfs/Snapshot/Outcome.antt =====
-- What `TakeSnapshot` leaves in the pool: nothing new if it fails, and the retained snapshots if
-- it succeeds.
use platform_configure.Prelude.{
  ℕ, zero, suc, Bytes, Err, ◌≡◌, refl, sym, ap, ◌∙◌, Bool, true, false, List, [], none, some, arith,
  All, map, member, if◌then◌else◌, ◌||◌,
}
use platform_configure.Prelude.Int.{ℤ, pos}
use platform_configure.Zfs.Interface.{Driver, Files, Runtime}
use platform_configure.Zfs.Moment.{Moment}
use platform_configure.Zfs.Pool.{IsPool, IsUnheld}
use platform_configure.Zfs.Pool.Deleting.{listed-delete_all}
use platform_configure.Zfs.Send.{send_snapshots}
use platform_configure.Zfs.Send.Pool.{listed-send_snapshots}
use platform_configure.Zfs.Snapshot.{
  Exit, panics, returns, Scan, collides, fresh, scan, stamp, full_name, already_exists, cleanup,
  cleanup_unless_zero, create_and_send, take_snapshot,
}
use platform_configure.Zfs.Snapshot.Scanning.{ends_one, of_datasets, scan_sound, new-not-listed}
use platform_configure.Zfs.Snapshot.Retention.{Split, victims-Split}

module _ {S : Type 0} (d : Driver S) (os : Files S) (rt : Runtime) (names : List Bytes)
    (label : Bytes) (keep : ℤ) (send : Bool) (dir : Bytes) (now : Moment) (s : S) where
  -- The ways that a run takes: it stops before it has done anything, or it goes on to create.
  pub data RunCases : Type 0 where
    stopped :
        (e : Bytes)
        → take_snapshot d os rt names label keep send dir now s ≡ (returns (some e), s)
        → RunCases
    went_on :
        (d.snapshots [] s).1 ≡ none
        → All (λ n. ends_one (full_name (stamp label now) n) (d.snapshots [] s).0 ≡ false) names
        → take_snapshot d os rt names label keep send dir now s
          ≡ create_and_send d os rt names label
              (stamp label now)
              keep
              send
              dir
              (of_datasets (d.snapshots [] s).0 names)
              (map (full_name (stamp label now)) names)
              s
        → RunCases

  path_scanned :
      (r : Scan)
      → (d.snapshots [] s).1 ≡ none
      → scan (d.snapshots [] s).0 (stamp label now) names [] [] ≡ r
      → RunCases
  unfolding take_snapshot
  path_scanned (collides full) ok f = stopped (already_exists full) (ground arith)
  path_scanned (fresh old new) ok f =
      let (same_old, same_new, free) =
        scan_sound (d.snapshots [] s).0 (stamp label now) names [] [] f in
      went_on ok free (ground arith)

  path_listed : (err : Err) → (d.snapshots [] s).1 ≡ err → RunCases
  unfolding take_snapshot
  path_listed (some m) f = stopped m (ground arith)
  path_listed none f = path_scanned (scan (d.snapshots [] s).0 (stamp label now) names [] []) f refl

  pub run_cases : RunCases
  run_cases = path_listed (d.snapshots [] s).1 refl

-- The run returns no error; it may panic.
abbrev pub unfailed : Exit → Bool
unfailed (returns (some e)) = false
unfailed (returns none) = true
unfailed panics = true

module _ {S : Type 0} (d : Driver S) (os : Files S) (rt : Runtime) (listed : Bytes → S → Bool)
    (L : IsPool d os listed) where
  -- A run of the rest that returns no error comes to the clean-up, in a state in which the pool
  -- has got the new snapshots.
  pub create_and_send_ok :
      (names : List Bytes) (label stamped : Bytes) (keep : ℤ) (send : Bool) (dir : Bytes)
      (old new : List Bytes) (s : S)
      → new ≡ map (full_name stamped) names
      → unfailed (create_and_send d os rt names label stamped keep send dir old new s).0 ≡ true
      → (s2 : S) × (create_and_send d os rt names label stamped keep send dir old new s
          ≡ cleanup_unless_zero d rt old keep s2)
        × ((q : Bytes) → listed q s2 ≡ (member q (map (full_name stamped) names) || listed q s))
  unfolding create_and_send
  create_and_send_ok names label stamped keep true dir old new s e h =
      let s1 = (d.create_snapshots names stamped s).1 in
      (
        (send_snapshots d os rt names label stamped dir s1).1,
        ground arith,
        λ q.
            listed-send_snapshots d os rt listed L q names label stamped dir s1
            ∙ L.listed-create names stamped q s (ground arith),
      )
  create_and_send_ok names label stamped keep false dir old new s e h = (
    (d.create_snapshots names stamped s).1,
    ground arith,
    λ q. L.listed-create names stamped q s (ground arith),
  )

  -- With `-keep 0`, a run that succeeds deletes nothing: the pool holds the new snapshots and what
  -- it held before. Assumed: ZFS lists, creates, sends and deletes as documented.
  pub take_snapshot_keeps_all :
      (names : List Bytes) (label : Bytes) (send : Bool) (dir : Bytes) (now : Moment) (s : S)
      (q : Bytes)
      → (take_snapshot d os rt names label (pos zero) send dir now s).0 ≡ returns none
      → listed q (take_snapshot d os rt names label (pos zero) send dir now s).1
        ≡ (member q (map (full_name (stamp label now)) names) || listed q s)
  unfolding cleanup_unless_zero
  take_snapshot_keeps_all names label send dir now s q h =
      elim (run_cases d os rt names label (pos zero) send dir now s) [
        | stopped m p ↦ absurd (ground arith)
        | went_on ok free p ↦
            let (s2, c, l) =
              create_and_send_ok names label (stamp label now) (pos zero) send dir
                (of_datasets (d.snapshots [] s).0 names) _ s refl
                (ap (λ r. unfailed r.0) (sym p) ∙ ap unfailed h) in
            ap (λ r. listed q r.1) (p ∙ c) ∙ l q
      ]

module _ {S : Type 0} (d : Driver S) (os : Files S) (rt : Runtime) (listed : Bytes → S → Bool)
    (L : IsPool d os listed) (U : IsUnheld d os listed) where
  cleanup_unless_zero-ne_err :
      (old : List Bytes) (keep : ℤ) (s : S) (e : Bytes)
      → (cleanup_unless_zero d rt old keep s).0 ≡ returns (some e)
      → ⊥
  unfolding cleanup_unless_zero cleanup
  cleanup_unless_zero-ne_err old keep s e h = ground arith

  create_and_send_failed :
      (names : List Bytes) (label stamped : Bytes) (keep : ℤ) (send : Bool) (dir : Bytes)
      (old : List Bytes) (s : S) (q e : Bytes)
      → (member q (map (full_name stamped) names) ≡ true → listed q s ≡ false)
      → (create_and_send d os rt names label stamped keep send dir old
          (map (full_name stamped) names)
          s).0
        ≡ returns (some e)
      → listed q
          (create_and_send d os rt names label stamped keep send dir old
            (map (full_name stamped) names)
            s).1
        ≡ listed q s
  unfolding create_and_send
  create_and_send_failed names label stamped keep send dir old s q e new h =
      let all_new = map (full_name stamped) names in
      let s1 = (d.create_snapshots names stamped s).1 in
      let sent = send_snapshots d os rt names label stamped dir s1 in
      ground (
        arith,
        L.listed-create names stamped q s,
        L.listed-create_other names stamped q s,
        listed-delete_all d os listed L U all_new q s1,
        listed-delete_all d os listed L U all_new q sent.1,
        listed-send_snapshots d os rt listed L q names label stamped dir s1,
        cleanup_unless_zero-ne_err old keep s1 e,
        cleanup_unless_zero-ne_err old keep sent.1 e,
      )

  new-unlisted :
      (names : List Bytes) (stamped q : Bytes) (s : S)
      → (d.snapshots [] s).1 ≡ none
      → All (λ n. ends_one (full_name stamped n) (d.snapshots [] s).0 ≡ false) names
      → member q (map (full_name stamped) names) ≡ true
      → listed q s ≡ false
  new-unlisted names stamped q s e free m =
      ground (
        arith,
        L.listed-snapshots s q e,
        new-not-listed (d.snapshots [] s).0 stamped q names free m,
      )

  -- A run that returns an error leaves the listing of the pool as it was, whichever step failed:
  -- what had been created is deleted again. Assumed: ZFS lists, creates, sends and deletes as
  -- documented, and nothing holds a snapshot.
  pub take_snapshot_failed :
      (names : List Bytes) (label : Bytes) (keep : ℤ) (send : Bool) (dir : Bytes) (now : Moment)
      (s : S) (q : Bytes) {e : Bytes}
      → (take_snapshot d os rt names label keep send dir now s).0 ≡ returns (some e)
      → listed q (take_snapshot d os rt names label keep send dir now s).1 ≡ listed q s
  take_snapshot_failed names label keep send dir now s q {e} h =
      elim (run_cases d os rt names label keep send dir now s) [
        | stopped m p ↦ ap (λ r. listed q r.1) p
        | went_on ok free p ↦
            ap (λ r. listed q r.1) p
            ∙ create_and_send_failed names label (stamp label now) keep send dir _ s q e
                (new-unlisted names (stamp label now) q s ok free) (sym (ap (λ r. r.0) p) ∙ h)
      ]

  -- After a run with `-keep k`, k at least 1, that succeeds, the pool holds the new snapshots and
  -- what it held before, less the old snapshots that go: all but the k - 1 greatest of the named
  -- datasets' snapshots, taken together. Assumed: ZFS lists, creates, sends and deletes as
  -- documented, and nothing holds a snapshot.
  pub take_snapshot_retains :
      (names : List Bytes) (label : Bytes) (k : ℕ) (send : Bool) (dir : Bytes) (now : Moment)
      (s : S)
      → (take_snapshot d os rt names label (pos (suc k)) send dir now s).0 ≡ returns none
      → (gone : List Bytes) × (kept : List Bytes) × Split
          (of_datasets (d.snapshots [] s).0 names)
          k
          gone
          kept
        × ((q : Bytes)
            → listed q (take_snapshot d os rt names label (pos (suc k)) send dir now s).1 ≡ (
                if member q gone
                then false
                else member q (map (full_name (stamp label now)) names) || listed q s))
  unfolding cleanup_unless_zero cleanup
  take_snapshot_retains names label k send dir now s h =
      elim (run_cases d os rt names label (pos (suc k)) send dir now s) [
        | stopped m p ↦ absurd (ground arith)
        | went_on ok free p ↦
            let old = of_datasets (d.snapshots [] s).0 names in
            let (s2, c, l) =
              create_and_send_ok d os rt listed L names label (stamp label now) (pos (suc k)) send
                dir old _ s refl (ap (λ r. unfailed r.0) (sym p) ∙ ap unfailed h) in
            let (gone, kept, v, split) = victims-Split rt old k in
            (
              gone,
              kept,
              split,
              λ q. ground (arith, listed-delete_all d os listed L U gone q s2, l q),
            )
      ]
