-- ===== src/Zfs/GoZfs.antt =====
-- go_zfs.go: the driver that runs the zfs commands, over the package go-zfs and os/exec.
pub mod Pool
use platform_configure.Prelude.{
  Bytes, Err, codes, bytes_eq, List, [], ◌∷◌, ◌++◌, Option, none, some, map, if◌then◌else◌,
}
use platform_configure.Zfs.Interface.{Driver}

-- The fields of `zfs.Dataset` that are read.
pub record Dataset : Type 0 where
  pub name : Bytes
  pub kind : Bytes

-- What go-zfs and os/exec provide. `run` has the command's words and the file for its output.
pub record Commands (S : Type 0) : Type 0 where
  pub dataset_snapshot : Bytes
  pub list_snapshots : Bytes → S → List Dataset × Err
  pub get_dataset : Bytes → S → Dataset × Err
  pub destroy : Dataset → S → Err × S
  pub send_snapshot : Dataset → Bytes → S → Err × S
  pub run : List Bytes → Option Bytes → S → Err × S

-- `append([]string{"snapshot"}, snapshots...)` behind the command's name
snapshot_command : List Bytes → Bytes → List Bytes
snapshot_command names label =
    codes "zfs" ∷ codes "snapshot" ∷ map (λ n. n ++ codes "@" ++ label) names

-- `assertIsSnapshot`
assert_is_snapshot : Bytes → Dataset → Err
assert_is_snapshot dataset_snapshot ds =
    if bytes_eq ds.kind dataset_snapshot
    then none
    else some
        (codes "Dataset " ++ ds.name ++ codes " is not a snapshot (it's a " ++ ds.kind ++ codes ")")

module _ {S : Type 0} (c : Commands S) where
  -- `zfs.GetDataset` and `assertIsSnapshot`, and then an operation on the dataset.
  on_snapshot : Bytes → (Dataset → S → Err × S) → S → Err × S
  unfolding assert_is_snapshot
  on_snapshot name operation s =
      let (ds, err) = c.get_dataset name s in
      elim err [
        | some e ↦ (some e, s)
        | none ↦ elim (assert_is_snapshot c.dataset_snapshot ds) [
          | some e ↦ (some e, s)
          | none ↦ operation ds s
        ]
      ]

  create_snapshots : List Bytes → Bytes → S → Err × S
  unfolding snapshot_command
  create_snapshots names label s = c.run (snapshot_command names label) none s

  snapshots : Bytes → S → List Bytes × Err
  snapshots name s =
      let (datasets, err) = c.list_snapshots name s in
      elim err [ some e ↦ ([], some e) | none ↦ (map (λ ds. ds.name) datasets, none) ]

  delete_snapshot : Bytes → S → Err × S
  unfolding on_snapshot
  delete_snapshot name s = on_snapshot name c.destroy s

  -- `sendSnapshot`
  send_whole : Bytes → Bytes → S → Err × S
  unfolding on_snapshot
  send_whole to path s = on_snapshot to (λ ds. c.send_snapshot ds path) s

  send_snapshots : Bytes → Bytes → Bytes → S → Err × S
  unfolding send_whole
  send_snapshots from to path s =
      if bytes_eq from []
      then send_whole to path s
      else c.run (codes "zfs" ∷ codes "send" ∷ codes "-i" ∷ from ∷ to ∷ []) (some path) s

  unfoldable pub go_zfs : Driver S
  unfolding create_snapshots snapshots delete_snapshot send_snapshots
  go_zfs = record {
    create_snapshots = create_snapshots;
    snapshots = snapshots;
    delete_snapshot = delete_snapshot;
    send_snapshots = send_snapshots;
  }
