-- ===== src/Zfs/Send.antt =====
-- `sendSnapshots` of zfs_snapshots.go: each dataset's newest snapshot is written to a temporary
-- file, and the files get their names only when all of them are complete.
pub mod Leftovers
pub mod Pool
pub mod Sent
use platform_configure.Prelude.{
  Bytes, Err, codes, replace_all, bytes_eq, List, [], ◌∷◌, ◌++◌, none, some, if◌then◌else◌,
}
use platform_configure.Prelude.FilePath.{join}
use platform_configure.Zfs.Interface.{Driver, Files, Runtime}
use platform_configure.Zfs.Newest.{newest}

-- `tmpFiles`, from temporary to final path
abbrev pub TmpFiles : Type 0
TmpFiles = List (Bytes × Bytes)

-- `tmpFiles[tmp] = final`
unfoldable pub record_tmp : Bytes → Bytes → TmpFiles → TmpFiles
record_tmp tmp final [] = (tmp, final) ∷ []
record_tmp tmp final ((t, f) ∷ files) =
    if bytes_eq t tmp then (tmp, final) ∷ files else (t, f) ∷ record_tmp tmp final files

-- The final path of a dataset's stream, with `/` replaced by `-` in the dataset's name.
abbrev pub snapshot_file : Bytes → Bytes → Bytes → Bytes
snapshot_file dir stamped name =
    join dir (replace_all name 47 45 ++ codes "-" ++ stamped ++ codes ".snap")

abbrev pub tmp_file : Bytes → Bytes → Bytes → Bytes
tmp_file dir stamped name = snapshot_file dir stamped name ++ codes ".tmp"

module _ {S : Type 0} (os : Files S) where
  -- `for file := range tmpFiles { os.Remove(file) }`
  unfoldable pub remove_all : TmpFiles → S → S
  remove_all [] s = s
  remove_all ((tmp, final) ∷ files) s = remove_all files (os.remove tmp s).1

  -- The renaming loop. It goes on after an error, and returns the last one.
  unfoldable pub rename_all : TmpFiles → Err → S → Err × S
  rename_all [] err s = (err, s)
  rename_all ((tmp, final) ∷ files) err s =
      let (e, s1) = os.rename tmp final s in
      rename_all files (elim e [ some m ↦ some m | none ↦ err ]) s1

module _ {S : Type 0} (d : Driver S) (os : Files S) (rt : Runtime) where
  -- The part of a round after the file is recorded. `f.Sync()` and the deferred `f.Close()` have
  -- no effect that the program looks at.
  unfoldable pub write_stream : Bytes → Bytes → Bytes → S → Err × S
  write_stream name label tmp s =
      let (snapshots, err) = d.snapshots name s in
      elim err [
        | some e ↦ (some e, s)
        | none ↦
            let (from, to, missing) = newest snapshots name label in
            elim missing [ some e ↦ (some e, s) | none ↦ d.send_snapshots from to tmp s ]
      ]

  -- The loop over the names. It stops at the first error, with the files recorded so far.
  unfoldable pub write_streams :
      List Bytes → Bytes → Bytes → Bytes → TmpFiles → S → Err × TmpFiles × S
  write_streams [] label stamped dir files s = (none, files, s)
  write_streams (name ∷ names) label stamped dir files s =
      let tmp = tmp_file dir stamped name in
      let (failed, s1) = os.create tmp s in
      elim failed [
        | some e ↦ (some e, files, s1)
        | none ↦
            let files1 = record_tmp tmp (snapshot_file dir stamped name) files in
            let (err, s2) = write_stream name label tmp s1 in
            elim err [
              | some e ↦ (some e, files1, s2)
              | none ↦ write_streams names label stamped dir files1 s2
            ]
      ]

  unfoldable pub send_snapshots : List Bytes → Bytes → Bytes → Bytes → S → Err × S
  send_snapshots names label stamped dir s =
      let (err, files, s1) = write_streams names label stamped dir [] s in
      elim err [
        | some e ↦ (some e, remove_all os (rt.order files) s1)
        | none ↦ rename_all os (rt.order files) none s1
      ]
