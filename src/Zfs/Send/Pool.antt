-- ===== src/Zfs/Send/Pool.antt =====
-- Sending creates and destroys no snapshot.
use platform_configure.Prelude.{Bytes, Err, ◌≡◌, refl, ◌∙◌, Bool, List, [], ◌∷◌, none, arith}
use platform_configure.Zfs.Interface.{Driver, Files, Runtime}
use platform_configure.Zfs.Pool.{IsPool}
use platform_configure.Zfs.Newest.{newest}
use platform_configure.Zfs.Send.{
  TmpFiles, record_tmp, snapshot_file, tmp_file, write_stream, write_streams, remove_all,
  rename_all, send_snapshots,
}

module _ {S : Type 0} (d : Driver S) (os : Files S) (rt : Runtime) (listed : Bytes → S → Bool)
    (L : IsPool d os listed) (q : Bytes) where
  listed-write_stream :
      (name label tmp : Bytes) (s : S)
      → listed q (write_stream d os rt name label tmp s).1 ≡ listed q s
  unfolding write_stream
  listed-write_stream name label tmp s =
      let (from, to, missing) = newest (d.snapshots name s).0 name label in
      ground (arith, L.listed-send from to tmp q s)

  listed-write_streams :
      (names : List Bytes) (label stamped dir : Bytes) (files : TmpFiles) (s : S)
      → listed q (write_streams d os rt names label stamped dir files s).2 ≡ listed q s
  unfolding write_streams
  listed-write_streams [] label stamped dir files s = refl
  listed-write_streams (name ∷ names) label stamped dir files s =
      let tmp = tmp_file dir stamped name in
      let s1 = (os.create tmp s).1 in
      let s2 = (write_stream d os rt name label tmp s1).1 in
      let files1 = record_tmp tmp (snapshot_file dir stamped name) files in
      ground (
        arith,
        L.listed-file_create tmp q s,
        listed-write_stream name label tmp s1,
        listed-write_streams names label stamped dir files1 s2,
      )

  listed-remove_all : (files : TmpFiles) (s : S) → listed q (remove_all os files s) ≡ listed q s
  unfolding remove_all
  listed-remove_all [] s = refl
  listed-remove_all ((tmp, final) ∷ files) s =
      listed-remove_all files (os.remove tmp s).1 ∙ L.listed-file_remove tmp q s

  listed-rename_all :
      (files : TmpFiles) (err : Err) (s : S) → listed q (rename_all os files err s).1 ≡ listed q s
  unfolding rename_all
  listed-rename_all [] err s = refl
  listed-rename_all ((tmp, final) ∷ files) err s =
      listed-rename_all files _ (os.rename tmp final s).1 ∙ L.listed-file_rename tmp final q s

  pub listed-send_snapshots :
      (names : List Bytes) (label stamped dir : Bytes) (s : S)
      → listed q (send_snapshots d os rt names label stamped dir s).1 ≡ listed q s
  unfolding send_snapshots
  listed-send_snapshots names label stamped dir s =
      let r = write_streams d os rt names label stamped dir [] s in
      ground (
        arith,
        listed-write_streams names label stamped dir [] s,
        listed-remove_all (rt.order r.1) r.2,
        listed-rename_all (rt.order r.1) none r.2,
      )
