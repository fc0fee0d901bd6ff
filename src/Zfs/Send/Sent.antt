-- ===== src/Zfs/Send/Sent.antt =====
-- The files that sending leaves when it succeeds.
use mathlib.Core.List.{append_cancel_right}
use platform_configure.Prelude.{
  Bytes, Err, codes, ◌≡◌, ◌≢◌, refl, Bool, true, false, List, [], ◌∷◌, ◌++◌, none, Bool-cases, inl,
  inr, some, arith, All, map, bytes_eq, eq_of_bytes_eq, member, ◌||◌, ◌&&◌, if◌then◌else◌,
}
use platform_configure.Zfs.Interface.{Driver, Files, Runtime}
use platform_configure.Zfs.Disk.{IsDisk, IsOrder}
use platform_configure.Zfs.Send.{
  TmpFiles, record_tmp, snapshot_file, tmp_file, write_stream, write_streams, rename_all,
  send_snapshots,
}
use platform_configure.Zfs.Send.Leftovers.{
  tmp_paths, member-record_tmp, member-Perm, exists-write_stream,
}

abbrev pub final_paths : TmpFiles → List Bytes
final_paths files = map (λ (r : Bytes × Bytes). r.1) files

-- The temporary path is the final one with `.tmp` behind it.
abbrev IsTmp : Bytes × Bytes → Type 0
IsTmp (tmp, final) = tmp ≡ final ++ codes ".tmp"

All-record_tmp :
    (tmp final : Bytes) (files : TmpFiles)
    → tmp ≡ final ++ codes ".tmp"
    → All IsTmp files
    → All IsTmp (record_tmp tmp final files)
unfolding record_tmp
All-record_tmp tmp final [] e h = (e, tt)
All-record_tmp tmp final ((t, f) ∷ files) e (k, h) = elim (Bool-cases (bytes_eq t tmp)) [
  | inl same ↦ rw same (e, h)
  | inr other ↦ rw other (k, All-record_tmp tmp final files e h)
]

member-final_paths :
    (tmp final q : Bytes) (files : TmpFiles)
    → tmp ≡ final ++ codes ".tmp"
    → All IsTmp files
    → member q (final_paths (record_tmp tmp final files))
      ≡ (bytes_eq final q || member q (final_paths files))
unfolding record_tmp
member-final_paths tmp final q [] e h = refl
member-final_paths tmp final q ((t, f) ∷ files) e (k, h) = ground (
  arith,
  member-final_paths tmp final q files e h,
  eq_of_bytes_eq t tmp,
  append_cancel_right f final (codes ".tmp"),
)

module _ {S : Type 0} (d : Driver S) (os : Files S) (rt : Runtime) (exists : Bytes → S → Bool)
    (D : IsDisk d os exists) (O : IsOrder rt) where
  -- Where no error is returned, every renaming has worked.
  rename_all-error :
      (files : TmpFiles) (e : Bytes) (s : S) → (rename_all os files (some e) s).0 ≢ none
  unfolding rename_all
  rename_all-error [] e s h = cc
  rename_all-error ((tmp, final) ∷ files) e s h =
      go (os.rename tmp final s).0 refl (λ m. rename_all-error files m (os.rename tmp final s).1)
    where
      go :
          (r : Err)
          → (os.rename tmp final s).0 ≡ r
          → ((m : Bytes) → (rename_all os files (some m) (os.rename tmp final s).1).0 ≢ none)
          → ⊥
      go none p later = later e (ground arith)
      go (some m) p later = later m (ground arith)

  exists-rename_all :
      (files : TmpFiles) (q : Bytes) (s : S)
      → (member q (final_paths files) && member q (tmp_paths files)) ≡ false
      → (rename_all os files none s).0 ≡ none
      → exists q (rename_all os files none s).1 ≡ (
          if member q (final_paths files)
          then true
          else if member q (tmp_paths files)
          then false
          else exists q s)
  unfolding rename_all
  exists-rename_all [] q s apart ok = refl
  exists-rename_all ((tmp, final) ∷ files) q s apart ok =
      go (os.rename tmp final s).0 refl (exists-rename_all files q (os.rename tmp final s).1)
    where
      s1 : S
      s1 = (os.rename tmp final s).1

      go :
          (r : Err)
          → (os.rename tmp final s).0 ≡ r
          → ((member q (final_paths files) && member q (tmp_paths files)) ≡ false
              → (rename_all os files none s1).0 ≡ none
              → exists q (rename_all os files none s1).1 ≡ (
                  if member q (final_paths files)
                  then true
                  else if member q (tmp_paths files)
                  then false
                  else exists q s1))
          → exists q (rename_all os ((tmp, final) ∷ files) none s).1 ≡ (
              if member q (final_paths ((tmp, final) ∷ files))
              then true
              else if member q (tmp_paths ((tmp, final) ∷ files))
              then false
              else exists q s)
      go none p later = ground (arith, later, D.exists-rename tmp final q s)
      go (some m) p later = absurd (rename_all-error files m s1 (ground arith))

  -- What is recorded, and that the files are there, when all streams have been written.
  write_streams_ok :
      (names : List Bytes) (label stamped dir : Bytes) (files : TmpFiles) (q : Bytes) (s : S)
      → All IsTmp files
      → let (err, files1, s1) = write_streams d os rt names label stamped dir files s in
        err ≡ none
        → (exists q s1 ≡ (member q (map (tmp_file dir stamped) names) || exists q s))
          × (member q (tmp_paths files1)
              ≡ (member q (map (tmp_file dir stamped) names) || member q (tmp_paths files)))
          × (member q (final_paths files1)
              ≡ (member q (map (snapshot_file dir stamped) names) || member q (final_paths files)))
  unfolding write_streams
  write_streams_ok [] label stamped dir files q s tmps ok = (refl, refl, refl)
  write_streams_ok (name ∷ names) label stamped dir files q s tmps ok =
      let tmp = tmp_file dir stamped name in
      let final = snapshot_file dir stamped name in
      let s1 = (os.create tmp s).1 in
      let s2 = (write_stream d os rt name label tmp s1).1 in
      let files1 = record_tmp tmp final files in
      ground (
        arith,
        D.exists-create tmp q s,
        exists-write_stream d os rt exists D O name label tmp q s1,
        member-record_tmp tmp final q files,
        member-final_paths tmp final q files refl tmps,
        write_streams_ok names label stamped dir files1 q s2
            (All-record_tmp tmp final files refl tmps),
      )

  -- If sending succeeds, then of the paths that are not both a temporary and a final one, the
  -- final file of every dataset is there, no temporary file is, and all others are as they were.
  -- Assumed: files are created, sent to and renamed as documented, and the map of temporary files
  -- is iterated over all of its entries.
  pub send_snapshots_ok :
      (names : List Bytes) (label stamped dir q : Bytes) (s : S)
      → let finals = map (snapshot_file dir stamped) names in
        let tmps = map (tmp_file dir stamped) names in
        (send_snapshots d os rt names label stamped dir s).0 ≡ none
        → (member q finals && member q tmps) ≡ false
        → exists q (send_snapshots d os rt names label stamped dir s).1
          ≡ (if member q finals then true else if member q tmps then false else exists q s)
  unfolding send_snapshots
  send_snapshots_ok names label stamped dir q s ok apart =
      let (err, files, s1) = write_streams d os rt names label stamped dir [] s in
      ground (
        arith,
        write_streams_ok names label stamped dir [] q s tt,
        exists-rename_all (rt.order files) q s1,
        member-Perm (λ r. r.0) q (O.entries files),
        member-Perm (λ r. r.1) q (O.entries files),
      )
