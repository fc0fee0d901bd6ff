-- ===== src/Zfs/Send/Leftovers.antt =====
-- The files that sending leaves.
use mathlib.Core.List.{Perm, Permᴰ}
use mathlib.Core.Logic.{∥∥₁_elim}
use mathlib.Core.Bool.{Bool-discrete}
use mathlib.Core.HLevel.{hedberg}
use platform_configure.Prelude.{
  none, Err, Bytes, ◌≡◌, refl, ap, ◌∙◌, Bool, true, false, List, [], ◌∷◌, some, arith, bytes_eq,
  eq_of_bytes_eq, map, member, ◌||◌, if◌then◌else◌,
}
use platform_configure.Zfs.Interface.{Driver, Files, Runtime}
use platform_configure.Zfs.Disk.{IsDisk, IsErasable, IsOrder}
use platform_configure.Zfs.Newest.{newest}
use platform_configure.Zfs.Send.{
  TmpFiles, record_tmp, snapshot_file, tmp_file, write_stream, write_streams, remove_all,
  send_snapshots,
}

abbrev pub tmp_paths : TmpFiles → List Bytes
tmp_paths files = map (λ (r : Bytes × Bytes). r.0) files

pub member-record_tmp :
    (tmp final q : Bytes) (files : TmpFiles)
    → member q (tmp_paths (record_tmp tmp final files))
      ≡ (bytes_eq tmp q || member q (tmp_paths files))
unfolding record_tmp
member-record_tmp tmp final q [] = refl
member-record_tmp tmp final q ((t, f) ∷ files) =
    ground (arith, member-record_tmp tmp final q files, eq_of_bytes_eq t tmp)

member-Permᴰ :
    (g : Bytes × Bytes → Bytes) (q : Bytes) {xs ys : TmpFiles}
    → Permᴰ xs ys
    → member q (map g xs) ≡ member q (map g ys)
member-Permᴰ g q Permᴰ.nil = refl
member-Permᴰ g q (Permᴰ.cons {a} {b} e p) = ground (arith, member-Permᴰ g q p, ap g e)
member-Permᴰ g q (Permᴰ.swap {l} e f) = ground (arith, ap g e, ap g f)
member-Permᴰ g q (Permᴰ.trans p r) = member-Permᴰ g q p ∙ member-Permᴰ g q r

pub member-Perm :
    (g : Bytes × Bytes → Bytes) (q : Bytes) {xs ys : TmpFiles}
    → Perm xs ys
    → member q (map g xs) ≡ member q (map g ys)
member-Perm g q p = ∥∥₁_elim p (hedberg Bool-discrete _ _) (member-Permᴰ g q)

abbrev implies : Bool → Bool → Bool
implies a b = if a then b else true

module _ {S : Type 0} (d : Driver S) (os : Files S) (rt : Runtime) (exists : Bytes → S → Bool)
    (D : IsDisk d os exists) (O : IsOrder rt) where
  pub exists-write_stream :
      (name label tmp q : Bytes) (s : S)
      → exists q (write_stream d os rt name label tmp s).1 ≡ exists q s
  unfolding write_stream
  exists-write_stream name label tmp q s =
      let (from, to, missing) = newest (d.snapshots name s).0 name label in
      ground (arith, D.exists-send from to tmp q s)

  -- Every file that is there when writing fails was there before, or is recorded.
  exists-write_streams :
      (names : List Bytes) (label stamped dir : Bytes) (files : TmpFiles) (q e : Bytes)
      (before : Bool) (s : S)
      → implies (exists q s) (before || member q (tmp_paths files)) ≡ true
      → (write_streams d os rt names label stamped dir files s).0 ≡ some e
      → implies
          (exists q (write_streams d os rt names label stamped dir files s).2)
          (before || member q (tmp_paths (write_streams d os rt names label stamped dir files s).1))
        ≡ true
  unfolding write_streams
  exists-write_streams [] label stamped dir files q e before s known failed = known
  exists-write_streams (name ∷ names) label stamped dir files q e before s known failed =
      let tmp = tmp_file dir stamped name in
      let s1 = (os.create tmp s).1 in
      let s2 = (write_stream d os rt name label tmp s1).1 in
      let files1 = record_tmp tmp (snapshot_file dir stamped name) files in
      ground (
        arith,
        D.exists-create tmp q s,
        D.exists-create_failed tmp q e s,
        exists-write_stream name label tmp q s1,
        member-record_tmp tmp (snapshot_file dir stamped name) q files,
        exists-write_streams names label stamped dir files1 q e before s2,
      )

module _ {S : Type 0} (d : Driver S) (os : Files S) (rt : Runtime) (exists : Bytes → S → Bool)
    (D : IsDisk d os exists) (O : IsOrder rt) (E : IsErasable os exists) where
  exists-remove :
      (path q : Bytes) (s : S)
      → exists q (os.remove path s).1 ≡ (if bytes_eq path q then false else exists q s)
  exists-remove path q s = go (os.remove path s).0 refl (exists path s) refl
    where
      go :
          (err : Err)
          → (os.remove path s).0 ≡ err
          → (there : Bool) → exists path s ≡ there
          → exists q (os.remove path s).1 ≡ (if bytes_eq path q then false else exists q s)
      go none p there h = D.exists-remove path q s p
      go (some e) p true h = absurd (ground (arith, E.removed path s h))
      go (some e) p false h =
          ground (arith, D.exists-remove_failed path q e s p, eq_of_bytes_eq path q)

  exists-remove_all :
      (files : TmpFiles) (q : Bytes) (s : S)
      → exists q (remove_all os files s)
        ≡ (if member q (tmp_paths files) then false else exists q s)
  unfolding remove_all
  exists-remove_all [] q s = refl
  exists-remove_all ((tmp, final) ∷ files) q s =
      ground (arith, exists-remove_all files q (os.remove tmp s).1, exists-remove tmp q s)

  -- If a stream cannot be written, then every file that is there after the call was there before:
  -- no temporary file is left. Assumed: files are created, sent to and removed as documented,
  -- nothing hinders os.Remove of a file that is there, and the map of temporary files is iterated
  -- over all of its entries.
  pub send_snapshots_clean :
      (names : List Bytes) (label stamped dir q : Bytes) (s : S) {e : Bytes}
      → (write_streams d os rt names label stamped dir [] s).0 ≡ some e
      → exists q (send_snapshots d os rt names label stamped dir s).1 ≡ true
      → ((send_snapshots d os rt names label stamped dir s).0 ≡ some e) × (exists q s ≡ true)
  unfolding send_snapshots
  send_snapshots_clean names label stamped dir q s {e} failed there =
      let (err, files, s1) = write_streams d os rt names label stamped dir [] s in
      ground (
        arith,
        exists-write_streams d os rt exists D O names label stamped dir [] q e (exists q s) s,
        exists-remove_all (rt.order files) q s1,
        member-Perm (λ r. r.0) q (O.entries files),
      )
