-- ===== src/Zfs/Pool/Deleting.antt =====
-- Deleting a list of snapshots, as `TakeSnapshot` and `cleanup` do.
use platform_configure.Prelude.{
  Bytes, Err, ◌≡◌, refl, Bool, false, List, [], ◌∷◌, none, some, arith, bytes_eq, eq_of_bytes_eq,
  member, if◌then◌else◌, ◌∙◌,
}
use platform_configure.Zfs.Interface.{Driver, Files}
use platform_configure.Zfs.Pool.{IsPool, IsUnheld}
use platform_configure.Zfs.Snapshot.{delete_all}

module _ {S : Type 0} (d : Driver S) (os : Files S) (listed : Bytes → S → Bool)
    (L : IsPool d os listed) where
  -- Whether or not the deletions succeed, no other snapshot is touched.
  pub listed-delete_all_other :
      (names : List Bytes) (q : Bytes) (s : S)
      → member q names ≡ false
      → listed q (delete_all d names s) ≡ listed q s
  unfolding delete_all
  listed-delete_all_other [] q s h = refl
  listed-delete_all_other (n ∷ names) q s h =
      let s1 = (d.delete_snapshot n s).1 in
      listed-delete_all_other names q s1 (ground arith) ∙ go (d.delete_snapshot n s).0 refl
    where
      go :
          (e : Err)
          → (d.delete_snapshot n s).0 ≡ e
          → listed q (d.delete_snapshot n s).1 ≡ listed q s
      go none e = ground (arith, L.listed-delete n q s e)
      go (some m) e = L.listed-delete_failed n q m s e

  module _ (U : IsUnheld d os listed) where
    listed-delete :
        (n q : Bytes) (s : S)
        → listed q (d.delete_snapshot n s).1 ≡ (if bytes_eq n q then false else listed q s)
    listed-delete n q s = go (d.delete_snapshot n s).0 refl
      where
        go :
            (e : Err)
            → (d.delete_snapshot n s).0 ≡ e
            → listed q (d.delete_snapshot n s).1 ≡ (if bytes_eq n q then false else listed q s)
        go none e = L.listed-delete n q s e
        go (some m) e =
            ground (arith, L.listed-delete_failed n q m s e, U.destroyed n s, eq_of_bytes_eq n q)

    -- Nothing being held, exactly the named snapshots are gone.
    pub listed-delete_all :
        (names : List Bytes) (q : Bytes) (s : S)
        → listed q (delete_all d names s) ≡ (if member q names then false else listed q s)
    unfolding delete_all
    listed-delete_all [] q s = refl
    listed-delete_all (n ∷ names) q s =
        ground (arith, listed-delete_all names q (d.delete_snapshot n s).1, listed-delete n q s)
