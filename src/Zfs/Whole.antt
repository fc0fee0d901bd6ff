-- ===== src/Zfs/Whole.antt =====
-- zfs-snapshots as it runs: main over the driver that `init` sets.
use platform_configure.Prelude.{Bytes, ◌≡◌, Bool, List}
use platform_configure.Zfs.Moment.{Moment}
use platform_configure.Zfs.Interface.{Files, Runtime}
use platform_configure.Zfs.GoZfs.{Commands, go_zfs}
use platform_configure.Zfs.GoZfs.Pool.{IsZfs, IsFree, go_zfs-IsPool, go_zfs-IsUnheld}
use platform_configure.Zfs.Main.{Flags, exits, main}
use platform_configure.Zfs.Main.Laws.{main_failed}

module _ {S : Type 0} (c : Commands S) (os : Files S) (rt : Runtime) (listed : Bytes → S → Bool)
    (Z : IsZfs c os listed) (free : IsFree c listed) where
  -- Whatever the command line and whatever fails, a run over the zfs commands that exits with
  -- status 1 leaves the same snapshots in the pool as before: those it made are destroyed again.
  -- Assumed: the zfs commands, go-zfs and the calls of package os work as documented, and nothing
  -- holds a snapshot.
  pub real_zfs_failed :
      (now : Moment) (flags : Flags) (args : List Bytes) (s : S) (q : Bytes)
      → (main (go_zfs c) os rt now flags args s).0 ≡ exits 1
      → listed q (main (go_zfs c) os rt now flags args s).2 ≡ listed q s
  real_zfs_failed =
      main_failed (go_zfs c) os rt listed (go_zfs-IsPool c os listed Z)
        (go_zfs-IsUnheld c os listed Z free)
