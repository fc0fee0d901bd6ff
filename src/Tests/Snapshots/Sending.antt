-- ===== src/Tests/Snapshots/Sending.antt =====
-- Sending to files, and the commands of ZFS.
use platform_configure.Prelude.{
  Bytes, Err, codes, ◌≡◌, refl, true, false, List, [], ◌∷◌, none, some,
}
use platform_configure.Zfs.Send.{write_streams, send_snapshots}
use platform_configure.Zfs.Send.Leftovers.{send_snapshots_clean}
use platform_configure.Zfs.GoZfs.{Commands, go_zfs}
use platform_configure.Zfs.Main.{main, create, ending, fatal}
use platform_configure.Zfs.Memory.{
  Machine, memory_driver, memory_files, memory_runtime, in_pool, on_disk, memory-IsDisk,
  memory-IsOrder, memory-IsErasable,
}
use platform_configure.Zfs.Send.{tmp_file}
use platform_configure.Zfs.Send.Sent.{send_snapshots_ok}
use platform_configure.Zfs.Pool.{IsPool}
use platform_configure.Zfs.GoZfs.Pool.{go_zfs-IsPool}
use platform_configure.Zfs.Whole.{real_zfs_failed}
use platform_configure.Zfs.Commands.{memory_commands, commands-IsZfs, commands-IsFree}
use platform_configure.Tests.Snapshots.{moment, flags, machine, foo, run, stamped}

abbrev empty_pool : Machine
empty_pool = record machine { pool = []; files = (codes "/in/x", []) ∷ [] }

write_streams_run :
    (write_streams memory_driver memory_files memory_runtime foo
      (codes "bar")
      stamped
      (codes "/in")
      []
      empty_pool).0
    ≡ some (codes "No snapshots found to send")
unfolding run
write_streams_run = refl

send_snapshots_clean_example :
    ((send_snapshots memory_driver memory_files memory_runtime foo
        (codes "bar")
        stamped
        (codes "/in")
        empty_pool).0
      ≡ some (codes "No snapshots found to send"))
    × (on_disk (codes "/in/x") empty_pool ≡ true)
unfolding run
send_snapshots_clean_example =
    send_snapshots_clean memory_driver memory_files memory_runtime on_disk memory-IsDisk
      memory-IsOrder memory-IsErasable foo (codes "bar") stamped (codes "/in") (codes "/in/x")
      empty_pool write_streams_run refl

send : Bytes → Machine → Err × Machine
unfolding run
send dir m =
    send_snapshots memory_driver memory_files memory_runtime foo (codes "bar") stamped dir m

-- The temporary file is gone.
tmp_file_gone :
    on_disk (tmp_file (codes "/in") stamped (codes "foo")) (send (codes "/in") machine).1 ≡ false
unfolding send
tmp_file_gone = refl

send_snapshots_ok_example :
    on_disk (codes "/in/foo-bar-2010-10-21-14-01-59.snap") (send (codes "/in") machine).1 ≡ true
unfolding send
send_snapshots_ok_example =
    send_snapshots_ok memory_driver memory_files memory_runtime on_disk memory-IsDisk memory-IsOrder
      foo (codes "bar") stamped (codes "/in") (codes "/in/foo-bar-2010-10-21-14-01-59.snap") machine
      refl refl

go_zfs-IsPool_example : IsPool (go_zfs (memory_commands none)) memory_files in_pool
go_zfs-IsPool_example =
    go_zfs-IsPool (memory_commands none) memory_files in_pool (commands-IsZfs none)

-- `zfs send` fails after the snapshot is made.
abbrev broken : Commands Machine
broken = memory_commands (some (codes "broken pipe"))

abbrev create_foo : List Bytes
create_foo = codes "create" ∷ codes "foo" ∷ []

real_zfs_failed_example :
    in_pool
      (codes "foo@bar-2010-10-21-14-01-59")
      (main (go_zfs broken) memory_files memory_runtime (moment 59) flags create_foo machine).2
    ≡ in_pool (codes "foo@bar-2010-10-21-14-01-59") machine
unfolding run main create ending fatal go_zfs
real_zfs_failed_example =
    real_zfs_failed broken memory_files memory_runtime in_pool (commands-IsZfs _)
      (commands-IsFree _) (moment 59) flags create_foo machine (codes "foo@bar-2010-10-21-14-01-59")
      refl
