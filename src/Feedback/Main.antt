-- ===== src/Feedback/Main.antt =====
-- main of go/platform-feedback/main.go. What it does once the archive is open is a list of tasks:
-- between any two of them the signal handler may run (Signals).
pub mod Files
pub mod Outcome
pub mod Leftovers
pub mod Reports
pub mod Signals
use platform_configure.Prelude.{
  ℕ, Bytes, Err, codes, List, [], ◌∷◌, ◌++◌, none, some, map, ◌==◌, if◌then◌else◌,
}
use platform_configure.Zfs.Moment.{Moment, two, four}
use platform_configure.Feedback.{
  Tools, Exit, returns, panics, get_failed_units, get_commands_output, get_hostname, tar_the_data,
}

-- The deferred calls, in the order in which they are made.
pub data Closing : Type 0 where
  tar_flush tar_close gzip_flush gzip_close file_sync file_close : Closing

-- What main calls besides, of packages os, io/ioutil, time, archive/tar and compress/gzip.
pub record Host (S : Type 0) : Type 0 where
  pub getuid : S → ℕ
  pub temp_dir : Bytes → S → Bytes × Err × S
  pub utc_now : S → Moment
  pub open_create : Bytes → S → Err × S
  pub remove : Bytes → S → Err × S
  pub remove_all : Bytes → S → Err × S
  pub close : Closing → S → Err × S

-- The arguments of one call of `getCommandsOutput`.
pub record Command : Type 0 where
  pub file : Bytes
  pub command : Bytes
  pub params : List Bytes

pub data Task : Type 0 where
  collect : Command → Task
  look_for_failed_units : Task
  archive : Bytes → Bytes → Task
  remove_work_dir : Task
  finish : Closing → Task

abbrev call : Bytes → Bytes → List Bytes → Command
call file command params = record { file = file; command = command; params = params }

abbrev pub unit_status : Bytes → Command
unit_status unit = record {
  file = codes "systemd-service-status-failed";
  command = codes "systemctl";
  params = codes "status" ∷ unit ∷ [];
}

unfoldable pub closing : List Closing
closing = tar_flush ∷ tar_close ∷ gzip_flush ∷ gzip_close ∷ file_sync ∷ file_close ∷ []

-- The calls before and after the failed units.
unfoldable pub first_calls : List Command
first_calls =
    call (codes "disk-free-space") (codes "df") (codes "-h" ∷ [])
    ∷ call (codes "disk-free-inodes") (codes "df") (codes "-i" ∷ [])
    ∷ call (codes "dmesg") (codes "dmesg") []
    ∷ call (codes "systemd-service-list") (codes "systemctl") (codes "-a" ∷ [])
    ∷ []

unfoldable pub later_calls : List Command
later_calls =
    call (codes "current-log") (codes "journalctl") (codes "-b" ∷ [])
    ∷ call (codes "previous-log") (codes "journalctl") (codes "-b" ∷ codes "-1" ∷ [])
    ∷ call (codes "docker-ps-a") (codes "docker") (codes "ps" ∷ codes "-a" ∷ [])
    ∷ call (codes "docker-images") (codes "docker") (codes "images" ∷ [])
    ∷ call (codes "zpool-list") (codes "zpool") (codes "list" ∷ [])
    ∷ call (codes "zpool-status") (codes "zpool") (codes "status" ∷ [])
    ∷ call (codes "zpool-get-all") (codes "zpool") (codes "get" ∷ codes "all" ∷ [])
    ∷ call (codes "zpool-history") (codes "zpool") (codes "history" ∷ [])
    ∷ call (codes "zpool-events") (codes "zpool") (codes "events" ∷ [])
    ∷ call (codes "zfs-list") (codes "zfs") (codes "list" ∷ [])
    ∷ call (codes "zfs-get-all") (codes "zfs") (codes "get" ∷ codes "all" ∷ [])
    ∷ []

-- The archiving, the clean-up and the deferred calls.
unfoldable pub last_tasks : Bytes → List Task
last_tasks dir =
    archive dir []
    ∷ archive (codes "/data/collectd") (codes "collectd")
    ∷ remove_work_dir
    ∷ map finish closing

unfoldable pub program : Bytes → List Task
program dir =
    map collect first_calls ++ look_for_failed_units ∷ (map collect later_calls ++ last_tasks dir)

-- `2006-01-02_15:04:05`
unfoldable pub timestamp : Moment → Bytes
unfolding two four
timestamp m = four m.year (
    b'-'
    ∷ two m.month
        (b'-' ∷ two m.day (b'_' ∷ two m.hour (b':' ∷ two m.minute (b':' ∷ two m.second [])))))

-- What a task comes to: the program goes on, with calls put before what is left; log.Fatal ends it;
-- or it panics, and the deferred calls are what is left.
pub data Next (S : Type 0) : Type 0 where
  goes : List Command → S → Next S
  dies : S → Next S
  unwinds : S → Next S

abbrev pub after_archive : {S : Type 0} → Exit → S → Next S
after_archive (returns none) s = goes [] s
after_archive (returns (some e)) s = dies s
after_archive panics s = unwinds s

module _ {S : Type 0} (t : Tools S) (h : Host S) where
  -- Errors of the calls, of the listing of units, of the clean-up and of the deferred calls are not
  -- looked at.
  unfoldable pub perform : Bytes → Task → S → Next S
  perform dir (collect c) s = goes [] (get_commands_output t dir c.file c.command c.params s).1
  perform dir look_for_failed_units s =
      let (units, err, s1) = get_failed_units t s in goes (map unit_status units) s1
  perform dir (archive from prefix) s =
      let (packed, s1) = tar_the_data t from prefix s in after_archive packed s1
  perform dir remove_work_dir s = goes [] (h.remove_all dir s).1
  perform dir (finish c) s = goes [] (h.close c s).1

  unfoldable pub collect_all : Bytes → List Command → S → S
  collect_all dir [] s = s
  collect_all dir (c ∷ cs) s =
      collect_all dir cs (get_commands_output t dir c.file c.command c.params s).1

  unfoldable pub close_all : List Closing → S → S
  close_all [] s = s
  close_all (c ∷ cs) s = close_all cs (h.close c s).1

  -- The exit status, and the state.
  unfoldable pub run_tasks : Bytes → List Task → S → ℕ × S
  run_tasks dir [] s = (0, s)
  run_tasks dir (task ∷ tasks) s = elim (perform dir task s) [
    | goes calls s1 ↦ run_tasks dir tasks (collect_all dir calls s1)
    | dies s1 ↦ (1, s1)
    | unwinds s1 ↦ (2, close_all closing s1)
  ]

  -- The file name of `createOutputArchive`.
  unfoldable pub archive_file : S → Bytes
  archive_file s =
      timestamp (h.utc_now s) ++ codes "-" ++ get_hostname t s ++ codes "-platform-feedback.tar.gz"

  unfoldable pub create_output_archive : S → Bytes × Err × S
  create_output_archive s =
      let name = archive_file s in
      let (err, s1) = h.open_create name s in
      elim err [ some e ↦ ([], some e, s1) | none ↦ (name, none, s1) ]

  -- Without a signal.
  unfoldable pub main : S → ℕ × S
  main s =
      let (dir, no_dir, s1) = h.temp_dir (codes "platform-feedback") s in
      let (name, no_archive, s2) = create_output_archive s1 in
      if h.getuid s == 0
      then (elim no_dir [
        | some e ↦ (1, s1)
        | none ↦ elim no_archive [ some e ↦ (1, s2) | none ↦ run_tasks dir (program dir) s2 ]
      ])
      else (1, s)
