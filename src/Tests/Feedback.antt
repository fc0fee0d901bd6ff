-- ===== src/Tests/Feedback.antt =====
-- platform-feedback on a machine in memory.
use platform_configure.Prelude.{
  ℕ, Bytes, Err, codes, ◌≡◌, refl, bytes_eq, has_prefix, List, [], ◌∷◌, ◌++◌, none, some, true,
  false,
}
use platform_configure.Zfs.Moment.{two, four}
use platform_configure.Feedback.{
  Visit, panics, archive_name, first_line, first_field, get_hostname, get_commands_output,
  get_failed_units, add_content, tar_feedback_file, tar_all, tar_the_data,
}
use platform_configure.Feedback.Laws.{below, get_failed_units_first}
use platform_configure.Feedback.Main.{
  closing, first_calls, later_calls, last_tasks, program, timestamp, perform, collect_all,
  close_all, run_tasks, archive_file, create_output_archive, main,
}
use platform_configure.Feedback.Main.Outcome.{main_ok}
use platform_configure.Feedback.Main.Leftovers.{main_leaves_work_dir}
use platform_configure.Feedback.Main.Signals
use platform_configure.Feedback.Main.Signals.Archive.{main-IsKept}
use platform_configure.Prelude.{All, member}
use platform_configure.Feedback.Main.Reports.{report_name, main_reports}
use platform_configure.Feedback.Memory.{
  walking, walking-IsWorkDir, Machine, tools, host, exists, work_dir, machine-IsArchive,
  machine-IsUntouched, machine-IsHost,
}

abbrev visits : List Visit
visits =
    record { path = codes "/data/collectd"; relative = codes "."; is_dir = some true }
    ∷ record { path = codes "/data/collectd/cpu"; relative = codes "cpu"; is_dir = some true }
    ∷ record {
      path = codes "/data/collectd/cpu/load";
      relative = codes "cpu/load";
      is_dir = some false;
    }
    ∷ []

abbrev fixed : Bytes → Machine → List Visit
fixed dir s = visits

abbrev empty : Machine
empty = record { names = []; paths = [] }

get_failed_units_first_example :
    get_failed_units (tools fixed none) empty ≡ (codes "nginx.service" ∷ [], none, empty)
get_failed_units_first_example =
    get_failed_units_first (tools fixed none) empty (codes "nginx.service") (codes "loaded failed")
      (codes "sshd.service loaded failed\n") refl refl refl refl

-- Where the walk reports an error, there is no information on the path.
walk_error :
    (tar_all
      (tools fixed none)
      []
      (record { path = codes "/x"; relative = codes "x"; is_dir = none } ∷ [])
      empty).0
    ≡ panics
unfolding tar_all bytes_eq
walk_error = refl

run : Err → ℕ × Machine
unfolding main create_output_archive archive_file timestamp two four get_hostname run_tasks perform
    program first_calls later_calls last_tasks closing collect_all close_all get_commands_output
    get_failed_units first_line first_field tar_the_data tar_all tar_feedback_file add_content
    archive_name bytes_eq has_prefix
run copied = main (tools fixed copied) host empty

abbrev box_archive : Bytes
box_archive = codes "2016-05-04_12:00:00-box-platform-feedback.tar.gz"

collected : run none ≡ (
  0,
  record {
    names = codes "cpu" ∷ codes "cpu/load" ∷ codes "collectd/cpu" ∷ codes "collectd/cpu/load" ∷ [];
    paths = box_archive ∷ [];
  },
)
unfolding run
collected = refl

main_ok_example :
    let dir = work_dir in
    (◌≡◌ {A = ℕ} 0 0)
    × ((main (tools fixed none) host empty).1.names
        ≡ [] ++ below [] visits ++ below (codes "collectd") visits)
unfolding run
main_ok_example =
    main_ok (tools fixed none) host (λ s. s.names) (machine-IsArchive fixed none)
      (machine-IsUntouched fixed none) empty refl

main_leaves_work_dir_example :
    exists work_dir (main (tools fixed (some (codes "disk full"))) host empty).1 ≡ true
unfolding run
main_leaves_work_dir_example =
    main_leaves_work_dir (tools fixed (some (codes "disk full"))) host exists
      (machine-IsHost fixed (some (codes "disk full"))) empty refl refl refl refl refl

-- The archive has been opened.
abbrev opened : Machine
opened = record { names = []; paths = box_archive ∷ work_dir ∷ [] }

-- A signal comes at once.
interrupted :
    Signals.Reach
      (tools fixed none)
      host
      work_dir
      box_archive
      (Signals.alive 0 false (program work_dir) opened)
      (Signals.alive 0 true (program work_dir) (record { names = []; paths = work_dir ∷ [] }))
unfolding bytes_eq
interrupted = Signals.next Signals.here (Signals.handles 0 (program work_dir) opened)

main-IsKept_example : exists box_archive (record { names = []; paths = work_dir ∷ [] }) ≡ false
unfolding create_output_archive archive_file timestamp two four get_hostname has_prefix bytes_eq
main-IsKept_example =
    main-IsKept (tools fixed none) host exists (machine-IsHost fixed none) empty refl refl
      interrupted

-- A signal at the end: the handler removes the archive, and main returns before the handler exits.
gone_with_status_0 :
    Signals.Reach
      (tools fixed none)
      host
      work_dir
      box_archive
      (Signals.alive 0 false [] opened)
      (Signals.ended 0 true (host.remove box_archive opened).1)
gone_with_status_0 =
    Signals.next (Signals.next Signals.here (Signals.handles 0 [] opened))
      (Signals.returns 0 true (host.remove box_archive opened).1)

main_reports_example :
    All
      (λ c. member (report_name c) (main walking host empty).1.names ≡ true)
      (first_calls ++ later_calls)
unfolding run
main_reports_example =
    main_reports walking host exists (machine-IsHost _ none) walking-IsWorkDir (λ s. s.names)
      (machine-IsArchive _ none) (machine-IsUntouched _ none) empty refl
