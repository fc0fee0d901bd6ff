-- ===== src/Feedback/Main/Outcome.antt =====
-- How main of platform-feedback ends.
use platform_configure.Prelude.{
  Bytes, codes, ◌≡◌, refl, ap, sym, ◌∙◌, ◌⊎◌, List, [], ◌∷◌, ◌++◌, map, none, arith,
}
use platform_configure.Feedback.{
  Tools, returns, get_failed_units, get_commands_output, tar_the_data,
}
use platform_configure.Feedback.Laws.{IsArchive, below, tar_the_data_ok}
use platform_configure.Feedback.Main.{
  Closing, Host, Command, Task, collect, look_for_failed_units, finish, unit_status, closing,
  first_calls, later_calls, last_tasks, program, perform, collect_all, close_all, run_tasks,
  create_output_archive, main,
}

-- What the program relies on: only the calls of package tar change what is in the archive.
pub record IsUntouched {S : Type 0} (t : Tools S) (h : Host S) (names : S → List Bytes)
    : Type 0 where
  pub names-combined_output :
      (command : Bytes) (params : List Bytes) (s : S)
      → names (t.combined_output command params s).2 ≡ names s
  pub names-open_append : (path : Bytes) (s : S) → names (t.open_append path s).1 ≡ names s
  pub names-run :
      (command : Bytes) (params : List Bytes) (out : Bytes) (s : S)
      → names (t.run command params out s).1 ≡ names s
  pub names-remove_all : (path : Bytes) (s : S) → names (h.remove_all path s).1 ≡ names s
  pub names-close : (c : Closing) (s : S) → names (h.close c s).1 ≡ names s

module _ {S : Type 0} (t : Tools S) (h : Host S) where
  -- The state when all commands have been run.
  abbrev pub gathered : Bytes → S → S
  gathered dir s =
      let (units, err, s1) = get_failed_units t (collect_all t h dir first_calls s) in
      collect_all t h dir later_calls (collect_all t h dir (map unit_status units) s1)

  run_tasks-collect :
      (dir : Bytes) (calls : List Command) (tasks : List Task) (s : S)
      → run_tasks t h dir (map collect calls ++ tasks) s
        ≡ run_tasks t h dir tasks (collect_all t h dir calls s)
  unfolding run_tasks perform collect_all
  run_tasks-collect dir [] tasks s = refl
  run_tasks-collect dir (c ∷ calls) tasks s =
      run_tasks-collect dir calls tasks (get_commands_output t dir c.file c.command c.params s).1

  run_tasks-finish :
      (dir : Bytes) (cs : List Closing) (s : S)
      → run_tasks t h dir (map finish cs) s ≡ (0, close_all t h cs s)
  unfolding run_tasks perform collect_all close_all
  run_tasks-finish dir [] s = refl
  run_tasks-finish dir (c ∷ cs) s = run_tasks-finish dir cs (h.close c s).1

  run_tasks-look :
      (dir : Bytes) (tasks : List Task) (s : S)
      → let (units, err, s1) = get_failed_units t s in
        run_tasks t h dir (look_for_failed_units ∷ tasks) s
        ≡ run_tasks t h dir tasks (collect_all t h dir (map unit_status units) s1)
  unfolding run_tasks perform
  run_tasks-look dir tasks s = refl

  pub run_tasks-program :
      (dir : Bytes) (s : S)
      → run_tasks t h dir (program dir) s ≡ run_tasks t h dir (last_tasks dir) (gathered dir s)
  unfolding program
  run_tasks-program dir s =
      let s0 = collect_all t h dir first_calls s in
      let (units, err, s1) = get_failed_units t s0 in
      run_tasks-collect dir first_calls _ s
      ∙ run_tasks-look dir _ s0
      ∙ run_tasks-collect dir later_calls (last_tasks dir)
          (collect_all t h dir (map unit_status units) s1)

  -- The end of the program: the two directories are archived in turn.
  run_tasks-last :
      (dir : Bytes) (s : S)
      → let (packed, s1) = tar_the_data t dir [] s in
        let (packed_data, s2) = tar_the_data t (codes "/data/collectd") (codes "collectd") s1 in
        (run_tasks t h dir (last_tasks dir) s).0 ≡ 0
        → (packed ≡ returns none)
          × (packed_data ≡ returns none)
          × ((run_tasks t h dir (last_tasks dir) s).1
              ≡ close_all t h closing (h.remove_all dir s2).1)
  unfolding last_tasks run_tasks perform collect_all
  run_tasks-last dir s ok =
      let (packed, s1) = tar_the_data t dir [] s in
      let (packed_data, s2) = tar_the_data t (codes "/data/collectd") (codes "collectd") s1 in
      ground (arith, run_tasks-finish dir closing (h.remove_all dir s2).1)

  pub run_tasks-last_failed :
      (dir : Bytes) (s : S)
      → let s1 = (tar_the_data t dir [] s).1 in
        let s2 = (tar_the_data t (codes "/data/collectd") (codes "collectd") s1).1 in
        (run_tasks t h dir (last_tasks dir) s).0 ≡ 1
        → ((run_tasks t h dir (last_tasks dir) s).1 ≡ s1)
          ⊎ ((run_tasks t h dir (last_tasks dir) s).1 ≡ s2)
  unfolding last_tasks run_tasks perform collect_all
  run_tasks-last_failed dir s failed =
      let s1 = (tar_the_data t dir [] s).1 in
      let s2 = (tar_the_data t (codes "/data/collectd") (codes "collectd") s1).1 in
      ground (arith, run_tasks-finish dir closing (h.remove_all dir s2).1)

module _ {S : Type 0} (t : Tools S) (h : Host S) (names : S → List Bytes) (A : IsArchive t names)
    (K : IsUntouched t h names) where
  names-get_commands_output :
      (dir file command : Bytes) (params : List Bytes) (s : S)
      → names (get_commands_output t dir file command params s).1 ≡ names s
  unfolding get_commands_output
  names-get_commands_output dir file command params s =
      let path = dir ++ codes "/" ++ file ++ codes ".txt" in
      ground (
        arith,
        K.names-open_append path s,
        K.names-run command params path (t.open_append path s).1,
      )

  names-collect_all :
      (dir : Bytes) (calls : List Command) (s : S) → names (collect_all t h dir calls s) ≡ names s
  unfolding collect_all
  names-collect_all dir [] s = refl
  names-collect_all dir (c ∷ calls) s =
      names-collect_all dir calls (get_commands_output t dir c.file c.command c.params s).1
      ∙ names-get_commands_output dir c.file c.command c.params s

  names-close_all : (cs : List Closing) (s : S) → names (close_all t h cs s) ≡ names s
  unfolding close_all
  names-close_all [] s = refl
  names-close_all (c ∷ cs) s = names-close_all cs (h.close c s).1 ∙ K.names-close c s

  names-get_failed_units : (s : S) → names (get_failed_units t s).2 ≡ names s
  unfolding get_failed_units
  names-get_failed_units s = ground (
    arith,
    K.names-combined_output (codes "systemctl") (codes "--failed" ∷ codes "--no-legend" ∷ []) s,
  )

  names-gathered : (dir : Bytes) (s : S) → names (gathered t h dir s) ≡ names s
  names-gathered dir s =
      let s0 = collect_all t h dir first_calls s in
      let (units, err, s1) = get_failed_units t s0 in
      names-collect_all dir later_calls (collect_all t h dir (map unit_status units) s1)
      ∙ names-collect_all dir (map unit_status units) s1
      ∙ names-get_failed_units s0
      ∙ names-collect_all dir first_calls s

  names-last_tasks :
      (dir : Bytes) (g : S)
      → let g1 = (tar_the_data t dir [] g).1 in
        (run_tasks t h dir (last_tasks dir) g).0 ≡ 0
        → names (run_tasks t h dir (last_tasks dir) g).1
          ≡ names g
            ++ below [] (t.walk dir g)
            ++ below (codes "collectd") (t.walk (codes "/data/collectd") g1)
  names-last_tasks dir g ok =
      let g1 = (tar_the_data t dir [] g).1 in
      let g2 = (tar_the_data t (codes "/data/collectd") (codes "collectd") g1).1 in
      let (packed, packed_data, last) = run_tasks-last t h dir g ok in
      ap names last
      ∙ names-close_all closing (h.remove_all dir g2).1
      ∙ K.names-remove_all dir g2
      ∙ tar_the_data_ok t names A (codes "/data/collectd") (codes "collectd") g1 packed_data
      ∙ ap (λ l. l ++ below (codes "collectd") (t.walk (codes "/data/collectd") g1))
          (tar_the_data_ok t names A dir [] g packed)

  ran_all :
      (s : S)
      → let (dir, no_dir, s1) = h.temp_dir (codes "platform-feedback") s in
        let run = run_tasks t h dir (program dir) (create_output_archive t h s1).2 in
        (main t h s).0 ≡ 0 → (h.getuid s ≡ 0) × (run.0 ≡ 0) × ((main t h s).1 ≡ run.1)
  unfolding main
  ran_all s ok = ground arith

  -- If main exits with status 0, root has called it, and the archive has got everything that is
  -- then found below the work directory, where the commands have left their output, and everything
  -- below /data/collectd, under `collectd`, and nothing else. Assumed: only the calls of package
  -- tar change what is in the archive.
  pub main_ok :
      (s : S)
      → let (dir, no_dir, s1) = h.temp_dir (codes "platform-feedback") s in
        let (name, no_archive, s2) = create_output_archive t h s1 in
        let g = gathered t h dir s2 in
        let g1 = (tar_the_data t dir [] g).1 in
        (main t h s).0 ≡ 0
        → (h.getuid s ≡ 0)
          × (names (main t h s).1
              ≡ names s2
                ++ below [] (t.walk dir g)
                ++ below (codes "collectd") (t.walk (codes "/data/collectd") g1))
  main_ok s ok =
      let (dir, no_dir, s1) = h.temp_dir (codes "platform-feedback") s in
      let s2 = (create_output_archive t h s1).2 in
      let g = gathered t h dir s2 in
      let (root, ran, same) = ran_all s ok in
      (
        root,
        ap names (same ∙ ap (λ r. r.1) (run_tasks-program t h dir s2))
            ∙ names-last_tasks dir g (ap (λ r. r.0) (sym (run_tasks-program t h dir s2)) ∙ ran)
            ∙ ap
                (λ l.
                  l
                  ++ below [] (t.walk dir g)
                  ++ below (codes "collectd")
                      (t.walk (codes "/data/collectd") (tar_the_data t dir [] g).1))
                (names-gathered dir s2),
      )
