-- ===== src/Feedback/Main/Leftovers.antt =====
-- What main of platform-feedback leaves when log.Fatal ends it.
use platform_configure.Prelude.{
  ℕ, Bytes, codes, ◌≡◌, ◌⊎◌, inl, inr, refl, ap, sym, ◌∙◌, bytes_eq, Bool, true, false, List, [],
  ◌∷◌, ◌++◌, append_assoc, map, none, arith,
}
use platform_configure.Feedback.{Tools, get_failed_units, get_commands_output, tar_the_data}
use platform_configure.Feedback.Main.{
  Host, Command, unit_status, first_calls, later_calls, last_tasks, program, collect_all, run_tasks,
  create_output_archive, archive_file, main,
}
use platform_configure.Feedback.Main.Outcome.{gathered, run_tasks-program, run_tasks-last_failed}
use platform_configure.Feedback.Main.Files.{
  IsHost, exists-get_commands_output, exists-get_failed_units, exists-tar_all,
}

-- A path is no part of itself.
longer : (dir rest : Bytes) (c : ℕ) → bytes_eq (dir ++ c ∷ rest) dir ≡ false
unfolding bytes_eq
longer [] rest c = refl
longer (d ∷ dir) rest c = ground (arith, longer dir rest c)

module _ {S : Type 0} (t : Tools S) (h : Host S) (exists : Bytes → S → Bool)
    (H : IsHost t h exists) where
  exists-collect_all :
      (dir : Bytes) (calls : List Command) (s : S)
      → exists dir (collect_all t h dir calls s) ≡ exists dir s
  unfolding collect_all
  exists-collect_all dir [] s = refl
  exists-collect_all dir (c ∷ calls) s =
      exists-collect_all dir calls (get_commands_output t dir c.file c.command c.params s).1
      ∙ exists-get_commands_output t h exists H dir c.file c.command dir c.params s
          (ap (λ p. bytes_eq p dir) (simp append_assoc) ∙ longer dir (c.file ++ codes ".txt") b'/')

  exists-gathered : (dir : Bytes) (s : S) → exists dir (gathered t h dir s) ≡ exists dir s
  exists-gathered dir s =
      let s0 = collect_all t h dir first_calls s in
      let (units, err, s1) = get_failed_units t s0 in
      exists-collect_all dir later_calls (collect_all t h dir (map unit_status units) s1)
      ∙ exists-collect_all dir (map unit_status units) s1
      ∙ exists-get_failed_units t h exists H dir s0
      ∙ exists-collect_all dir first_calls s

  exists-tar_the_data :
      (from prefix q : Bytes) (s : S) → exists q (tar_the_data t from prefix s).1 ≡ exists q s
  unfolding tar_the_data
  exists-tar_the_data from prefix q s = exists-tar_all t h exists H prefix (t.walk from s) q s

  exists-run_failed :
      (dir : Bytes) (s : S)
      → (run_tasks t h dir (program dir) s).0 ≡ 1
      → exists dir (run_tasks t h dir (program dir) s).1 ≡ exists dir s
  exists-run_failed dir s failed =
      let g = gathered t h dir s in
      let s1 = (tar_the_data t dir [] g).1 in
      let e = run_tasks-program t h dir s in
      ap (λ r. exists dir r.1) e
      ∙ go (run_tasks-last_failed t h dir g (ap (λ r. r.0) (sym e) ∙ failed))
      ∙ exists-gathered dir s
    where
      g : S
      g = gathered t h dir s

      s1 : S
      s1 = (tar_the_data t dir [] g).1

      s2 : S
      s2 = (tar_the_data t (codes "/data/collectd") (codes "collectd") s1).1

      first : exists dir s1 ≡ exists dir g
      first = exists-tar_the_data dir [] dir g

      go :
          ((run_tasks t h dir (last_tasks dir) g).1 ≡ s1)
            ⊎ ((run_tasks t h dir (last_tasks dir) g).1 ≡ s2)
          → exists dir (run_tasks t h dir (last_tasks dir) g).1 ≡ exists dir g
      go (inl p) = ap (exists dir) p ∙ first
      go (inr p) =
          ap (exists dir) p
          ∙ exists-tar_the_data (codes "/data/collectd") (codes "collectd") dir s1
          ∙ first

  exists-create_output_archive :
      (q : Bytes) (s : S)
      → (create_output_archive t h s).1 ≡ none
      → exists q s ≡ true
      → exists q (create_output_archive t h s).2 ≡ true
  unfolding create_output_archive
  exists-create_output_archive q s opened there =
      ground (arith, H.exists-open_create (archive_file t h s) q s)

  -- If root's main has made its work directory and opened the archive and then exits with status
  -- 1, the work directory is still there: log.Fatal skips its removal. Assumed: a directory goes
  -- only by os.Remove and os.RemoveAll, and opening the archive removes none.
  pub main_leaves_work_dir :
      (s : S)
      → let (dir, no_dir, s1) = h.temp_dir (codes "platform-feedback") s in
        let (name, no_archive, s2) = create_output_archive t h s1 in
        h.getuid s ≡ 0
        → no_dir ≡ none
        → no_archive ≡ none
        → exists dir s1 ≡ true
        → (main t h s).0 ≡ 1
        → exists dir (main t h s).1 ≡ true
  unfolding main
  main_leaves_work_dir s root made opened there failed =
      let (dir, no_dir, s1) = h.temp_dir (codes "platform-feedback") s in
      let s2 = (create_output_archive t h s1).2 in
      ground (arith, exists-create_output_archive dir s1 opened there, exists-run_failed dir s2)
