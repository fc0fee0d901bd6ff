-- ===== src/Feedback/Main/Reports.antt =====
-- The reports of the commands in the archive.
use platform_configure.Prelude.{
  Bytes, codes, ◌≡◌, refl, subst, sym, Bool, true, false, List, [], ◌∷◌, ◌++◌, map, none, arith,
  All, All-append, All-map, avoids, bytes_eq, eq_of_bytes_eq, member, member-append,
}
use platform_configure.Feedback.{
  Visit, Tools, archive_name, get_failed_units, get_commands_output, tar_the_data,
}
use platform_configure.Feedback.Laws.{IsArchive, below}
use platform_configure.Feedback.Main.{
  Host, Command, unit_status, first_calls, later_calls, collect_all, create_output_archive, main,
}
use platform_configure.Feedback.Main.Outcome.{IsUntouched, gathered, main_ok}
use platform_configure.Feedback.Main.Files.{IsHost}

abbrev pub report_name : Command → Bytes
report_name c = c.file ++ codes ".txt"

abbrev pub report_path : Bytes → Command → Bytes
report_path dir c = dir ++ codes "/" ++ c.file ++ codes ".txt"

-- What the program relies on besides: a file can be opened for appending and is then there, and
-- filepath.Walk visits the files right below the directory.
pub record IsWorkDir {S : Type 0} (t : Tools S) (exists : Bytes → S → Bool) : Type 0 where
  pub opened : (path : Bytes) (s : S) → (t.open_append path s).0 ≡ none
  pub made : (path : Bytes) (s : S) → exists path (t.open_append path s).1 ≡ true
  pub walked :
      (dir file : Bytes) (s : S)
      → avoids 47 file ≡ true
      → exists (dir ++ codes "/" ++ file ++ codes ".txt") s ≡ true
      → member (file ++ codes ".txt") (map (λ v. v.relative) (t.walk dir s)) ≡ true

-- A name that is not the directory's own is among those that are put into the archive.
member-below :
    (q : Bytes) (visits : List Visit)
    → bytes_eq q (codes ".") ≡ false
    → member q (map (λ v. v.relative) visits) ≡ true
    → member q (below [] visits) ≡ true
unfolding archive_name
member-below q [] other h = absurd (cc)
member-below q (v ∷ visits) other h =
    ground (arith, member-below q visits other, eq_of_bytes_eq v.relative q)

report_name-other : (file : Bytes) → bytes_eq (file ++ codes ".txt") (codes ".") ≡ false
unfolding bytes_eq
report_name-other [] = refl
report_name-other (c ∷ []) = ground arith
report_name-other (c ∷ d ∷ file) = ground arith

module _ {S : Type 0} (t : Tools S) (h : Host S) (exists : Bytes → S → Bool) (H : IsHost t h exists)
    (D : IsWorkDir t exists) (dir : Bytes) where
  abbrev Reported : S → Command → Type 0
  Reported s c = exists (report_path dir c) s ≡ true

  kept-get_commands_output :
      (c : Command) (q : Bytes) (s : S)
      → exists q s ≡ true
      → exists q (get_commands_output t dir c.file c.command c.params s).1 ≡ true
  unfolding get_commands_output
  kept-get_commands_output c q s there =
      let path = dir ++ codes "/" ++ c.file ++ codes ".txt" in
      ground (
        arith,
        D.opened path s,
        D.made path s,
        H.exists-open_append path q s,
        H.exists-run c.command c.params path q (t.open_append path s).1,
        eq_of_bytes_eq path q,
      )

  Reported-get_commands_output :
      (c : Command) (s : S)
      → exists (report_path dir c) (get_commands_output t dir c.file c.command c.params s).1 ≡ true
  unfolding get_commands_output
  Reported-get_commands_output c s =
      let path = dir ++ codes "/" ++ c.file ++ codes ".txt" in
      ground (
        arith,
        D.opened path s,
        D.made path s,
        H.exists-run c.command c.params path path (t.open_append path s).1,
      )

  kept-collect_all :
      (calls : List Command) (q : Bytes) (s : S)
      → exists q s ≡ true
      → exists q (collect_all t h dir calls s) ≡ true
  unfolding collect_all
  kept-collect_all [] q s there = there
  kept-collect_all (c ∷ calls) q s there =
      kept-collect_all calls q (get_commands_output t dir c.file c.command c.params s).1
        (kept-get_commands_output c q s there)

  Reported-collect_all :
      (calls : List Command) (s : S) → All (Reported (collect_all t h dir calls s)) calls
  unfolding collect_all
  Reported-collect_all [] s = tt
  Reported-collect_all (c ∷ calls) s =
      let s1 = (get_commands_output t dir c.file c.command c.params s).1 in
      (
        kept-collect_all calls (report_path dir c) s1 (Reported-get_commands_output c s),
        Reported-collect_all calls s1,
      )

  kept-get_failed_units :
      (q : Bytes) (s : S) → exists q s ≡ true → exists q (get_failed_units t s).2 ≡ true
  unfolding get_failed_units
  kept-get_failed_units q s there = ground (
    arith,
    H.exists-combined_output (codes "systemctl") (codes "--failed" ∷ codes "--no-legend" ∷ []) q s,
  )

  -- When all commands have been run, the file of each is there.
  Reported-gathered : (s : S) → All (Reported (gathered t h dir s)) (first_calls ++ later_calls)
  Reported-gathered s =
      let s0 = collect_all t h dir first_calls s in
      let (units, err, s1) = get_failed_units t s0 in
      let s2 = collect_all t h dir (map unit_status units) s1 in
      All-append (Reported (gathered t h dir s)) first_calls later_calls
        (All-map (Reported s0) (Reported (gathered t h dir s))
          (λ c there.
            let q = report_path dir c in
            kept-collect_all later_calls q s2
              (kept-collect_all (map unit_status units) q s1 (kept-get_failed_units q s0 there)))
          first_calls (Reported-collect_all first_calls s))
        (Reported-collect_all later_calls s2)

-- The name has no slash.
abbrev IsPlain : Command → Type 0
IsPlain c = avoids 47 c.file ≡ true

calls-IsPlain : All IsPlain (first_calls ++ later_calls)
unfolding first_calls later_calls
calls-IsPlain = (
  refl,
  (
    refl,
    (
      refl,
      (
        refl,
        (refl, (refl, (refl, (refl, (refl, (refl, (refl, (refl, (refl, (refl, (refl, tt))))))))))),
      ),
    ),
  ),
)

module _ {S : Type 0} (t : Tools S) (h : Host S) (exists : Bytes → S → Bool) (H : IsHost t h exists)
    (D : IsWorkDir t exists) (names : S → List Bytes) (A : IsArchive t names)
    (K : IsUntouched t h names) where
  -- The reports that are there when the work directory is archived are among the names.
  archived :
      (dir : Bytes) (g : S) (before after : List Bytes) (calls : List Command)
      → All IsPlain calls
      → All (Reported t h exists H D dir g) calls
      → All (λ c. member (report_name c) (before ++ below [] (t.walk dir g) ++ after) ≡ true) calls
  archived dir g before after [] plain there = tt
  archived dir g before after (c ∷ calls) plain there =
      let name = report_name c in
      let inside = below [] (t.walk dir g) in
      (
        ground (
          arith,
          member-append name before inside,
          member-append name (before ++ inside) after,
          member-below name (t.walk dir g) (report_name-other c.file)
              (D.walked dir c.file g plain.0 there.0),
        ),
        archived dir g before after calls plain.1 there.1,
      )

  -- If main exits with status 0, the archive has a file for each of the fifteen commands that it
  -- always calls, whether the command succeeded or not. Assumed: only the calls of package tar
  -- change what is in the archive, files can be opened for appending and stay, and filepath.Walk
  -- visits the files in the directory.
  pub main_reports :
      (s : S)
      → (main t h s).0 ≡ 0
      → All (λ c. member (report_name c) (names (main t h s).1) ≡ true) (first_calls ++ later_calls)
  main_reports s ok =
      let (dir, no_dir, s1) = h.temp_dir (codes "platform-feedback") s in
      let s2 = (create_output_archive t h s1).2 in
      let g = gathered t h dir s2 in
      let g1 = (tar_the_data t dir [] g).1 in
      let (root, packed) = main_ok t h names A K s ok in
      subst (λ l. All (λ c. member (report_name c) l ≡ true) (first_calls ++ later_calls))
        (sym packed)
        (archived dir g (names s2) (below (codes "collectd") (t.walk (codes "/data/collectd") g1))
          (first_calls ++ later_calls) calls-IsPlain (Reported-gathered t h exists H D dir s2))
