-- ===== src/Feedback/Main/Signals/Archive.antt =====
-- What becomes of the archive's file.
use platform_configure.Prelude.{
  Bytes, codes, ◌≡◌, refl, ap, sym, ◌∙◌, bytes_eq, bytes_eq_refl, has_prefix, Bool, true, false,
  not, [], ◌∷◌, ◌++◌, none, some, arith,
}
use platform_configure.Feedback.{Tools, Exit, tar_all, tar_the_data, returns, panics}
use platform_configure.Zfs.Moment.{two, four}
use platform_configure.Feedback.Main.{
  Host, Task, collect, look_for_failed_units, archive, remove_work_dir, finish, Next, goes, dies,
  unwinds, after_archive, perform, program, timestamp, archive_file, create_output_archive,
}
use platform_configure.Feedback.Main.Signals
use platform_configure.Feedback.Main.Signals.{Process}
use platform_configure.Feedback.Main.Files.{
  IsHost, exists-get_commands_output, exists-get_failed_units, exists-tar_all,
}

abbrev pub world_after : {S : Type 0} → Next S → S
world_after (goes calls s) = s
world_after (dies s) = s
world_after (unwinds s) = s

abbrev slash : Bytes
slash = codes "/"

absolute-append : (p rest : Bytes) → has_prefix p slash ≡ true → has_prefix (p ++ rest) slash ≡ true
unfolding has_prefix
absolute-append [] rest h = absurd (cc)
absolute-append (c ∷ p) rest h = ground arith

-- An absolute path is no relative one, nor one's beginning.
differs :
    (p name : Bytes)
    → has_prefix p slash ≡ true
    → has_prefix name slash ≡ false
    → bytes_eq p name ≡ false
unfolding bytes_eq has_prefix
differs [] name h n = absurd (cc)
differs (c ∷ p) [] h n = refl
differs (c ∷ p) (d ∷ name) h n = ground arith

not_below :
    (p name : Bytes)
    → has_prefix p slash ≡ true
    → has_prefix name slash ≡ false
    → has_prefix name p ≡ false
unfolding has_prefix
not_below [] name h n = absurd (cc)
not_below (c ∷ p) [] h n = refl
not_below (c ∷ p) (d ∷ name) h n = ground arith

-- The archive is there, unless the handler has removed it.
abbrev pub IsKept : {S : Type 0} → (Bytes → S → Bool) → Bytes → Process S → Type 0
IsKept exists name (Signals.alive status removed tasks s) = exists name s ≡ not removed
IsKept exists name (Signals.ended status removed s) = exists name s ≡ not removed

module _ {S : Type 0} (t : Tools S) (h : Host S) (exists : Bytes → S → Bool) (H : IsHost t h exists)
    (dir name : Bytes) (absolute : has_prefix dir slash ≡ true)
    (relative : has_prefix name slash ≡ false) where
  exists-perform :
      (task : Task) (s : S) → exists name (world_after (perform t h dir task s)) ≡ exists name s
  unfolding perform tar_the_data
  exists-perform (collect c) s =
      exists-get_commands_output t h exists H dir c.file c.command name c.params s (
        differs (dir ++ codes "/" ++ c.file ++ codes ".txt") name
          (absolute-append (dir ++ codes "/" ++ c.file) (codes ".txt")
            (absolute-append (dir ++ codes "/") c.file (absolute-append dir (codes "/") absolute)))
          relative)
  exists-perform look_for_failed_units s = exists-get_failed_units t h exists H name s
  exists-perform (archive from prefix) s =
      let (packed, s1) = tar_all t prefix (t.walk from s) s in
      after packed s1 ∙ exists-tar_all t h exists H prefix (t.walk from s) name s
    where
      after :
          (packed : Exit) (s1 : S)
          → exists name (world_after (after_archive packed s1)) ≡ exists name s1
      after (returns none) s1 = refl
      after (returns (some e)) s1 = refl
      after panics s1 = refl
  exists-perform remove_work_dir s =
      H.exists-remove_all dir name s (not_below dir name absolute relative)
  exists-perform (finish c) s = H.exists-close c name s

  Step-IsKept :
      {p q : Process S}
      → Signals.Step t h dir name p q
      → IsKept exists name p
      → IsKept exists name q
  Step-IsKept (Signals.works status removed task tasks s calls s1 e) k =
      ap (λ n. exists name (world_after n)) (sym e) ∙ exists-perform task s ∙ k
  Step-IsKept (Signals.fails status removed task tasks s s1 e) k =
      ap (λ n. exists name (world_after n)) (sym e) ∙ exists-perform task s ∙ k
  Step-IsKept (Signals.panics status removed task tasks s s1 e) k =
      ap (λ n. exists name (world_after n)) (sym e) ∙ exists-perform task s ∙ k
  Step-IsKept (Signals.returns status removed s) k = k
  Step-IsKept (Signals.handles status tasks s) k =
      H.exists-remove name name s ∙ ground (arith, bytes_eq_refl name)
  Step-IsKept (Signals.exits status tasks s) k = k

  Reach-IsKept :
      {p q : Process S}
      → IsKept exists name p
      → Signals.Reach t h dir name p q
      → IsKept exists name q
  Reach-IsKept k Signals.here = k
  Reach-IsKept k (Signals.next r st) = Step-IsKept st (Reach-IsKept k r)

archive_file-relative :
    {S : Type 0} (t : Tools S) (h : Host S) (s : S) → has_prefix (archive_file t h s) slash ≡ false
unfolding archive_file timestamp four two has_prefix
archive_file-relative t h s = ground arith

module _ {S : Type 0} (t : Tools S) (h : Host S) (exists : Bytes → S → Bool)
    (H : IsHost t h exists) where
  create_output_archive_ok :
      (s : S)
      → let (name, err, s1) = create_output_archive t h s in
        err ≡ none → (has_prefix name slash ≡ false) × (exists name s1 ≡ true)
  unfolding create_output_archive
  create_output_archive_ok s opened = ground (
    arith,
    archive_file-relative t h s,
    H.exists-open_create (archive_file t h s) (archive_file t h s) s,
    bytes_eq_refl (archive_file t h s),
  )

  -- From the moment that the archive is open, whatever main does and whenever signals come, the
  -- archive's file is there just as long as the handler has not removed it. Assumed: the work
  -- directory has an absolute path, files are made only by opening them and removed only by
  -- os.Remove and os.RemoveAll, and nothing hinders os.Remove.
  pub main-IsKept :
      (s : S) {p : Process S}
      → let (dir, no_dir, s1) = h.temp_dir (codes "platform-feedback") s in
        let (name, no_archive, s2) = create_output_archive t h s1 in
        has_prefix dir slash ≡ true
        → no_archive ≡ none
        → Signals.Reach t h dir name (Signals.alive 0 false (program dir) s2) p
        → IsKept exists name p
  main-IsKept s {p} absolute opened reached =
      let (dir, no_dir, s1) = h.temp_dir (codes "platform-feedback") s in
      let name = (create_output_archive t h s1).0 in
      let (relative, made) = create_output_archive_ok s1 opened in
      Reach-IsKept t h exists H dir name absolute relative made reached
