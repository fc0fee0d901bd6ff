-- ===== src/Feedback/Laws.antt =====
-- What platform-feedback collects.
use platform_configure.Prelude.{
  avoids, Bytes, codes, ◌≡◌, refl, ap, ◌∙◌, bytes_eq, append_assoc, append-nil, List, [], ◌∷◌, ◌++◌,
  Option, none, some, true, Bool, arith, if◌then◌else◌,
}
use platform_configure.Feedback.{
  Visit, Tools, first_line, first_field, returns, archive_name, get_failed_units, add_content,
  tar_feedback_file, tar_all, tar_the_data,
}

first_line-append :
    (line rest : Bytes)
    → avoids 10 line ≡ true
    → first_line (line ++ codes "\n" ++ rest) ≡ line ++ codes "\n"
unfolding first_line
first_line-append [] rest h = refl
first_line-append (c ∷ line) rest h = ground (arith, first_line-append line rest)

first_field-append :
    (unit rest : Bytes) → avoids 32 unit ≡ true → first_field (unit ++ codes " " ++ rest) ≡ unit
unfolding first_field
first_field-append [] rest h = refl
first_field-append (c ∷ unit) rest h = ground (arith, first_field-append unit rest)

module _ {S : Type 0} (t : Tools S) (s : S) where
  -- Of the list of failed units, one per line and followed by a space, only the first unit is
  -- returned, whatever the other lines are.
  pub get_failed_units_first :
      (unit line rest : Bytes)
      → avoids 32 unit ≡ true
      → avoids 10 (unit ++ codes " " ++ line) ≡ true
      → let got =
          t.combined_output (codes "systemctl") (codes "--failed" ∷ codes "--no-legend" ∷ []) s in
        got.0 ≡ (unit ++ codes " " ++ line) ++ codes "\n" ++ rest
        → got.1 ≡ none
        → get_failed_units t s ≡ (unit ∷ [], none, got.2)
  unfolding get_failed_units
  get_failed_units_first unit line rest no_space no_break text ok =
      let (output, err, s1) =
        t.combined_output (codes "systemctl") (codes "--failed" ∷ codes "--no-legend" ∷ []) s in
      let field : first_field (first_line output) ≡ unit =
        ap (λ o. first_field (first_line o)) text
        ∙ ap first_field (first_line-append (unit ++ codes " " ++ line) rest no_break)
        ∙ ap first_field (append_assoc (unit ++ codes " ") line (codes "\n"))
        ∙ first_field-append unit (line ++ codes "\n") no_space in
      ground (arith, field)

-- What the program relies on: `names s` are the names in the archive.
pub record IsArchive {S : Type 0} (t : Tools S) (names : S → List Bytes) : Type 0 where
  pub names-header :
      (n : Bytes) (s : S)
      → (t.write_header n s).0 ≡ none
      → names (t.write_header n s).1 ≡ names s ++ n ∷ []
  pub names-open_file : (p : Bytes) (s : S) → names (t.open_file p s).1 ≡ names s
  pub names-copy : (p : Bytes) (s : S) → names (t.copy p s).1 ≡ names s

-- The names of what is below the directory, in the order of the walk.
abbrev pub below : Bytes → List Visit → List Bytes
below prefix [] = []
below prefix (v ∷ visits) =
    if bytes_eq v.relative (codes ".")
    then below prefix visits
    else archive_name prefix v.relative ∷ below prefix visits

module _ {S : Type 0} (t : Tools S) (names : S → List Bytes) (A : IsArchive t names) where
  names-tar_feedback_file :
      (v : Visit) (is_dir : Bool) (n : Bytes) (s : S)
      → (tar_feedback_file t v is_dir n s).0 ≡ none
      → names (tar_feedback_file t v is_dir n s).1 ≡ names s ++ n ∷ []
  unfolding tar_feedback_file add_content
  names-tar_feedback_file v is_dir n s h =
      let s1 = (t.write_header n s).1 in
      ground (
        arith,
        A.names-header n s,
        A.names-open_file v.path s1,
        A.names-copy v.path (t.open_file v.path s1).1,
      )

  names-tar_all :
      (prefix : Bytes) (visits : List Visit) (s : S)
      → (tar_all t prefix visits s).0 ≡ returns none
      → names (tar_all t prefix visits s).1 ≡ names s ++ below prefix visits
  unfolding tar_all
  names-tar_all prefix [] s h = cc (append-nil (names s))
  names-tar_all prefix (v ∷ visits) s h =
      go v.is_dir refl (names-tar_all prefix visits s) (λ is_dir.
        names-tar_all prefix visits
          (tar_feedback_file t v is_dir (archive_name prefix v.relative) s).1)
    where
      Goal : Type 0
      Goal = names (tar_all t prefix (v ∷ visits) s).1 ≡ names s ++ below prefix (v ∷ visits)

      go :
          (kind : Option Bool)
          → v.is_dir ≡ kind
          → ((tar_all t prefix visits s).0 ≡ returns none
              → names (tar_all t prefix visits s).1 ≡ names s ++ below prefix visits)
          → ((is_dir : Bool)
              → let s1 = (tar_feedback_file t v is_dir (archive_name prefix v.relative) s).1 in
                (tar_all t prefix visits s1).0 ≡ returns none
                → names (tar_all t prefix visits s1).1 ≡ names s1 ++ below prefix visits)
          → Goal
      go none p skipped later = ground (arith, skipped)
      go (some is_dir) p skipped later =
          let name = archive_name prefix v.relative in
          ground (
            arith,
            skipped,
            later is_dir,
            names-tar_feedback_file v is_dir name s,
            append_assoc (names s) (name ∷ []) (below prefix visits),
          )

  -- When archiving a directory succeeds, everything that the walk finds below it has been added
  -- to the archive, under the prefix and in the order of the walk, and nothing else has.
  -- Assumed: a header that is written adds its name, and nothing else does.
  pub tar_the_data_ok :
      (dir prefix : Bytes) (s : S)
      → (tar_the_data t dir prefix s).0 ≡ returns none
      → names (tar_the_data t dir prefix s).1 ≡ names s ++ below prefix (t.walk dir s)
  unfolding tar_the_data
  tar_the_data_ok dir prefix s h = names-tar_all prefix (t.walk dir s) s h
