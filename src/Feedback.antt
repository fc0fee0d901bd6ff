-- ===== src/Feedback.antt =====
-- go/platform-feedback/main.go: the failed units, the output of commands, and the archive of a
-- directory. `S` is the state of the machine, with the archive that is being written.
pub mod Main
pub mod Memory
pub mod Laws
use platform_configure.Prelude.{
  ℕ, Bytes, Err, codes, bytes_eq, split, Bool, true, false, List, [], ◌∷◌, ◌++◌, Option, none, some,
  ◌==◌, length, ltb, if◌then◌else◌,
}

-- What filepath.Walk hands to its function: the path, the path relative to the walked directory,
-- and whether it is a directory, if that is known.
pub record Visit : Type 0 where
  pub path : Bytes
  pub relative : Bytes
  pub is_dir : Option Bool

-- Packages os, os/exec, path/filepath and archive/tar. `run` appends a command's output to a file.
pub record Tools (S : Type 0) : Type 0 where
  pub combined_output : Bytes → List Bytes → S → Bytes × Err × S
  pub open_append : Bytes → S → Err × S
  pub run : Bytes → List Bytes → Bytes → S → Err × S
  pub hostname : S → Bytes × Err
  pub walk : Bytes → S → List Visit
  pub header_info : Visit → S → Err
  pub write_header : Bytes → S → Err × S
  pub open_file : Bytes → S → Err × S
  pub copy : Bytes → S → Err × S

-- `buffer.ReadString('\n')`: the text up to and with the first line break, or all of it.
unfoldable pub first_line : Bytes → Bytes
first_line [] = []
first_line (c ∷ s) = let rest = first_line s in if c == 10 then c ∷ [] else c ∷ rest

-- `strings.Split(line, " ")[0]`
unfoldable pub first_field : Bytes → Bytes
first_field [] = []
first_field (c ∷ s) = let rest = first_field s in if c == 32 then [] else c ∷ rest

-- A call returns its error, or the program panics.
pub data Exit : Type 0 where
  returns : Err → Exit
  panics : Exit

-- The path's name in the archive.
unfoldable pub archive_name : Bytes → Bytes → Bytes
archive_name prefix relative =
    if ltb 0 (length prefix) then prefix ++ codes "/" ++ relative else relative

abbrev pub archiving : Bytes → Bytes
archiving e = codes "Error archiving the feedback data: " ++ e

module _ {S : Type 0} (t : Tools S) where
  unfoldable pub get_failed_units : S → List Bytes × Err × S
  get_failed_units s =
      let (output, err, s1) =
        t.combined_output (codes "systemctl") (codes "--failed" ∷ codes "--no-legend" ∷ []) s in
      elim err [
        | some e ↦ ([], some e, s1)
        | none ↦ (first_field (first_line output) ∷ [], none, s1)
      ]

  unfoldable pub get_commands_output : Bytes → Bytes → Bytes → List Bytes → S → Err × S
  get_commands_output dir file command params s =
      let path = dir ++ codes "/" ++ file ++ codes ".txt" in
      let (err, s1) = t.open_append path s in
      elim err [ some e ↦ (some e, s1) | none ↦ t.run command params path s1 ]

  unfoldable pub get_hostname : S → Bytes
  get_hostname s =
      let (name, err) = t.hostname s in elim err [ some e ↦ codes "protonet" | none ↦ name ]

  -- The part of `tarFeedbackFile` after the header, for a file.
  unfoldable pub add_content : Bytes → S → Err × S
  add_content path s =
      let (err, s1) = t.open_file path s in
      elim err [ some e ↦ (some e, s1) | none ↦ t.copy path s1 ]

  unfoldable pub tar_feedback_file : Visit → Bool → Bytes → S → Err × S
  tar_feedback_file v is_dir name s =
      let (err, s1) = t.write_header name s in
      elim (t.header_info v s) [
        | some e ↦ (some e, s)
        | none ↦ elim err [
          | some e ↦ (some e, s1)
          | none ↦ if is_dir then (none, s1) else add_content v.path s1
        ]
      ]

  -- The walk stops at the first error. An error that Walk reports is not looked at: without the
  -- file's information the call of `info.IsDir()` panics.
  unfoldable pub tar_all : Bytes → List Visit → S → Exit × S
  tar_all prefix [] s = (returns none, s)
  tar_all prefix (v ∷ visits) s =
      let skipped = tar_all prefix visits s in
      elim (bytes_eq v.relative (codes ".")) [
        | true ↦ skipped
        | false ↦ elim v.is_dir [
          | none ↦ (panics, s)
          | some is_dir ↦
              let (err, s1) = tar_feedback_file v is_dir (archive_name prefix v.relative) s in
              let later = tar_all prefix visits s1 in
              elim err [ some e ↦ (returns (some (archiving e)), s1) | none ↦ later ]
        ]
      ]

  unfoldable pub tar_the_data : Bytes → Bytes → S → Exit × S
  tar_the_data dir prefix s = tar_all prefix (t.walk dir s) s
