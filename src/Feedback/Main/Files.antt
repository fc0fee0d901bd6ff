-- ===== src/Feedback/Main/Files.antt =====
-- Which calls of platform-feedback make and remove files.
use platform_configure.Prelude.{
  Bytes, codes, ◌≡◌, refl, bytes_eq, has_prefix, Bool, false, List, [], ◌∷◌, ◌++◌, Option, none,
  some, arith, if◌then◌else◌, ◌||◌,
}
use platform_configure.Feedback.{
  Visit, Tools, get_failed_units, get_commands_output, add_content, tar_feedback_file, tar_all,
  archive_name,
}
use platform_configure.Feedback.Main.{Closing, Host}

-- What the program relies on: which calls make and remove files. `exists q s`: there is a file or
-- directory at the path `q`.
pub record IsHost {S : Type 0} (t : Tools S) (h : Host S) (exists : Bytes → S → Bool) : Type 0 where
  pub exists-combined_output :
      (command : Bytes) (params : List Bytes) (q : Bytes) (s : S)
      → exists q (t.combined_output command params s).2 ≡ exists q s
  pub exists-run :
      (command : Bytes) (params : List Bytes) (out q : Bytes) (s : S)
      → exists q (t.run command params out s).1 ≡ exists q s
  pub exists-open_append :
      (path q : Bytes) (s : S)
      → bytes_eq path q ≡ false
      → exists q (t.open_append path s).1 ≡ exists q s
  pub exists-write_header : (n q : Bytes) (s : S) → exists q (t.write_header n s).1 ≡ exists q s
  pub exists-open_file : (path q : Bytes) (s : S) → exists q (t.open_file path s).1 ≡ exists q s
  pub exists-copy : (path q : Bytes) (s : S) → exists q (t.copy path s).1 ≡ exists q s
  pub exists-close : (c : Closing) (q : Bytes) (s : S) → exists q (h.close c s).1 ≡ exists q s
  -- os.RemoveAll removes nothing but what is below the path.
  pub exists-remove_all :
      (path q : Bytes) (s : S)
      → has_prefix q path ≡ false
      → exists q (h.remove_all path s).1 ≡ exists q s
  -- Nothing hinders os.Remove, other than that there is no such file.
  pub exists-remove :
      (path q : Bytes) (s : S)
      → exists q (h.remove path s).1 ≡ (if bytes_eq path q then false else exists q s)
  pub exists-open_create :
      (path q : Bytes) (s : S)
      → (h.open_create path s).0 ≡ none
      → exists q (h.open_create path s).1 ≡ (bytes_eq path q || exists q s)

module _ {S : Type 0} (t : Tools S) (h : Host S) (exists : Bytes → S → Bool)
    (H : IsHost t h exists) where
  pub exists-get_commands_output :
      (dir file command q : Bytes) (params : List Bytes) (s : S)
      → bytes_eq (dir ++ codes "/" ++ file ++ codes ".txt") q ≡ false
      → exists q (get_commands_output t dir file command params s).1 ≡ exists q s
  unfolding get_commands_output
  exists-get_commands_output dir file command q params s other =
      let path = dir ++ codes "/" ++ file ++ codes ".txt" in
      ground (
        arith,
        H.exists-open_append path q s,
        H.exists-run command params path q (t.open_append path s).1,
      )

  pub exists-get_failed_units : (q : Bytes) (s : S) → exists q (get_failed_units t s).2 ≡ exists q s
  unfolding get_failed_units
  exists-get_failed_units q s = ground (
    arith,
    H.exists-combined_output (codes "systemctl") (codes "--failed" ∷ codes "--no-legend" ∷ []) q s,
  )

  exists-tar_feedback_file :
      (v : Visit) (is_dir : Bool) (n q : Bytes) (s : S)
      → exists q (tar_feedback_file t v is_dir n s).1 ≡ exists q s
  unfolding tar_feedback_file add_content
  exists-tar_feedback_file v is_dir n q s =
      let s1 = (t.write_header n s).1 in
      ground (
        arith,
        H.exists-write_header n q s,
        H.exists-open_file v.path q s1,
        H.exists-copy v.path q (t.open_file v.path s1).1,
      )

  pub exists-tar_all :
      (prefix : Bytes) (visits : List Visit) (q : Bytes) (s : S)
      → exists q (tar_all t prefix visits s).1 ≡ exists q s
  unfolding tar_all
  exists-tar_all prefix [] q s = refl
  exists-tar_all prefix (v ∷ visits) q s =
      go v.is_dir refl (exists-tar_all prefix visits q s) (λ is_dir.
        exists-tar_all prefix visits q
          (tar_feedback_file t v is_dir (archive_name prefix v.relative) s).1)
    where
      go :
          (kind : Option Bool)
          → v.is_dir ≡ kind
          → exists q (tar_all t prefix visits s).1 ≡ exists q s
          → ((is_dir : Bool)
              → let s1 = (tar_feedback_file t v is_dir (archive_name prefix v.relative) s).1 in
                exists q (tar_all t prefix visits s1).1 ≡ exists q s1)
          → exists q (tar_all t prefix (v ∷ visits) s).1 ≡ exists q s
      go none p skipped later = ground (arith, skipped)
      go (some is_dir) p skipped later = ground (
        arith,
        skipped,
        later is_dir,
        exists-tar_feedback_file v is_dir (archive_name prefix v.relative) q s,
      )
