-- ===== src/Netconf/FileSystem.antt =====
-- What the program relies on: how the calls of fsUtil, os.Stat and a restart change the files.
use platform_configure.Prelude.{ℕ, Bytes, ◌≡◌, false, Option, none, some, if◌then◌else◌, bytes_eq}
use platform_configure.Netconf.Interface.{System}

-- `content q s`: what is in the file at the path `q`, if there is one.
pub record IsFileSystem {S : Type 0} (sys : System S) (content : Bytes → S → Option Bytes)
    : Type 0 where
  -- Writing replaces the file. Whether it fails or not, it touches no other.
  pub content-write :
      (path text q : Bytes) (mode : ℕ) (s : S)
      → (sys.fs.write_file path text mode s).0 ≡ none
      → content q (sys.fs.write_file path text mode s).1
        ≡ (if bytes_eq path q then some text else content q s)
  pub content-write_other :
      (path text q : Bytes) (mode : ℕ) (s : S)
      → bytes_eq path q ≡ false
      → content q (sys.fs.write_file path text mode s).1 ≡ content q s
  -- So does removing.
  pub content-remove :
      (path q : Bytes) (s : S)
      → (sys.fs.remove path s).0 ≡ none
      → content q (sys.fs.remove path s).1 ≡ (if bytes_eq path q then none else content q s)
  pub content-remove_other :
      (path q : Bytes) (s : S)
      → bytes_eq path q ≡ false
      → content q (sys.fs.remove path s).1 ≡ content q s
  -- os.Stat fails only where there is no file.
  pub content-stat : (path e : Bytes) (s : S) → sys.os_stat path s ≡ some e → content path s ≡ none
  -- Restarting networkd writes no file.
  pub content-restart : (q : Bytes) (s : S) → content q (sys.db.restart_networkd s).1 ≡ content q s
