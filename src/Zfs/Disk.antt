-- ===== src/Zfs/Disk.antt =====
-- What the program relies on: how the calls of package os change the set of existing files, and
-- that a map is iterated over its entries.
use mathlib.Core.List.{Perm}
use platform_configure.Prelude.{
  Bytes, ◌≡◌, Bool, true, false, none, some, List, ◌||◌, if◌then◌else◌, bytes_eq,
}
use platform_configure.Zfs.Interface.{Driver, Files, Runtime}

-- `exists q s`: there is a file at the path `q`.
pub record IsDisk {S : Type 0} (d : Driver S) (os : Files S) (exists : Bytes → S → Bool)
    : Type 0 where
  -- os.Create makes its file, or fails and changes nothing.
  pub exists-create :
      (path q : Bytes) (s : S)
      → (os.create path s).0 ≡ none
      → exists q (os.create path s).1 ≡ (bytes_eq path q || exists q s)
  pub exists-create_failed :
      (path q e : Bytes) (s : S)
      → (os.create path s).0 ≡ some e
      → exists q (os.create path s).1 ≡ exists q s
  -- os.Remove removes the file, or fails and changes nothing.
  pub exists-remove :
      (path q : Bytes) (s : S)
      → (os.remove path s).0 ≡ none
      → exists q (os.remove path s).1 ≡ (if bytes_eq path q then false else exists q s)
  pub exists-remove_failed :
      (path q e : Bytes) (s : S)
      → (os.remove path s).0 ≡ some e
      → exists q (os.remove path s).1 ≡ exists q s
  -- os.Rename moves the file.
  pub exists-rename :
      (old new q : Bytes) (s : S)
      → (os.rename old new s).0 ≡ none
      → exists q (os.rename old new s).1
        ≡ (if bytes_eq new q then true else if bytes_eq old q then false else exists q s)
  -- `zfs send` writes to the open file only.
  pub exists-send :
      (from to path q : Bytes) (s : S) → exists q (d.send_snapshots from to path s).1 ≡ exists q s

-- Nothing hinders os.Remove: a file that is there can be removed.
pub record IsErasable {S : Type 0} (os : Files S) (exists : Bytes → S → Bool) : Type 0 where
  pub removed : (path : Bytes) (s : S) → exists path s ≡ true → (os.remove path s).0 ≡ none

-- The order of a map's iteration is a permutation of its entries.
pub record IsOrder (rt : Runtime) : Type 0 where
  pub entries : (files : List (Bytes × Bytes)) → Perm (rt.order files) files
