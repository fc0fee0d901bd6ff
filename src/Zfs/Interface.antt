-- ===== src/Zfs/Interface.antt =====
-- What zfs_snapshots.go calls: the interface `ZFSDriver`, the file operations of package os, and
-- the two choices that the Go runtime leaves open. `S` is the state of the machine.
use platform_configure.Prelude.{ℕ, Bytes, Err, List}

-- A query reads the state; an operation returns its error and the state that it leaves.
pub record Driver (S : Type 0) : Type 0 where
  pub create_snapshots : List Bytes → Bytes → S → Err × S
  pub snapshots : Bytes → S → List Bytes × Err
  pub delete_snapshot : Bytes → S → Err × S
  -- The output is the file of this path, which is open for writing.
  pub send_snapshots : Bytes → Bytes → Bytes → S → Err × S

pub record Files (S : Type 0) : Type 0 where
  pub create : Bytes → S → Err × S
  pub rename : Bytes → Bytes → S → Err × S
  pub remove : Bytes → S → Err × S

-- A Go map is iterated in any order. `capacity n` is the capacity of a slice grown to `n` items.
pub record Runtime : Type 0 where
  pub order : List (Bytes × Bytes) → List (Bytes × Bytes)
  pub capacity : ℕ → ℕ
