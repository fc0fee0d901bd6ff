-- ===== src/Zfs/Pool.antt =====
-- What the program relies on: how the commands of ZFS change the set of existing snapshots.
pub mod Deleting
use platform_configure.Prelude.{
  Bytes, ◌≡◌, Bool, true, false, none, some, List, [], ◌||◌, if◌then◌else◌, bytes_eq, member, map,
}
use platform_configure.Zfs.Interface.{Driver, Files}
use platform_configure.Zfs.Snapshot.{full_name}

-- `listed q s`: a snapshot named `q` exists.
module _ {S : Type 0} (d : Driver S) (os : Files S) (listed : Bytes → S → Bool) where
  pub record IsPool : Type 0 where
    -- `zfs list -t snapshot` names the existing snapshots.
    pub listed-snapshots :
        (s : S) (q : Bytes)
        → (d.snapshots [] s).1 ≡ none
        → listed q s ≡ member q (d.snapshots [] s).0
    -- `zfs snapshot` creates what it was asked for. If it fails, it has created nothing else.
    pub listed-create :
        (names : List Bytes) (stamped q : Bytes) (s : S)
        → (d.create_snapshots names stamped s).0 ≡ none
        → listed q (d.create_snapshots names stamped s).1
          ≡ (member q (map (full_name stamped) names) || listed q s)
    pub listed-create_other :
        (names : List Bytes) (stamped q : Bytes) (s : S)
        → member q (map (full_name stamped) names) ≡ false
        → listed q (d.create_snapshots names stamped s).1 ≡ listed q s
    -- `zfs destroy` removes the snapshot, or fails and changes nothing.
    pub listed-delete :
        (n q : Bytes) (s : S)
        → (d.delete_snapshot n s).0 ≡ none
        → listed q (d.delete_snapshot n s).1 ≡ (if bytes_eq n q then false else listed q s)
    pub listed-delete_failed :
        (n q e : Bytes) (s : S)
        → (d.delete_snapshot n s).0 ≡ some e
        → listed q (d.delete_snapshot n s).1 ≡ listed q s
    -- `zfs send` and operations on files create and destroy no snapshot.
    pub listed-send :
        (from to path q : Bytes) (s : S) → listed q (d.send_snapshots from to path s).1 ≡ listed q s
    pub listed-file_create : (path q : Bytes) (s : S) → listed q (os.create path s).1 ≡ listed q s
    pub listed-file_remove : (path q : Bytes) (s : S) → listed q (os.remove path s).1 ≡ listed q s
    pub listed-file_rename :
        (old new q : Bytes) (s : S) → listed q (os.rename old new s).1 ≡ listed q s

  -- Nothing holds a snapshot: an existing one can be destroyed.
  pub record IsUnheld : Type 0 where
    pub destroyed : (n : Bytes) (s : S) → listed n s ≡ true → (d.delete_snapshot n s).0 ≡ none
