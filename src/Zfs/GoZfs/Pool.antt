-- ===== src/Zfs/GoZfs/Pool.antt =====
-- The driver of go_zfs.go and the pool: the assumed laws of the zfs commands.
use platform_configure.Prelude.{
  Bytes, codes, ◌≡◌, Bool, true, false, List, [], ◌∷◌, none, some, ◌||◌, arith, if◌then◌else◌,
  bytes_eq, bytes_eq_refl, eq_of_bytes_eq, member, map,
}
use platform_configure.Zfs.Interface.{Files}
use platform_configure.Zfs.Snapshot.{full_name}
use platform_configure.Zfs.Pool.{IsPool, IsUnheld}
use platform_configure.Zfs.GoZfs.{Commands, Dataset, go_zfs}

abbrev pub snapshot_words : List Bytes → List Bytes
snapshot_words full = codes "zfs" ∷ codes "snapshot" ∷ full

abbrev pub send_words : Bytes → Bytes → List Bytes
send_words from to = codes "zfs" ∷ codes "send" ∷ codes "-i" ∷ from ∷ to ∷ []

-- What go-zfs and the zfs commands promise. `listed q s`: a snapshot named `q` exists.
pub record IsZfs {S : Type 0} (c : Commands S) (os : Files S) (listed : Bytes → S → Bool)
    : Type 0 where
  pub listed-list :
      (s : S) (q : Bytes)
      → (c.list_snapshots [] s).1 ≡ none
      → listed q s ≡ member q (map (λ ds. ds.name) (c.list_snapshots [] s).0)
  -- `zfs snapshot` creates what its words name. If it fails, it has created nothing else.
  pub listed-snapshot :
      (full : List Bytes) (q : Bytes) (s : S)
      → (c.run (snapshot_words full) none s).0 ≡ none
      → listed q (c.run (snapshot_words full) none s).1 ≡ (member q full || listed q s)
  pub listed-snapshot_other :
      (full : List Bytes) (q : Bytes) (s : S)
      → member q full ≡ false
      → listed q (c.run (snapshot_words full) none s).1 ≡ listed q s
  -- A dataset that is found has the name that was asked for.
  pub name-get_dataset :
      (name : Bytes) (s : S)
      → (c.get_dataset name s).1 ≡ none
      → (c.get_dataset name s).0.name ≡ name
  -- `zfs destroy` of a snapshot removes it, or fails and changes nothing.
  pub listed-destroy :
      (ds : Dataset) (q : Bytes) (s : S)
      → ds.kind ≡ c.dataset_snapshot
      → (c.destroy ds s).0 ≡ none
      → listed q (c.destroy ds s).1 ≡ (if bytes_eq ds.name q then false else listed q s)
  pub listed-destroy_failed :
      (ds : Dataset) (q e : Bytes) (s : S)
      → ds.kind ≡ c.dataset_snapshot
      → (c.destroy ds s).0 ≡ some e
      → listed q (c.destroy ds s).1 ≡ listed q s
  -- Sending and operations on files create and destroy no snapshot.
  pub listed-send :
      (ds : Dataset) (path q : Bytes) (s : S) → listed q (c.send_snapshot ds path s).1 ≡ listed q s
  pub listed-send_from :
      (from to path q : Bytes) (s : S)
      → listed q (c.run (send_words from to) (some path) s).1 ≡ listed q s
  pub listed-file_create : (path q : Bytes) (s : S) → listed q (os.create path s).1 ≡ listed q s
  pub listed-file_remove : (path q : Bytes) (s : S) → listed q (os.remove path s).1 ≡ listed q s
  pub listed-file_rename :
      (old new q : Bytes) (s : S) → listed q (os.rename old new s).1 ≡ listed q s

-- Nothing holds a snapshot: one that exists is found as a snapshot and can be destroyed.
pub record IsFree {S : Type 0} (c : Commands S) (listed : Bytes → S → Bool) : Type 0 where
  pub found : (n : Bytes) (s : S) → listed n s ≡ true → (c.get_dataset n s).1 ≡ none
  pub kind-get_dataset :
      (n : Bytes) (s : S) → listed n s ≡ true → (c.get_dataset n s).0.kind ≡ c.dataset_snapshot
  pub destroyed :
      (n : Bytes) (s : S) → listed n s ≡ true → (c.destroy (c.get_dataset n s).0 s).0 ≡ none

module _ {S : Type 0} (c : Commands S) (os : Files S) (listed : Bytes → S → Bool)
    (Z : IsZfs c os listed) where
  go_zfs-snapshots :
      (s : S) (q : Bytes)
      → ((go_zfs c).snapshots [] s).1 ≡ none
      → listed q s ≡ member q ((go_zfs c).snapshots [] s).0
  unfolding go_zfs
  go_zfs-snapshots s q ok = ground (arith, Z.listed-list s q)

  go_zfs-delete :
      (n q : Bytes) (s : S)
      → ((go_zfs c).delete_snapshot n s).0 ≡ none
      → listed q ((go_zfs c).delete_snapshot n s).1 ≡ (if bytes_eq n q then false else listed q s)
  unfolding go_zfs
  go_zfs-delete n q s ok =
      let ds = (c.get_dataset n s).0 in
      ground (
        arith,
        Z.name-get_dataset n s,
        Z.listed-destroy ds q s,
        eq_of_bytes_eq ds.kind c.dataset_snapshot,
      )

  go_zfs-delete_failed :
      (n q e : Bytes) (s : S)
      → ((go_zfs c).delete_snapshot n s).0 ≡ some e
      → listed q ((go_zfs c).delete_snapshot n s).1 ≡ listed q s
  unfolding go_zfs
  go_zfs-delete_failed n q e s failed =
      let ds = (c.get_dataset n s).0 in
      ground (arith, Z.listed-destroy_failed ds q e s, eq_of_bytes_eq ds.kind c.dataset_snapshot)

  go_zfs-send :
      (from to path q : Bytes) (s : S)
      → listed q ((go_zfs c).send_snapshots from to path s).1 ≡ listed q s
  unfolding go_zfs
  go_zfs-send from to path q s =
      ground
        (arith, Z.listed-send (c.get_dataset to s).0 path q s, Z.listed-send_from from to path q s)

  -- Over the zfs commands the driver's operations create, list, delete and send snapshots as
  -- `TakeSnapshot` relies on it, on every branch, errors included. Assumed: the commands and the
  -- calls of package os work as documented, and a dataset that is found has the name asked for.
  pub go_zfs-IsPool : IsPool (go_zfs c) os listed
  unfolding go_zfs
  go_zfs-IsPool = record {
    listed-snapshots = go_zfs-snapshots;
    listed-create = λ names stamped q s. Z.listed-snapshot (map (full_name stamped) names) q s;
    listed-create_other =
        λ names stamped q s. Z.listed-snapshot_other (map (full_name stamped) names) q s;
    listed-delete = go_zfs-delete;
    listed-delete_failed = go_zfs-delete_failed;
    listed-send = go_zfs-send;
    listed-file_create = Z.listed-file_create;
    listed-file_remove = Z.listed-file_remove;
    listed-file_rename = Z.listed-file_rename;
  }

  go_zfs-destroyed :
      IsFree c listed
      → (n : Bytes) (s : S) → listed n s ≡ true
      → ((go_zfs c).delete_snapshot n s).0 ≡ none
  unfolding go_zfs
  go_zfs-destroyed free n s there =
      let ds = (c.get_dataset n s).0 in
      ground (
        arith,
        free.found n s there,
        free.kind-get_dataset n s there,
        free.destroyed n s there,
        bytes_eq_refl ds.kind,
        eq_of_bytes_eq ds.kind c.dataset_snapshot,
      )

  -- An existing snapshot can then be destroyed through the driver.
  pub go_zfs-IsUnheld : IsFree c listed → IsUnheld (go_zfs c) os listed
  go_zfs-IsUnheld free = record { destroyed = go_zfs-destroyed free }
