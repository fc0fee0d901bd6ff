-- ===== src/Zfs.antt =====
-- go/zfs-snapshots: take, send, list and delete ZFS snapshots.
pub mod Moment
pub mod Interface
pub mod Newest
pub mod Send
pub mod Snapshot
pub mod Disk
pub mod Pool
pub mod Memory
pub mod GoZfs
pub mod Main
pub mod Whole
pub mod Commands
