-- ===== src/Storage.antt =====
-- rmdb/src/storage/: page ids, the disk manager's pages, and the buffer pool over them.
pub mod PageTable
pub mod Disk
pub mod Shard
pub mod Sweep
pub mod Manager
mod Tests
