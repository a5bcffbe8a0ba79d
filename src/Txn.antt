-- ===== src/Txn.antt =====
-- rmdb/src/transaction/: the transactions' timestamps and locks.
pub mod Watermark
pub mod Lock
pub mod Deadlock
pub mod Manager
mod Tests
