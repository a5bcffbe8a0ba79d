-- ===== src/Recovery.antt =====
-- rmdb/src/recovery/: log records, the log manager, and the recovery from the log.
pub mod LogRecord
pub mod LogManager
pub mod Walk
pub mod Analysis
pub mod Redo
pub mod Undo
mod Tests
