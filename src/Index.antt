-- ===== src/Index.antt =====
-- rmdb/src/index/: the nodes of the B+ trees.
pub mod Compare
pub mod FileHeader
pub mod Search
pub mod Node
mod Tests
