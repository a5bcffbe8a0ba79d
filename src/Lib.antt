-- ===== src/Lib.antt =====
-- RMDB, a relational database in C++ (rmdb/src/): pages on disk, a buffer pool, records, B+ tree
-- indexes, transactions with locks and versions, a log, and executors of queries.
--
-- What is modelled, and where:
-- - Replacer: the LRU replacer of rmdb/src/replacer/lru_replacer.{h,cpp}. `LruReplacer` has the
--   members of `LRUReplacer`; the std::list is a list of named nodes, so that an iterator is a
--   name. `victim`, `pin` and `unpin` are the methods.
-- - Storage: the page id and page of rmdb/src/storage/page.h, the disk manager's pages of
--   disk_manager.{h,cpp}, and `BufferPoolShard` of buffer_pool_manager.{h,cpp}. The shard owns a
--   replacer and calls the disk manager, which is passed along as state. `fetch_page`, `new_page`,
--   `unpin_page`, `flush_page` and `delete_page` have the names of the methods, and so have the
--   sweeps over the page table in Storage/Sweep. Storage/Manager is `BufferPoolManager`, which
--   deals out the frames and sends a call to the shard of the page's number.
-- - Txn: the watermark of rmdb/src/transaction/watermark.{h,cpp}, and the lock queues of
--   transaction/concurrency/lock_manager.{h,cpp}: `lock_common` up to a wait, what it does after it
--   (`wake`), and `unlock`. Txn/Lock/Group says which modes the methods ask for on which items, and
--   which locks exclude one another. Txn/Deadlock is `find_deadlock_victim` on the queues of all
--   shards at one moment. Txn/Manager is transaction.h and transaction_manager.{h,cpp}: read views,
--   `begin` in its two parts, the ends of `commit` and `abort`, version links and garbage
--   collection.
-- - Record: `RmFileHandle` of rmdb/src/record/rm_file_handle.{h,cpp} with `Bitmap` of bitmap.h:
--   `get_record`, both `insert_record`, `delete_record` and `update_record`. `Chained` in
--   Record/Chain is the invariant of the page headers and of the chain of pages with room; `found`
--   is what `get_record` finds. The number of the page that `new_page` gives is an argument.
--   Record/Scan is `RmScan` of rm_scan.{h,cpp}: its `seek` runs over the pages that are left, and a
--   slot number of -1 is the slot to look at first, 0. Record/Readers has `get_record_for_update`,
--   `get_record_snapshot`, `get_record_into`, `is_record`, and Record/Changes what the changes at a
--   given place do, those that the recovery makes.
-- - Recovery: Recovery/LogRecord is rmdb/src/recovery/log_manager.h and log_defs.h, the log records
--   and their bytes; an integer is its bit pattern, so that INVALID_LSN is a pattern of ones.
--   Recovery/LogManager is `LogBuffer` and `LogManager` of log_manager.{h,cpp}. Recovery/Analysis,
--   Redo and Undo are `analyze`, `redo` and `undo` of log_recovery.cpp, on a log that is a function
--   from positions to bytes with a size; `walk` in Recovery/Walk is the loop that the first two
--   share. A table is its open file (Record) with the lsns of its pages.
-- - Index: a leaf of `IxNodeHandle` in rmdb/src/index/ix_index_handle.{h,cpp}: `lower_bound` and
--   `upper_bound` with their loop, `leaf_lookup`, `insert` and `remove`. The keys and the rids of a
--   leaf are one list of pairs. Index/FileHeader is `IxFileHdr` of ix_defs.h, with a page as words
--   of 4 bytes; a failed assertion is `none`.
-- - Execution: `AbstractExecutor` of rmdb/src/execution/executor_abstract.h is the interface
--   `Executor`, and `Scan` in Execution is what an executor relies on of its child: that it shows
--   its rows one after another and starts again at `begin_tuple`. Execution/Limit is
--   executor_limit.h, Execution/Distinct is executor_distinct.h, and Execution/NestedLoopJoin is
--   executor_nestedloop_join.h, whose conditions are a parameter.
-- - Prelude: lists, maps and tests that the parts share.
--
-- `flush_dirty_pages` lets the latch go after the collection and after each flush; it is modelled
-- as the run in which no other thread takes it in between. The pages that a record file asks the
-- buffer pool for are there: that no frame is free is not modelled in Record.
--
-- How it is modelled. A method that holds a latch from its start to its end is one function from
-- state to state. An exception is a constructor of the outcome, with the state that the method had
-- reached. The numbers that the source keeps in signed integers and never makes negative (ids,
-- counts, timestamps) are natural numbers; the id of a frame with no page, whose page number is
-- INVALID_PAGE_ID, is `none`. Every loop is structural recursion or
-- has fuel: the binary searches have the distance of their bounds, which halves in each step.
--
-- The operating system is a parameter: `FileSystem` of Storage/Disk names what the program relies
-- on, that a page that was written is read back and that a write leaves other pages alone.
--
-- In a lock queue the victim that `find_deadlock_victim` has found and the mark of the background
-- detector are inputs of a step, and the lock set of the transaction is left out. In the
-- transaction manager the log, the release of locks and the undoing of writes are left out. In the
-- record file the context of a call is left out, with its locks and undo logs; a bitmap is an array
-- of bits.
--
-- A leaf takes the order of its keys from the interface `KeyOrder` of Index/Node, a strict total
-- order with its equality. Index/Compare is `ix_compare` of ix_index_handle.h on the bytes of keys,
-- and fills the interface where no column is a float. The comparison of two floats is a parameter:
-- it is no such order, because a NaN is the same as every float.
--
-- `add_log_to_buffer` and `flush_log_to_disk` let their latch go for a write. Each is a function
-- for the part before the write, one for the write and one for the part after it, and the whole
-- method is their composition. The fuel of `walk` is the size of the log and one, which is enough
-- because a record takes 24 bytes at least; the offset wraps around as an int does. The page
-- number of a change in the log is taken to be one of a page, at most 2^31 - 2. A record that is
-- longer than the 4 MB of the log buffer would be written behind its end; it is left out by
-- hypothesis. The fuel of `undo_txn` is an argument, and two more than the lsn it starts from is
-- enough where records lead back to earlier ones. The fuel of `dfs` in Txn/Deadlock is more than
-- the number of transactions in the queues, each of which is entered once at most. In the
-- recovery, a write of the log that fails, the background thread, reading the log file, the write
-- of all pages at the end of redo and `rebuild_indexes` are left out. The loops of the executors
-- have fuel, which is an argument: one more than the rows of the child for a distinct executor,
-- and than the pairs of rows and the rows of both children for a join.
--
-- Not modelled: the page latches and the byte layout of pages; the parser, which is generated; the
-- analyzer, planner, other executors, catalog and network server; the web backend and frontend.
pub mod Prelude
pub mod Txn
pub mod Replacer
pub mod Storage
pub mod Execution
pub mod Index
pub mod Record
pub mod Recovery
