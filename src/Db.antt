-- ===== src/Db.antt =====
-- src/db.rs: the SQLite store. A table is the list of its rows, and a statement is what its SQL text
-- says of the rows; that SQLite and rusqlite run a statement without a failure is assumed. A
-- transaction is one step: its reads and writes are not interleaved with another process's.
pub mod Like
pub mod Nodes
pub mod Blocks
pub mod Snapshot
pub mod Report
pub mod Table
pub mod Stats
use bip110_crawler.Common.{ℕ, Text, List, Bool}
