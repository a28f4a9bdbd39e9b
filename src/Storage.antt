-- ===== src/Storage.antt =====
-- crates/scytale-storage: the embedded database of blocks, transactions and unspent outputs.
pub mod Tables
pub mod Undo
pub mod Engine
pub mod Connect
pub mod Commit
pub mod Reorg
pub mod Snapshot
pub mod Roundtrip
pub mod Replace
pub mod Unwind
