-- ===== src/Core.antt =====
-- crates/scytale-core: transactions, blocks, their canonical encoding, and the UTXO set.
pub mod Types
pub mod Codec
pub mod Transaction
pub mod Block
pub mod Utxo
pub mod Genesis
pub mod Merkle
pub mod Authorization
pub mod VmAdapter
