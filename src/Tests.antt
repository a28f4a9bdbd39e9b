-- ===== src/Tests.antt =====
-- Runs of the model at small concrete inputs, one for each theorem that has conditions.
pub mod Data
pub mod Ledger
pub mod Chain
pub mod Targets
pub mod Codec
pub mod Scripts
pub mod Merkle
pub mod Branches
pub mod Pool
pub mod Contracts
pub mod Vm
pub mod Stratum
pub mod Server
pub mod Storage
