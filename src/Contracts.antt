-- ===== src/Contracts.antt =====
-- contracts: the smart contracts that spend scripted outputs.
pub mod Scy20
pub mod Vault
