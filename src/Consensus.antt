-- ===== src/Consensus.antt =====
-- crates/scytale-consensus: emission, targets, work and difficulty.
pub mod Emission
pub mod Limbs
pub mod Target
pub mod Work
pub mod Pow
pub mod Difficulty
pub mod Validation
pub mod Chain
