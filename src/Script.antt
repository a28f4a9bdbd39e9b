-- ===== src/Script.antt =====
-- crates/scytale-script: the stack machine that decides whether an output may be spent.
pub mod Error
pub mod Int
pub mod Stack
pub mod Opcode
pub mod Engine
pub mod Builder
