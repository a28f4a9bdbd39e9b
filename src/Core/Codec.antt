-- ===== src/Core/Codec.antt =====
-- crates/scytale-core/src/codec.rs: the canonical encoding. A writer is the bytes it writes or an error;
-- a reader takes the bytes that are left.
pub mod Serialize
pub mod Reader
pub mod Deserialize
pub mod Roundtrip
