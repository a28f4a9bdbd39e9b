-- ===== src/Lib.antt =====
-- A model of Scytale, a proof-of-work chain with unspent outputs and a script engine.
--
-- The program. A transaction spends outputs of the UTXO set and makes new ones; a block is a coinbase and
-- transactions behind it; the consensus rules fix what a coinbase may pay, which target a header must meet,
-- and how work adds up; the script engine decides whether an input may spend an output. The parts call each
-- other downwards: validation of a block calls the structure check of the block, the digests of its
-- transactions, the transition of the UTXO set and the subsidy; the chain tree calls validation, and keeps the
-- UTXO set of its best branch; the mempool holds the transactions that wait, and Stratum hands out the jobs.
--
-- Base: lists, tests, results and bytes. `Result` and its binds are Rust's `Result` and `?`; a method on
-- `&mut self` returns the state that is left beside its result, on an error too. Numbers are naturals, with
-- the bounds of `u32`, `u64` and `u128` written out where the source checks or cuts. A byte string is a list
-- of numbers; `IsBytes` says that they are below 256. Base.Collisions: two inputs of a hash with one digest.
--
-- Primitives: crates/scytale-primitives/src/lib.rs, outpoints and outputs. BLAKE3 is a parameter of every
-- definition that hashes; a hash is a list of bytes.
--
-- Core.Types: the structs and the errors of crates/scytale-core. Core.Codec: src/codec.rs, `Serialize` with
-- one writer for each `CanonicalSerialize` instance, `Reader` and `Deserialize` with the readers.
-- Core.Transaction: src/transaction.rs (`validate_stateless`, `txid`, the digests that are signed).
-- Core.Block: src/block.rs. Core.Utxo: src/utxo.rs, the hash map as an association list, `insert`,
-- `apply_transaction`, `apply_coinbase`, `apply_block`. Core.Merkle: the Merkle tree of the same file, its
-- loops with the number of leaves as fuel, more than its levels; `Inclusion` for the proofs that are made and
-- `Binding` for those that verify. Core.Genesis, Core.Merkle.Genesis:
-- src/genesis.rs.
--
-- Core.Authorization: src/authorization.rs, `verify_transaction_authorization` and the verifier that runs the
-- script engine, with the decoder of locking conditions as a parameter.
--
-- Consensus: crates/scytale-consensus. Emission: src/lib.rs. Target: src/target.rs. Limbs, Difficulty:
-- src/difficulty.rs, 256-bit numbers as four limbs. Work: src/work.rs, the bit loop of `div256` as a
-- recursion on the bits that are left, 256 of them. Pow: src/pow.rs. Validation: the block checks of
-- src/chain.rs. Chain: `ChainTree` of the same file and its walks along parent links, with the height of the
-- start and one as fuel, enough where each parent is one lower, as every insertion makes it. Chain.Process:
-- `process_block_with_verifier` and `process_block` in their steps; the clock is a parameter, the error texts
-- are kept as causes, and a missing canonical tip, a panic there, is the error `canonical_tip_missing`.
-- Chain.Paths, Chain.Switch, Chain.Replay, Chain.Supply, Chain.Timelocks: what holds of every tree that is
-- reached. Chain.Extend: the block on the tip.
--
-- Script: crates/scytale-script. Stack: src/stack.rs, the top of the stack first. Opcode: src/opcode.rs.
-- Engine: src/engine.rs; the program counter is the list of bytes that are left, a jump over pushed data a
-- count of bytes to skip, so the loop ends by recursion on the script and takes no fuel. The Ed25519 check is
-- a parameter. Builder: src/builder.rs. Int: `i64` by its two's complement.
--
-- Mempool: crates/scytale-mempool. Mempool: src/entry.rs, src/error.rs and the state of src/pool.rs, hash maps
-- as association lists and sets as lists. Removal: `remove_transaction_and_descendants`, its worklist on as
-- many steps as there are links and two. Admission: `admit_transaction` and `insert`, the loop that
-- makes room on the number of keys and one. Blocks: selection, connection of a block and reorganisation.
-- Index, Safety, Limits: the indexes, double spends and capacity. The pool calls Core.Authorization and reads
-- the UTXO set of Core.Utxo. Base.Maps: the maps of the tree and the pool.
--
-- Sdk, Vm, Core.VmAdapter, Contracts: crates/scytale-sdk, crates/scytale-vm, crates/scytale-core/src/vm_adapter.rs
-- and contracts/. An input that spends a scripted output runs the contract that its witness brings: the adapter
-- makes the context and counts gas, the virtual machine runs the code on wasmi, whose calls are a record of
-- functions (`Runtime`), and the contract answers. Contracts.Scy20: the token contract, its `Supply` for one
-- execution, its `Ledger` for many and its `Issue`. Contracts.Vault: the time lock.
--
-- Stratum: crates/scytale-stratum/src/job.rs and the choice of branches in
-- apps/scytale-node/src/stratum_service.rs. Merkle: the branches against a tree of hashes. Commitment: what
-- comes out against the commitment of the consensus rules. Server: src/session.rs and src/server.rs, jobs and
-- shares, with the check of a share and what a request decodes to as arguments; each handler is one step, so
-- handlers that run at the same time are taken one after the other. Its `Sessions` are the invariant of the
-- server, `Shares` what a session remembers, and `Once` the server between two submissions of a share.
--
-- Storage: crates/scytale-storage. Tables: src/tables.rs, and the interface of a redb table. Undo, Engine, Connect,
-- Commit, Reorg, Snapshot: src/engine.rs. A write transaction is a function from the store to the store or an
-- error, which leaves the old one. `connect_block` is the part that `commit_block` and the loop of
-- `apply_reorganization` share, which do the same independent writes in two orders. Roundtrip, Unwind, Replace:
-- the undo record, what unwinding gives back, and the replacement of the unspent outputs.
--
-- Not modelled: the share targets and the sockets of Stratum, accounts, addresses, the host functions
-- of the virtual machine, the node and the command line, which are left for later. Serde, hex text, databases,
-- sockets and cryptography are code of libraries.
--
-- Tests: runs at small concrete inputs.
pub mod Base
pub mod Primitives
pub mod Core
pub mod Consensus
pub mod Script
pub mod Mempool
pub mod Sdk
pub mod Contracts
pub mod Vm
pub mod Stratum
pub mod Storage
pub mod Tests
