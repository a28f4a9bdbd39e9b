-- ===== src/Core/Genesis.antt =====
-- crates/scytale-core/src/genesis.rs: the genesis allocation. The two locking scripts are the bytes that
-- the hex constants of the source decode to.
use scytale.Base.{ℕ, List, [], ◌∷◌}
use scytale.Base.Bytes.{Bytes, to_le_bytes}
use scytale.Primitives.{null, u32_max, TxOut}
use scytale.Core.Types.{Transaction}
use scytale.Core.Transaction.{transaction_version_1}

abbrev pub genesis_founder_quanta : ℕ
genesis_founder_quanta = 1_980_000_000_000_000

abbrev pub genesis_developer_quanta : ℕ
genesis_developer_quanta = 1_320_000_000_000_000

abbrev pub total_genesis_quanta : ℕ
total_genesis_quanta = 3_300_000_000_000_000

abbrev pub founder_locking_script : Bytes
founder_locking_script =
    0x73 ∷ 0xa0 ∷ 0x20 ∷ 0x9b ∷ 0xbc ∷ 0xcb ∷ 0x9b ∷ 0x66 ∷ 0x20 ∷ 0x95 ∷ 0x2f ∷ 0xb8 ∷ 0xe5 ∷ 0x60
    ∷ 0x8e ∷ 0x75 ∷ 0xb5 ∷ 0x85 ∷ 0x89 ∷ 0xf4 ∷ 0x55 ∷ 0x1a ∷ 0xc5 ∷ 0xd1 ∷ 0xf8 ∷ 0x69 ∷ 0x9c
    ∷ 0xbe ∷ 0x3f ∷ 0x93 ∷ 0xda ∷ 0xb9 ∷ 0x4f ∷ 0xf4 ∷ 0x0f ∷ 0x88 ∷ 0xac ∷ []

abbrev pub developer_locking_script : Bytes
developer_locking_script =
    0x73 ∷ 0xa0 ∷ 0x20 ∷ 0x05 ∷ 0x27 ∷ 0x7d ∷ 0xd5 ∷ 0x19 ∷ 0x8e ∷ 0xd5 ∷ 0xb2 ∷ 0x0f ∷ 0x54 ∷ 0x35
    ∷ 0x20 ∷ 0x79 ∷ 0x35 ∷ 0x39 ∷ 0x81 ∷ 0x28 ∷ 0x65 ∷ 0xed ∷ 0xf6 ∷ 0x7b ∷ 0x5b ∷ 0x6d ∷ 0xa8
    ∷ 0x1c ∷ 0xec ∷ 0x74 ∷ 0x37 ∷ 0x69 ∷ 0x42 ∷ 0x7e ∷ 0x85 ∷ 0x88 ∷ 0xac ∷ []

-- `Transaction::new_coinbase`: the height is the authorization of the one input.
unfoldable pub new_coinbase : ℕ → List TxOut → Transaction
new_coinbase height outputs = record {
  version = transaction_version_1;
  inputs =
      record { previous_output = null; authorization = to_le_bytes 8 height; sequence = u32_max }
      ∷ [];
  outputs = outputs;
  lock_time = 0;
}

unfoldable pub build_genesis_coinbase : Transaction
unfolding new_coinbase
build_genesis_coinbase = new_coinbase 0 (
    record { value = genesis_founder_quanta; locking_condition = founder_locking_script }
    ∷ record { value = genesis_developer_quanta; locking_condition = developer_locking_script }
    ∷ [])
