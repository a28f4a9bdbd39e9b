-- ===== src/Tests/Data.antt =====
-- A ledger with one output, a transaction that spends it, and a block around that transaction.
use scytale.Base.{◌%◌, false, List, [], ◌∷◌, length, replicate}
use scytale.Base.Bytes.{Bytes}
use scytale.Primitives.{Hash256, OutPoint, TxOut, zero_hash, u32_max}
use scytale.Core.Types.{TxIn, Transaction, UtxoEntry, Block, BlockHeader}
use scytale.Core.Utxo.{UtxoSet}
use scytale.Core.Genesis.{new_coinbase}
use scytale.Consensus.Validation.{transaction_commitment}

-- A stand-in for BLAKE3: 32 times the length of the input.
abbrev pub hash32 : Bytes → Hash256
hash32 bs = replicate 32 (length bs % 256)

abbrev pub anyone : Bytes
anyone = 0x51 ∷ []

abbrev pub coin_id : OutPoint
coin_id = record { txid = replicate 32 1; index = 0 }

abbrev pub coin_entry : UtxoEntry
coin_entry = record {
  output = record { value = 10_000; locking_condition = anyone };
  block_height = 0;
  is_coinbase = false;
}

abbrev pub ledger : UtxoSet
ledger = record { entries = (coin_id, coin_entry) ∷ [] }

abbrev pub payment_output : TxOut
payment_output = record { value = 9_000; locking_condition = anyone }

abbrev pub payment_input : TxIn
payment_input = record { previous_output = coin_id; authorization = []; sequence = u32_max }

abbrev pub payment : Transaction
payment = record {
  version = 1;
  inputs = payment_input ∷ [];
  outputs = payment_output ∷ [];
  lock_time = 0;
}

abbrev pub reward_output : TxOut
reward_output = record { value = 2_500_001_000; locking_condition = anyone }

abbrev pub reward : Transaction
reward = new_coinbase 1 (reward_output ∷ [])

abbrev pub body : List Transaction
body = reward ∷ payment ∷ []

abbrev pub draft_header : BlockHeader
draft_header = record {
  version = 1;
  previous_block_hash = zero_hash;
  transaction_commitment = zero_hash;
  utxo_root = zero_hash;
  timestamp = 1_000;
  difficulty_target = 0x1f00ffff;
  nonce = 0;
}

abbrev pub block : Block
block = record {
  header = record {
    version = 1;
    previous_block_hash = zero_hash;
    transaction_commitment =
        transaction_commitment hash32 record { header = draft_header; transactions = body };
    utxo_root = zero_hash;
    timestamp = 1_000;
    difficulty_target = 0x1f00ffff;
    nonce = 0;
  };
  transactions = body;
}
