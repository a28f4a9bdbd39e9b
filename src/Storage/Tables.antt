-- ===== src/Storage/Tables.antt =====
-- crates/scytale-storage/src/tables.rs: the tables, their keys and the records they hold. A table of redb is a
-- parameter, by the operations that the engine calls.
use scytale.Base.{
  ℕ, ◌≡◌, Bool, false, ◌&&◌, not, Option, none, some, List, [], ◌∷◌, ◌++◌, ltb, ◌==◌, if◌then◌else◌,
  length, take, drop, get_elem?, Result, ok, err,
}
use scytale.Base.Bytes.{Bytes, bytes_eq, to_le_bytes, from_le_bytes}
use scytale.Base.Endian.{to_be_bytes}
use scytale.Base.Maps
use scytale.Base.Maps.{bytes_key}
use scytale.Primitives.{Hash256}
use scytale.Core.Types.{SerializationError, invalid_encoding, length_exceeds_limit, trailing_bytes}
use scytale.Core.Transaction.{is_empty}
use scytale.Core.Authorization.{OutputLock, public_key, script, from_locking_condition}
use scytale.Core.Codec.Serialize.{max_vector_length, count_bytes, bool_bytes, u64_bytes}
use scytale.Core.Codec.Reader.{Reader, ◌>>=◌, return, fail, read_exact, read_n}
use scytale.Core.Codec.Deserialize.{read_u32, read_u64, read_bool, read_hash}

-- A redb table with byte string keys inside one write transaction. `iter` gives its pairs in the order of
-- the keys, each key once.
pub record Table (T : Type 0) : Type 0 where
  pub get : Bytes → T → Option Bytes
  pub insert : Bytes → Bytes → T → T
  pub remove : Bytes → T → T
  pub iter : T → List (Bytes × Bytes)
  pub get_insert :
      (k j v : Bytes) (t : T) → get j (insert k v t) ≡ (if bytes_eq k j then some v else get j t)
  pub get_remove :
      (k j : Bytes) (t : T) → get j (remove k t) ≡ (if bytes_eq k j then none else get j t)
  pub get_iter : (k : Bytes) (t : T) → Maps.lookup k (iter t) ≡ get k t

-- `StorageError`, less the texts and the variants that pass on an error of redb.
pub data StorageError : Type 0 where
  serialization : StorageError
  not_found : StorageError
  inconsistent_state : StorageError

-- `map_err(|e| StorageError::serialization(e.to_string()))`.
abbrev pub stored {ℓ} : {A : Type ℓ} → Result SerializationError A → Result StorageError A
stored (ok a) = ok a
stored (err e) = err serialization

-- `cumulative_work` has four words.
pub record BlockMeta : Type 0 where
  pub height : ℕ
  pub work_0 : ℕ
  pub work_1 : ℕ
  pub work_2 : ℕ
  pub work_3 : ℕ
  pub timestamp : ℕ

-- `BlockMeta::to_bytes`.
unfoldable pub meta_bytes : BlockMeta → Bytes
meta_bytes m =
    to_le_bytes 8 m.height
    ++ (to_le_bytes 8 m.work_0
        ++ (to_le_bytes 8 m.work_1
            ++ (to_le_bytes 8 m.work_2 ++ (to_le_bytes 8 m.work_3 ++ to_le_bytes 8 m.timestamp))))

-- The word at this offset.
abbrev pub word_at : ℕ → Bytes → ℕ
word_at offset bytes = from_le_bytes (take 8 (drop offset bytes))

-- `BlockMeta::from_bytes`.
unfoldable pub meta_of_bytes : Bytes → Option BlockMeta
meta_of_bytes b =
    if ltb (length b) 48
    then none
    else some (record {
      height = word_at 0 b;
      work_0 = word_at 8 b;
      work_1 = word_at 16 b;
      work_2 = word_at 24 b;
      work_3 = word_at 32 b;
      timestamp = word_at 40 b;
    })

pub record AddressTxRecord : Type 0 where
  pub txid : Hash256
  pub is_input : Bool
  pub is_output : Bool
  pub value_quanta : ℕ
  pub token_id : Option Bytes

abbrev pub token_bytes : Option Bytes → Bytes
token_bytes none = 0 ∷ []
token_bytes (some token) = 1 ∷ token

unfoldable pub record_bytes : AddressTxRecord → Bytes
record_bytes r =
    r.txid
    ++ (bool_bytes r.is_input
        ++ (bool_bytes r.is_output ++ (u64_bytes r.value_quanta ++ token_bytes r.token_id)))

-- The match on `has_token`, the one byte of the buffer.
abbrev pub read_token : Bytes → Reader (Option Bytes)
read_token [] = fail invalid_encoding
read_token (b ∷ bs) =
    if b == 0
    then return none
    else if b == 1
    then (do token ← read_exact 32; return (some token))
    else fail invalid_encoding

unfoldable pub read_record : Reader AddressTxRecord
read_record = do
  txid ← read_hash
  is_input ← read_bool
  is_output ← read_bool
  value_quanta ← read_u64
  has_token ← read_exact 1
  token_id ← read_token has_token
  return (record {
    txid = txid;
    is_input = is_input;
    is_output = is_output;
    value_quanta = value_quanta;
    token_id = token_id;
  })

abbrev pub make_address_tx_key : Bytes → ℕ → Bytes
make_address_tx_key address_hash height = address_hash ++ to_be_bytes 8 height

abbrev pub concat_records : List AddressTxRecord → Bytes
concat_records [] = []
concat_records (r ∷ rs) = record_bytes r ++ concat_records rs

unfoldable pub serialize_address_tx_records : List AddressTxRecord → Bytes
serialize_address_tx_records records = count_bytes (length records) ++ concat_records records

abbrev pub read_records : Reader (List AddressTxRecord)
read_records = do
  count ← read_u32
  if ltb max_vector_length count
      then fail (length_exceeds_limit count max_vector_length)
      else read_n count read_record

unfoldable pub deserialize_address_tx_records :
    Bytes → Result SerializationError (List AddressTxRecord)
deserialize_address_tx_records bytes = elim (read_records bytes) [
  | err e ↦ err e
  | ok (records, rest) ↦
      if ltb 0 (length rest) then err (trailing_bytes (length rest)) else ok records
]

-- `script[i] == b`, in range.
abbrev pub has_byte : Bytes → ℕ → ℕ → Bool
has_byte bytes i b = elim (get_elem? bytes i) [ none ↦ false | some c ↦ c == b ]

abbrev pub is_p2pkh : Bytes → Bool
is_p2pkh bytes =
    (length bytes == 37)
    && has_byte bytes 0 0x73
    && has_byte bytes 1 0xa0
    && has_byte bytes 2 0x20
    && has_byte bytes 35 0x88
    && has_byte bytes 36 0xac

-- The steps from 3 on.
abbrev pub raw_address : (Bytes → Hash256) → Bytes → Option Bytes
raw_address blake3 bytes =
    if length bytes == 32
    then some bytes
    else if not (is_empty bytes)
    then some (blake3 bytes)
    else none

unfoldable pub extract_address_from_locking_condition :
    (Bytes → Hash256) → (Bytes → Option OutputLock) → Bytes → Option Bytes
extract_address_from_locking_condition blake3 decode_lock bytes =
    if is_p2pkh bytes
    then some (take 32 (drop 3 bytes))
    else elim (from_locking_condition decode_lock bytes) [
      | none ↦ raw_address blake3 bytes
      | some (public_key key) ↦ some (blake3 key)
      | some (script script_hash datum) ↦ some script_hash
    ]
