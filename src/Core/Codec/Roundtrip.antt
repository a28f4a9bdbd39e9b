-- ===== src/Core/Codec/Roundtrip.antt =====
-- Reading back what was written: every encoder is undone by its decoder, with any bytes behind.
use scytale.Base.{
  ℕ, ◌%◌, ◌^◌, ◌≤◌, ◌<◌, ◌≡◌, refl, subst, inl, inr, Bool, true, false, List, [], ◌∷◌, ◌++◌, length,
  All, Bool-cases, ltb, ok, >>=-eq-ok, arith,
}
use scytale.Base.Bytes.{Bytes, to_le_bytes, from_le_bytes}
use scytale.Base.Endian.{from_le_bytes-to_le_bytes}
use scytale.Primitives.{OutPoint, TxOut}
use scytale.Core.Types.{TxIn, Transaction, BlockHeader, Block, UtxoEntry}
use scytale.Core.Codec.Serialize.{
  max_vector_length, Writer, u32_bytes, u64_bytes, bool_bytes, count_bytes, vec_bytes,
  outpoint_bytes, txin_bytes, txout_bytes, each_bytes, transaction_bytes, header_bytes, block_bytes,
  utxo_entry_bytes,
}
use scytale.Core.Codec.Reader.{
  Reader, ◌>>=◌, return, read_exact, read_n, read_exact-append, Reads, Reads-return, Reads-written,
  Reads->>=, Reads-last, from_canonical_bytes, from_canonical_bytes-Reads,
}
use scytale.Core.Codec.Deserialize.{
  read_u32, read_u64, read_bool, read_hash, read_length, read_vec, read_outpoint, read_txin,
  read_txout, read_transaction, read_header, read_block, read_utxo_entry,
}

Reads-exact : (n : ℕ) (bs : Bytes) → length bs ≡ n → Reads (read_exact n) bs bs
Reads-exact n bs e rest = rw (← e) (read_exact-append bs rest)

pub u32-Reads : (v : ℕ) → v < 2 ^ 32 → Reads read_u32 (u32_bytes v) v
unfolding read_u32 u32_bytes
u32-Reads v h =
    subst (λ (w : ℕ). Reads read_u32 (u32_bytes v) w) (from_le_bytes-to_le_bytes 4 v h)
      (Reads-last (read_exact 4) from_le_bytes (to_le_bytes 4 v) (to_le_bytes 4 v)
        (Reads-exact 4 (to_le_bytes 4 v) refl))

u64-Reads : (v : ℕ) → v < 2 ^ 64 → Reads read_u64 (u64_bytes v) v
unfolding read_u64 u64_bytes
u64-Reads v h =
    subst (λ (w : ℕ). Reads read_u64 (u64_bytes v) w) (from_le_bytes-to_le_bytes 8 v h)
      (Reads-last (read_exact 8) from_le_bytes (to_le_bytes 8 v) (to_le_bytes 8 v)
        (Reads-exact 8 (to_le_bytes 8 v) refl))

bool-Reads : (b : Bool) → Reads read_bool (bool_bytes b) b
unfolding read_bool bool_bytes ◌>>=◌ return read_exact
bool-Reads true rest = ground arith
bool-Reads false rest = ground arith

length-Reads : (n : ℕ) → n ≤ max_vector_length → Reads read_length (count_bytes n) n
unfolding read_length count_bytes ◌>>=◌ return
length-Reads n h rest =
    let e : n % 2 ^ 32 ≡ n = omega arith in
    rw (e, u32-Reads n (omega arith) rest, ◌>>=◌) (ground arith)

vec-Reads : (bs ws : Bytes) → vec_bytes bs ≡ ok ws → Reads read_vec ws bs
unfolding vec_bytes read_vec
vec-Reads bs ws e = elim (Bool-cases (ltb max_vector_length (length bs))) [
  | inl over ↦ cc (over_fails over)
  | inr fits ↦
      subst (λ (zs : Bytes). Reads read_vec zs bs) (written fits)
        (Reads->>= read_length read_exact (count_bytes (length bs)) bs (length bs) bs
          (length-Reads (length bs) (ground arith)) (Reads-exact (length bs) bs refl))
]
  where
    over_fails : ltb max_vector_length (length bs) ≡ true → false ≡ true
    over_fails h = ground arith

    written : ltb max_vector_length (length bs) ≡ false → count_bytes (length bs) ++ bs ≡ ws
    written h = ground arith

-- What the Rust types guarantee of the values.
pub record IsOutPoint (o : OutPoint) : Type 0 where
  pub txid_length : length o.txid ≡ 32
  pub index_lt : o.index < 2 ^ 32

pub record IsTxIn (i : TxIn) : Type 0 where
  pub previous : IsOutPoint i.previous_output
  pub sequence_lt : i.sequence < 2 ^ 32

pub record IsTxOut (o : TxOut) : Type 0 where
  pub value_lt : o.value < 2 ^ 64

-- The counts are those that the decoder takes.
pub record IsTransaction (t : Transaction) : Type 0 where
  pub version_lt : t.version < 2 ^ 32
  pub inputs_ok : All IsTxIn t.inputs
  pub input_count : length t.inputs ≤ max_vector_length
  pub outputs_ok : All IsTxOut t.outputs
  pub output_count : length t.outputs ≤ max_vector_length
  pub lock_time_lt : t.lock_time < 2 ^ 64

pub record IsHeader (h : BlockHeader) : Type 0 where
  pub version_lt : h.version < 2 ^ 32
  pub previous_length : length h.previous_block_hash ≡ 32
  pub commitment_length : length h.transaction_commitment ≡ 32
  pub root_length : length h.utxo_root ≡ 32
  pub timestamp_lt : h.timestamp < 2 ^ 64
  pub target_lt : h.difficulty_target < 2 ^ 32
  pub nonce_lt : h.nonce < 2 ^ 64

pub record IsBlock (b : Block) : Type 0 where
  pub header_ok : IsHeader b.header
  pub transactions_ok : All IsTransaction b.transactions
  pub count : length b.transactions ≤ max_vector_length

pub outpoint-Reads : (o : OutPoint) → IsOutPoint o → Reads read_outpoint (outpoint_bytes o) o
unfolding read_outpoint outpoint_bytes read_hash
outpoint-Reads o h =
    Reads->>= (read_exact 32) _ o.txid (u32_bytes o.index) o.txid o
      (Reads-exact 32 o.txid h.txid_length)
      (Reads-last read_u32 _ (u32_bytes o.index) o.index (u32-Reads o.index h.index_lt))

txout-Reads : (o : TxOut) (ws : Bytes) → IsTxOut o → txout_bytes o ≡ ok ws → Reads read_txout ws o
unfolding read_txout txout_bytes
txout-Reads o ws h e =
    let (vs, ve, le) = >>=-eq-ok (vec_bytes o.locking_condition) _ e in
    Reads-written read_txout o le (
      Reads->>= read_u64 _ (u64_bytes o.value) vs o.value o (u64-Reads o.value h.value_lt)
        (Reads-last read_vec _ vs o.locking_condition (vec-Reads o.locking_condition vs ve)))

txin-Reads : (i : TxIn) (ws : Bytes) → IsTxIn i → txin_bytes i ≡ ok ws → Reads read_txin ws i
unfolding read_txin txin_bytes
txin-Reads i ws h e =
    let (vs, ve, le) = >>=-eq-ok (vec_bytes i.authorization) _ e in
    Reads-written read_txin i le (
      Reads->>= read_outpoint _ (outpoint_bytes i.previous_output) (vs ++ u32_bytes i.sequence)
        i.previous_output i (outpoint-Reads i.previous_output h.previous)
        (Reads->>= read_vec _ vs (u32_bytes i.sequence) i.authorization i
          (vec-Reads i.authorization vs ve)
          (Reads-last read_u32 _ (u32_bytes i.sequence) i.sequence
            (u32-Reads i.sequence h.sequence_lt))))

-- A list of items, each of which is read back.
pub each-Reads {ℓ κ} :
    {A : Type ℓ} (P : A → Type κ) (f : A → Writer) (r : Reader A)
    → ((x : A) (ws : Bytes) → P x → f x ≡ ok ws → Reads r ws x)
    → (xs : List A) (ws : Bytes) → All P xs
    → each_bytes f xs ≡ ok ws
    → Reads (read_n (length xs) r) ws xs
unfolding each_bytes read_n
each-Reads P f r item [] ws h e = Reads-written (return []) [] e (Reads-return [])
each-Reads P f r item (x ∷ xs) ws h e =
    let (vs, ve, e') = >>=-eq-ok (f x) _ e in
    let (us, ue, le) = >>=-eq-ok (each_bytes f xs) _ e' in
    Reads-written (read_n (length (x ∷ xs)) r) (x ∷ xs) le (
      Reads->>= r _ vs us x (x ∷ xs) (item x vs h.0 ve)
        (Reads-last (read_n (length xs) r) _ us xs (each-Reads P f r item xs us h.1 ue)))

-- A transaction is read back from its encoding, whatever follows.
pub transaction-Reads :
    (t : Transaction) (ws : Bytes)
    → IsTransaction t
    → transaction_bytes t ≡ ok ws
    → Reads read_transaction ws t
unfolding read_transaction transaction_bytes
transaction-Reads t ws h e =
    let (is, ie, e') = >>=-eq-ok (each_bytes txin_bytes t.inputs) _ e in
    let (os, oe, le) = >>=-eq-ok (each_bytes txout_bytes t.outputs) _ e' in
    Reads-written read_transaction t le (
      Reads->>= read_u32 _ (u32_bytes t.version) _ t.version t (u32-Reads t.version h.version_lt) (
        Reads->>= read_length _ (count_bytes (length t.inputs)) _ (length t.inputs) t
          (length-Reads (length t.inputs) h.input_count)
          (Reads->>= (read_n (length t.inputs) read_txin) _ is _ t.inputs t
            (each-Reads IsTxIn txin_bytes read_txin txin-Reads t.inputs is h.inputs_ok ie)
            (Reads->>= read_length _ (count_bytes (length t.outputs)) _ (length t.outputs) t
              (length-Reads (length t.outputs) h.output_count)
              (Reads->>= (read_n (length t.outputs) read_txout) _ os _ t.outputs t
                (each-Reads IsTxOut txout_bytes read_txout txout-Reads t.outputs os h.outputs_ok oe)
                (Reads-last read_u64 _ (u64_bytes t.lock_time) t.lock_time
                  (u64-Reads t.lock_time h.lock_time_lt)))))))

-- A header is read back from its 120 bytes.
pub header-Reads : (h : BlockHeader) → IsHeader h → Reads read_header (header_bytes h) h
unfolding read_header header_bytes read_hash
header-Reads h v =
    Reads->>= read_u32 _ (u32_bytes h.version) _ h.version h (u32-Reads h.version v.version_lt) (
      Reads->>= (read_exact 32) _ h.previous_block_hash _ h.previous_block_hash h
        (Reads-exact 32 h.previous_block_hash v.previous_length)
        (Reads->>= (read_exact 32) _ h.transaction_commitment _ h.transaction_commitment h
          (Reads-exact 32 h.transaction_commitment v.commitment_length)
          (Reads->>= (read_exact 32) _ h.utxo_root _ h.utxo_root h
            (Reads-exact 32 h.utxo_root v.root_length)
            (Reads->>= read_u64 _ (u64_bytes h.timestamp) _ h.timestamp h
              (u64-Reads h.timestamp v.timestamp_lt)
              (Reads->>= read_u32 _ (u32_bytes h.difficulty_target) _ h.difficulty_target h
                (u32-Reads h.difficulty_target v.target_lt)
                (Reads-last read_u64 _ (u64_bytes h.nonce) h.nonce
                  (u64-Reads h.nonce v.nonce_lt)))))))

block-Reads : (b : Block) (ws : Bytes) → IsBlock b → block_bytes b ≡ ok ws → Reads read_block ws b
unfolding read_block block_bytes
block-Reads b ws h e =
    let (ts, te, le) = >>=-eq-ok (each_bytes transaction_bytes b.transactions) _ e in
    Reads-written read_block b le (
      Reads->>= read_header _ (header_bytes b.header) _ b.header b
        (header-Reads b.header h.header_ok)
        (Reads->>= read_length _ (count_bytes (length b.transactions)) ts (length b.transactions) b
          (length-Reads (length b.transactions) h.count)
          (Reads-last (read_n (length b.transactions) read_transaction) _ ts b.transactions (
            each-Reads IsTransaction transaction_bytes read_transaction transaction-Reads
              b.transactions ts h.transactions_ok te))))

-- A block of in-range values that can be written is read back from exactly the bytes written.
pub read_block-block_bytes :
    (b : Block) (ws : Bytes)
    → IsBlock b
    → block_bytes b ≡ ok ws
    → from_canonical_bytes read_block ws ≡ ok b
read_block-block_bytes b ws h e = from_canonical_bytes-Reads read_block ws b (block-Reads b ws h e)

-- What the Rust types guarantee of an entry.
pub record IsEntry (u : UtxoEntry) : Type 0 where
  pub output_ok : IsTxOut u.output
  pub height_lt : u.block_height < 2 ^ 64

pub utxo_entry-Reads :
    (u : UtxoEntry) (ws : Bytes)
    → IsEntry u
    → utxo_entry_bytes u ≡ ok ws
    → Reads read_utxo_entry ws u
unfolding utxo_entry_bytes read_utxo_entry
utxo_entry-Reads u ws h e =
    let (os, oe, le) = >>=-eq-ok (txout_bytes u.output) _ e in
    Reads-written read_utxo_entry u le (
      Reads->>= read_txout _ os _ u.output u (txout-Reads u.output os h.output_ok oe) (
        Reads->>= read_u64 _ (u64_bytes u.block_height) _ u.block_height u
          (u64-Reads u.block_height h.height_lt)
          (Reads-last read_bool _ (bool_bytes u.is_coinbase) u.is_coinbase
            (bool-Reads u.is_coinbase))))

-- An entry of the UTXO table with in-range values that can be written is read back from the bytes written.
pub read_utxo_entry-utxo_entry_bytes :
    (u : UtxoEntry) (ws : Bytes)
    → IsEntry u
    → utxo_entry_bytes u ≡ ok ws
    → from_canonical_bytes read_utxo_entry ws ≡ ok u
read_utxo_entry-utxo_entry_bytes u ws h e =
    from_canonical_bytes-Reads read_utxo_entry ws u (utxo_entry-Reads u ws h e)
