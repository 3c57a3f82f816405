-- ===== src/Indexer/Rows.antt =====
-- crates/indexer/src/publisher/block.rs: the rows of a finalized block, read off the encodings of its
-- transactions. `sha256` and `hash` are the two hashes, and `as_bytes` is the `as_ref` of a digest.
use mathlib.Core.Option
use constantinople.Base.{
  ℕ, ◌+◌, ◌-◌, ◌*◌, ◌^◌, Option, none, some, List, [], ◌∷◌, ◌++◌, length, take, drop, eqb, ltb,
  collect, ◌>>=◌, if◌then◌else◌, bytes_beq,
}
use constantinople.Base.Word.{checked_sub}
use constantinople.Account.{AccountKey, account_key_size, public_key_size, from_public_key_bytes}
use constantinople.Transaction.{Sealed, SignedTransaction, transaction_size}
use constantinople.Block.Codec.{LazyBlock}
use constantinople.Signed.Lazy.{encoded_signed_transaction}
use constantinople.Indexer.{
  SqlRow, TxActivityRole, encode_block_meta_row, encode_tx_meta_row, encode_tx_activity_row,
}

-- `u64::from_be_bytes`
abbrev pub from_be_bytes : List ℕ → ℕ
from_be_bytes bytes = accumulate 0 bytes
  where
    accumulate : ℕ → List ℕ → ℕ
    accumulate n [] = n
    accumulate n (b ∷ bs) = accumulate (n * 256 + b) bs

-- `&bytes[start..end]`, within bounds
abbrev pub slice : {A : Type 0} → ℕ → ℕ → List A → List A
slice start end bytes = take (end - start) (drop start bytes)

-- `IndexedBlockRows`
pub record IndexedBlockRows (D : Type 0) : Type 0 where
  pub sql : List SqlRow
  pub transaction_digests : List D

-- `IndexedTransaction`
pub record IndexedTransaction (D : Type 0) : Type 0 where
  pub block_index : ℕ
  pub digest : D
  pub bytes : List ℕ
  pub sender : AccountKey
  pub to : List ℕ
  pub value : ℕ
  pub nonce : ℕ

module _ {D : Type 0} (sha256 : List ℕ → List ℕ) (hash : List ℕ → D) where
  -- The part of `index_transaction` after the length check, on the bytes of the transaction.
  abbrev pub index_bytes : ℕ → List ℕ → List ℕ → Option (IndexedTransaction D)
  index_bytes block_index signed_bytes bytes =
      from_public_key_bytes sha256 (slice 0 public_key_size bytes) >>= λ sender.
      let to_end = public_key_size + account_key_size in
      let value = from_be_bytes (slice to_end (to_end + 8) bytes) in
      if eqb value 0
      then none
      else some (record {
        block_index = block_index;
        digest = hash bytes;
        bytes = signed_bytes;
        sender = sender;
        to = slice public_key_size to_end bytes;
        value = value;
        nonce = from_be_bytes (slice (to_end + 8) (to_end + 8 + 8) bytes);
      })

  -- `index_transaction`
  unfoldable pub index_transaction : ℕ → List ℕ → Option (IndexedTransaction D)
  index_transaction block_index signed_bytes =
      if ltb (length signed_bytes) transaction_size
      then none
      else index_bytes block_index signed_bytes (slice 0 transaction_size signed_bytes)

  -- `enumerate().filter_map(..)`, from an index
  unfoldable pub index_from : ℕ → List (List ℕ) → List (IndexedTransaction D)
  index_from index [] = []
  index_from index (bytes ∷ rest) = elim (index_transaction index bytes) [
    | none ↦ index_from (index + 1) rest
    | some tx ↦ tx ∷ index_from (index + 1) rest
  ]

module _ {D : Type 0} (as_bytes : D → List ℕ) where
  -- The rows of one transaction.
  abbrev pub transaction_rows : ℕ → ℕ → IndexedTransaction D → List SqlRow
  transaction_rows height qmdb_location tx =
      encode_tx_meta_row
        (record { digest = as_bytes tx.digest; qmdb_location = qmdb_location; body = tx.bytes })
      ∷ encode_tx_activity_row (record {
        account = tx.sender.bytes;
        role = TxActivityRole.sender;
        height = height;
        index = tx.block_index;
        digest = as_bytes tx.digest;
        counterparty = tx.to;
        value = tx.value;
        nonce = tx.nonce;
      })
      ∷ (if bytes_beq tx.to tx.sender.bytes
          then []
          else encode_tx_activity_row (record {
            account = tx.to;
            role = TxActivityRole.receiver;
            height = height;
            index = tx.block_index;
            digest = as_bytes tx.digest;
            counterparty = tx.sender.bytes;
            value = tx.value;
            nonce = tx.nonce;
          })
            ∷ [])

  -- The loop over the indexed transactions, from a location; `none` is the panic of an index that
  -- is no `u32`.
  unfoldable pub rows_from : ℕ → ℕ → List (IndexedTransaction D) → Option (List SqlRow)
  rows_from height location [] = some []
  rows_from height location (tx ∷ txs) =
      let rest = rows_from height (location + 1) txs in
      if ltb tx.block_index (2 ^ 32)
      then Option.map (λ rows. transaction_rows height location tx ++ rows) rest
      else none

-- The digests of indexed transactions, in order.
abbrev pub digests_of_indexed : {D : Type 0} → List (IndexedTransaction D) → List D
digests_of_indexed [] = []
digests_of_indexed (tx ∷ txs) = tx.digest ∷ digests_of_indexed txs

module _ {C D P L S : Type 0} (sha256 : List ℕ → List ℕ) (hash : List ℕ → D) (as_bytes : D → List ℕ)
    (decode : List ℕ → Option (SignedTransaction L D S))
    (write : SignedTransaction L D S → List ℕ) where
  -- `encode_indexed_block_rows_at`; `none` is a panic
  unfoldable pub encode_indexed_block_rows_at :
      Sealed (LazyBlock C D P L S) D → ℕ → Option (IndexedBlockRows D)
  encode_indexed_block_rows_at block finalized_ts_micros = do
    let header = block.inner.header
    bodies ← collect (encoded_signed_transaction decode write) block.inner.body
    let indexed_txs = index_from sha256 hash 0 bodies
    let tx_count = length indexed_txs
    append_start ← checked_sub header.transactions_range.1 (tx_count + 1)
    rows ← rows_from as_bytes header.height append_start indexed_txs
    some (record {
      sql =
          encode_block_meta_row (record {
            height = header.height;
            digest = as_bytes block.seal;
            tx_count = tx_count;
            transactions_root = as_bytes header.transactions_root;
            transactions_tip = header.transactions_range.1 - 1;
            view = 0;
            finalized_ts_micros = finalized_ts_micros;
          })
          ∷ rows;
      transaction_digests = digests_of_indexed indexed_txs;
    })
