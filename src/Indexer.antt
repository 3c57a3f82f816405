-- ===== src/Indexer.antt =====
-- crates/indexer/src/publisher/sql.rs: the rows of the SQL tables. A `[u8; 32]` is a list of bytes,
-- and a timestamp is a number of microseconds.
pub mod Rows
pub mod Upload
pub mod Indexed
pub mod Described
pub mod Expand
pub mod Queue
pub mod Delta
pub mod Writer
pub mod Commit
pub mod Committer
pub mod Side
pub mod Persisted
pub mod Spans
pub mod Books
pub mod Completed
pub mod Flush
pub mod Drain
pub mod InFlight
pub mod Ends
pub mod Stops
mod Tests
mod CommitterTests
use Prim.Native.String.{String}
use constantinople.Base.{ℕ, ◌+◌, ◌-◌, ◌/◌, ◌%◌, List, [], ◌∷◌, ltb, if◌then◌else◌}

-- `CellValue` of exoware_sql: the four kinds that the rows use
pub data CellValue : Type 0 where
  uint64 : ℕ → CellValue
  fixed_binary : List ℕ → CellValue
  utf8 : List ℕ → CellValue
  timestamp : ℕ → CellValue

-- `SqlRow`
pub record SqlRow : Type 0 where
  pub table : String
  pub values : List CellValue

-- `BlockMetaRow`
pub record BlockMetaRow : Type 0 where
  pub height : ℕ
  pub digest : List ℕ
  pub tx_count : ℕ
  pub transactions_root : List ℕ
  pub transactions_tip : ℕ
  pub view : ℕ
  pub finalized_ts_micros : ℕ

-- `TxMetaRow`
pub record TxMetaRow : Type 0 where
  pub digest : List ℕ
  pub qmdb_location : ℕ
  pub body : List ℕ

-- `TxActivityRole`
pub data TxActivityRole : Type 0 where
  sender : TxActivityRole
  receiver : TxActivityRole

-- `TxActivityRole::as_u64`
abbrev pub role_as_u64 : TxActivityRole → ℕ
role_as_u64 TxActivityRole.sender = 0
role_as_u64 TxActivityRole.receiver = 1

-- `TxActivityRow`
pub record TxActivityRow : Type 0 where
  pub account : List ℕ
  pub role : TxActivityRole
  pub height : ℕ
  pub index : ℕ
  pub digest : List ℕ
  pub counterparty : List ℕ
  pub value : ℕ
  pub nonce : ℕ

-- `AccountMetaRow`
pub record AccountMetaRow : Type 0 where
  pub account : List ℕ
  pub balance : ℕ
  pub nonce_base : ℕ
  pub nonce_bitmap : ℕ
  pub qmdb_location : ℕ

-- `HEX[digit]`
abbrev pub hex_digit : ℕ → ℕ
hex_digit digit = if ltb digit 10 then b'0' + digit else b'a' + (digit - 10)

-- `hex_lower`
unfoldable pub hex_lower : List ℕ → List ℕ
hex_lower [] = []
hex_lower (byte ∷ bytes) = hex_digit (byte / 16) ∷ hex_digit (byte % 16) ∷ hex_lower bytes

-- `encode_block_meta_row`
abbrev pub encode_block_meta_row : BlockMetaRow → SqlRow
encode_block_meta_row block = record {
  table = "block_meta";
  values =
      CellValue.uint64 block.height
      ∷ CellValue.fixed_binary block.digest
      ∷ CellValue.uint64 block.tx_count
      ∷ CellValue.fixed_binary block.transactions_root
      ∷ CellValue.uint64 block.transactions_tip
      ∷ CellValue.uint64 block.view
      ∷ CellValue.timestamp block.finalized_ts_micros
      ∷ [];
}

-- `encode_tx_meta_row`
abbrev pub encode_tx_meta_row : TxMetaRow → SqlRow
encode_tx_meta_row tx = record {
  table = "tx_meta";
  values =
      CellValue.fixed_binary tx.digest
      ∷ CellValue.uint64 tx.qmdb_location
      ∷ CellValue.utf8 (hex_lower tx.body)
      ∷ [];
}

-- `encode_tx_activity_row`
abbrev pub encode_tx_activity_row : TxActivityRow → SqlRow
encode_tx_activity_row tx = record {
  table = "tx_activity";
  values =
      CellValue.fixed_binary tx.account
      ∷ CellValue.uint64 tx.height
      ∷ CellValue.uint64 tx.index
      ∷ CellValue.uint64 (role_as_u64 tx.role)
      ∷ CellValue.fixed_binary tx.digest
      ∷ CellValue.fixed_binary tx.counterparty
      ∷ CellValue.uint64 tx.value
      ∷ CellValue.uint64 tx.nonce
      ∷ [];
}

-- `encode_account_meta_row`
abbrev pub encode_account_meta_row : AccountMetaRow → SqlRow
encode_account_meta_row account = record {
  table = "account_meta";
  values =
      CellValue.fixed_binary account.account
      ∷ CellValue.uint64 account.balance
      ∷ CellValue.uint64 account.nonce_base
      ∷ CellValue.uint64 account.nonce_bitmap
      ∷ CellValue.uint64 account.qmdb_location
      ∷ [];
}
