-- ===== src/Consensus.antt =====
-- crates/application/src/consensus: what the execution of a block returns, its timestamps, and the
-- databases as a parameter.
pub mod Load
pub mod Execution
pub mod Lifecycle
pub mod Reads
pub mod Honest
pub mod Inversion
pub mod Certified
pub mod Glue
pub mod Retention
mod Tests
use constantinople.Base.{
  ℕ, ◌+◌, ◌-◌, Bool, true, false, ◌&&◌, Option, none, some, List, ltb, leb, length, if◌then◌else◌,
  ◌>>=◌,
}
use constantinople.Base.Word.{checked_sub}
use constantinople.Transaction.{Sealed}
use constantinople.Block.{Block, SealedBlock, Header}
use constantinople.Account.{AccountKey, Account}

-- The reasons for which a block is refused.
pub data Reason : Type 0 where
  invalid_signature : Reason
  malformed_transaction : Reason
  static_invalid_transaction : Reason

-- A result, or the panic of an `expect`.
pub data Outcome {ℓ} (A : Type ℓ) : Type ℓ where
  panicked : Outcome A
  rejected : (reason : Reason) → Outcome A
  returned : (value : A) → Outcome A

module _ {ℓ κ} {A : Type ℓ} {B : Type κ} where
  infixl 5 ◌and_then◌
  abbrev pub ◌and_then◌ : Outcome A → (A → Outcome B) → Outcome B
  panicked and_then f = panicked
  rejected reason and_then f = rejected reason
  returned value and_then f = f value

module _ {ℓ} {A : Type ℓ} where
  abbrev pub expect : Option A → Outcome A
  expect none = panicked
  expect (some a) = returned a

  abbrev pub ok_or : Reason → Option A → Outcome A
  ok_or reason none = rejected reason
  ok_or reason (some a) = returned a

-- The part of `Bounds` that a header commits to.
pub record Bounds : Type 0 where
  pub inactivity_floor : ℕ
  pub total_size : ℕ

-- The batches of the two databases of commonware_storage; `none` is an error of the storage.
pub record Databases (D : Type 0) : Type 1 where
  pub StateBatch : Type 0
  pub StateMerkleized : Type 0
  pub TransactionBatch : Type 0
  pub TransactionMerkleized : Type 0
  pub get_many : StateBatch → List AccountKey → Option (List (Option Account))
  pub write : StateBatch → AccountKey → Option Account → StateBatch
  pub merkleize_state : StateBatch → Option StateMerkleized
  pub state_root : StateMerkleized → D
  pub state_bounds : StateMerkleized → Bounds
  pub append : TransactionBatch → D → TransactionBatch
  pub with_inactivity_floor : TransactionBatch → ℕ → TransactionBatch
  pub merkleize_transactions : TransactionBatch → Option TransactionMerkleized
  pub transactions_root : TransactionMerkleized → D
  pub transactions_bounds : TransactionMerkleized → Bounds

-- `MAX_BLOCK_TIMESTAMP_MS`
abbrev pub max_block_timestamp_ms : ℕ
max_block_timestamp_ms = 7258118400000

-- `is_valid_child_timestamp`
abbrev pub is_valid_child_timestamp : ℕ → ℕ → Bool
is_valid_child_timestamp parent_timestamp_ms child_timestamp_ms =
    ltb parent_timestamp_ms child_timestamp_ms && leb child_timestamp_ms max_block_timestamp_ms

-- `parent_transactions_inactivity_floor`; `none` is the panic of its `expect`.
abbrev pub parent_transactions_inactivity_floor :
    {C D P L S : Type 0} → SealedBlock C D P L S → Option ℕ
parent_transactions_inactivity_floor parent = do
  end ← checked_sub parent.inner.header.transactions_range.1 (length parent.inner.body)
  checked_sub end 1

-- `range_from_bounds`; `non_empty_range!` panics on an empty range.
abbrev pub range_from_bounds : Bounds → Option (ℕ × ℕ)
range_from_bounds b =
    if ltb b.inactivity_floor b.total_size then some (b.inactivity_floor, b.total_size) else none
