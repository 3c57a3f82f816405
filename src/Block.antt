-- ===== src/Block.antt =====
-- crates/primitives/src/block.rs: headers and blocks. A transaction of a body is what
-- `LazySignedTransaction::get` returns of it: `none` where its bytes do not decode.
pub mod Codec
pub mod Wire
pub mod RoundTrip
mod Tests
use constantinople.Base.{ℕ, List, Option, some, map}
use constantinople.Transaction.{Sealed, SignedTransaction}

-- `Round` and `Context` of commonware_consensus.
pub record Round : Type 0 where
  pub epoch : ℕ
  pub view : ℕ

pub record Context (C P : Type 0) : Type 0 where
  pub round : Round
  pub leader : P
  pub parent : ℕ × C

-- `Header<C, D, P>`; a `NonEmptyRange` is its start and its end.
pub record Header (C D P : Type 0) : Type 0 where
  pub context : Context C P
  pub parent : D
  pub height : ℕ
  pub timestamp : ℕ
  pub state_root : D
  pub state_range : ℕ × ℕ
  pub transactions_root : D
  pub transactions_range : ℕ × ℕ

-- `Block<C, P, H>`
pub record Block (C D P L S : Type 0) : Type 0 where
  pub header : Header C D P
  pub body : List (Option (SignedTransaction L D S))

-- `SealedBlock<C, P, H>`
abbrev pub SealedBlock : Type 0 → Type 0 → Type 0 → Type 0 → Type 0 → Type 0
SealedBlock C D P L S = Sealed (Block C D P L S) D

module _ {C D P L S : Type 0} where
  -- `Block::new`, from transactions that are decoded
  abbrev pub new_block : Header C D P → List (SignedTransaction L D S) → Block C D P L S
  new_block header body = record { header = header; body = map some body }

  -- `Block::seal`, with `Header::hash_slow` as a parameter
  abbrev pub seal_block : (Header C D P → D) → Block C D P L S → SealedBlock C D P L S
  seal_block hash_slow block = record { inner = block; seal = hash_slow block.header }
