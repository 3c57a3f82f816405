-- ===== src/Consensus/Glue.antt =====
-- crates/application/src/consensus/glue.rs, genesis.rs and the state of mod.rs that pruning keeps.
-- `sync_boundary` is what the state database answers, and a `NonEmptyRange` is its start and end.
use constantinople.Base.{
  ℕ, ◌-◌, ◌%◌, min, Bool, true, false, ◌&&◌, not, Option, none, some, [], eqb, ltb, if◌then◌else◌,
}
use constantinople.Block.{Header, SealedBlock, new_block, seal_block}

-- `StateSyncTarget` and `TransactionHistoryTarget`
pub record StateSyncTarget (D : Type 0) : Type 0 where
  pub root : D
  pub range : ℕ × ℕ

pub record TransactionHistoryTarget (D : Type 0) : Type 0 where
  pub root : D
  pub leaf_count : ℕ

-- `header_range_to_target`
abbrev pub header_range_to_target : {D : Type 0} → D → ℕ × ℕ → TransactionHistoryTarget D
header_range_to_target root range = record { root = root; leaf_count = range.1 }

-- `non_empty_range!`; `none` is its panic
abbrev pub non_empty_range : ℕ → ℕ → Option (ℕ × ℕ)
non_empty_range start end = if ltb start end then some (start, end) else none

module _ {C D P : Type 0} where
  -- The header of the genesis block.
  abbrev pub genesis_header :
      D
      → P
      → ℕ × C
      → ℕ
      → StateSyncTarget D
      → TransactionHistoryTarget D
      → ℕ × ℕ
      → ℕ × ℕ
      → Header C D P
  genesis_header empty leader parent timestamp state_target transactions_target state_range
        transactions_range =
      record {
        context = record {
          round = record { epoch = 0; view = 0 };
          leader = leader;
          parent = parent;
        };
        parent = empty;
        height = 0;
        timestamp = timestamp;
        state_root = state_target.root;
        state_range = state_range;
        transactions_root = transactions_target.root;
        transactions_range = transactions_range;
      }

module _ {C D P L S : Type 0} where
  -- `sync_targets`; the range of a header is not empty.
  abbrev pub sync_targets : SealedBlock C D P L S → StateSyncTarget D × TransactionHistoryTarget D
  sync_targets block = (
    record { root = block.inner.header.state_root; range = block.inner.header.state_range },
    header_range_to_target block.inner.header.transactions_root
        block.inner.header.transactions_range,
  )

  -- `genesis_block_with_parent`, with `Digest::EMPTY` as a parameter; `none` is a panic
  unfoldable pub genesis_block_with_parent :
      (Header C D P → D)
      → D
      → P
      → ℕ × C
      → ℕ
      → StateSyncTarget D
      → TransactionHistoryTarget D
      → Option (SealedBlock C D P L S)
  genesis_block_with_parent hash_slow empty leader parent timestamp state_target
        transactions_target =
      elim (non_empty_range state_target.range.0 state_target.range.1) [
        | none ↦ none
        | some state_range ↦ elim (non_empty_range 0 transactions_target.leaf_count) [
          | none ↦ none
          | some transactions_range ↦ some (
              seal_block hash_slow (
                new_block
                  (genesis_header empty leader parent timestamp state_target transactions_target
                    state_range transactions_range)
                  []))
        ]
      ]

-- `prune_cadence_blocks` and `previous_prune_cadence_state_end` of `Application`
pub record Pruning : Type 0 where
  pub prune_cadence_blocks : ℕ
  pub previous_prune_cadence_state_end : ℕ

-- What `finalized` asks of the pruner and of the state database.
pub record Prune : Type 0 where
  pub prune_height : ℕ
  pub prune_to : ℕ

-- `should_prune_after_finalize`
abbrev pub should_prune_after_finalize : Pruning → ℕ → Bool
should_prune_after_finalize p height = not (eqb height 0) && eqb (height % p.prune_cadence_blocks) 0

-- `finalized`, at the height of a block and the end of its state range
unfoldable pub finalized : Pruning → ℕ → ℕ → ℕ → Pruning × Option Prune
finalized p height state_end sync_boundary = elim (should_prune_after_finalize p height) [
  | false ↦ (p, none)
  | true ↦ (
    record {
      prune_cadence_blocks = p.prune_cadence_blocks;
      previous_prune_cadence_state_end = state_end;
    },
    some (record {
      prune_height = height - p.prune_cadence_blocks;
      prune_to = min p.previous_prune_cadence_state_end sync_boundary;
    }),
  )
]
