-- ===== src/Consensus/Execution.antt =====
-- crates/application/src/consensus/execution.rs: a proposal and a body against the batches of the
-- parent, and the commitments of a header. `none` of a proposal is the panic of an `expect`. The
-- measured durations are left out.
use constantinople.Base.{ℕ, Bool, ◌&&◌, Option, some, List, length, collect, Eq, ◌==◌, eqb, ◌>>=◌}
use constantinople.Account.{AccountKey}
use constantinople.Transaction.{SignedTransaction}
use constantinople.Block.{SealedBlock, Header}
use constantinople.Executor.{PreparedTransfer, Changeset}
use constantinople.Executor.Proposal.{ProposalInput, prepare_transfer, propose_prepared}
use constantinople.Consensus.{
  Databases, Outcome, Reason, expect, ok_or, ◌and_then◌, parent_transactions_inactivity_floor,
  range_from_bounds,
}
use constantinople.Consensus.Load.{
  load_state, load_execution_state, execute_loaded, apply_changeset, apply_transaction_digests,
  transfer_digests,
}

-- `NonEmptyRange == NonEmptyRange`
abbrev pub same_range : ℕ × ℕ → ℕ × ℕ → Bool
same_range a b = eqb a.0 b.0 && eqb a.1 b.1

module _ {D : Type 0} (q : Databases D) where
  open q use {
    StateBatch, StateMerkleized, TransactionBatch, TransactionMerkleized, merkleize_state,
    state_root, state_bounds, with_inactivity_floor, merkleize_transactions, transactions_root,
    transactions_bounds,
  }

  -- `BlockExecution`
  pub record BlockExecution : Type 0 where
    pub state : StateMerkleized
    pub transactions : TransactionMerkleized
    pub state_sync_range : ℕ × ℕ
    pub transactions_range : ℕ × ℕ
    pub transaction_count : ℕ

  -- `ProposalExecution`
  pub record ProposalExecution (L S : Type 0) : Type 0 where
    pub block : BlockExecution
    pub body : List (SignedTransaction L D S)

  -- `BlockExecution::into_merkleized`
  abbrev pub into_merkleized : BlockExecution → StateMerkleized × TransactionMerkleized
  into_merkleized b = (b.state, b.transactions)

  -- `finalize_execution`
  abbrev pub finalize_execution :
      StateBatch → TransactionBatch → Option (StateMerkleized × TransactionMerkleized)
  finalize_execution state_batch transaction_batch = do
    state ← merkleize_state state_batch
    transactions ← merkleize_transactions transaction_batch
    some (state, transactions)

  -- `finalize_child`
  unfoldable pub finalize_child :
      {C P L S : Type 0}
      → StateBatch
      → TransactionBatch
      → SealedBlock C D P L S
      → ℕ
      → Option BlockExecution
  finalize_child state_batch transaction_batch parent transaction_count = do
    floor ← parent_transactions_inactivity_floor parent
    merkleized ← finalize_execution state_batch (with_inactivity_floor transaction_batch floor)
    state_sync_range ← range_from_bounds (state_bounds merkleized.0)
    transactions_range ← range_from_bounds (transactions_bounds merkleized.1)
    some (record {
      state = merkleized.0;
      transactions = merkleized.1;
      state_sync_range = state_sync_range;
      transactions_range = transactions_range;
      transaction_count = transaction_count;
    })

  -- What `execute_proposal` and `execute_body` do once they have a changeset and the transfers.
  abbrev pub commit_child :
      {C P L S : Type 0}
      → StateBatch
      → TransactionBatch
      → SealedBlock C D P L S
      → Changeset
      → List (PreparedTransfer D)
      → Option BlockExecution
  commit_child state_batch transaction_batch parent changeset transfers =
      finalize_child (apply_changeset q state_batch changeset)
        (apply_transaction_digests q transaction_batch (transfer_digests transfers)) parent
        (length transfers)

  -- `commitments_match`
  unfoldable pub commitments_match :
      {C P : Type 0} ⦃e : Eq D⦄ → Header C D P → BlockExecution → Bool
  commitments_match header execution =
      (state_root execution.state == header.state_root)
      && same_range execution.state_sync_range header.state_range
      && (transactions_root execution.transactions == header.transactions_root)
      && same_range execution.transactions_range header.transactions_range

module _ {D : Type 0} (q : Databases D) {L S : Type 0} (write_sender : L → List ℕ)
    (sha256 : List ℕ → List ℕ) (iteration : List AccountKey → List AccountKey) where
  open q use {StateBatch, TransactionBatch, StateMerkleized, TransactionMerkleized}

  -- `execute_body`
  unfoldable pub execute_body :
      {C P : Type 0}
      → StateBatch
      → TransactionBatch
      → SealedBlock C D P L S
      → List (Option (SignedTransaction L D S))
      → Outcome (BlockExecution q)
  execute_body state_batch transaction_batch parent body =
      ok_or Reason.malformed_transaction
        (collect (λ tx. tx >>= prepare_transfer write_sender sha256) body)
      and_then λ transfers.
          expect (load_execution_state q iteration state_batch transfers) and_then λ state.
          ok_or Reason.static_invalid_transaction (execute_loaded state transfers)
          and_then λ changeset.
              expect (commit_child q state_batch transaction_batch parent changeset transfers)

  -- `execute_proposal`
  unfoldable pub execute_proposal :
      {C P : Type 0}
      → StateBatch
      → TransactionBatch
      → SealedBlock C D P L S
      → ProposalInput L D S
      → List (PreparedTransfer D)
      → Option (ProposalExecution q L S)
  execute_proposal state_batch transaction_batch parent input candidate_transfers = do
    state ← load_state q iteration state_batch candidate_transfers
    let output = propose_prepared state input
    block ←
        finalize_child q (apply_changeset q state_batch output.changeset)
          (apply_transaction_digests q transaction_batch (transfer_digests output.transfers)) parent
          (length output.valid)
    some (record { block = block; body = output.valid })

module _ {D : Type 0} (q : Databases D) (iteration : List AccountKey → List AccountKey) where
  open q use {StateBatch, TransactionBatch, StateMerkleized, TransactionMerkleized}

  -- `apply_prepared_body`
  unfoldable pub apply_prepared_body :
      StateBatch
      → TransactionBatch
      → ℕ
      → List (PreparedTransfer D)
      → Outcome (StateMerkleized × TransactionMerkleized)
  apply_prepared_body state_batch transaction_batch floor transfers =
      expect (load_execution_state q iteration state_batch transfers) and_then λ state.
      ok_or Reason.static_invalid_transaction (execute_loaded state transfers) and_then λ changeset.
      ok_or Reason.static_invalid_transaction (
        finalize_execution q (apply_changeset q state_batch changeset) (
          q.with_inactivity_floor
            (apply_transaction_digests q transaction_batch (transfer_digests transfers)) floor))
