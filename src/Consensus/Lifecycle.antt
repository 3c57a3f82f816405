-- ===== src/Consensus/Lifecycle.antt =====
-- crates/application/src/consensus/lifecycle.rs: proposing, verifying and applying a child block.
-- `timestamp` is the clock in milliseconds, `hash_slow` hashes a header. Signatures,
-- execution and the wait for the timestamp run concurrently; the block is accepted only if all of
-- them succeed.
use constantinople.Base.{ℕ, ◌+◌, true, false, Option, none, some, List, map, collect, Eq, ◌>>=◌}
use constantinople.Account.{AccountKey}
use constantinople.Transaction.{SignedTransaction}
use constantinople.Block.{SealedBlock, Header, Context, new_block, seal_block}
use constantinople.Signed.{
  Strategy, Verifier, then_some, materialize_transaction_chunks, preload_transaction_chunks,
  verify_transaction_batch,
}
use constantinople.Executor.{PreparedTransfer}
use constantinople.Executor.Proposal.{ProposalInput, prepare_transfer, prepare_proposal}
use constantinople.Consensus.{
  Databases, Outcome, Reason, expect, ok_or, ◌and_then◌, is_valid_child_timestamp,
}
use constantinople.Consensus.Execution.{
  BlockExecution, execute_proposal, execute_body, apply_prepared_body, commitments_match,
  into_merkleized,
}

-- What `verify_signatures` takes of the application and of auth.rs.
pub record SignatureChecks (L D S : Type 0) : Type 1 where
  pub PublicKey : Type 0
  pub decode : L → Option PublicKey
  pub verifier : Verifier D PublicKey S
  pub signature_strategy : Strategy
  pub hash_strategy : Strategy

module _ {L D S : Type 0} where
  -- `verify_signatures`: the body is preloaded, and then its batch is verified
  abbrev pub verify_signatures :
      SignatureChecks L D S → List (Option (SignedTransaction L D S)) → Outcome (Unit {0})
  verify_signatures checks body = ok_or Reason.invalid_signature (
      preload_transaction_chunks checks.decode checks.hash_strategy body >>= λ transactions.
      then_some tt (
        verify_transaction_batch checks.decode checks.verifier checks.signature_strategy
          transactions))

  -- The transfers of the candidates.
  abbrev pub candidate_transfers : ProposalInput L D S → List (PreparedTransfer D)
  candidate_transfers input = map (λ c. c.transfer) input.candidates

module _ {C D P L S : Type 0} (q : Databases D) where
  open q use {state_root, transactions_root}

  -- The header that `propose_child` builds.
  abbrev pub child_header :
      Context C P → ℕ → SealedBlock C D P L S → BlockExecution q → Header C D P
  child_header context timestamp parent execution = record {
    context = context;
    parent = parent.seal;
    height = parent.inner.header.height + 1;
    timestamp = timestamp;
    state_root = state_root execution.state;
    state_range = execution.state_sync_range;
    transactions_root = transactions_root execution.transactions;
    transactions_range = execution.transactions_range;
  }

-- `unwrap_or_else(|reason| panic!(..))`
abbrev pub or_panic : {A : Type 0} → Outcome A → Outcome A
or_panic Outcome.panicked = Outcome.panicked
or_panic (Outcome.rejected reason) = Outcome.panicked
or_panic (Outcome.returned a) = Outcome.returned a

-- What `verify_child` makes of the joined tasks.
abbrev pub check_commitments :
    {C D P : Type 0} ⦃e : Eq D⦄ (q : Databases D)
    → Header C D P
    → Outcome (BlockExecution q)
    → Outcome (Option (q.StateMerkleized × q.TransactionMerkleized))
check_commitments q header Outcome.panicked = Outcome.panicked
check_commitments q header (Outcome.rejected reason) = Outcome.returned none
check_commitments q header (Outcome.returned execution) =
    elim (commitments_match q header execution) [
      | false ↦ Outcome.returned none
      | true ↦ Outcome.returned (some (into_merkleized q execution))
    ]

module _ {C D P L S : Type 0} ⦃e : Eq D⦄ (q : Databases D) (write_sender : L → List ℕ)
    (sha256 : List ℕ → List ℕ) (iteration : List AccountKey → List AccountKey) where
  open q use {StateBatch, StateMerkleized, TransactionBatch, TransactionMerkleized}

  -- `propose_child`, on what the mempool proposes; `none` is a panic
  unfoldable pub propose_child :
      (Header C D P → D)
      → ℕ
      → Context C P
      → SealedBlock C D P L S
      → StateBatch
      → TransactionBatch
      → List (SignedTransaction L D S)
      → Option (SealedBlock C D P L S × (StateMerkleized × TransactionMerkleized))
  propose_child hash_slow timestamp context parent state_batch transaction_batch body = do
    let input = prepare_proposal write_sender sha256 body
    execution ←
        execute_proposal q write_sender sha256 iteration state_batch transaction_batch parent input
          (candidate_transfers input)
    some (
      seal_block hash_slow
          (new_block (child_header q context timestamp parent execution.block) execution.body),
      into_merkleized q execution.block,
    )

  -- `verify_child`: `returned none` is a block that is refused
  unfoldable pub verify_child :
      SignatureChecks L D S
      → SealedBlock C D P L S
      → SealedBlock C D P L S
      → StateBatch
      → TransactionBatch
      → Outcome (Option (StateMerkleized × TransactionMerkleized))
  verify_child checks block parent state_batch transaction_batch =
      elim (is_valid_child_timestamp parent.inner.header.timestamp block.inner.header.timestamp) [
        | false ↦ Outcome.returned none
        | true ↦ check_commitments q block.inner.header (
            verify_signatures checks block.inner.body and_then λ u.
            execute_body q write_sender sha256 iteration state_batch transaction_batch parent
              block.inner.body)
      ]

  -- `apply_certified`; every failure is a panic
  unfoldable pub apply_certified :
      Strategy
      → SealedBlock C D P L S
      → StateBatch
      → TransactionBatch
      → Outcome (StateMerkleized × TransactionMerkleized)
  apply_certified hash_strategy block state_batch transaction_batch =
      expect (materialize_transaction_chunks (λ tx. tx) hash_strategy block.inner.body)
      and_then λ materialized.
          expect (collect (prepare_transfer write_sender sha256) materialized) and_then λ body.
          or_panic (
            apply_prepared_body q iteration state_batch transaction_batch
              block.inner.header.transactions_range.0 body)
