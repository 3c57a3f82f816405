-- ===== src/Consensus/Certified.antt =====
-- A block that was verified is applied, once certified, to the same databases.
use constantinople.Base.{
  ℕ, ◌≡◌, refl, sym, ap, ◌∙◌, true, Option, some, List, collect, length, arith, Eq, eqb_iff, ◌>>=◌,
}
use constantinople.Account.{AccountKey}
use constantinople.Transaction.{SignedTransaction}
use constantinople.Block.{SealedBlock, Header}
use constantinople.Executor.{PreparedTransfer, Changeset}
use constantinople.Executor.Proposal.{prepare_transfer}
use constantinople.Consensus.{Databases, Outcome, Reason}
use constantinople.Consensus.Load.{
  LoadedState, load_execution_state, execute_loaded, apply_changeset, apply_transaction_digests,
  transfer_digests,
}
use constantinople.Consensus.Execution.{
  BlockExecution, apply_prepared_body, finalize_execution, commitments_match, into_merkleized,
}
use constantinople.Consensus.Lifecycle.{
  SignatureChecks, or_panic, verify_signatures, verify_child, apply_certified,
}
use constantinople.Signed.{Strategy, materialize_transaction_chunks}
use constantinople.Signed.Chunks.{IsStrategy, materialize-eq-collect, preloaded-collect}
use constantinople.Consensus.Honest.{collect-decoded, from_some}
use constantinople.Consensus.Inversion.{
  bind-some, ok_or-returned, collect-some, finalize_child-some, execute_body-Executed,
  verify_child-Verified,
}

-- A body whose signatures verify decodes.
signed-decodes :
    {L D S : Type 0} (checks : SignatureChecks L D S)
    (body : List (Option (SignedTransaction L D S)))
    → IsStrategy checks.hash_strategy
    → verify_signatures checks body ≡ Outcome.returned tt
    → (decoded : List (SignedTransaction L D S)) × (collect (λ tx. tx) body ≡ some decoded)
signed-decodes checks body parallel signed =
    preloaded-collect checks.decode checks.hash_strategy body _ tt parallel
      (ok_or-returned Reason.invalid_signature _ tt signed)

-- The transaction database commits to the inactivity floor that its batch was given.
abbrev pub KeepsFloor : {D : Type 0} → Databases D → Type 0
KeepsFloor q =
    (batch : q.TransactionBatch) (floor : ℕ) (m : q.TransactionMerkleized)
    → q.merkleize_transactions (q.with_inactivity_floor batch floor) ≡ some m
    → (q.transactions_bounds m).inactivity_floor ≡ floor

module _ {D : Type 0} (q : Databases D) where
  finalize_execution-floor :
      (state_batch : q.StateBatch) (batch : q.TransactionBatch) (floor : ℕ)
      (m : q.StateMerkleized × q.TransactionMerkleized)
      → KeepsFloor q
      → finalize_execution q state_batch (q.with_inactivity_floor batch floor) ≡ some m
      → (q.transactions_bounds m.1).inactivity_floor ≡ floor
  finalize_execution-floor state_batch batch floor m keeps h =
      let (s, h0, h1) = bind-some (q.merkleize_state state_batch) _ m h in
      let (t, h2, h3) =
        bind-some (q.merkleize_transactions (q.with_inactivity_floor batch floor)) _ m h1 in
      let same : t ≡ m.1 = ap (λ o. (from_some m o).1) h3 in
      ap (λ y. (q.transactions_bounds y).inactivity_floor) (sym same) ∙ keeps batch floor t h2

  match-start :
      {C P : Type 0} ⦃e : Eq D⦄ (header : Header C D P) (x : BlockExecution q)
      → commitments_match q header x ≡ true
      → header.transactions_range.0 ≡ x.transactions_range.0
  unfolding commitments_match
  match-start header x h =
      ground (arith, eqb_iff x.transactions_range.0 header.transactions_range.0)

module _ {C D P L S : Type 0} ⦃e : Eq D⦄ (q : Databases D) (write_sender : L → List ℕ)
    (sha256 : List ℕ → List ℕ) (iteration : List AccountKey → List AccountKey)
    (state_batch : q.StateBatch) (transaction_batch : q.TransactionBatch)
    (parent : SealedBlock C D P L S) where
  apply_prepared_body-returned :
      (floor : ℕ) (ts : List (PreparedTransfer D)) (loaded : LoadedState) (changeset : Changeset)
      (m : q.StateMerkleized × q.TransactionMerkleized)
      → load_execution_state q iteration state_batch ts ≡ some loaded
      → execute_loaded loaded ts ≡ some changeset
      → finalize_execution q (apply_changeset q state_batch changeset) (
          q.with_inactivity_floor
            (apply_transaction_digests q transaction_batch (transfer_digests ts))
            floor)
        ≡ some m
      → apply_prepared_body q iteration state_batch transaction_batch floor ts ≡ Outcome.returned m
  unfolding apply_prepared_body
  apply_prepared_body-returned floor ts loaded changeset m loads executes finalizes =
      rw (loads, apply_prepared_body, executes, finalizes) refl

  apply_certified-returned :
      (hash_strategy : Strategy) (block : SealedBlock C D P L S)
      (materialized : List (SignedTransaction L D S)) (ts : List (PreparedTransfer D))
      (m : q.StateMerkleized × q.TransactionMerkleized)
      → materialize_transaction_chunks (λ tx. tx) hash_strategy block.inner.body ≡ some materialized
      → collect (prepare_transfer write_sender sha256) materialized ≡ some ts
      → apply_prepared_body q iteration state_batch transaction_batch
          block.inner.header.transactions_range.0 ts
        ≡ Outcome.returned m
      → apply_certified q write_sender sha256 iteration hash_strategy block state_batch
          transaction_batch
        ≡ Outcome.returned m
  unfolding apply_certified
  apply_certified-returned hash_strategy block materialized ts m decodes prepares applies =
      rw (decodes, apply_certified, prepares) (ap or_panic applies)

  -- A block that verifies is applied, once it is certified, from the same batches and without a panic
  -- to the databases that the verification gave. The transaction database commits to the inactivity
  -- floor that its batch was given, and the strategy for decoding maps in order and folds over some
  -- split of a body.
  pub apply_certified-of_verified :
      (checks : SignatureChecks L D S) (block : SealedBlock C D P L S)
      (merkleized : q.StateMerkleized × q.TransactionMerkleized)
      → KeepsFloor q
      → IsStrategy checks.hash_strategy
      → verify_child q write_sender sha256 iteration checks block parent state_batch
          transaction_batch
        ≡ Outcome.returned (some merkleized)
      → apply_certified q write_sender sha256 iteration checks.hash_strategy block state_batch
          transaction_batch
        ≡ Outcome.returned merkleized
  apply_certified-of_verified checks block merkleized keeps parallel h =
      let v =
        verify_child-Verified q write_sender sha256 iteration state_batch transaction_batch parent
          checks block merkleized h in
      let x = v.execution in
      let r =
        execute_body-Executed q write_sender sha256 iteration state_batch transaction_batch parent
          block.inner.body x v.executed in
      let (materialized, decoded) = signed-decodes checks block.inner.body parallel v.signed in
      let body = collect-some block.inner.body materialized decoded in
      let materializes =
        materialize-eq-collect (λ tx. tx) checks.hash_strategy block.inner.body parallel
        ∙ decoded in
      let prepares : collect (prepare_transfer write_sender sha256) materialized
          ≡ some r.transfers =
        sym (collect-decoded (prepare_transfer write_sender sha256) materialized)
        ∙ ap (collect (λ tx. tx >>= prepare_transfer write_sender sha256)) (sym body)
        ∙ r.prepares in
      let (floor, finalizes, start) =
        finalize_child-some q (apply_changeset q state_batch r.changeset)
          (apply_transaction_digests q transaction_batch (transfer_digests r.transfers)) parent
          (length r.transfers) x r.commits in
      let same_floor : block.inner.header.transactions_range.0 ≡ floor =
        match-start q block.inner.header x v.matches
        ∙ start
        ∙ finalize_execution-floor q (apply_changeset q state_batch r.changeset)
            (apply_transaction_digests q transaction_batch (transfer_digests r.transfers)) floor
            (into_merkleized q x) keeps finalizes in
      let applies =
        apply_prepared_body-returned floor r.transfers r.loaded r.changeset merkleized r.loads
          r.executes (finalizes ∙ ap some v.databases) in
      apply_certified-returned checks.hash_strategy block materialized r.transfers merkleized
        materializes prepares
        (ap (λ f. apply_prepared_body q iteration state_batch transaction_batch f r.transfers)
            same_floor
          ∙ applies)
