-- ===== src/Consensus/Honest.antt =====
-- A block that an honest proposer builds is verified, by a node with the same parent and batches.
use constantinople.Base.{
  ℕ, ◌≡◌, refl, sym, ap, subst, ◌∙◌, inl, inr, true, Option, none, some, List, [], ◌∷◌, map,
  collect, length, arith, All, All-append, Eq, beq_refl, eqb_iff, Bool-cases, Option-cases, ◌>>=◌,
}
use constantinople.Account.{AccountKey, Account}
use constantinople.Transaction.{SignedTransaction}
use constantinople.Block.{SealedBlock, Header, Context, new_block, seal_block}
use constantinople.Executor.{State, Changeset, PreparedTransfer, new_overlay, apply_transfer}
use constantinople.Executor.Agreement.{execute-propose_prepared}
use constantinople.Executor.Partition.{prepare_transfer-propose}
use constantinople.Executor.Proposal.{
  ProposalInput, PreparedTransaction, Filtering, prepare_transfer, prepare_proposal, try_candidate,
  filter_from, propose_prepared, propose,
}
use constantinople.Consensus.{Databases, Outcome, is_valid_child_timestamp}
use constantinople.Consensus.Load.{
  LoadedState, load_state, load_execution_state, execute_loaded, apply_changeset,
  apply_transaction_digests, transfer_digests,
}
use constantinople.Consensus.Execution.{
  BlockExecution, ProposalExecution, execute_proposal, execute_body, finalize_child, commit_child,
  commitments_match, into_merkleized, same_range,
}
use constantinople.Consensus.Lifecycle.{
  SignatureChecks, verify_signatures, candidate_transfers, child_header, propose_child,
  verify_child, check_commitments,
}
use constantinople.Consensus.Reads.{
  Reads, KeepsElements, load_state-HoldsFor, execute_loaded-eq-execute,
}

module _ {L D S : Type 0} (P : PreparedTransfer D → Type 0) where
  try_candidate-All :
      (f : Filtering L D S) (c : PreparedTransaction L D S)
      → P c.transfer
      → All P f.transfers
      → All P (try_candidate f c).transfers
  unfolding try_candidate
  try_candidate-All f c p h = elim (Bool-cases (apply_transfer f.overlay c.transfer).1) [
    | inl applied ↦ rw applied (All-append P f.transfers (c.transfer ∷ []) h (p, tt))
    | inr refused ↦ rw refused h
  ]

  filter_from-All :
      (f : Filtering L D S) (cs : List (PreparedTransaction L D S))
      → All P (map (λ c. c.transfer) cs)
      → All P f.transfers
      → All P (filter_from f cs).transfers
  unfolding filter_from
  filter_from-All f [] p h = h
  filter_from-All f (c ∷ cs) p h =
      filter_from-All (try_candidate f c) cs p.1 (try_candidate-All f c p.0 h)

  propose_prepared-All :
      (s : State) (input : ProposalInput L D S)
      → All P (candidate_transfers input)
      → All P (propose_prepared s input).transfers
  unfolding propose_prepared
  propose_prepared-All s input h =
      filter_from-All
        (record { overlay = new_overlay s; valid = []; transfers = []; invalid = input.invalid })
        input.candidates h tt

module _ {A B : Type 0} where
  length-collect :
      (f : A → Option B) (xs : List A) (ys : List B)
      → collect f xs ≡ some ys
      → length ys ≡ length xs
  length-collect f [] ys p = ground arith
  length-collect f (x ∷ xs) [] p = ground arith
  length-collect f (x ∷ xs) (y ∷ ys) p = ground (arith, length-collect f xs ys)

  pub collect-decoded :
      (f : A → Option B) (xs : List A) → collect (λ x. x >>= f) (map some xs) ≡ collect f xs
  collect-decoded f [] = refl
  collect-decoded f (x ∷ xs) = ground (arith, collect-decoded f xs)

same_range_refl : (r : ℕ × ℕ) → same_range r r ≡ true
same_range_refl r = ground (arith, eqb_iff r.0 r.0, eqb_iff r.1 r.1)

module _ {C D P : Type 0} ⦃e : Eq D⦄ (q : Databases D) where
  commitments_match-child_header :
      {L S : Type 0} (context : Context C P) (timestamp : ℕ) (parent : SealedBlock C D P L S)
      (x : BlockExecution q)
      → commitments_match q (child_header q context timestamp parent x) x ≡ true
  unfolding commitments_match
  commitments_match-child_header context timestamp parent x = ground (
    arith,
    beq_refl (q.state_root x.state),
    beq_refl (q.transactions_root x.transactions),
    same_range_refl x.state_sync_range,
    same_range_refl x.transactions_range,
  )

-- What `some` holds.
abbrev pub from_some : {A : Type 0} → A → Option A → A
from_some a none = a
from_some a (some b) = b

module _ {C D P L S : Type 0} ⦃e : Eq D⦄ (q : Databases D) (write_sender : L → List ℕ)
    (sha256 : List ℕ → List ℕ) (iteration : List AccountKey → List AccountKey)
    (state_batch : q.StateBatch) (transaction_batch : q.TransactionBatch)
    (parent : SealedBlock C D P L S) where
  execute_body-returned :
      (body : List (Option (SignedTransaction L D S))) (ts : List (PreparedTransfer D))
      (loaded : LoadedState) (changeset : Changeset) (x : BlockExecution q)
      → collect (λ tx. tx >>= prepare_transfer write_sender sha256) body ≡ some ts
      → load_execution_state q iteration state_batch ts ≡ some loaded
      → execute_loaded loaded ts ≡ some changeset
      → commit_child q state_batch transaction_batch parent changeset ts ≡ some x
      → execute_body q write_sender sha256 iteration state_batch transaction_batch parent body
        ≡ Outcome.returned x
  unfolding execute_body
  execute_body-returned body ts loaded changeset x prepares loads executes commits =
      rw (prepares, execute_body, loads, executes, commits) refl

  finished :
      (r : Option (BlockExecution q)) (body : List (SignedTransaction L D S))
      (x : ProposalExecution q L S)
      → (do block ← r; some (record { block = block; body = body })) ≡ some x
      → (x.body ≡ body) × (r ≡ some x.block)
  finished none body x h = ground arith
  finished (some block) body x h =
      (ap (λ o. (from_some x o).body) (sym h), ap (λ o. some (from_some x o).block) h)

  execute_proposal-some :
      (s : State) (input : ProposalInput L D S) (ts : List (PreparedTransfer D))
      (x : ProposalExecution q L S)
      → load_state q iteration state_batch ts ≡ some s
      → execute_proposal q write_sender sha256 iteration state_batch transaction_batch parent input
          ts
        ≡ some x
      → (let out = propose_prepared s input in
          (x.body ≡ out.valid)
          × (finalize_child q
                (apply_changeset q state_batch out.changeset)
                (apply_transaction_digests q transaction_batch (transfer_digests out.transfers))
                parent
                (length out.valid)
              ≡ some x.block))
  unfolding execute_proposal
  execute_proposal-some s input ts x loads h =
      let out = propose_prepared s input in
      finished
        (finalize_child q (apply_changeset q state_batch out.changeset)
          (apply_transaction_digests q transaction_batch (transfer_digests out.transfers)) parent
          (length out.valid))
        out.valid x (rw (loads, execute_proposal) at h)

module _ {C D P L S : Type 0} ⦃e : Eq D⦄ (q : Databases D) (write_sender : L → List ℕ)
    (sha256 : List ℕ → List ℕ) (iteration : List AccountKey → List AccountKey)
    (contents : AccountKey → Option Account) (state_batch : q.StateBatch)
    (transaction_batch : q.TransactionBatch) (parent : SealedBlock C D P L S)
    (reads : Reads q state_batch contents) (keeps : KeepsElements iteration) where
  -- The body of a proposal executes, as a verifier executes it, to what the proposer has.
  execute_body-execute_proposal :
      (txs : List (SignedTransaction L D S)) (x : ProposalExecution q L S)
      → (let input = prepare_proposal write_sender sha256 txs in
          execute_proposal q write_sender sha256 iteration state_batch transaction_batch parent
            input
            (candidate_transfers input)
          ≡ some x)
      → execute_body q write_sender sha256 iteration state_batch transaction_batch parent
          (map some x.body)
        ≡ Outcome.returned x.block
  unfolding propose
  execute_body-execute_proposal txs x p =
      let input = prepare_proposal write_sender sha256 txs in
      let (s, loads, holds) =
        load_state-HoldsFor q iteration contents state_batch (candidate_transfers input) reads
          keeps in
      let out = propose_prepared s input in
      let kept = propose_prepared-All _ s input holds in
      let (loaded, executes, same) =
        execute_loaded-eq-execute q iteration contents state_batch s out.transfers reads keeps
          kept in
      let prepares = prepare_transfer-propose write_sender sha256 s txs in
      let (body, commits) =
        execute_proposal-some q write_sender sha256 iteration state_batch transaction_batch parent s
          input (candidate_transfers input) x loads p in
      let counted : length out.transfers ≡ length out.valid =
        length-collect (prepare_transfer write_sender sha256) out.valid out.transfers prepares in
      rw body (
        execute_body-returned q write_sender sha256 iteration state_batch transaction_batch parent
          (map some out.valid) out.transfers loaded out.changeset x.block
          (collect-decoded (prepare_transfer write_sender sha256) out.valid ∙ prepares) executes
          (same ∙ execute-propose_prepared s input) (rw counted commits))

  -- What `propose_child` makes of its execution.
  abbrev proposed :
      (Header C D P → D)
      → ℕ
      → Context C P
      → ProposalExecution q L S
      → SealedBlock C D P L S × (q.StateMerkleized × q.TransactionMerkleized)
  proposed hash_slow timestamp context x = (
    seal_block hash_slow (new_block (child_header q context timestamp parent x.block) x.body),
    into_merkleized q x.block,
  )

  -- The proposal that is the pair `y` is verified.
  abbrev IsVerified :
      SignatureChecks L D S
      → SealedBlock C D P L S × (q.StateMerkleized × q.TransactionMerkleized)
      → Type 0
  IsVerified checks y =
      verify_signatures checks y.0.inner.body ≡ Outcome.returned tt
      → verify_child q write_sender sha256 iteration checks y.0 parent state_batch transaction_batch
        ≡ Outcome.returned (some y.1)

  proposed-IsVerified :
      (hash_slow : Header C D P → D) (timestamp : ℕ) (context : Context C P)
      (txs : List (SignedTransaction L D S)) (checks : SignatureChecks L D S)
      (x : ProposalExecution q L S)
      → (let input = prepare_proposal write_sender sha256 txs in
          execute_proposal q write_sender sha256 iteration state_batch transaction_batch parent
            input
            (candidate_transfers input)
          ≡ some x)
      → is_valid_child_timestamp parent.inner.header.timestamp timestamp ≡ true
      → IsVerified checks (proposed hash_slow timestamp context x)
  unfolding verify_child
  proposed-IsVerified hash_slow timestamp context txs checks x runs time signed =
      rw
        (
          time,
          verify_child,
          signed,
          execute_body-execute_proposal txs x runs,
          check_commitments,
          commitments_match-child_header q context timestamp parent x.block,
        )
        refl

  -- A block that a proposer builds at a valid time, whose transactions carry valid signatures, is
  -- verified by a node with the same parent and batches, and both get the same databases. The state
  -- batch reads as a function of the keys, and the order of iteration of a set keeps its elements.
  pub propose_child-verifies :
      (hash_slow : Header C D P → D) (timestamp : ℕ) (context : Context C P)
      (txs : List (SignedTransaction L D S)) (checks : SignatureChecks L D S)
      (block : SealedBlock C D P L S) (merkleized : q.StateMerkleized × q.TransactionMerkleized)
      → propose_child q write_sender sha256 iteration hash_slow timestamp context parent state_batch
          transaction_batch txs
        ≡ some (block, merkleized)
      → is_valid_child_timestamp parent.inner.header.timestamp timestamp ≡ true
      → verify_signatures checks block.inner.body ≡ Outcome.returned tt
      → verify_child q write_sender sha256 iteration checks block parent state_batch
          transaction_batch
        ≡ Outcome.returned (some merkleized)
  unfolding propose_child verify_child
  propose_child-verifies hash_slow timestamp context txs checks block merkleized p time signed =
      let input = prepare_proposal write_sender sha256 txs in
      elim (Option-cases (
        execute_proposal q write_sender sha256 iteration state_batch transaction_batch parent input
          (candidate_transfers input))) [
            | inl panics ↦ absurd (ground (arith, rw (panics, propose_child) at p))
            | inr (x, runs) ↦
                (let made = proposed hash_slow timestamp context x in
                  let same : made ≡ (block, merkleized) =
                    ap (from_some made) (rw (runs, propose_child) at p) in
                  subst (IsVerified checks) same
                    (proposed-IsVerified hash_slow timestamp context txs checks x runs time) signed)
          ]
