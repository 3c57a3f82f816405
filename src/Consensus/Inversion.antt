-- ===== src/Consensus/Inversion.antt =====
-- What the execution and the verification of a body have gone through, from what they return.
use constantinople.Base.{
  ℕ, ◌≡◌, refl, sym, ap, ◌∙◌, inl, inr, true, Option, none, some, List, [], ◌∷◌, map, collect,
  arith, Eq, Bool-cases, ◌>>=◌, ltb,
}
use constantinople.Account.{AccountKey}
use constantinople.Transaction.{SignedTransaction}
use constantinople.Block.{SealedBlock, Header}
use constantinople.Executor.{PreparedTransfer, Changeset}
use constantinople.Executor.Proposal.{prepare_transfer}
use constantinople.Consensus.{
  Databases, Outcome, Reason, Bounds, expect, ok_or, ◌and_then◌, is_valid_child_timestamp,
  parent_transactions_inactivity_floor, range_from_bounds,
}
use constantinople.Consensus.Load.{LoadedState, load_execution_state, execute_loaded}
use constantinople.Consensus.Execution.{
  BlockExecution, execute_body, finalize_child, finalize_execution, commit_child, commitments_match,
  into_merkleized,
}
use constantinople.Consensus.Lifecycle.{
  SignatureChecks, check_commitments, verify_signatures, verify_child,
}
use constantinople.Consensus.Honest.{from_some}

module _ {A B : Type 0} where
  pub and_then-returned :
      (o : Outcome A) (f : A → Outcome B) (b : B)
      → (o and_then f) ≡ Outcome.returned b
      → (a : A) × (o ≡ Outcome.returned a) × (f a ≡ Outcome.returned b)
  and_then-returned Outcome.panicked f b h = absurd (ground arith)
  and_then-returned (Outcome.rejected reason) f b h = absurd (ground arith)
  and_then-returned (Outcome.returned a) f b h = (a, refl, h)

  pub bind-some :
      (o : Option A) (f : A → Option B) (b : B)
      → (o >>= f) ≡ some b
      → (a : A) × (o ≡ some a) × (f a ≡ some b)
  bind-some none f b h = absurd (ground arith)
  bind-some (some a) f b h = (a, refl, h)

module _ {A : Type 0} where
  expect-returned : (o : Option A) (a : A) → expect o ≡ Outcome.returned a → o ≡ some a
  expect-returned none a h = absurd (ground arith)
  expect-returned (some b) a h = ground arith

  pub ok_or-returned :
      (reason : Reason) (o : Option A) (a : A) → ok_or reason o ≡ Outcome.returned a → o ≡ some a
  ok_or-returned reason none a h = absurd (ground arith)
  ok_or-returned reason (some b) a h = ground arith

  pub collect-some :
      (xs : List (Option A)) (ys : List A) → collect (λ x. x) xs ≡ some ys → xs ≡ map some ys
  collect-some [] [] h = refl
  collect-some [] (y ∷ ys) h = ground arith
  collect-some (none ∷ xs) ys h = absurd (ground arith)
  collect-some (some x ∷ xs) [] h = ground arith
  collect-some (some x ∷ xs) (y ∷ ys) h = ground (arith, collect-some xs ys)

range_from_bounds-start :
    (b : Bounds) (r : ℕ × ℕ) → range_from_bounds b ≡ some r → r.0 ≡ b.inactivity_floor
range_from_bounds-start b r h = elim (Bool-cases (ltb b.inactivity_floor b.total_size)) [
  | inl fits ↦ ap (λ o. (from_some r o).0) (sym (rw fits at h))
  | inr empty ↦ absurd (ground arith)
]

module _ {D : Type 0} (q : Databases D) where
  -- What `finalize_child` merkleizes, and where its transaction range starts.
  pub finalize_child-some :
      {C P L S : Type 0} (state_batch : q.StateBatch) (transaction_batch : q.TransactionBatch)
      (parent : SealedBlock C D P L S) (count : ℕ) (x : BlockExecution q)
      → finalize_child q state_batch transaction_batch parent count ≡ some x
      → (floor : ℕ) × (finalize_execution q state_batch
            (q.with_inactivity_floor transaction_batch floor)
          ≡ some (into_merkleized q x))
        × (x.transactions_range.0 ≡ (q.transactions_bounds x.transactions).inactivity_floor)
  unfolding finalize_child
  finalize_child-some state_batch transaction_batch parent count x h =
      let (floor, h0, h1) = bind-some (parent_transactions_inactivity_floor parent) _ x h in
      let (m, h2, h3) =
        bind-some
          (finalize_execution q state_batch (q.with_inactivity_floor transaction_batch floor)) _ x
          h1 in
      let (r, h4, h5) = bind-some (range_from_bounds (q.state_bounds m.0)) _ x h3 in
      let (t, h6, h7) = bind-some (range_from_bounds (q.transactions_bounds m.1)) _ x h5 in
      let made : m ≡ into_merkleized q x = ap (λ o. into_merkleized q (from_some x o)) h7 in
      let start : x.transactions_range.0 ≡ t.0 =
        ap (λ o. (from_some x o).transactions_range.0) (sym h7) in
      let same : (q.transactions_bounds m.1).inactivity_floor
          ≡ (q.transactions_bounds x.transactions).inactivity_floor =
        ap (λ y. (q.transactions_bounds y.1).inactivity_floor) made in
      (
        floor,
        h2 ∙ ap some made,
        start ∙ range_from_bounds-start (q.transactions_bounds m.1) t h6 ∙ same,
      )

-- A refusal is not an acceptance.
accepted_or : {A : Type 0} → A → Outcome (Option A) → A
accepted_or a Outcome.panicked = a
accepted_or a (Outcome.rejected reason) = a
accepted_or a (Outcome.returned none) = a
accepted_or a (Outcome.returned (some b)) = b

check_commitments-some :
    {C D P : Type 0} ⦃e : Eq D⦄ (q : Databases D) (header : Header C D P)
    (o : Outcome (BlockExecution q)) (m : q.StateMerkleized × q.TransactionMerkleized)
    → check_commitments q header o ≡ Outcome.returned (some m)
    → (x : BlockExecution q) × (o ≡ Outcome.returned x)
      × (commitments_match q header x ≡ true)
      × (into_merkleized q x ≡ m)
unfolding accepted_or
check_commitments-some q header Outcome.panicked m h = absurd (ground arith)
check_commitments-some q header (Outcome.rejected reason) m h = absurd (ground arith)
check_commitments-some q header (Outcome.returned x) m h =
    elim (Bool-cases (commitments_match q header x)) [
      | inl yes_match ↦
          (x, refl, yes_match, ap (accepted_or m) (rw (yes_match, check_commitments) at h))
      | inr mismatch ↦ absurd (ground (arith, rw (mismatch, check_commitments) at h))
    ]

module _ {C D P L S : Type 0} (q : Databases D) (write_sender : L → List ℕ)
    (sha256 : List ℕ → List ℕ) (iteration : List AccountKey → List AccountKey)
    (state_batch : q.StateBatch) (transaction_batch : q.TransactionBatch)
    (parent : SealedBlock C D P L S) where
  -- What a body that executes has gone through.
  pub record Executed (body : List (Option (SignedTransaction L D S))) (x : BlockExecution q)
      : Type 0 where
    pub transfers : List (PreparedTransfer D)
    pub loaded : LoadedState
    pub changeset : Changeset
    pub prepares : collect (λ tx. tx >>= prepare_transfer write_sender sha256) body ≡ some transfers
    pub loads : load_execution_state q iteration state_batch transfers ≡ some loaded
    pub executes : execute_loaded loaded transfers ≡ some changeset
    pub commits : commit_child q state_batch transaction_batch parent changeset transfers ≡ some x

  pub execute_body-Executed :
      (body : List (Option (SignedTransaction L D S))) (x : BlockExecution q)
      → execute_body q write_sender sha256 iteration state_batch transaction_batch parent body
        ≡ Outcome.returned x
      → Executed body x
  unfolding execute_body
  execute_body-Executed body x h =
      let prepared = collect (λ tx. tx >>= prepare_transfer write_sender sha256) body in
      let (ts, h0, h1) = and_then-returned (ok_or Reason.malformed_transaction prepared) _ x h in
      let (loaded, h2, h3) =
        and_then-returned (expect (load_execution_state q iteration state_batch ts)) _ x h1 in
      let (changeset, h4, h5) =
        and_then-returned (ok_or Reason.static_invalid_transaction (execute_loaded loaded ts)) _ x
          h3 in
      record {
        transfers = ts;
        loaded = loaded;
        changeset = changeset;
        prepares = ok_or-returned Reason.malformed_transaction prepared ts h0;
        loads = expect-returned (load_execution_state q iteration state_batch ts) loaded h2;
        executes =
            ok_or-returned Reason.static_invalid_transaction (execute_loaded loaded ts) changeset
              h4;
        commits =
            expect-returned (commit_child q state_batch transaction_batch parent changeset ts) x h5;
      }

  module _ ⦃e : Eq D⦄ (checks : SignatureChecks L D S) (block : SealedBlock C D P L S)
      (merkleized : q.StateMerkleized × q.TransactionMerkleized) where
    -- What a block that verifies has gone through.
    pub record Verified : Type 0 where
      pub execution : BlockExecution q
      pub signed : verify_signatures checks block.inner.body ≡ Outcome.returned tt
      pub executed :
          execute_body q write_sender sha256 iteration state_batch transaction_batch parent
            block.inner.body
          ≡ Outcome.returned execution
      pub matches : commitments_match q block.inner.header execution ≡ true
      pub databases : into_merkleized q execution ≡ merkleized

    pub verify_child-Verified :
        verify_child q write_sender sha256 iteration checks block parent state_batch
            transaction_batch
          ≡ Outcome.returned (some merkleized)
        → Verified
    unfolding verify_child
    verify_child-Verified h =
        let valid =
          is_valid_child_timestamp parent.inner.header.timestamp block.inner.header.timestamp in
        let run =
          execute_body q write_sender sha256 iteration state_batch transaction_batch parent
            block.inner.body in
        elim (Bool-cases valid) [
          | inl in_time ↦
              (let joined = verify_signatures checks block.inner.body and_then λ u. run in
                let (x, ran, matches, databases) =
                  check_commitments-some q block.inner.header joined merkleized
                    (rw (in_time, verify_child) at h) in
                let (u, signed, executed) =
                  and_then-returned (verify_signatures checks block.inner.body) (λ u. run) x ran in
                record {
                  execution = x;
                  signed = signed;
                  executed = executed;
                  matches = matches;
                  databases = databases;
                })
          | inr late ↦ absurd (ground (arith, rw (late, verify_child) at h))
        ]
