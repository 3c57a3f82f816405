-- ===== src/Mempool/Known.antt =====
-- `known_digests` is the set of the digests in the pool or in a proposed batch, each there once.
use constantinople.Base.{
  ℕ, ◌+◌, ◌-◌, ◌≡◌, refl, inl, inr, ◌&&◌, not, Option, List, [], ◌∷◌, ◌++◌, arith, Eq, bytes_eq,
  ltb, leb, min, Bool-cases, Option-cases,
}
use constantinople.Base.Dict.{lookup, elem}
use constantinople.Transaction.{SignedTransaction}
use constantinople.Mempool.{Config, PoolEntry, ProposedBatch, Mempool, Message, BatchStatus}
use constantinople.Mempool.Actor.{
  digests_of, new_transactions, is_empty, total_bytes_for, offer, submit, resubmit,
}
use constantinople.Mempool.Messages.{
  any_finalized, finalized_digests, observe_round, fill, propose, settle_batch, report_batch,
  report_batches, report_block, handle,
}
use constantinople.Mempool.Reachable.{Reachable, Reachable-inv}
use constantinople.Mempool.Counts.{
  bit, pending, proposed_digests, pool_digests, count, count-append, bit-discard_all,
  count-new_transactions, IsTracked, pool_digests-push, proposed_digests-append,
}

module _ {L D S : Type 0} ⦃e : Eq D⦄ where
  resubmit-IsTracked :
      (d : D) (id : List ℕ) (result ingest : Option ℕ) (status : BatchStatus) (m : Mempool L D S)
      → IsTracked d [] m
      → IsTracked d [] (resubmit id result ingest status m).0
  resubmit-IsTracked d id result ingest (BatchStatus.accepted ds) m h = h
  resubmit-IsTracked d id result ingest (BatchStatus.finalized height ds) m h = h
  resubmit-IsTracked d id result ingest (BatchStatus.partially_finalized height ds fs) m h = h
  resubmit-IsTracked d id result ingest (BatchStatus.dropped fs) m h = h

  module _ (c : Config) (to_string : D → List ℕ) where
    submit-IsTracked :
        (size : S → ℕ) (d : D) (id : List ℕ) (ds : List D) (txs : List (SignedTransaction L D S))
        (bytes : ℕ) (result ingest : Option ℕ) (m : Mempool L D S)
        → IsTracked d [] m
        → IsTracked d [] (submit c size to_string id ds txs bytes result ingest m).0
    unfolding submit offer
    submit-IsTracked size d id ds txs bytes result ingest m h =
        elim (Option-cases (lookup id m.remembered.statuses)) [
          | inl unknown ↦
              (let (fresh, known) = new_transactions txs m.known_digests in
                let new_bytes = min (total_bytes_for size fresh) bytes in
                let full =
                  not (is_empty fresh) && ltb c.max_pool_bytes (m.pool_bytes + new_bytes) in
                let added = count-new_transactions d txs m.known_digests in
                rw (unknown, submit)
                  (elim (Bool-cases full) [
                    | inl full_pool ↦
                        rw (full_pool, offer)
                          (bit-discard_all d (digests_of fresh) known _ (omega arith))
                    | inr room ↦
                        rw (room, offer) (omega (arith, pool_digests-push d fresh new_bytes m.pool))
                  ]))
          | inr (status, is_known) ↦
              rw (is_known, submit) (resubmit-IsTracked d id result ingest status m h)
        ]

    fill-count :
        (d : D) (height : ℕ) (pool : List (PoolEntry L D S)) (pool_bytes : ℕ)
        (proposed : List (ProposedBatch D)) (batch : List (SignedTransaction L D S)) (bytes : ℕ)
        → (let f = fill c height pool pool_bytes proposed batch bytes in
            count d (pool_digests f.pool) + count d (proposed_digests f.proposed)
            ≡ count d (pool_digests pool) + count d (proposed_digests proposed))
    unfolding fill
    fill-count d height [] pool_bytes proposed batch bytes = refl
    fill-count d height (entry ∷ pool) pool_bytes proposed batch bytes =
        let full = ltb c.max_propose_bytes (bytes + entry.total_bytes) && not (is_empty batch) in
        let next : ProposedBatch D = record {
          height = height;
          digests = digests_of entry.transactions;
        } in
        elim (Bool-cases full) [
          | inl stop ↦ rw (stop, fill) refl
          | inr more ↦
              (let rest =
                  fill-count d height pool (pool_bytes - entry.total_bytes) (proposed ++ next ∷ [])
                    (batch ++ entry.transactions) (bytes + entry.total_bytes) in
                rw (more, fill)
                  (omega (
                    arith,
                    rest,
                    count-append d (digests_of entry.transactions) (pool_digests pool),
                    proposed_digests-append d proposed next,
                  )))
        ]

    module _ (iteration : List (List ℕ) → List (List ℕ)) where
      report_batch-IsTracked :
          (d : D) (height : ℕ) (finalized : List D) (batch : ProposedBatch D)
          (rest : List (ProposedBatch D)) (m : Mempool L D S)
          → IsTracked d (batch ∷ rest) m
          → IsTracked d rest (report_batch c to_string iteration height finalized batch m).0
      unfolding report_batch settle_batch
      report_batch-IsTracked d height finalized batch rest m h =
          let parts = count-append d batch.digests (proposed_digests rest) in
          let gone =
            bit-discard_all d batch.digests m.known_digests
              (pending d m + count d (proposed_digests rest)) (omega (arith, h, parts)) in
          elim (Bool-cases (any_finalized batch.digests finalized)) [
            | inl hit ↦ rw (hit, report_batch) gone
            | inr miss ↦ elim (Bool-cases (leb (batch.height + c.drop_grace_blocks) height)) [
              | inl late ↦ rw (miss, late, report_batch) gone
              | inr early ↦
                  rw (miss, early, report_batch)
                    (omega (arith, h, parts, proposed_digests-append d m.proposed batch))
            ]
          ]

      report_batches-IsTracked :
          (d : D) (height : ℕ) (finalized : List D) (batches : List (ProposedBatch D))
          (m : Mempool L D S)
          → IsTracked d batches m
          → IsTracked d [] (report_batches c to_string iteration height finalized batches m).0
      report_batches-IsTracked d height finalized [] m h = h
      report_batches-IsTracked d height finalized (batch ∷ batches) m h =
          report_batches-IsTracked d height finalized batches
            (report_batch c to_string iteration height finalized batch m).0
            (report_batch-IsTracked d height finalized batch batches m h)

      handle-IsTracked :
          (size : S → ℕ) (d : D) (message : Message L D S) (m : Mempool L D S)
          → IsTracked d [] m
          → IsTracked d [] (handle c size to_string iteration message m).0
      unfolding handle propose report_block
      handle-IsTracked size d (Message.submit id ds txs bytes result ingest) m h =
          submit-IsTracked size d id ds txs bytes result ingest m h
      handle-IsTracked size d (Message.query_status id response) m h = h
      handle-IsTracked size d (Message.query_consensus_round response) m h = h
      handle-IsTracked size d (Message.propose height response) m h =
          omega (arith, fill-count d height m.pool m.pool_bytes m.proposed [] 0)
      handle-IsTracked size d (Message.report_block block acknowledgement) m h =
          report_batches-IsTracked d block.height (finalized_digests block.body) m.proposed
            (observe_round block.round m []) (omega (arith, h))
      handle-IsTracked size d (Message.report_tip round) m h = h

      -- In every state that the actor reaches, a known digest is in the pool or in a proposed batch
      -- exactly once, and a digest that is not known is in neither.
      pub known-once :
          (size : S → ℕ) (d : D) (m : Mempool L D S)
          → Reachable c size to_string iteration m
          → pending d m ≡ bit (elem d m.known_digests)
      known-once size d m r =
          let tracked = Reachable-inv (λ m. IsTracked d [] m) refl (handle-IsTracked size d) m r in
          omega arith
