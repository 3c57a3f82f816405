-- ===== src/Mempool/Remembered.antt =====
-- The table of statuses: its order lists its keys, and its size is bounded.
use constantinople.Base.{
  ℕ, ◌+◌, ◌≤◌, ◌≡◌, refl, ap, ◌∙◌, inl, inr, ◌&&◌, not, Option, some, List, [], ◌∷◌, ◌++◌, length,
  arith, Eq, bytes_eq, beq_refl, ltb, leb, min, Bool-cases, Option-cases,
}
use constantinople.Base.Dict.{Dict, lookup, insert, remove, insert_new}
use constantinople.Transaction.{SignedTransaction}
use constantinople.Mempool.{
  Config, ProposedBatch, Statuses, Watchers, Mempool, Message, BatchStatus,
}
use constantinople.Mempool.Status.{
  max_status_entries, evict, order_with, remember_status, accepted_status,
  batch_status_from_outcomes,
}
use constantinople.Mempool.Watch.{resolve_batch_if_terminal, resolve_all, watched_batches_for}
use constantinople.Mempool.Actor.{
  new_transactions, is_empty, total_bytes_for, offer, submit, resubmit,
}
use constantinople.Mempool.Messages.{
  any_finalized, finalized_digests, observe_round, record_outcomes, settle_batch, report_batch,
  report_batches, propose, report_block, handle,
}
use constantinople.Mempool.Reachable.{Reachable, Reachable-inv}

abbrev pub keys : {K V : Type 0} → Dict K V → List K
keys [] = []
keys ((k, v) ∷ d) = k ∷ keys d

-- The order lists the keys of the table, and the table is within its limit.
pub record IsRemembered (s : Statuses) : Type 0 where
  pub ordered : keys s.statuses ≡ s.status_order
  pub bounded : length s.statuses ≤ max_status_entries

evict-IsRemembered :
    (d : Dict (List ℕ) BatchStatus) (order expired : List (List ℕ))
    → keys d ≡ order
    → IsRemembered (evict d order expired).0
unfolding evict
evict-IsRemembered [] [] expired h = record { ordered = refl; bounded = omega arith }
evict-IsRemembered [] (k ∷ order) expired h = ground arith
evict-IsRemembered ((k, v) ∷ d) [] expired h = ground arith
evict-IsRemembered ((k, v) ∷ d) (j ∷ order) expired h =
    elim (Bool-cases (ltb max_status_entries (length ((k, v) ∷ d)))) [
      | inl full ↦
          (let same : j ≡ k = ground arith in
            let gone : remove j ((k, v) ∷ d) ≡ d = rw (same, beq_refl k, remove) refl in
            rw (full, gone, evict) (evict-IsRemembered d order (expired ++ j ∷ []) (ground arith)))
      | inr room ↦ rw (room, evict) (record { ordered = h; bounded = ground arith })
    ]

insert-keys :
    (id : List ℕ) (status old : BatchStatus) (d : Dict (List ℕ) BatchStatus)
    → lookup id d ≡ some old
    → keys (insert id status d) ≡ keys d
insert-keys id status old [] h = ground arith
insert-keys id status old ((k, v) ∷ d) h = ground (arith, insert-keys id status old d)

keys-append :
    (d : Dict (List ℕ) BatchStatus) (id : List ℕ) (status : BatchStatus)
    → keys (d ++ (id, status) ∷ []) ≡ keys d ++ id ∷ []
keys-append [] id status = refl
keys-append ((k, v) ∷ d) id status = ap (◌∷◌ k) (keys-append d id status)

pub remember_status-IsRemembered :
    (s : Statuses) (id : List ℕ) (status : BatchStatus)
    → IsRemembered s
    → IsRemembered (remember_status s id status).0
unfolding remember_status
remember_status-IsRemembered s id status h =
    evict-IsRemembered (insert id status s.statuses) _ []
      (elim (Option-cases (lookup id s.statuses)) [
        | inl fresh ↦
            rw (fresh, order_with, insert_new id status s.statuses fresh)
              (keys-append s.statuses id status ∙ ap (λ k. k ++ id ∷ []) h.ordered)
        | inr (old, found) ↦
            rw (found, order_with) (insert-keys id status old s.statuses found ∙ h.ordered)
      ])

module _ (L S : Type 0) {D : Type 0} ⦃e : Eq D⦄ (to_string : D → List ℕ) where
  resolve-IsRemembered :
      (id : List ℕ) (s : Statuses) (w : Watchers D)
      → IsRemembered s
      → IsRemembered (resolve_batch_if_terminal {L = L} {S = S} to_string id s w).0.0
  unfolding resolve_batch_if_terminal
  resolve-IsRemembered id s w h = elim (Option-cases (lookup id w.batch_digests)) [
    | inl untracked ↦ rw (untracked, resolve_batch_if_terminal) h
    | inr (digests, tracked) ↦
        elim (Option-cases (batch_status_from_outcomes to_string digests w.digest_outcomes)) [
          | inl pending ↦ rw (tracked, pending, resolve_batch_if_terminal) h
          | inr (status, settled) ↦
              rw (tracked, settled, resolve_batch_if_terminal)
                (remember_status-IsRemembered s id status h)
        ]
  ]

  resolve_all-IsRemembered :
      (ids : List (List ℕ)) (s : Statuses) (w : Watchers D)
      → IsRemembered s
      → IsRemembered (resolve_all {L = L} {S = S} to_string ids s w).0.0
  resolve_all-IsRemembered [] s w h = h
  resolve_all-IsRemembered (id ∷ ids) s w h =
      let ((s1, w1), replies) = resolve_batch_if_terminal {L = L} {S = S} to_string id s w in
      resolve_all-IsRemembered ids s1 w1 (resolve-IsRemembered id s w h)

module _ {L D S : Type 0} ⦃e : Eq D⦄ (to_string : D → List ℕ) where
  resubmit-IsRemembered :
      (id : List ℕ) (result ingest : Option ℕ) (status : BatchStatus) (m : Mempool L D S)
      → IsRemembered m.remembered
      → IsRemembered (resubmit id result ingest status m).0.remembered
  resubmit-IsRemembered id result ingest (BatchStatus.accepted ds) m h = h
  resubmit-IsRemembered id result ingest (BatchStatus.finalized height ds) m h = h
  resubmit-IsRemembered id result ingest (BatchStatus.partially_finalized height ds fs) m h = h
  resubmit-IsRemembered id result ingest (BatchStatus.dropped fs) m h = h

  module _ (c : Config) where
    submit-IsRemembered :
        (size : S → ℕ) (id : List ℕ) (ds : List D) (txs : List (SignedTransaction L D S))
        (bytes : ℕ) (result ingest : Option ℕ) (m : Mempool L D S)
        → IsRemembered m.remembered
        → IsRemembered (submit c size to_string id ds txs bytes result ingest m).0.remembered
    unfolding submit offer
    submit-IsRemembered size id ds txs bytes result ingest m h =
        elim (Option-cases (lookup id m.remembered.statuses)) [
          | inl unknown ↦
              (let (fresh, known) = new_transactions txs m.known_digests in
                let new_bytes = min (total_bytes_for size fresh) bytes in
                let full =
                  not (is_empty fresh) && ltb c.max_pool_bytes (m.pool_bytes + new_bytes) in
                rw (unknown, submit)
                  (elim (Bool-cases full) [
                    | inl full_pool ↦ rw (full_pool, offer) h
                    | inr room ↦
                        rw (room, offer)
                          (remember_status-IsRemembered m.remembered id
                            (accepted_status to_string ds) h)
                  ]))
          | inr (status, is_known) ↦
              rw (is_known, submit) (resubmit-IsRemembered id result ingest status m h)
        ]

    module _ (iteration : List (List ℕ) → List (List ℕ)) where
      settle_batch-IsRemembered :
          (height : ℕ) (finalized digests : List D) (m : Mempool L D S)
          → IsRemembered m.remembered
          → IsRemembered (settle_batch to_string iteration height finalized digests m).0.remembered
      unfolding settle_batch
      settle_batch-IsRemembered height finalized digests m h =
          let affected = iteration (watched_batches_for digests m.watched.digest_watchers []) in
          let watched : Watchers D = record {
            batch_digests = m.watched.batch_digests;
            digest_watchers = m.watched.digest_watchers;
            digest_outcomes = record_outcomes height finalized digests m.watched.digest_outcomes;
            pending_waiters = m.watched.pending_waiters;
          } in
          resolve_all-IsRemembered L S to_string affected m.remembered watched h

      report_batch-IsRemembered :
          (height : ℕ) (finalized : List D) (batch : ProposedBatch D) (m : Mempool L D S)
          → IsRemembered m.remembered
          → IsRemembered (report_batch c to_string iteration height finalized batch m).0.remembered
      unfolding report_batch
      report_batch-IsRemembered height finalized batch m h =
          elim (Bool-cases (any_finalized batch.digests finalized)) [
            | inl hit ↦
                rw (hit, report_batch)
                  (settle_batch-IsRemembered height finalized batch.digests m h)
            | inr miss ↦ elim (Bool-cases (leb (batch.height + c.drop_grace_blocks) height)) [
              | inl late ↦
                  rw (miss, late, report_batch)
                    (settle_batch-IsRemembered height [] batch.digests m h)
              | inr early ↦ rw (miss, early, report_batch) h
            ]
          ]

      report_batches-IsRemembered :
          (height : ℕ) (finalized : List D) (batches : List (ProposedBatch D)) (m : Mempool L D S)
          → IsRemembered m.remembered
          → IsRemembered
              (report_batches c to_string iteration height finalized batches m).0.remembered
      report_batches-IsRemembered height finalized [] m h = h
      report_batches-IsRemembered height finalized (batch ∷ batches) m h =
          report_batches-IsRemembered height finalized batches
            (report_batch c to_string iteration height finalized batch m).0
            (report_batch-IsRemembered height finalized batch m h)

      handle-IsRemembered :
          (size : S → ℕ) (message : Message L D S) (m : Mempool L D S)
          → IsRemembered m.remembered
          → IsRemembered (handle c size to_string iteration message m).0.remembered
      unfolding handle propose report_block
      handle-IsRemembered size (Message.submit id ds txs bytes result ingest) m h =
          submit-IsRemembered size id ds txs bytes result ingest m h
      handle-IsRemembered size (Message.query_status id response) m h = h
      handle-IsRemembered size (Message.query_consensus_round response) m h = h
      handle-IsRemembered size (Message.propose height response) m h = h
      handle-IsRemembered size (Message.report_block block acknowledgement) m h =
          report_batches-IsRemembered block.height (finalized_digests block.body) m.proposed
            (observe_round block.round m []) h
      handle-IsRemembered size (Message.report_tip round) m h = h

      -- In every state that the actor reaches, `status_order` lists the keys of `statuses` in order,
      -- and there are at most `MAX_STATUS_ENTRIES` of them.
      pub statuses_bounded :
          (size : S → ℕ) (m : Mempool L D S)
          → Reachable c size to_string iteration m
          → IsRemembered m.remembered
      statuses_bounded size =
          Reachable-inv (λ m. IsRemembered m.remembered)
            (record { ordered = refl; bounded = omega arith }) (handle-IsRemembered size)
