-- ===== src/Mempool/Bytes.antt =====
-- The accounting of `pool_bytes`, and its bound.
use constantinople.Base.{
  ℕ, ◌+◌, ◌-◌, ◌≤◌, ◌≡◌, refl, min, inl, inr, false, ◌&&◌, not, Option, List, [], ◌∷◌, ◌++◌, arith,
  All, All-append, Eq, bytes_eq, ltb, leb, Bool-cases, Option-cases,
}
use constantinople.Base.Dict.{lookup}
use constantinople.Transaction.{SignedTransaction}
use constantinople.Mempool.{Config, PoolEntry, ProposedBatch, Mempool, Message, BatchStatus}
use constantinople.Mempool.Actor.{
  offer, new_transactions, push_pool, pushed_bytes, is_empty, total_bytes_for, submit, resubmit,
  digests_of,
}
use constantinople.Mempool.Messages.{
  any_finalized, finalized_digests, observe_round, fill, propose, settle_batch, report_batch,
  report_batches, report_block, handle,
}
use constantinople.Mempool.Reachable.{Reachable, Reachable-inv}

module _ {L D S : Type 0} where
  -- The bytes of the entries of a pool.
  abbrev pub pool_total : List (PoolEntry L D S) → ℕ
  pool_total [] = 0
  pool_total (entry ∷ pool) = entry.total_bytes + pool_total pool

  abbrev pub HasTransactions : PoolEntry L D S → Type 0
  HasTransactions entry = is_empty entry.transactions ≡ false

  -- `pool_bytes` is the sum over the entries, and within the limit; no entry is empty.
  pub record IsWithin (c : Config) (m : Mempool L D S) : Type 0 where
    pub counted : m.pool_bytes ≡ pool_total m.pool
    pub bounded : m.pool_bytes ≤ c.max_pool_bytes
    pub filled : All HasTransactions m.pool

  pool_total-append :
      (pool : List (PoolEntry L D S)) (entry : PoolEntry L D S)
      → pool_total (pool ++ entry ∷ []) ≡ pool_total pool + entry.total_bytes
  pool_total-append [] entry = omega arith
  pool_total-append (x ∷ pool) entry = omega (arith, pool_total-append pool entry)

module _ {L D S : Type 0} ⦃e : Eq D⦄ (c : Config) where
  push-total :
      (txs : List (SignedTransaction L D S)) (bytes pool_bytes : ℕ) (pool : List (PoolEntry L D S))
      → pool_bytes ≡ pool_total pool
      → pushed_bytes txs bytes pool_bytes ≡ pool_total (push_pool txs bytes pool)
  push-total [] bytes pool_bytes pool h = h
  push-total (tx ∷ txs) bytes pool_bytes pool h =
      omega
        (arith, pool_total-append pool (record { transactions = tx ∷ txs; total_bytes = bytes }))

  push-filled :
      (txs : List (SignedTransaction L D S)) (bytes : ℕ) (pool : List (PoolEntry L D S))
      → All HasTransactions pool
      → All HasTransactions (push_pool txs bytes pool)
  push-filled [] bytes pool h = h
  push-filled (tx ∷ txs) bytes pool h = All-append HasTransactions pool _ h (refl, tt)

  push-bound :
      (txs : List (SignedTransaction L D S)) (bytes pool_bytes : ℕ)
      → pool_bytes ≤ c.max_pool_bytes
      → (not (is_empty txs) && ltb c.max_pool_bytes (pool_bytes + bytes)) ≡ false
      → pushed_bytes txs bytes pool_bytes ≤ c.max_pool_bytes
  push-bound [] bytes pool_bytes h f = h
  push-bound (tx ∷ txs) bytes pool_bytes h f = ground arith

  resubmit-IsWithin :
      (id : List ℕ) (result ingest : Option ℕ) (status : BatchStatus) (m : Mempool L D S)
      → IsWithin c m
      → IsWithin c (resubmit id result ingest status m).0
  resubmit-IsWithin id result ingest (BatchStatus.accepted ds) m h = record {
    counted = h.counted;
    bounded = h.bounded;
    filled = h.filled;
  }
  resubmit-IsWithin id result ingest (BatchStatus.finalized height ds) m h = h
  resubmit-IsWithin id result ingest (BatchStatus.partially_finalized height ds fs) m h = h
  resubmit-IsWithin id result ingest (BatchStatus.dropped fs) m h = h

  offer-IsWithin :
      (to_string : D → List ℕ) (id : List ℕ) (ds : List D) (fresh : List (SignedTransaction L D S))
      (bytes : ℕ) (known : List D) (result ingest : Option ℕ) (m : Mempool L D S)
      → IsWithin c m
      → IsWithin c (offer c to_string id ds fresh bytes known result ingest m).0
  unfolding offer
  offer-IsWithin to_string id ds fresh bytes known result ingest m h =
      elim (Bool-cases (not (is_empty fresh) && ltb c.max_pool_bytes (m.pool_bytes + bytes))) [
        | inl full ↦
            rw (full, offer)
              (record { counted = h.counted; bounded = h.bounded; filled = h.filled })
        | inr room ↦
            rw (room, offer)
              (record {
                counted = push-total fresh bytes m.pool_bytes m.pool h.counted;
                bounded = push-bound fresh bytes m.pool_bytes h.bounded room;
                filled = push-filled fresh bytes m.pool h.filled;
              })
      ]

  submit-IsWithin :
      (size : S → ℕ) (to_string : D → List ℕ) (id : List ℕ) (ds : List D)
      (txs : List (SignedTransaction L D S)) (bytes : ℕ) (result ingest : Option ℕ)
      (m : Mempool L D S)
      → IsWithin c m
      → IsWithin c (submit c size to_string id ds txs bytes result ingest m).0
  unfolding submit
  submit-IsWithin size to_string id ds txs bytes result ingest m h =
      elim (Option-cases (lookup id m.remembered.statuses)) [
        | inl unknown ↦
            (let (fresh, known) = new_transactions txs m.known_digests in
              let new_bytes = min (total_bytes_for size fresh) bytes in
              rw (unknown, submit)
                (offer-IsWithin to_string id ds fresh new_bytes known result ingest m h))
        | inr (status, is_known) ↦
            rw (is_known, submit) (resubmit-IsWithin id result ingest status m h)
      ]

  fill-total :
      (height : ℕ) (pool : List (PoolEntry L D S)) (pool_bytes : ℕ)
      (proposed : List (ProposedBatch D)) (batch : List (SignedTransaction L D S)) (bytes : ℕ)
      → pool_bytes ≡ pool_total pool
      → All HasTransactions pool
      → (let f = fill c height pool pool_bytes proposed batch bytes in
          (f.pool_bytes ≡ pool_total f.pool)
          × (f.pool_bytes ≤ pool_bytes)
          × All HasTransactions f.pool)
  unfolding fill
  fill-total height [] pool_bytes proposed batch bytes h g = (h, omega arith, g)
  fill-total height (entry ∷ pool) pool_bytes proposed batch bytes h g =
      let full = ltb c.max_propose_bytes (bytes + entry.total_bytes) && not (is_empty batch) in
      elim (Bool-cases full) [
        | inl stop ↦ rw (stop, fill) (h, omega arith, g)
        | inr more ↦
            (let (counted, bounded, filled) =
                fill-total height pool (pool_bytes - entry.total_bytes)
                  (proposed
                    ++ record { height = height; digests = digests_of entry.transactions } ∷ [])
                  (batch ++ entry.transactions) (bytes + entry.total_bytes) (omega arith) g.1 in
              rw (more, fill) (counted, omega arith, filled))
      ]

  propose-IsWithin :
      (height response : ℕ) (m : Mempool L D S)
      → IsWithin c m
      → IsWithin c (propose c height response m).0
  unfolding propose
  propose-IsWithin height response m h =
      let (counted, shrunk, filled) =
        fill-total height m.pool m.pool_bytes m.proposed [] 0 h.counted h.filled in
      record { counted = counted; bounded = omega (arith, h.bounded); filled = filled }

  module _ (to_string : D → List ℕ) (iteration : List (List ℕ) → List (List ℕ)) where
    report_batch-IsWithin :
        (height : ℕ) (finalized : List D) (batch : ProposedBatch D) (m : Mempool L D S)
        → IsWithin c m
        → IsWithin c (report_batch c to_string iteration height finalized batch m).0
    unfolding report_batch settle_batch
    report_batch-IsWithin height finalized batch m h =
        elim (Bool-cases (any_finalized batch.digests finalized)) [
          | inl hit ↦
              rw (hit, report_batch)
                (record { counted = h.counted; bounded = h.bounded; filled = h.filled })
          | inr miss ↦ elim (Bool-cases (leb (batch.height + c.drop_grace_blocks) height)) [
            | inl late ↦
                rw (miss, late, report_batch)
                  (record { counted = h.counted; bounded = h.bounded; filled = h.filled })
            | inr early ↦
                rw (miss, early, report_batch)
                  (record { counted = h.counted; bounded = h.bounded; filled = h.filled })
          ]
        ]

    report_batches-IsWithin :
        (height : ℕ) (finalized : List D) (batches : List (ProposedBatch D)) (m : Mempool L D S)
        → IsWithin c m
        → IsWithin c (report_batches c to_string iteration height finalized batches m).0
    report_batches-IsWithin height finalized [] m h = h
    report_batches-IsWithin height finalized (batch ∷ batches) m h =
        report_batches-IsWithin height finalized batches
          (report_batch c to_string iteration height finalized batch m).0
          (report_batch-IsWithin height finalized batch m h)

    handle-IsWithin :
        (size : S → ℕ) (message : Message L D S) (m : Mempool L D S)
        → IsWithin c m
        → IsWithin c (handle c size to_string iteration message m).0
    unfolding handle report_block
    handle-IsWithin size (Message.submit id ds txs bytes result ingest) m h =
        submit-IsWithin size to_string id ds txs bytes result ingest m h
    handle-IsWithin size (Message.query_status id response) m h = h
    handle-IsWithin size (Message.query_consensus_round response) m h = h
    handle-IsWithin size (Message.propose height response) m h =
        propose-IsWithin height response m h
    handle-IsWithin size (Message.report_block block acknowledgement) m h =
        report_batches-IsWithin block.height (finalized_digests block.body) m.proposed
          (observe_round block.round m [])
          (record { counted = h.counted; bounded = h.bounded; filled = h.filled })
    handle-IsWithin size (Message.report_tip round) m h = record {
      counted = h.counted;
      bounded = h.bounded;
      filled = h.filled;
    }

    -- In every state that the actor reaches, `pool_bytes` is the sum of the sizes of the entries of
    -- the pool, it is at most `max_pool_bytes`, and no entry is empty.
    pub pool_bytes_bounded :
        (size : S → ℕ) (m : Mempool L D S) → Reachable c size to_string iteration m → IsWithin c m
    pool_bytes_bounded size =
        Reachable-inv (λ m. IsWithin c m)
          (record { counted = refl; bounded = omega arith; filled = tt }) (handle-IsWithin size)
