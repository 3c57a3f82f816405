-- ===== src/Mempool/Fifo.antt =====
-- What a proposal takes from the pool.
use constantinople.Base.{
  ℕ, ◌+◌, ◌-◌, ◌≤◌, ◌<◌, ◌≡◌, ◌≢◌, refl, sym, ap, ◌∙◌, ◌⊎◌, inl, inr, true, false, ◌&&◌, not, List,
  [], ◌∷◌, ◌++◌, map, append-nil, append_assoc, length, arith, All, Eq, ltb, Bool-cases,
}
use constantinople.Transaction.{SignedTransaction}
use constantinople.Mempool.{Config, PoolEntry, ProposedBatch, Mempool, Reply}
use constantinople.Mempool.Actor.{is_empty, digests_of}
use constantinople.Mempool.Messages.{fill, propose}
use constantinople.Mempool.Bytes.{pool_total, IsWithin, HasTransactions}

module _ {L D S : Type 0} where
  -- The transactions of a run of entries, in order.
  abbrev pub transactions_of : List (PoolEntry L D S) → List (SignedTransaction L D S)
  transactions_of [] = []
  transactions_of (entry ∷ entries) = entry.transactions ++ transactions_of entries

  -- An entry that leaves the pool for a block of this height.
  abbrev pub proposed_at : ℕ → PoolEntry L D S → ProposedBatch D
  proposed_at height entry = record { height = height; digests = digests_of entry.transactions }

  -- What is taken fits, or it is one entry.
  abbrev pub FitsOrSingle : Config → List (PoolEntry L D S) → Type 0
  FitsOrSingle c taken = (pool_total taken ≤ c.max_propose_bytes) ⊎ (length taken ≡ 1)

  -- The next entry, if there is one, does not fit with what is taken.
  abbrev pub IsFull : Config → List (PoolEntry L D S) → ℕ → Type 0
  IsFull c [] bytes = Unit
  IsFull c (entry ∷ pool) bytes = c.max_propose_bytes < bytes + entry.total_bytes

  is_empty-true : (txs : List (SignedTransaction L D S)) → is_empty txs ≡ true → txs ≡ []
  is_empty-true [] h = refl
  is_empty-true (tx ∷ txs) h = ground arith

  append-nonempty :
      (batch txs : List (SignedTransaction L D S)) → is_empty txs ≡ false → batch ++ txs ≢ []
  append-nonempty [] [] h p = ground arith
  append-nonempty [] (tx ∷ txs) h p = ground arith
  append-nonempty (tx ∷ batch) txs h p = ground arith

module _ {L D S : Type 0} ⦃e : Eq D⦄ (c : Config) (height : ℕ) where
  -- `taken` is what `fill` takes of `pool`.
  record IsTaken (pool : List (PoolEntry L D S)) (pool_bytes : ℕ)
      (proposed : List (ProposedBatch D)) (batch : List (SignedTransaction L D S)) (bytes : ℕ)
      (taken : List (PoolEntry L D S)) : Type 0 where
    parts : pool ≡ taken ++ (fill c height pool pool_bytes proposed batch bytes).pool
    sent :
        (fill c height pool pool_bytes proposed batch bytes).batch_txs
        ≡ batch ++ transactions_of taken
    moved :
        (fill c height pool pool_bytes proposed batch bytes).proposed
        ≡ proposed ++ map (proposed_at height) taken
    stops :
        IsFull c
          (fill c height pool pool_bytes proposed batch bytes).pool
          (bytes + pool_total taken)
    fits :
        (bytes + pool_total taken ≤ c.max_propose_bytes)
        ⊎ ((taken ≡ []) ⊎ ((length taken ≡ 1) × (batch ≡ [])))

  last-fits :
      (entry : PoolEntry L D S) (taken : List (PoolEntry L D S)) (bytes : ℕ)
      (batch : List (SignedTransaction L D S))
      → taken ≡ []
      → (ltb c.max_propose_bytes (bytes + entry.total_bytes) && not (is_empty batch)) ≡ false
      → (bytes + pool_total (entry ∷ taken) ≤ c.max_propose_bytes)
        ⊎ ((entry ∷ taken ≡ []) ⊎ ((length (entry ∷ taken) ≡ 1) × (batch ≡ [])))
  last-fits entry taken bytes batch nothing more = rw nothing (elim (Bool-cases (is_empty batch)) [
    | inl first ↦ inr (inr (refl, is_empty-true batch first))
    | inr later ↦ inl (ground arith)
  ])

  fill-takes :
      (pool : List (PoolEntry L D S)) (pool_bytes : ℕ) (proposed : List (ProposedBatch D))
      (batch : List (SignedTransaction L D S)) (bytes : ℕ)
      → All HasTransactions pool
      → (taken : List (PoolEntry L D S)) × IsTaken pool pool_bytes proposed batch bytes taken
  unfolding fill
  fill-takes [] pool_bytes proposed batch bytes g = (
    [],
    record {
      parts = refl;
      sent = sym (append-nil batch);
      moved = sym (append-nil proposed);
      stops = tt;
      fits = inr (inl refl);
    },
  )
  fill-takes (entry ∷ pool) pool_bytes proposed batch bytes g =
      let full = ltb c.max_propose_bytes (bytes + entry.total_bytes) && not (is_empty batch) in
      elim (Bool-cases full) [
        | inl stop ↦ (
          [],
          record {
            parts = rw (stop, fill) refl;
            sent = rw (stop, fill) (sym (append-nil batch));
            moved = rw (stop, fill) (sym (append-nil proposed));
            stops = rw (stop, fill) (ground arith);
            fits = inr (inl refl);
          },
        )
        | inr more ↦
            (let batch_txs = batch ++ entry.transactions in
              let batch_bytes = bytes + entry.total_bytes in
              let (taken, t) =
                fill-takes pool (pool_bytes - entry.total_bytes)
                  (proposed ++ proposed_at height entry ∷ []) batch_txs batch_bytes g.1 in
              let regroup : batch_bytes + pool_total taken ≡ bytes + pool_total (entry ∷ taken) =
                omega arith in
              (
                entry ∷ taken,
                record {
                  parts = rw (more, fill) (ap (◌∷◌ entry) t.parts);
                  sent =
                      rw (more, fill)
                        (t.sent ∙ append_assoc batch entry.transactions (transactions_of taken));
                  moved = rw (more, fill) (t.moved ∙ append_assoc proposed _ _);
                  stops = rw (more, fill) (rw regroup at t.stops);
                  fits = elim t.fits [
                    | inl fit ↦ inl (omega arith)
                    | inr (inl nothing) ↦ last-fits entry taken bytes batch nothing more
                    | inr (inr single) ↦
                        absurd (append-nonempty batch entry.transactions g.0 single.1)
                  ];
                },
              ))
      ]

module _ {L D S : Type 0} ⦃e : Eq D⦄ where
  -- What a proposal takes from the pool of `m`, what it answers, and what it leaves.
  pub record Proposes (c : Config) (height response : ℕ) (m : Mempool L D S)
      (taken : List (PoolEntry L D S)) : Type 0 where
    pub parts : m.pool ≡ taken ++ (propose c height response m).0.pool
    pub answered :
        (propose c height response m).1 ≡ Reply.proposal response (transactions_of taken) ∷ []
    pub moved :
        (propose c height response m).0.proposed ≡ m.proposed ++ map (proposed_at height) taken
    pub stops : IsFull c (propose c height response m).0.pool (pool_total taken)
    pub fits : FitsOrSingle c taken

  -- A proposal answers with the transactions of a front part of the pool, in their order, and moves
  -- just that part to the proposed batches; the part is within `max_propose_bytes` or is one entry,
  -- and the entry after it does not fit. The pool holds no empty entry.
  pub propose-takes_front :
      (c : Config) (height response : ℕ) (m : Mempool L D S)
      → IsWithin c m
      → (taken : List (PoolEntry L D S)) × Proposes c height response m taken
  unfolding propose
  propose-takes_front c height response m h =
      let (taken, t) = fill-takes c height m.pool m.pool_bytes m.proposed [] 0 h.filled in
      let total : 0 + pool_total taken ≡ pool_total taken = omega arith in
      (
        taken,
        record {
          parts = t.parts;
          answered = ap (λ txs. Reply.proposal response txs ∷ []) t.sent;
          moved = t.moved;
          stops = rw total at t.stops;
          fits = elim t.fits [
            | inl fit ↦ inl (omega arith)
            | inr (inl nothing) ↦ inl (rw nothing (omega arith))
            | inr (inr single) ↦ inr single.0
          ];
        },
      )
