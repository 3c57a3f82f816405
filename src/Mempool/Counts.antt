-- ===== src/Mempool/Counts.antt =====
-- How often a digest is pending: in the pool, or in a proposed batch.
use constantinople.Base.{
  ℕ, ◌+◌, ◌≡◌, refl, inl, inr, Bool, ◌&&◌, not, List, [], ◌∷◌, ◌++◌, append-nil, arith, Eq,
  bytes_eq, ◌==◌, ltb, Bool-cases, if◌then◌else◌,
}
use constantinople.Base.Dict.{elem, add, elem-add}
use constantinople.Transaction.{SignedTransaction, message_digest}
use constantinople.Mempool.{PoolEntry, ProposedBatch, Mempool}
use constantinople.Mempool.Actor.{digests_of, discard, discard_all, new_transactions, push_pool}

abbrev pub bit : Bool → ℕ
bit b = if b then 1 else 0

-- The digests of the proposed batches.
abbrev pub proposed_digests : {D : Type 0} → List (ProposedBatch D) → List D
proposed_digests [] = []
proposed_digests (batch ∷ batches) = batch.digests ++ proposed_digests batches

module _ {D : Type 0} ⦃e : Eq D⦄ where
  -- How often a digest occurs.
  abbrev pub count : D → List D → ℕ
  count d [] = 0
  count d (x ∷ xs) = bit (d == x) + count d xs

  pub count-append : (d : D) (xs ys : List D) → count d (xs ++ ys) ≡ count d xs + count d ys
  count-append d [] ys = omega arith
  count-append d (x ∷ xs) ys = omega (arith, count-append d xs ys)

  pub elem-count : (d : D) (xs : List D) → elem d xs ≡ ltb 0 (count d xs)
  elem-count d [] = refl
  elem-count d (x ∷ xs) = ground (arith, elem-count d xs)

  elem-discard : (d k : D) (s : List D) → elem d (discard k s) ≡ (elem d s && not (d == k))
  elem-discard d k [] = refl
  elem-discard d k (x ∷ s) =
      ground (arith, elem-discard d k s, e.beq_iff k x, e.beq_iff d x, e.beq_iff d k)

  pub elem-discard_all :
      (d : D) (ks s : List D) → elem d (discard_all ks s) ≡ (elem d s && not (elem d ks))
  elem-discard_all d [] s = ground arith
  elem-discard_all d (k ∷ ks) s =
      ground (arith, elem-discard_all d ks (discard k s), elem-discard d k s)

  -- Digests that are known, and once among others, are forgotten with no trace.
  pub bit-discard_all :
      (d : D) (ks s : List D) (others : ℕ)
      → count d ks + others ≡ bit (elem d s)
      → others ≡ bit (elem d (discard_all ks s))
  bit-discard_all d ks s others h = ground (arith, elem-discard_all d ks s, elem-count d ks)

  pub proposed_digests-append :
      (d : D) (batches : List (ProposedBatch D)) (batch : ProposedBatch D)
      → count d (proposed_digests (batches ++ batch ∷ []))
        ≡ count d (proposed_digests batches) + count d batch.digests
  proposed_digests-append d [] batch = ground (arith, append-nil batch.digests)
  proposed_digests-append d (b ∷ batches) batch = omega (
    arith,
    proposed_digests-append d batches batch,
    count-append d b.digests (proposed_digests batches),
    count-append d b.digests (proposed_digests (batches ++ batch ∷ [])),
  )

module _ {L D S : Type 0} ⦃e : Eq D⦄ where
  pub count-new_transactions :
      (d : D) (txs : List (SignedTransaction L D S)) (known : List D)
      → count d (digests_of (new_transactions txs known).0) + bit (elem d known)
        ≡ bit (elem d (new_transactions txs known).1)
  count-new_transactions d [] known = omega arith
  count-new_transactions d (tx ∷ txs) known = elim (Bool-cases (elem (message_digest tx) known)) [
    | inl old ↦ rw (old, new_transactions) (count-new_transactions d txs known)
    | inr fresh ↦
        rw (fresh, new_transactions)
          (let rest = count-new_transactions d txs (add (message_digest tx) known) in
            ground
              (arith, rest, elem-add d (message_digest tx) known, e.beq_iff d (message_digest tx)))
  ]

  -- The digests of the pool.
  abbrev pub pool_digests : List (PoolEntry L D S) → List D
  pool_digests [] = []
  pool_digests (entry ∷ pool) = digests_of entry.transactions ++ pool_digests pool

  -- How often `d` is in the pool or proposed.
  abbrev pub pending : D → Mempool L D S → ℕ
  pending d m = count d (pool_digests m.pool) + count d (proposed_digests m.proposed)

  -- `d` is pending once if it is known, and else not; `extra` are batches that the loop holds.
  abbrev pub IsTracked : D → List (ProposedBatch D) → Mempool L D S → Type 0
  IsTracked d extra m =
      pending d m + count d (proposed_digests extra) ≡ bit (elem d m.known_digests)

  pub pool_digests-push :
      (d : D) (txs : List (SignedTransaction L D S)) (bytes : ℕ) (pool : List (PoolEntry L D S))
      → count d (pool_digests (push_pool txs bytes pool))
        ≡ count d (pool_digests pool) + count d (digests_of txs)
  pool_digests-push d [] bytes pool = omega arith
  pool_digests-push d (tx ∷ txs) bytes [] = ground (arith, append-nil (digests_of (tx ∷ txs)))
  pool_digests-push d (tx ∷ txs) bytes (entry ∷ pool) = omega (
    arith,
    pool_digests-push d (tx ∷ txs) bytes pool,
    count-append d (digests_of entry.transactions) (pool_digests pool),
    count-append d (digests_of entry.transactions) (pool_digests (push_pool (tx ∷ txs) bytes pool)),
  )
