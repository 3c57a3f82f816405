-- ===== src/Mempool/Watch.antt =====
-- crates/mempool/src/webserver/actor.rs: which batches wait for which digests, and their waiters.
use constantinople.Base.{ℕ, true, false, none, some, List, [], ◌∷◌, ◌++◌, map, Eq, ◌==◌, bytes_eq}
use constantinople.Base.Dict.{Dict, lookup, insert, remove, elem, add_all}
use constantinople.Mempool.{BatchStatus, Statuses, Watchers, Reply}
use constantinople.Mempool.Status.{
  batch_status_from_outcomes, tx_status_from_batch, remember_status,
}

-- `map.entry(k).or_default().push(v)`
abbrev pub push_entry : {K V : Type 0} ⦃e : Eq K⦄ → K → V → Dict K (List V) → Dict K (List V)
push_entry k v d = elim (lookup k d) [
  | none ↦ insert k (v ∷ []) d
  | some vs ↦ insert k (vs ++ v ∷ []) d
]

-- `xs.retain(|x| x != k)`
abbrev pub retain_ne : {K : Type 0} ⦃e : Eq K⦄ → K → List K → List K
retain_ne k [] = []
retain_ne k (x ∷ xs) = elim (x == k) [ true ↦ retain_ne k xs | false ↦ x ∷ retain_ne k xs ]

module _ {D : Type 0} ⦃e : Eq D⦄ where
  -- `watch_batch`, with the digests seen so far
  abbrev pub watch_batch :
      List ℕ → List D → List D → Dict D (List (List ℕ)) → Dict D (List (List ℕ))
  watch_batch batch_id [] seen watchers = watchers
  watch_batch batch_id (d ∷ ds) seen watchers = elim (elem d seen) [
    | true ↦ watch_batch batch_id ds seen watchers
    | false ↦ watch_batch batch_id ds (d ∷ seen) (push_entry d batch_id watchers)
  ]

  -- A batch stops to wait for one digest.
  abbrev pub forget_digest : List ℕ → D → Watchers D → Watchers D
  forget_digest batch_id d w = elim (lookup d w.digest_watchers) [
    | none ↦ w
    | some batch_ids ↦ elim (retain_ne batch_id batch_ids) [
      | [] ↦ record {
        batch_digests = w.batch_digests;
        digest_watchers = remove d w.digest_watchers;
        digest_outcomes = remove d w.digest_outcomes;
        pending_waiters = w.pending_waiters;
      }
      | b ∷ bs ↦ record {
        batch_digests = w.batch_digests;
        digest_watchers = insert d (b ∷ bs) w.digest_watchers;
        digest_outcomes = w.digest_outcomes;
        pending_waiters = w.pending_waiters;
      }
    ]
  ]

  abbrev pub forget_digests : List ℕ → List D → List D → Watchers D → Watchers D
  forget_digests batch_id [] seen w = w
  forget_digests batch_id (d ∷ ds) seen w = elim (elem d seen) [
    | true ↦ forget_digests batch_id ds seen w
    | false ↦ forget_digests batch_id ds (d ∷ seen) (forget_digest batch_id d w)
  ]

  -- `forget_batch`
  unfoldable pub forget_batch : List ℕ → Watchers D → Watchers D
  forget_batch batch_id w = elim (lookup batch_id w.batch_digests) [
    | none ↦ record {
      batch_digests = w.batch_digests;
      digest_watchers = w.digest_watchers;
      digest_outcomes = w.digest_outcomes;
      pending_waiters = remove batch_id w.pending_waiters;
    }
    | some digests ↦ forget_digests batch_id digests [] (record {
      batch_digests = remove batch_id w.batch_digests;
      digest_watchers = w.digest_watchers;
      digest_outcomes = w.digest_outcomes;
      pending_waiters = remove batch_id w.pending_waiters;
    })
  ]

  -- `forget_expired_batches`
  abbrev pub forget_expired_batches : List (List ℕ) → Watchers D → Watchers D
  forget_expired_batches [] w = w
  forget_expired_batches (batch_id ∷ expired) w =
      forget_expired_batches expired (forget_batch batch_id w)

  -- `watched_batches_for`
  abbrev pub watched_batches_for : List D → Dict D (List (List ℕ)) → List (List ℕ) → List (List ℕ)
  watched_batches_for [] watchers affected = affected
  watched_batches_for (d ∷ ds) watchers affected = elim (lookup d watchers) [
    | none ↦ watched_batches_for ds watchers affected
    | some batch_ids ↦ watched_batches_for ds watchers (add_all batch_ids affected)
  ]

  -- `send_pending_waiters`
  abbrev pub send_pending_waiters :
      {L S : Type 0} → List ℕ → BatchStatus → Watchers D → Watchers D × List (Reply L D S)
  send_pending_waiters batch_id status w = elim (tx_status_from_batch status) [
    | none ↦ (w, [])
    | some outcome ↦ elim (lookup batch_id w.pending_waiters) [
      | none ↦ (w, [])
      | some waiters ↦ (
        record {
          batch_digests = w.batch_digests;
          digest_watchers = w.digest_watchers;
          digest_outcomes = w.digest_outcomes;
          pending_waiters = remove batch_id w.pending_waiters;
        },
        map (λ sender. Reply.result sender outcome) waiters,
      )
    ]
  ]

-- The waiters of a batch hear the status that the table holds for it.
abbrev pub notify :
    {L D S : Type 0} ⦃e : Eq D⦄ → List ℕ → Statuses → Watchers D → Watchers D × List (Reply L D S)
notify batch_id s w = elim (lookup batch_id s.statuses) [
  | none ↦ (w, [])
  | some status ↦ send_pending_waiters batch_id status w
]

-- A batch whose digests all have outcomes gets its last status.
abbrev pub resolve_with :
    {L D S : Type 0} ⦃e : Eq D⦄
    → List ℕ
    → BatchStatus
    → Statuses
    → Watchers D
    → (Statuses × Watchers D) × List (Reply L D S)
resolve_with batch_id status s w =
    let (remembered, expired) = remember_status s batch_id status in
    let (told, replies) = notify batch_id remembered w in
    ((remembered, forget_expired_batches expired (forget_batch batch_id told)), replies)

-- `resolve_batch_if_terminal`
unfoldable pub resolve_batch_if_terminal :
    {L D S : Type 0} ⦃e : Eq D⦄
    → (D → List ℕ)
    → List ℕ
    → Statuses
    → Watchers D
    → (Statuses × Watchers D) × List (Reply L D S)
resolve_batch_if_terminal to_string batch_id s w = elim (lookup batch_id w.batch_digests) [
  | none ↦ ((s, w), [])
  | some digests ↦ elim (batch_status_from_outcomes to_string digests w.digest_outcomes) [
    | none ↦ ((s, w), [])
    | some status ↦ resolve_with batch_id status s w
  ]
]

abbrev pub resolve_all :
    {L D S : Type 0} ⦃e : Eq D⦄
    → (D → List ℕ)
    → List (List ℕ)
    → Statuses
    → Watchers D
    → (Statuses × Watchers D) × List (Reply L D S)
resolve_all to_string [] s w = ((s, w), [])
resolve_all to_string (batch_id ∷ affected) s w =
    let ((s1, w1), replies) = resolve_batch_if_terminal to_string batch_id s w in
    let ((s2, w2), later) = resolve_all to_string affected s1 w1 in ((s2, w2), replies ++ later)
