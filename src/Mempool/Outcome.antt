-- ===== src/Mempool/Outcome.antt =====
-- The last status of a batch against a description without a loop, and a submission without room.
use constantinople.Base.{
  ℕ, ◌+◌, ◌<◌, ◌≡◌, refl, ap, ◌∙◌, max, inl, inr, true, false, ◌&&◌, not, Option, none, some, List,
  [], ◌∷◌, ◌++◌, append-nil, append_assoc, arith, Eq, bytes_eq, collect, ltb, min, Option-cases,
  eqb, length, if◌then◌else◌,
}
use constantinople.Base.Dict.{Dict, lookup, elem}
use constantinople.Transaction.{SignedTransaction}
use constantinople.Mempool.{
  Config, Mempool, BatchStatus, TxStatus, DigestOutcome, IngestStatus, Reply,
}
use constantinople.Mempool.Status.{settled_status, batch_status_from, batch_status_from_outcomes}
use constantinople.Mempool.Actor.{
  new_transactions, is_empty, total_bytes_for, digests_of, offer, submit, send_result, send_ingest,
}
use constantinople.Mempool.Counts.{count-new_transactions, elem-discard_all, elem-count}

-- The greatest height of the finalized outcomes, from `height`.
abbrev pub height_of : ℕ → List DigestOutcome → ℕ
height_of height [] = height
height_of height (DigestOutcome.finalized h ∷ rs) = height_of (max height h) rs
height_of height (DigestOutcome.dropped ∷ rs) = height_of height rs

-- How a batch must be reported: dropped if none of its digests was finalized, finalized if all were.
abbrev pub described : ℕ → List (List ℕ) → List (List ℕ) → BatchStatus
described height included filtered =
    if eqb (length included) 0
    then BatchStatus.dropped filtered
    else if eqb (length filtered) 0
    then BatchStatus.finalized height included
    else BatchStatus.partially_finalized height included filtered

settled_status-eq :
    (height : ℕ) (included filtered : List (List ℕ))
    → settled_status height included filtered ≡ described height included filtered
settled_status-eq height [] filtered = refl
settled_status-eq height (d ∷ ds) [] = ground arith
settled_status-eq height (d ∷ ds) (f ∷ fs) = ground arith

module _ {D : Type 0} ⦃e : Eq D⦄ (to_string : D → List ℕ) where
  -- The digests of the finalized outcomes, and those of the others.
  abbrev pub included_of : List D → List DigestOutcome → List (List ℕ)
  included_of [] rs = []
  included_of (d ∷ ds) [] = []
  included_of (d ∷ ds) (DigestOutcome.finalized h ∷ rs) = to_string d ∷ included_of ds rs
  included_of (d ∷ ds) (DigestOutcome.dropped ∷ rs) = included_of ds rs

  abbrev pub filtered_of : List D → List DigestOutcome → List (List ℕ)
  filtered_of [] rs = []
  filtered_of (d ∷ ds) [] = []
  filtered_of (d ∷ ds) (DigestOutcome.finalized h ∷ rs) = filtered_of ds rs
  filtered_of (d ∷ ds) (DigestOutcome.dropped ∷ rs) = to_string d ∷ filtered_of ds rs

  abbrev pub status_of :
      List D → ℕ → List (List ℕ) → List (List ℕ) → Option (List DigestOutcome) → Option BatchStatus
  status_of ds height included filtered none = none
  status_of ds height included filtered (some rs) = some (
      described (height_of height rs) (included ++ included_of ds rs)
        (filtered ++ filtered_of ds rs))

  status_of-finalized :
      (d : D) (ds : List D) (h height : ℕ) (included filtered : List (List ℕ))
      (r : Option (List DigestOutcome))
      → status_of ds (max height h) (included ++ to_string d ∷ []) filtered r
        ≡ status_of
            (d ∷ ds)
            height
            included
            filtered
            (elim r [ none ↦ none | some rs ↦ some (DigestOutcome.finalized h ∷ rs) ])
  status_of-finalized d ds h height included filtered none = refl
  status_of-finalized d ds h height included filtered (some rs) =
      rw (append_assoc included (to_string d ∷ []) (included_of ds rs)) refl

  status_of-dropped :
      (d : D) (ds : List D) (height : ℕ) (included filtered : List (List ℕ))
      (r : Option (List DigestOutcome))
      → status_of ds height included (filtered ++ to_string d ∷ []) r
        ≡ status_of
            (d ∷ ds)
            height
            included
            filtered
            (elim r [ none ↦ none | some rs ↦ some (DigestOutcome.dropped ∷ rs) ])
  status_of-dropped d ds height included filtered none = refl
  status_of-dropped d ds height included filtered (some rs) =
      rw (append_assoc filtered (to_string d ∷ []) (filtered_of ds rs)) refl

  batch_status_from-eq :
      (ds : List D) (outcomes : Dict D DigestOutcome) (height : ℕ)
      (included filtered : List (List ℕ))
      → batch_status_from to_string ds outcomes height included filtered
        ≡ status_of ds height included filtered (collect (λ d. lookup d outcomes) ds)
  batch_status_from-eq [] outcomes height included filtered =
      rw (append-nil included, append-nil filtered)
        (ap some (settled_status-eq height included filtered))
  batch_status_from-eq (d ∷ ds) outcomes height included filtered =
      elim (Option-cases (lookup d outcomes)) [
        | inl missing ↦ rw (missing, batch_status_from, collect) refl
        | inr (DigestOutcome.finalized h, found) ↦
            rw (found, batch_status_from, collect)
              (batch_status_from-eq ds outcomes (max height h) (included ++ to_string d ∷ [])
                  filtered
                ∙ status_of-finalized d ds h height included filtered _)
        | inr (DigestOutcome.dropped, found) ↦
            rw (found, batch_status_from, collect)
              (batch_status_from-eq ds outcomes height included (filtered ++ to_string d ∷ [])
                ∙ status_of-dropped d ds height included filtered _)
      ]

  -- A batch has a last status exactly if each of its digests has an outcome: dropped if none was
  -- finalized, finalized if all were, and otherwise partially finalized, each digest listed on its
  -- side in the order of the batch, at the greatest height.
  pub batch_status-of_outcomes :
      (ds : List D) (outcomes : Dict D DigestOutcome)
      → batch_status_from_outcomes to_string ds outcomes
        ≡ status_of ds 0 [] [] (collect (λ d. lookup d outcomes) ds)
  batch_status-of_outcomes ds outcomes = batch_status_from-eq ds outcomes 0 [] []

module _ {L D S : Type 0} ⦃e : Eq D⦄ where
  -- What the senders of a dropped batch are told.
  abbrev pub told_dropped : Option ℕ → Option ℕ → List (Reply L D S)
  told_dropped none none = []
  told_dropped (some sender) none = Reply.result sender TxStatus.dropped ∷ []
  told_dropped none (some sender) = Reply.ingest_result sender IngestStatus.dropped ∷ []
  told_dropped (some sender) (some other) =
      Reply.result sender TxStatus.dropped ∷ Reply.ingest_result other IngestStatus.dropped ∷ []

  sends-told :
      (result ingest : Option ℕ)
      → send_result {L = L} {D = D} {S = S} result TxStatus.dropped
          ++ send_ingest {L = L} {D = D} {S = S} ingest IngestStatus.dropped
        ≡ told_dropped result ingest
  sends-told none none = refl
  sends-told (some sender) none = refl
  sends-told none (some sender) = refl
  sends-told (some sender) (some other) = refl

  -- What a submission without room leaves as it was, and what it answers.
  pub record IsRefused (m after : Mempool L D S) (replies : List (Reply L D S))
      (result ingest : Option ℕ) : Type 0 where
    pub pool : after.pool ≡ m.pool
    pub pool_bytes : after.pool_bytes ≡ m.pool_bytes
    pub proposed : after.proposed ≡ m.proposed
    pub remembered : after.remembered ≡ m.remembered
    pub watched : after.watched ≡ m.watched
    pub known : (d : D) → elem d after.known_digests ≡ elem d m.known_digests
    pub round : after.highest_consensus_round ≡ m.highest_consensus_round
    pub answered : replies ≡ told_dropped result ingest

  -- A submission of a batch without a status, whose new transactions do not fit in the pool, is
  -- dropped: the senders are told so, and the state is as before, up to the order of known digests.
  pub submit-refuses :
      (c : Config) (size : S → ℕ) (to_string : D → List ℕ) (id : List ℕ) (ds : List D)
      (txs : List (SignedTransaction L D S)) (bytes : ℕ) (result ingest : Option ℕ)
      (m : Mempool L D S)
      → lookup id m.remembered.statuses ≡ none
      → is_empty (new_transactions txs m.known_digests).0 ≡ false
      → c.max_pool_bytes
        < m.pool_bytes + min (total_bytes_for size (new_transactions txs m.known_digests).0) bytes
      → IsRefused m
          (submit c size to_string id ds txs bytes result ingest m).0
          (submit c size to_string id ds txs bytes result ingest m).1
          result
          ingest
  unfolding submit offer
  submit-refuses c size to_string id ds txs bytes result ingest m unknown some_new over =
      let (fresh, known) = new_transactions txs m.known_digests in
      let new_bytes = min (total_bytes_for size fresh) bytes in
      let full : (not (is_empty fresh) && ltb c.max_pool_bytes (m.pool_bytes + new_bytes)) ≡ true =
        ground arith in
      rw (unknown, full, submit, offer)
        (record {
          pool = refl;
          pool_bytes = refl;
          proposed = refl;
          remembered = refl;
          watched = refl;
          known = λ d. ground (
            arith,
            elem-discard_all d (digests_of fresh) known,
            elem-count d (digests_of fresh),
            count-new_transactions d txs m.known_digests,
          );
          round = refl;
          answered = sends-told result ingest;
        })
