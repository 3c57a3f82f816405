-- ===== src/Mempool/Status.antt =====
-- crates/mempool/src/webserver/actor.rs: the status of a batch, and the bounded table of statuses.
use constantinople.Base.{
  ℕ, max, true, false, Option, none, some, List, [], ◌∷◌, ◌++◌, map, length, Eq, bytes_eq, ltb,
}
use constantinople.Base.Dict.{Dict, lookup, insert, remove}
use constantinople.Mempool.{TxStatus, BatchStatus, DigestOutcome, Statuses}

-- `MAX_STATUS_ENTRIES`
abbrev pub max_status_entries : ℕ
max_status_entries = 1000000

-- How a batch with these parts is reported.
abbrev pub settled_status : ℕ → List (List ℕ) → List (List ℕ) → BatchStatus
settled_status height [] filtered = BatchStatus.dropped filtered
settled_status height (d ∷ ds) [] = BatchStatus.finalized height (d ∷ ds)
settled_status height (d ∷ ds) (f ∷ fs) = BatchStatus.partially_finalized height (d ∷ ds) (f ∷ fs)

module _ {D : Type 0} ⦃e : Eq D⦄ (to_string : D → List ℕ) where
  -- The loop of `batch_status_from_outcomes`, with its three variables.
  abbrev pub batch_status_from :
      List D → Dict D DigestOutcome → ℕ → List (List ℕ) → List (List ℕ) → Option BatchStatus
  batch_status_from [] outcomes height included filtered =
      some (settled_status height included filtered)
  batch_status_from (d ∷ ds) outcomes height included filtered = elim (lookup d outcomes) [
    | none ↦ none
    | some (DigestOutcome.finalized h) ↦
        batch_status_from ds outcomes (max height h) (included ++ to_string d ∷ []) filtered
    | some DigestOutcome.dropped ↦
        batch_status_from ds outcomes height included (filtered ++ to_string d ∷ [])
  ]

  -- `batch_status_from_outcomes`
  abbrev pub batch_status_from_outcomes : List D → Dict D DigestOutcome → Option BatchStatus
  batch_status_from_outcomes digests outcomes = batch_status_from digests outcomes 0 [] []

  -- `accepted_status`
  abbrev pub accepted_status : List D → BatchStatus
  accepted_status digests = BatchStatus.accepted (map to_string digests)

-- `tx_status_from_batch`
abbrev pub tx_status_from_batch : BatchStatus → Option TxStatus
tx_status_from_batch (BatchStatus.accepted digests) = none
tx_status_from_batch (BatchStatus.finalized height included) = some (TxStatus.finalized height)
tx_status_from_batch (BatchStatus.partially_finalized height included filtered) =
    some (TxStatus.partially_finalized height included filtered)
tx_status_from_batch (BatchStatus.dropped filtered) = some TxStatus.dropped

-- The loop that makes room: the oldest batches go until the table fits, and their names are kept.
unfoldable pub evict :
    Dict (List ℕ) BatchStatus → List (List ℕ) → List (List ℕ) → Statuses × List (List ℕ)
evict statuses [] expired = (record { statuses = statuses; status_order = [] }, expired)
evict statuses (batch_id ∷ order) expired = elim (ltb max_status_entries (length statuses)) [
  | true ↦ evict (remove batch_id statuses) order (expired ++ batch_id ∷ [])
  | false ↦ (record { statuses = statuses; status_order = batch_id ∷ order }, expired)
]

-- `status_order` with a batch that has no status yet at its end.
abbrev pub order_with : List ℕ → Statuses → List (List ℕ)
order_with batch_id s = elim (lookup batch_id s.statuses) [
  | none ↦ s.status_order ++ batch_id ∷ []
  | some old ↦ s.status_order
]

-- `remember_status`
unfoldable pub remember_status : Statuses → List ℕ → BatchStatus → Statuses × List (List ℕ)
unfolding evict
remember_status s batch_id status =
    evict (insert batch_id status s.statuses) (order_with batch_id s) []
