-- ===== src/Relayer/Truthful.antt =====
-- bin/validator/src/relayer.rs: what the relayer answers to a batch.
use mathlib.Core.List.{Perm}
use constantinople.Base.{
  ℕ, ◌≡◌, ◌⊎◌, inl, inr, true, Option, none, some, List, [], ◌++◌, All, bytes_eq,
}
use constantinople.Base.Dict.{elem}
use constantinople.Mempool.{TxStatus, BatchStatus}
use constantinople.Relayer.{reported}
use constantinople.Relayer.Submit.{Answer, Relay, Externals, json_response}

module _ {W L D S : Type 0} (x : Externals W L D S) where
  module _ (P : List ℕ → Type 0)
      (honest : (body : List ℕ) (status : BatchStatus)
        → x.batch_status body ≡ some status
        → All P (reported status)) where
    abbrev IsReported : Option BatchStatus → Type 0
    IsReported none = Unit
    IsReported (some status) = All P (reported status)

    module _ (digests : List (List ℕ)) where
      -- What a status claims of the batch holds: the digests that it says are included are; it
      -- names every digest of the batch on one side.
      abbrev pub IsTruthful : TxStatus → Type 0
      IsTruthful (TxStatus.finalized height) = All P digests
      IsTruthful (TxStatus.partially_finalized height included filtered) =
          All P included × Perm (included ++ filtered) digests
      IsTruthful TxStatus.dropped = Unit

      -- A refusal, or a truthful status.
      abbrev pub IsSound : Answer → Type 0
      IsSound answer =
          ((answer.1 ≡ []) × ((answer.0 ≡ 400) ⊎ (answer.0 ≡ 413) ⊎ (answer.0 ≡ 503)))
          ⊎ ((status : TxStatus) × (answer ≡ json_response x status) × IsTruthful status)

      -- What the loop has recorded as included is, and each digest is pending or included.
      abbrev IsAccounted : Relay W → Type 0
      IsAccounted r = All P r.included × All (λ d. (elem d r.pending ≡ true) ⊎ P d) digests

      abbrev IsSettled : List ℕ × ℕ → Answer ⊎ Relay W → Type 0
      IsSettled clock (inl answer) = IsSound answer
      IsSettled clock (inr r) = IsAccounted r × ◌≡◌ {A = List ℕ × ℕ} (r.views, r.view) clock
