-- ===== src/Executor/Proposal.antt =====
-- The proposal side of crates/application/src/executor.rs.
use constantinople.Base.{ℕ, Option, none, some, List, [], ◌∷◌, ◌++◌, if◌then◌else◌}
use constantinople.Account.{AccountKey, from_public_key_bytes}
use constantinople.Transaction.{SignedTransaction, value, message_digest}
use constantinople.Executor.{
  State, Changeset, PreparedTransfer, Overlay, new_overlay, apply_transfer, into_changeset,
}

pub record PreparedTransaction (L D S : Type 0) : Type 0 where
  pub transaction : SignedTransaction L D S
  pub transfer : PreparedTransfer D

pub record ProposalInput (L D S : Type 0) : Type 0 where
  pub candidates : List (PreparedTransaction L D S)
  pub invalid : List (SignedTransaction L D S)

pub record ProposalOutput (L D S : Type 0) : Type 0 where
  pub valid : List (SignedTransaction L D S)
  pub invalid : List (SignedTransaction L D S)
  pub changeset : Changeset
  pub transfers : List (PreparedTransfer D)

-- `write_sender` is `Lazy::<TransactionPublicKey>::write`, and `sha256` the hash of account keys.
unfoldable pub account_key_from_sender :
    {L : Type 0} → (L → List ℕ) → (List ℕ → List ℕ) → L → Option AccountKey
account_key_from_sender write_sender sha256 sender =
    from_public_key_bytes sha256 (write_sender sender)

module _ {L D S : Type 0} (write_sender : L → List ℕ) (sha256 : List ℕ → List ℕ) where
  unfoldable pub prepare_transfer : SignedTransaction L D S → Option (PreparedTransfer D)
  unfolding account_key_from_sender
  prepare_transfer transaction =
      elim (account_key_from_sender write_sender sha256 (value transaction).sender) [
        | none ↦ none
        | some sender ↦ some (record {
          sender = sender;
          recipient = (value transaction).to;
          value = (value transaction).value;
          nonce = (value transaction).nonce;
          digest = message_digest transaction;
        })
      ]

  -- One round of the loop of `prepare_proposal`.
  unfoldable pub sort_out : ProposalInput L D S → SignedTransaction L D S → ProposalInput L D S
  sort_out acc tx = elim (prepare_transfer tx) [
    | none ↦ record acc { invalid = acc.invalid ++ tx ∷ [] }
    | some transfer ↦ record acc {
      candidates = acc.candidates ++ record { transaction = tx; transfer = transfer } ∷ [];
    }
  ]

  unfoldable pub prepare_from :
      ProposalInput L D S → List (SignedTransaction L D S) → ProposalInput L D S
  prepare_from acc [] = acc
  prepare_from acc (tx ∷ txs) = prepare_from (sort_out acc tx) txs

  unfoldable pub prepare_proposal : List (SignedTransaction L D S) → ProposalInput L D S
  unfolding prepare_from sort_out
  prepare_proposal = prepare_from (record { candidates = []; invalid = [] })

-- The variables of the loop of `propose_prepared`.
pub record Filtering (L D S : Type 0) : Type 0 where
  pub overlay : Overlay
  pub valid : List (SignedTransaction L D S)
  pub transfers : List (PreparedTransfer D)
  pub invalid : List (SignedTransaction L D S)

module _ {L D S : Type 0} where
  -- One round of the loop of `propose_prepared`.
  unfoldable pub try_candidate : Filtering L D S → PreparedTransaction L D S → Filtering L D S
  try_candidate f c =
      let (o, applied) = apply_transfer f.overlay c.transfer in
      if applied
      then record f {
        overlay = o;
        valid = f.valid ++ c.transaction ∷ [];
        transfers = f.transfers ++ c.transfer ∷ [];
      }
      else record f { overlay = o; invalid = f.invalid ++ c.transaction ∷ [] }

  unfoldable pub filter_from : Filtering L D S → List (PreparedTransaction L D S) → Filtering L D S
  filter_from f [] = f
  filter_from f (c ∷ cs) = filter_from (try_candidate f c) cs

  unfoldable pub propose_prepared : State → ProposalInput L D S → ProposalOutput L D S
  unfolding filter_from try_candidate into_changeset
  propose_prepared state input =
      let f =
        filter_from
          (record {
            overlay = new_overlay state;
            valid = [];
            transfers = [];
            invalid = input.invalid;
          })
          input.candidates in
      record {
        valid = f.valid;
        invalid = f.invalid;
        changeset = into_changeset f.overlay;
        transfers = f.transfers;
      }

module _ {L D S : Type 0} (write_sender : L → List ℕ) (sha256 : List ℕ → List ℕ) where
  unfoldable pub propose : State → List (SignedTransaction L D S) → ProposalOutput L D S
  unfolding propose_prepared prepare_proposal
  propose state transactions =
      propose_prepared state (prepare_proposal write_sender sha256 transactions)
