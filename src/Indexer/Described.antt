-- ===== src/Indexer/Described.antt =====
-- crates/indexer/src/publisher/block.rs: the rows of a block, described by its decoded transactions.
use mathlib.Core.Option
use constantinople.Base.{
  ℕ, suc, ◌+◌, ◌≤◌, ◌^◌, ◌≡◌, refl, ap, ◌∙◌, some, List, [], ◌∷◌, ◌++◌, map, length, arith, All,
  if◌then◌else◌, lt→ltb, bytes_beq,
}
use constantinople.Base.Codec.{Codec, IsWord}
use constantinople.Account.{AccountKey, public_key_size}
use constantinople.Transaction.{SignedTransaction, message_digest}
use constantinople.Transaction.Codec.{write_signed, IsSealed}
use constantinople.Indexer.{SqlRow, CellValue, hex_lower}
use constantinople.Indexer.Rows.{
  IndexedTransaction, index_transaction, index_from, digests_of_indexed, rows_from,
}
use constantinople.Indexer.Indexed.{IsBigEndian, indexed, sender_account, index_transaction-signed}

-- A transaction, with the account that it is sent from.
pub record Sent (L D S : Type 0) : Type 0 where
  pub transaction : SignedTransaction L D S
  pub sender : AccountKey

-- The activity of an account in a transaction: its role is 0 for the sender and 1 for the receiver.
abbrev pub activity : List ℕ → ℕ → ℕ → ℕ → List ℕ → List ℕ → ℕ → ℕ → SqlRow
activity account height index role digest counterparty value nonce = record {
  table = "tx_activity";
  values =
      CellValue.fixed_binary account
      ∷ CellValue.uint64 height
      ∷ CellValue.uint64 index
      ∷ CellValue.uint64 role
      ∷ CellValue.fixed_binary digest
      ∷ CellValue.fixed_binary counterparty
      ∷ CellValue.uint64 value
      ∷ CellValue.uint64 nonce
      ∷ [];
}

module _ {L D S : Type 0} (write : SignedTransaction L D S → List ℕ) where
  -- What the indexer makes of them.
  abbrev pub indexed_from : ℕ → List (Sent L D S) → List (IndexedTransaction D)
  indexed_from index [] = []
  indexed_from index (s ∷ sent) =
      indexed index (write s.transaction) s.transaction s.sender ∷ indexed_from (index + 1) sent

  pub digests_of_indexed_from :
      (index : ℕ) (sent : List (Sent L D S))
      → digests_of_indexed (indexed_from index sent) ≡ map (λ s. message_digest s.transaction) sent
  digests_of_indexed_from index [] = refl
  digests_of_indexed_from index (s ∷ sent) =
      ap (λ ds. message_digest s.transaction ∷ ds) (digests_of_indexed_from (index + 1) sent)

  pub length-indexed_from :
      (index : ℕ) (sent : List (Sent L D S)) → length (indexed_from index sent) ≡ length sent
  length-indexed_from index [] = refl
  length-indexed_from index (s ∷ sent) = ap suc (length-indexed_from (index + 1) sent)

module _ {L D S : Type 0} (as_bytes : D → List ℕ) (write : SignedTransaction L D S → List ℕ) where
  -- The rows of transactions that stand in a log from a location on and in a block from an index on:
  -- for each its body, and the activity of its sender and of another receiver.
  unfoldable pub described_rows : ℕ → ℕ → ℕ → List (Sent L D S) → List SqlRow
  described_rows height location index [] = []
  described_rows height location index (s ∷ sent) =
      let tx = s.transaction in
      let body = tx.inner.inner in
      let digest = as_bytes (message_digest tx) in
      let rest = described_rows height (location + 1) (index + 1) sent in
      record {
        table = "tx_meta";
        values =
            CellValue.fixed_binary digest
            ∷ CellValue.uint64 location
            ∷ CellValue.utf8 (hex_lower (write tx))
            ∷ [];
      }
        ∷ activity s.sender.bytes height index 0 digest body.to.bytes body.value body.nonce
        ∷ (if bytes_beq body.to.bytes s.sender.bytes
            then []
            else activity body.to.bytes height index 1 digest s.sender.bytes body.value body.nonce
              ∷ [])
      ++ rest

  pub rows_from-described :
      (height location index : ℕ) (sent : List (Sent L D S))
      → index + length sent ≤ 2 ^ 32
      → rows_from as_bytes height location (indexed_from write index sent)
        ≡ some (described_rows height location index sent)
  unfolding rows_from described_rows
  rows_from-described height location index [] h = refl
  rows_from-described height location index (s ∷ sent) h =
      rw
        (
          rows_from-described height (location + 1) (index + 1) sent (omega arith),
          lt→ltb index (2 ^ 32) (omega arith),
        )
        refl

module _ {L D S : Type 0} {IsSender : L → Type 0} {IsSignature : S → Type 0} (u64 : Codec IsWord)
    (pk : Codec IsSender) (sig : Codec IsSignature) (hash : List ℕ → D) (sha256 : List ℕ → List ℕ)
    (be : IsBigEndian u64)
    (pk_size : (sender : L) → IsSender sender → length (pk.write sender) ≡ public_key_size) where
  -- The transaction can be encoded, and the key of its sender names the account.
  abbrev pub IsSent : Sent L D S → Type 0
  IsSent s =
      IsSealed u64 pk sig hash s.transaction
      × (sender_account u64 pk sig hash sha256 be pk_size s.transaction ≡ some s.sender)

  pub index_from-sent :
      (index : ℕ) (sent : List (Sent L D S))
      → All IsSent sent
      → index_from sha256 hash index (map (λ s. write_signed u64 pk sig hash s.transaction) sent)
        ≡ indexed_from (write_signed u64 pk sig hash) index sent
  unfolding index_from
  index_from-sent index [] h = refl
  index_from-sent index (s ∷ sent) h =
      let write = write_signed u64 pk sig hash in
      let one : index_transaction sha256 hash index (write s.transaction)
          ≡ some (indexed index (write s.transaction) s.transaction s.sender) =
        index_transaction-signed u64 pk sig hash sha256 be pk_size index s.transaction (h.0).0
        ∙ ap (Option.map (indexed index (write s.transaction) s.transaction)) (h.0).1 in
      rw (one, index_from, index_from-sent (index + 1) sent h.1) refl
