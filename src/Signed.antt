-- ===== src/Signed.antt =====
-- crates/primitives/src/signed.rs: decoding and verifying the transactions of a body in parallel. A
-- lazy transaction is what its `get` returns. `Strategy` is commonware_parallel's, `decode` is
-- `Lazy::get` of a sender, and a `Verifier` is the batch verifier of auth.rs.
pub mod Chunks
pub mod Lazy
pub mod Cell
mod Tests
use constantinople.Base.{
  ℕ, ◌≡◌, Bool, true, false, ◌&&◌, ◌||◌, not, Option, none, some, List, [], ◌∷◌, ◌++◌, map, collect,
  length, leb, if◌then◌else◌, ◌>>=◌,
}
use constantinople.Transaction.{SignedTransaction, value, message_digest}

-- `Strategy` of commonware_parallel
pub record Strategy : Type 1 where
  pub parallelism_hint : ℕ
  pub map_collect_vec : {A B : Type 0} → (A → B) → List A → List B
  pub fold : {A R : Type 0} → List A → R → (R → A → R) → (R → R → R) → R

-- A batch verifier: `none` of `add` is its `false`.
pub record Verifier (D PK S : Type 0) : Type 1 where
  pub Batch : Type 0
  pub new : Batch
  pub add : Batch → D → PK → S → Option Batch
  pub verify : Strategy → Batch → Bool

abbrev pub runs_inline : {A : Type 0} → Strategy → List A → Bool
runs_inline strategy xs =
    leb strategy.parallelism_hint 1 || leb (length xs) strategy.parallelism_hint

abbrev pub all : {A : Type 0} → (A → Bool) → List A → Bool
all p [] = true
all p (x ∷ xs) = if p x then all p xs else false

abbrev pub then_some : {A : Type 0} → A → Bool → Option A
then_some a true = some a
then_some a false = none

module _ {L D S : Type 0} where
  -- `materialize_transaction_chunks`, on lazy transactions of a type with the closure
  -- `lazy.get().cloned()`
  unfoldable pub materialize_transaction_chunks :
      {A : Type 0}
      → (A → Option (SignedTransaction L D S))
      → Strategy
      → List A
      → Option (List (SignedTransaction L D S))
  materialize_transaction_chunks get strategy [] = some []
  materialize_transaction_chunks get strategy (lazy ∷ rest) =
      elim (runs_inline strategy (lazy ∷ rest)) [
        | true ↦ collect get (lazy ∷ rest)
        | false ↦ collect (λ tx. tx) (strategy.map_collect_vec get (lazy ∷ rest))
      ]

  -- The transactions, if their signatures verify.
  abbrev pub collect_verified :
      Bool → List (Option (SignedTransaction L D S)) → Option (List (SignedTransaction L D S))
  collect_verified true txs = collect (λ tx. tx) txs
  collect_verified false txs = none

  module _ {PK : Type 0} (decode : L → Option PK) where
    -- `signature_inputs_decode`
    abbrev pub signature_inputs_decode : Option (SignedTransaction L D S) → Bool
    signature_inputs_decode none = false
    signature_inputs_decode (some tx) = elim (decode (value tx).sender) [
      | none ↦ false
      | some pk ↦ true
    ]

    -- `preload_transaction_chunks`
    unfoldable pub preload_transaction_chunks :
        Strategy
        → List (Option (SignedTransaction L D S))
        → Option (List (Option (SignedTransaction L D S)))
    preload_transaction_chunks strategy [] = some []
    preload_transaction_chunks strategy (lazy ∷ rest) = elim (runs_inline strategy (lazy ∷ rest)) [
      | true ↦ then_some (lazy ∷ rest) (all signature_inputs_decode (lazy ∷ rest))
      | false ↦ then_some (lazy ∷ rest) (
          strategy.fold (lazy ∷ rest) true (λ decoded tx. decoded && signature_inputs_decode tx)
            (λ left right. left && right))
    ]

    module _ (v : Verifier D PK S) where
      -- The loop of `verify_transaction_batch`, from a batch.
      abbrev pub add_transactions :
          v.Batch → List (Option (SignedTransaction L D S)) → Option v.Batch
      add_transactions batch [] = some batch
      add_transactions batch (lazy ∷ rest) = do
        tx ← lazy
        sender ← decode (value tx).sender
        next ← v.add batch (message_digest tx) sender tx.signature
        add_transactions next rest

      -- `verify_transaction_batch`
      abbrev pub verify_transaction_batch :
          Strategy → List (Option (SignedTransaction L D S)) → Bool
      verify_transaction_batch strategy txs = elim (add_transactions v.new txs) [
        | none ↦ false
        | some batch ↦ v.verify strategy batch
      ]

      -- `verify_transaction_chunks`
      unfoldable pub verify_transaction_chunks :
          Strategy
          → Strategy
          → List (Option (SignedTransaction L D S))
          → Option (List (SignedTransaction L D S))
      verify_transaction_chunks signature_strategy hash_strategy [] = some []
      verify_transaction_chunks signature_strategy hash_strategy (lazy ∷ rest) = do
        loaded ← preload_transaction_chunks hash_strategy (lazy ∷ rest)
        collect_verified (verify_transaction_batch signature_strategy loaded) loaded
