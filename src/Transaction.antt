-- ===== src/Transaction.antt =====
-- crates/primitives/src/sealed.rs and transaction.rs: sealed values and signed transactions.
-- `L` stands for `Lazy<TransactionPublicKey>` of commonware_codec, `D` for `H::Digest`, and `S` for
-- `TransactionSignature`.
pub mod Codec
mod Tests
use constantinople.Base.{ℕ, ◌+◌, List}
use constantinople.Account.{AccountKey, account_key_size, public_key_size}

-- `Sealed<T, H>`
pub record Sealed (T D : Type 0) : Type 0 where
  pub inner : T
  pub seal : D

-- `Transaction<D>`; `value` is a `NonZeroU64`.
pub record Transaction (L : Type 0) : Type 0 where
  pub sender : L
  pub to : AccountKey
  pub value : ℕ
  pub nonce : ℕ

-- `SignedTransaction<H>`
pub record SignedTransaction (L D S : Type 0) : Type 0 where
  pub inner : Sealed (Transaction L) D
  pub signature : S

module _ {L D S : Type 0} where
  -- `SignedTransaction::value`
  abbrev pub value : SignedTransaction L D S → Transaction L
  value tx = tx.inner.inner

  -- `SignedTransaction::message_digest`
  abbrev pub message_digest : SignedTransaction L D S → D
  message_digest tx = tx.inner.seal

module _ {L D : Type 0} (encode : Transaction L → List ℕ) (digest : List ℕ → D) where
  -- `Transaction::hash_slow`, with the hasher as a parameter.
  unfoldable pub hash_slow : Transaction L → D
  hash_slow tx = digest (encode tx)

  -- `Transaction::seal`
  unfoldable pub seal : Transaction L → Sealed (Transaction L) D
  unfolding hash_slow
  seal tx = record { inner = tx; seal = hash_slow tx }

-- `Transaction::SIZE`: a public key, an account key and two words.
abbrev pub transaction_size : ℕ
transaction_size = public_key_size + account_key_size + 8 + 8

-- `SignedTransaction::encode_size`, with the size of a signature as a parameter.
abbrev pub encode_size : {L D S : Type 0} → (S → ℕ) → SignedTransaction L D S → ℕ
encode_size signature_size tx = transaction_size + signature_size tx.signature
