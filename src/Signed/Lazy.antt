-- ===== src/Signed/Lazy.antt =====
-- crates/primitives/src/signed.rs: the cell of a lazily decoded transaction and its codec. `decode`
-- is `SignedTransaction::decode`, which takes a whole buffer, `write` is its `Write`, and
-- `signature_size` the size of an encoded signature.
use mathlib.Core.Option
use constantinople.Base.{
  ℕ, ◌+◌, Option, none, some, List, ◌++◌, Result, CodecError, length, take, drop, ltb, true, false,
}
use constantinople.Base.Result.{ok, err}
use constantinople.Base.Codec.{Lengths, ◌>>=◌}
use constantinople.Transaction.{SignedTransaction, transaction_size, encode_size}

-- `TransactionSignature::MIN_SIZE` and `MAX_SIZE` of auth.rs
pub record SignatureSizes : Type 0 where
  pub min_size : ℕ
  pub max_size : ℕ

-- `LazySignedTransaction<H>`; the outer `Option` of `value` is the `OnceLock`.
pub record LazySignedTransaction (L D S : Type 0) : Type 0 where
  pub pending : Option (List ℕ)
  pub value : Option (Option (SignedTransaction L D S))

module _ {L D S : Type 0} where
  -- `LazySignedTransaction::new`
  abbrev pub new_lazy : SignedTransaction L D S → LazySignedTransaction L D S
  new_lazy tx = record { pending = none; value = some (some tx) }

  -- `LazySignedTransaction::deferred`
  abbrev pub deferred : List ℕ → LazySignedTransaction L D S
  deferred bytes = record { pending = some bytes; value = none }

  module _ (decode : List ℕ → Option (SignedTransaction L D S)) where
    -- `LazySignedTransaction::get`, with the cell that it leaves; `none` is the panic of `expect`.
    unfoldable pub get_lazy :
        LazySignedTransaction L D S
        → Option (Option (SignedTransaction L D S) × LazySignedTransaction L D S)
    get_lazy cell = elim cell.value [
      | some found ↦ some (found, cell)
      | none ↦ elim cell.pending [
        | none ↦ none
        | some bytes ↦ some (decode bytes, record cell { value = some (decode bytes) })
      ]
    ]

    -- `get().expect(..)`, and the other uses of `get` that drop the cell
    abbrev pub get_expect : LazySignedTransaction L D S → Option (SignedTransaction L D S)
    get_expect cell = elim (get_lazy cell) [ none ↦ none | some (tx, after) ↦ tx ]

    module _ (write : SignedTransaction L D S → List ℕ) where
      -- `encoded_signed_transaction`; `none` is a panic
      unfoldable pub encoded_signed_transaction : LazySignedTransaction L D S → Option (List ℕ)
      encoded_signed_transaction cell = elim cell.pending [
        | some bytes ↦ some bytes
        | none ↦ Option.map write (get_expect cell)
      ]

      module _ (len : Lengths) (signature_size : S → ℕ) where
        -- `<LazySignedTransaction as Write>::write`; `none` is a panic
        unfoldable pub write_lazy : LazySignedTransaction L D S → Option (List ℕ)
        write_lazy cell = elim cell.pending [
          | some bytes ↦ some (len.write (length bytes) ++ bytes)
          | none ↦
              Option.map (λ tx. len.write (encode_size signature_size tx) ++ write tx)
                (get_expect cell)
        ]

    -- `<LazySignedTransaction as EncodeSize>::encode_size`; `none` is a panic
    unfoldable pub lazy_encode_size : Lengths → (S → ℕ) → LazySignedTransaction L D S → Option ℕ
    lazy_encode_size len signature_size cell = elim cell.pending [
      | some bytes ↦ some (length (len.write (length bytes)) + length bytes)
      | none ↦
          Option.map
            (λ tx.
              length (len.write (encode_size signature_size tx)) + encode_size signature_size tx)
            (get_expect cell)
    ]

  -- The two length checks of `read_cfg`, and the bytes
  abbrev pub take_deferred :
      SignatureSizes → ℕ → List ℕ → Result CodecError (LazySignedTransaction L D S × List ℕ)
  take_deferred sizes n buf = elim (ltb n (transaction_size + sizes.min_size)) [
    | true ↦ err CodecError.end_of_buffer
    | false ↦ elim (ltb (length buf) n) [
      | true ↦ err CodecError.end_of_buffer
      | false ↦ ok (deferred (take n buf), drop n buf)
    ]
  ]

  -- `<LazySignedTransaction as Read>::read_cfg`
  unfoldable pub read_lazy :
      Lengths → SignatureSizes → List ℕ → Result CodecError (LazySignedTransaction L D S × List ℕ)
  read_lazy len sizes buf = do
    (n, rest) ← len.read 0 (transaction_size + sizes.max_size) buf
    take_deferred sizes n rest
