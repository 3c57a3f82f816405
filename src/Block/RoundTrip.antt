-- ===== src/Block/RoundTrip.antt =====
-- crates/primitives/src/block.rs with signed.rs, transaction.rs and sealed.rs: a block is written and
-- read with the codec of signed transactions.
use constantinople.Base.{
  ℕ, ◌≤◌, ◌≡◌, sym, Option, some, none, List, [], ◌∷◌, ◌++◌, length, All, length-append, append-nil,
  arith,
}
use constantinople.Base.Result.{ok}
use constantinople.Base.Codec.{Codec, IsWord, Lengths, Vectors}
use constantinople.Account.Codec.{write_key}
use constantinople.Transaction.{Transaction, SignedTransaction, transaction_size}
use constantinople.Transaction.Codec.{
  IsEncodable, IsSealed, write_transaction, write_signed, read_signed,
  signed_transaction-round_trip,
}
use constantinople.Block.{Header, new_block}
use constantinople.Block.Codec.{
  HeaderCodecs, IsHeader, LazyBlock, loaded, BlockCfg, write_block, read_block, new_lazy_block,
}
use constantinople.Block.Wire.{block-round_trip}
use constantinople.Signed.Lazy.{LazySignedTransaction, SignatureSizes}
use constantinople.Signed.Cell.{IsLazy}

module _ {C D P L S : Type 0} {IsSender : L → Type 0} {IsSignature : S → Type 0}
    (c : HeaderCodecs C D P) (v : Vectors) (len : Lengths) (pk : Codec IsSender)
    (sig : Codec IsSignature) (digest : List ℕ → D)
    (decode : List ℕ → Option (SignedTransaction L D S)) (sizes : SignatureSizes)
    (decodes_whole : (buf : List ℕ) (tx : SignedTransaction L D S)
      → read_signed c.u64 pk sig digest buf ≡ ok (tx, [])
      → decode buf ≡ some tx)
    (word_size : (n : ℕ) → IsWord n → length (c.u64.write n) ≡ 8)
    (pk_size : (sender : L) → IsSender sender → length (pk.write sender) ≡ 34)
    (signature_sizes : (s : S)
      → IsSignature s
      → (sizes.min_size ≤ length (sig.write s)) × (length (sig.write s) ≤ sizes.max_size)) where
  abbrev signature_length : S → ℕ
  signature_length s = length (sig.write s)

  write_transaction-size :
      (body : Transaction L)
      → IsEncodable c.u64 pk body
      → length (write_transaction c.u64 pk body) ≡ transaction_size
  unfolding write_transaction write_key
  write_transaction-size body e = omega (
    arith,
    pk_size body.sender e.sender_valid,
    e.to_valid,
    word_size body.value e.value_fits,
    word_size body.nonce e.nonce_fits,
    length-append {0} (pk.write body.sender)
        (body.to.bytes ++ (c.u64.write body.value ++ c.u64.write body.nonce)),
    length-append {0} body.to.bytes (c.u64.write body.value ++ c.u64.write body.nonce),
    length-append {0} (c.u64.write body.value) (c.u64.write body.nonce),
  )

  sealed-IsLazy :
      (tx : SignedTransaction L D S)
      → IsSealed c.u64 pk sig digest tx
      → IsLazy decode (write_signed c.u64 pk sig digest) signature_length sizes tx
  unfolding write_signed
  sealed-IsLazy tx h = record {
    decodes = decodes_whole (write_signed c.u64 pk sig digest tx) tx (
        (signed_transaction-round_trip c.u64 pk sig digest (write_signed c.u64 pk sig digest tx) tx
            []).1
          (sym (append-nil (write_signed c.u64 pk sig digest tx)), h));
    size = omega (
      arith,
      write_transaction-size tx.inner.inner h.encodable,
      length-append {0} (write_transaction c.u64 pk tx.inner.inner) (sig.write tx.signature),
    );
    at_least = (signature_sizes tx.signature h.signature_valid).0;
    at_most = (signature_sizes tx.signature h.signature_valid).1;
  }

  all-IsLazy :
      (txs : List (SignedTransaction L D S))
      → All (IsSealed c.u64 pk sig digest) txs
      → All (IsLazy decode (write_signed c.u64 pk sig digest) signature_length sizes) txs
  all-IsLazy [] h = tt
  all-IsLazy (tx ∷ txs) h = (sealed-IsLazy tx h.0, all-IsLazy txs h.1)

  -- A block whose header can be encoded, whose transactions can be and are sealed with their hashes,
  -- and whose number of transactions is within the bounds of the reader, is written without a panic.
  -- It reads back, before any further bytes, as a block of undecoded cells, which is written as the
  -- same bytes; and once its cells are decoded it is the block that was written. `decode` gives what
  -- the reader of signed transactions reads of a whole buffer; the sizes of keys, numbers and
  -- signatures are those that the types announce.
  pub sealed_block-round_trip :
      (cfg : BlockCfg) (header : Header C D P) (txs : List (SignedTransaction L D S))
      (rest : List ℕ)
      → IsHeader c header
      → All (IsSealed c.u64 pk sig digest) txs
      → cfg.at_least ≤ length txs
      → length txs ≤ cfg.at_most
      → (bytes : List ℕ) × (block : LazyBlock C D P L S) × (write_block c v len decode
            (write_signed c.u64 pk sig digest)
            (λ s. length (sig.write s))
            (new_lazy_block header txs)
          ≡ some bytes)
        × (read_block c v len sizes cfg (bytes ++ rest) ≡ ok (block, rest))
        × (All (λ (cell : LazySignedTransaction L D S). cell.value ≡ none) block.body)
        × (loaded decode block ≡ new_block header txs)
        × (write_block c v len decode
              (write_signed c.u64 pk sig digest)
              (λ s. length (sig.write s))
              block
            ≡ some bytes)
  sealed_block-round_trip cfg header txs rest valid sealed enough few =
      block-round_trip c v len decode (write_signed c.u64 pk sig digest) signature_length sizes cfg
        header txs rest valid (all-IsLazy txs sealed) enough few
