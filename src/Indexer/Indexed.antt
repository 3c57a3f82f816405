-- ===== src/Indexer/Indexed.antt =====
-- crates/indexer/src/publisher/block.rs: the indexer reads off the encoding of a transaction what the
-- decoder would give.
use mathlib.Core.Option
use constantinople.Base.{
  ℕ, ◌+◌, ◌-◌, ◌≤◌, ◌<◌, ◌≡◌, refl, sym, ap, ◌∙◌, inl, inr, false, Option, List, [], ◌++◌, length,
  take-append, drop-append, length-append, append_assoc, append-nil, le→ltb, arith, eqb,
  Option-cases,
}
use constantinople.Base.Codec.{Codec, IsWord}
use constantinople.Account.{AccountKey, public_key_size, from_public_key_bytes}
use constantinople.Account.Codec.{write_key}
use constantinople.Transaction.{Sealed, Transaction, SignedTransaction, transaction_size, seal}
use constantinople.Transaction.Codec.{write_transaction, write_signed, IsSealed, IsEncodable}
use constantinople.Indexer.Rows.{
  IndexedTransaction, index_bytes, index_transaction, slice, from_be_bytes,
}

-- Words are written in eight bytes, the most significant first.
pub record IsBigEndian (u64 : Codec IsWord) : Type 0 where
  pub word_size : (n : ℕ) → IsWord n → length (u64.write n) ≡ 8
  pub word_value : (n : ℕ) → IsWord n → from_be_bytes (u64.write n) ≡ n

pub slice_middle :
    (start end : ℕ) (a b c : List ℕ)
    → length a ≡ start
    → start + length b ≡ end
    → slice start end (a ++ (b ++ c)) ≡ b
slice_middle start end a b c h k =
    let size : end - start ≡ length b = omega arith in
    rw (size, sym h, drop-append a (b ++ c)) (take-append b c)

-- What the indexer keeps of a transaction.
abbrev pub indexed :
    {L D S : Type 0} → ℕ → List ℕ → SignedTransaction L D S → AccountKey → IndexedTransaction D
indexed block_index bytes tx key = record {
  block_index = block_index;
  digest = tx.inner.seal;
  bytes = bytes;
  sender = key;
  to = tx.inner.inner.to.bytes;
  value = tx.inner.inner.value;
  nonce = tx.inner.inner.nonce;
}

module _ {D : Type 0} (sha256 : List ℕ → List ℕ) (hash : List ℕ → D) where
  index_bytes-fields :
      (index : ℕ) (all bytes pk to value nonce : List ℕ)
      → slice 0 34 bytes ≡ pk
      → slice 34 66 bytes ≡ to
      → slice 66 74 bytes ≡ value
      → slice 74 82 bytes ≡ nonce
      → eqb (from_be_bytes value) 0 ≡ false
      → index_bytes sha256 hash index all bytes
        ≡ Option.map
            (λ key. record {
              block_index = index;
              digest = hash bytes;
              bytes = all;
              sender = key;
              to = to;
              value = from_be_bytes value;
              nonce = from_be_bytes nonce;
            })
            (from_public_key_bytes sha256 pk)
  index_bytes-fields index all bytes pk to value nonce hp ht hv hn nonzero =
      elim (Option-cases (from_public_key_bytes sha256 pk)) [
        | inl unknown ↦ rw (hp, unknown, index_bytes) refl
        | inr (key, found) ↦ rw (hp, found, index_bytes, hv, nonzero, ht, hn) refl
      ]

  -- The fields that four consecutive parts of the bytes give.
  index_bytes-parts :
      (index : ℕ) (all pk to value nonce : List ℕ)
      → length pk ≡ 34
      → length to ≡ 32
      → length value ≡ 8
      → length nonce ≡ 8
      → eqb (from_be_bytes value) 0 ≡ false
      → index_bytes sha256 hash index all (pk ++ (to ++ (value ++ nonce)))
        ≡ Option.map
            (λ key. record {
              block_index = index;
              digest = hash (pk ++ (to ++ (value ++ nonce)));
              bytes = all;
              sender = key;
              to = to;
              value = from_be_bytes value;
              nonce = from_be_bytes nonce;
            })
            (from_public_key_bytes sha256 pk)
  index_bytes-parts index all pk to value nonce hp ht hv hn nonzero =
      let bytes = pk ++ (to ++ (value ++ nonce)) in
      let pk_part : slice 0 34 bytes ≡ pk =
        slice_middle 0 34 [] pk (to ++ (value ++ nonce)) refl (omega arith) in
      let to_part : slice 34 66 bytes ≡ to =
        slice_middle 34 66 pk to (value ++ nonce) hp (omega arith) in
      let front : bytes ≡ (pk ++ to) ++ (value ++ nonce) =
        sym (append_assoc pk to (value ++ nonce)) in
      let front_size : length (pk ++ to) ≡ 66 = omega (arith, length-append {0} pk to) in
      let value_part : slice 66 74 bytes ≡ value =
        ap (slice 66 74) front
        ∙ slice_middle 66 74 (pk ++ to) value nonce front_size (omega arith) in
      let longer : bytes ≡ ((pk ++ to) ++ value) ++ (nonce ++ []) =
        front
        ∙ sym (append_assoc (pk ++ to) value nonce)
        ∙ ap (λ n. ((pk ++ to) ++ value) ++ n) (sym (append-nil nonce)) in
      let nonce_part : slice 74 82 bytes ≡ nonce =
        ap (slice 74 82) longer
        ∙ slice_middle 74 82 ((pk ++ to) ++ value) nonce []
            (omega (arith, front_size, length-append {0} (pk ++ to) value)) (omega arith) in
      index_bytes-fields index all bytes pk to value nonce pk_part to_part value_part nonce_part
        nonzero

positive_eqb : (n : ℕ) → 0 < n → eqb n 0 ≡ false
positive_eqb n h = ground arith

index_transaction-long :
    {D : Type 0} (sha256 : List ℕ → List ℕ) (hash : List ℕ → D) (index : ℕ) (all bytes : List ℕ)
    → 82 ≤ length all
    → slice 0 82 all ≡ bytes
    → index_transaction sha256 hash index all ≡ index_bytes sha256 hash index all bytes
unfolding index_transaction
index_transaction-long sha256 hash index all bytes long front =
    let enough = le→ltb (length all) 82 long in rw (enough, index_transaction, front) refl

module _ {L D S : Type 0} {IsSender : L → Type 0} {IsSignature : S → Type 0} (u64 : Codec IsWord)
    (pk : Codec IsSender) (sig : Codec IsSignature) (hash : List ℕ → D) (sha256 : List ℕ → List ℕ)
    (be : IsBigEndian u64)
    (pk_size : (sender : L) → IsSender sender → length (pk.write sender) ≡ public_key_size) where
  -- The account that a transaction is sent from, as the indexer reads it.
  abbrev pub sender_account : SignedTransaction L D S → Option AccountKey
  sender_account tx = from_public_key_bytes sha256 (pk.write tx.inner.inner.sender)

  length-write_transaction :
      (body : Transaction L) → IsEncodable u64 pk body → length (write_transaction u64 pk body) ≡ 82
  unfolding write_transaction write_key
  length-write_transaction body e = omega (
    arith,
    pk_size body.sender e.sender_valid,
    e.to_valid,
    be.word_size body.value e.value_fits,
    be.word_size body.nonce e.nonce_fits,
    length-append {0} (pk.write body.sender)
        (body.to.bytes ++ (u64.write body.value ++ u64.write body.nonce)),
    length-append {0} body.to.bytes (u64.write body.value ++ u64.write body.nonce),
    length-append {0} (u64.write body.value) (u64.write body.nonce),
  )

  -- Of the encoding of a signed transaction that can be encoded, whose seal is the hash of the
  -- transaction, the indexer takes without decoding it just what the decoded transaction holds: its
  -- seal as the digest, the recipient, the value, the nonce and the account of its sender. It skips
  -- the transaction exactly if the bytes of the sender's key name no account.
  pub index_transaction-signed :
      (index : ℕ) (tx : SignedTransaction L D S)
      → IsSealed u64 pk sig hash tx
      → index_transaction sha256 hash index (write_signed u64 pk sig hash tx)
        ≡ Option.map (indexed index (write_signed u64 pk sig hash tx) tx) (sender_account tx)
  unfolding index_transaction write_signed write_transaction write_key seal
  index_transaction-signed index tx h =
      let body = tx.inner.inner in
      let bytes = write_transaction u64 pk body in
      let all = bytes ++ sig.write tx.signature in
      let size = length-write_transaction body h.encodable in
      let long : 82 ≤ length all =
        omega (arith, size, length-append {0} bytes (sig.write tx.signature)) in
      let front : slice 0 transaction_size all ≡ bytes =
        slice_middle 0 82 [] bytes (sig.write tx.signature) refl (omega (arith, size)) in
      let value = be.word_value body.value h.encodable.value_fits in
      let nonce = be.word_value body.nonce h.encodable.nonce_fits in
      let positive : eqb (from_be_bytes (u64.write body.value)) 0 ≡ false =
        rw value (positive_eqb body.value h.encodable.value_positive) in
      let fields =
        index_bytes-parts sha256 hash index all (pk.write body.sender) body.to.bytes
          (u64.write body.value) (u64.write body.nonce)
          (pk_size body.sender h.encodable.sender_valid) h.encodable.to_valid
          (be.word_size body.value h.encodable.value_fits)
          (be.word_size body.nonce h.encodable.nonce_fits) positive in
      let digest : hash bytes ≡ tx.inner.seal =
        sym (ap (λ (x : Sealed (Transaction L) D). x.seal) h.sealed) in
      index_transaction-long sha256 hash index all bytes long front
      ∙ fields
      ∙ rw (value, nonce, digest) refl
