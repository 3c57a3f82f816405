-- ===== src/Signed/Cell.antt =====
-- crates/primitives/src/signed.rs: lemmas on the codec of a lazy cell.

use constantinople.Base.{
  ℕ, ◌+◌, ◌≤◌, ◌≡◌, refl, sym, ap, Option, some, List, ◌++◌, length, take, drop, take-append,
  drop-append, length-append, append_assoc, arith, ltb, false,
}
use constantinople.Base.Result.{ok}
use constantinople.Base.Codec.{Lengths}
use constantinople.Transaction.{SignedTransaction, transaction_size, encode_size}
use constantinople.Signed.Lazy.{
  SignatureSizes, new_lazy, deferred, get_lazy, get_expect, take_deferred,
  encoded_signed_transaction, write_lazy, lazy_encode_size, read_lazy,
}

take_deferred-bytes :
    {L D S : Type 0} (sizes : SignatureSizes) (n : ℕ) (bytes rest : List ℕ)
    → length bytes ≡ n
    → transaction_size + sizes.min_size ≤ n
    → take_deferred {L = L} {D = D} {S = S} sizes n (bytes ++ rest) ≡ ok (deferred bytes, rest)
take_deferred-bytes sizes n bytes rest same enough =
    let long : ltb n (transaction_size + sizes.min_size) ≡ false = ground arith in
    let there : ltb (length (bytes ++ rest)) n ≡ false = ground (arith, length-append bytes rest) in
    let front : take n (bytes ++ rest) ≡ bytes = rw (sym same) (take-append bytes rest) in
    let back : drop n (bytes ++ rest) ≡ rest = rw (sym same) (drop-append bytes rest) in
    rw (long, take_deferred, there, front, back) refl

-- A transaction whose bytes decode to it, and whose sizes are as `EncodeSize` says.
pub record IsLazy {L D S : Type 0} (decode : List ℕ → Option (SignedTransaction L D S))
    (write : SignedTransaction L D S → List ℕ) (signature_size : S → ℕ) (sizes : SignatureSizes)
    (tx : SignedTransaction L D S) : Type 0 where
  pub decodes : decode (write tx) ≡ some tx
  pub size : length (write tx) ≡ encode_size signature_size tx
  pub at_least : sizes.min_size ≤ signature_size tx.signature
  pub at_most : signature_size tx.signature ≤ sizes.max_size

-- What `write_lazy` writes of a decoded transaction.
abbrev pub wire :
    {L D S : Type 0}
    → (SignedTransaction L D S → List ℕ)
    → (S → ℕ)
    → Lengths
    → SignedTransaction L D S
    → List ℕ
wire write signature_size len tx = len.write (encode_size signature_size tx) ++ write tx

module _ {L D S : Type 0} (decode : List ℕ → Option (SignedTransaction L D S))
    (write : SignedTransaction L D S → List ℕ) (signature_size : S → ℕ) (sizes : SignatureSizes)
    (len : Lengths) (tx : SignedTransaction L D S)
    (h : IsLazy decode write signature_size sizes tx) where
  pub read_lazy-wire :
      (rest : List ℕ)
      → read_lazy {L = L} {D = D} {S = S} len sizes (wire write signature_size len tx ++ rest)
        ≡ ok (deferred (write tx), rest)
  unfolding read_lazy
  read_lazy-wire rest =
      rw
        (
          append_assoc (len.write (encode_size signature_size tx)) (write tx) rest,
          len.read_write 0 (transaction_size + sizes.max_size) (encode_size signature_size tx)
              (write tx ++ rest) (omega arith) (omega (arith, h.at_most)),
        )
        (take_deferred-bytes sizes (encode_size signature_size tx) (write tx) rest h.size
          (omega (arith, h.at_least)))

  pub lazy-round_trip :
      (rest : List ℕ)
      → (write_lazy decode write len signature_size (new_lazy tx)
          ≡ some (wire write signature_size len tx))
        × (lazy_encode_size decode len signature_size (new_lazy tx)
            ≡ some (length (wire write signature_size len tx)))
        × (read_lazy {L = L} {D = D} {S = S} len sizes (wire write signature_size len tx ++ rest)
            ≡ ok (deferred (write tx), rest))
        × (get_expect decode (deferred (write tx)) ≡ some tx)
        × (write_lazy decode write len signature_size (deferred (write tx))
            ≡ some (wire write signature_size len tx))
        × (encoded_signed_transaction decode write (deferred (write tx))
            ≡ encoded_signed_transaction decode write (new_lazy tx))
  unfolding write_lazy lazy_encode_size get_lazy encoded_signed_transaction
  lazy-round_trip rest = (
    refl,
    ap some (
        omega (
          arith,
          length-append {0} (len.write (encode_size signature_size tx)) (write tx),
          h.size,
        )),
    read_lazy-wire rest,
    h.decodes,
    ap (λ n. some (len.write n ++ write tx)) h.size,
    refl,
  )
