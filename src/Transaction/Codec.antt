-- ===== src/Transaction/Codec.antt =====
-- crates/primitives/src/transaction.rs and sealed.rs: the byte codecs of transactions and of signed
-- transactions. The codecs of `u64`, of `Lazy<TransactionPublicKey>` and of signatures are
-- parameters, and so is the hash.
use constantinople.Base.{
  ℕ, ◌<◌, ◌≡◌, ◌↔◌, refl, sym, ap, subst, ◌∙◌, true, false, List, ◌++◌, Result, CodecError,
  append_assoc, arith, eqb,
}
use constantinople.Base.Result.{ok, err}
use constantinople.Base.Codec.{Codec, IsWord, ◌>>=◌, bind-ok, from_ok}
use constantinople.Account.Codec.{write_key, read_key, IsKey, read-write_key, read_key-inv}
use constantinople.Transaction.{Sealed, Transaction, SignedTransaction, seal}

-- `NonZeroU64::new(value).ok_or(..)`
abbrev pub non_zero : ℕ → Result CodecError ℕ
non_zero value = elim (eqb value 0) [
  | true ↦ err (CodecError.invalid "Transaction" "value must be non-zero")
  | false ↦ ok value
]

module _ {L : Type 0} {IsSender : L → Type 0} (u64 : Codec IsWord) (pk : Codec IsSender) where
  -- `<Transaction as Write>::write`
  unfoldable pub write_transaction : Transaction L → List ℕ
  write_transaction tx =
      pk.write tx.sender ++ (write_key tx.to ++ (u64.write tx.value ++ u64.write tx.nonce))

  -- `<Transaction as Read>::read_cfg`
  unfoldable pub read_transaction : List ℕ → Result CodecError (Transaction L × List ℕ)
  read_transaction buf = do
    (sender, buf1) ← pk.read buf
    (to, buf2) ← read_key buf1
    (number, buf3) ← u64.read buf2
    value ← non_zero number
    (nonce, buf4) ← u64.read buf3
    ok (record { sender = sender; to = to; value = value; nonce = nonce }, buf4)

  -- What a transaction must be to be written and read.
  pub record IsEncodable (tx : Transaction L) : Type 0 where
    pub sender_valid : IsSender tx.sender
    pub to_valid : IsKey tx.to
    pub value_fits : IsWord tx.value
    pub value_positive : 0 < tx.value
    pub nonce_fits : IsWord tx.nonce

  write_transaction-append :
      (tx : Transaction L) (rest : List ℕ)
      → write_transaction tx ++ rest
        ≡ pk.write tx.sender
          ++ (write_key tx.to ++ (u64.write tx.value ++ (u64.write tx.nonce ++ rest)))
  unfolding write_transaction
  write_transaction-append tx rest =
      append_assoc (pk.write tx.sender) _ rest
      ∙ ap (λ b. pk.write tx.sender ++ b)
          (append_assoc (write_key tx.to) _ rest
            ∙ ap (λ b. write_key tx.to ++ b)
                (append_assoc (u64.write tx.value) (u64.write tx.nonce) rest))

  pub read-write_transaction :
      (tx : Transaction L) (rest : List ℕ)
      → IsEncodable tx
      → read_transaction (write_transaction tx ++ rest) ≡ ok (tx, rest)
  unfolding read_transaction
  read-write_transaction tx rest h =
      let positive : eqb tx.value 0 ≡ false = ground (arith, h.value_positive) in
      let after_nonce = u64.write tx.nonce ++ rest in
      let after_value = u64.write tx.value ++ after_nonce in
      rw
        (
          write_transaction-append tx rest,
          pk.read_write tx.sender (write_key tx.to ++ after_value) h.sender_valid,
          read_transaction,
          read-write_key tx.to after_value h.to_valid,
          u64.read_write tx.value after_nonce h.value_fits,
          non_zero,
          positive,
          u64.read_write tx.nonce rest h.nonce_fits,
        )
        refl

  non_zero-ok : (n v : ℕ) → non_zero n ≡ ok v → (n ≡ v) × (0 < v)
  non_zero-ok n v h = ground arith

  pub read_transaction-inv :
      (buf : List ℕ) (tx : Transaction L) (rest : List ℕ)
      → read_transaction buf ≡ ok (tx, rest)
      → (buf ≡ write_transaction tx ++ rest) × IsEncodable tx
  unfolding read_transaction
  read_transaction-inv buf tx rest h =
      let ((sender, buf1), h0, h1) = bind-ok (pk.read buf) _ (tx, rest) h in
      let ((to, buf2), h2, h3) = bind-ok (read_key buf1) _ (tx, rest) h1 in
      let ((number, buf3), h4, h5) = bind-ok (u64.read buf2) _ (tx, rest) h3 in
      let (value, h6, h7) = bind-ok (non_zero number) _ (tx, rest) h5 in
      let ((nonce, buf4), h8, h9) = bind-ok (u64.read buf3) _ (tx, rest) h7 in
      let (e0, sender_valid) = pk.read_inv buf sender buf1 h0 in
      let (e1, to_valid) = read_key-inv buf1 to buf2 h2 in
      let (e2, number_fits) = u64.read_inv buf2 number buf3 h4 in
      let (same, positive) = non_zero-ok number value h6 in
      let (e3, nonce_fits) = u64.read_inv buf3 nonce buf4 h8 in
      let t : Transaction L = record { sender = sender; to = to; value = value; nonce = nonce } in
      let bytes : buf
          ≡ pk.write sender ++ (write_key to ++ (u64.write value ++ (u64.write nonce ++ buf4))) =
        e0
        ∙ ap (λ b. pk.write sender ++ b)
            (e1
              ∙ ap (λ b. write_key to ++ b)
                  (e2 ∙ ap (λ v. u64.write v ++ buf3) same ∙ ap (λ b. u64.write value ++ b) e3)) in
      subst (λ (p : Transaction L × List ℕ). (buf ≡ write_transaction p.0 ++ p.1) × IsEncodable p.0)
        (ap (from_ok (t, buf4)) h9)
        (
          bytes ∙ sym (write_transaction-append t buf4),
          record {
            sender_valid = sender_valid;
            to_valid = to_valid;
            value_fits = subst IsWord same number_fits;
            value_positive = positive;
            nonce_fits = nonce_fits;
          },
        )

module _ {L D S : Type 0} {IsSender : L → Type 0} {IsSignature : S → Type 0} (u64 : Codec IsWord)
    (pk : Codec IsSender) (sig : Codec IsSignature) (digest : List ℕ → D) where
  -- `<SignedTransaction as Write>::write`; `Sealed` writes what it holds.
  unfoldable pub write_signed : SignedTransaction L D S → List ℕ
  write_signed tx = write_transaction u64 pk tx.inner.inner ++ sig.write tx.signature

  -- `<Sealed<Transaction> as Read>::read_cfg`: the seal is computed, not read
  unfoldable pub read_sealed : List ℕ → Result CodecError (Sealed (Transaction L) D × List ℕ)
  read_sealed buf = do
    (tx, rest) ← read_transaction u64 pk buf
    ok (seal (write_transaction u64 pk) digest tx, rest)

  -- `<SignedTransaction as Read>::read_cfg`
  unfoldable pub read_signed : List ℕ → Result CodecError (SignedTransaction L D S × List ℕ)
  read_signed buf = do
    (inner, buf1) ← read_sealed buf
    (signature, buf2) ← sig.read buf1
    ok (record { inner = inner; signature = signature }, buf2)

  -- Its parts can be encoded, and its seal is the hash of the transaction.
  pub record IsSealed (tx : SignedTransaction L D S) : Type 0 where
    pub encodable : IsEncodable u64 pk tx.inner.inner
    pub signature_valid : IsSignature tx.signature
    pub sealed : tx.inner ≡ seal (write_transaction u64 pk) digest tx.inner.inner

  read-write_signed :
      (tx : SignedTransaction L D S) (rest : List ℕ)
      → IsSealed tx
      → read_signed (write_signed tx ++ rest) ≡ ok (tx, rest)
  unfolding read_signed write_signed read_sealed
  read-write_signed tx rest h =
      let body =
        read-write_transaction u64 pk tx.inner.inner (sig.write tx.signature ++ rest) h.encodable in
      rw
        (
          append_assoc (write_transaction u64 pk tx.inner.inner) (sig.write tx.signature) rest,
          body,
          read_signed,
          read_sealed,
          sig.read_write tx.signature rest h.signature_valid,
        )
        (ap (λ s. ok (record { inner = s; signature = tx.signature }, rest)) (sym h.sealed))

  read_signed-inv :
      (buf : List ℕ) (tx : SignedTransaction L D S) (rest : List ℕ)
      → read_signed buf ≡ ok (tx, rest)
      → (buf ≡ write_signed tx ++ rest) × IsSealed tx
  unfolding read_signed write_signed read_sealed seal
  read_signed-inv buf tx rest h =
      let ((inner, buf1), h0, h1) = bind-ok (read_sealed buf) _ (tx, rest) h in
      let ((signature, buf2), h2, h3) = bind-ok (sig.read buf1) _ (tx, rest) h1 in
      let ((body, buf0), h4, h5) = bind-ok (read_transaction u64 pk buf) _ (inner, buf1) h0 in
      let (e0, encodable) = read_transaction-inv u64 pk buf body buf0 h4 in
      let (e1, signature_valid) = sig.read_inv buf1 signature buf2 h2 in
      let sealed = seal (write_transaction u64 pk) digest body in
      let same : (sealed, buf0) ≡ (inner, buf1) = ap (from_ok (sealed, buf0)) h5 in
      let t : SignedTransaction L D S = record { inner = sealed; signature = signature } in
      let made : (t, buf2) ≡ (tx, rest) =
        ap
          (λ (p : Sealed (Transaction L) D × List ℕ).
            (record { inner = p.0; signature = signature }, buf2))
          same
        ∙ ap (from_ok (t, buf2)) h3 in
      subst
        (λ (p : SignedTransaction L D S × List ℕ). (buf ≡ write_signed p.0 ++ p.1) × IsSealed p.0)
        made
        (
          e0
              ∙ ap (λ b. write_transaction u64 pk body ++ b) (ap (λ p. p.1) same ∙ e1)
              ∙ sym (append_assoc (write_transaction u64 pk body) (sig.write signature) buf2),
          record { encodable = encodable; signature_valid = signature_valid; sealed = refl },
        )

  -- A buffer reads as a signed transaction exactly if it starts with what that transaction writes,
  -- its parts can be encoded, its value is not zero, and its seal is the hash of its encoding.
  pub signed_transaction-round_trip :
      (buf : List ℕ) (tx : SignedTransaction L D S) (rest : List ℕ)
      → (read_signed buf ≡ ok (tx, rest)) ↔ ((buf ≡ write_signed tx ++ rest) × IsSealed tx)
  signed_transaction-round_trip buf tx rest =
      (read_signed-inv buf tx rest, (λ h. ap read_signed h.0 ∙ read-write_signed tx rest h.1))
