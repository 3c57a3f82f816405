-- ===== src/Auth/Bodies.antt =====
-- crates/primitives/src/signed.rs with auth.rs: the verification of a body against the verification of
-- each of its transactions alone.
use constantinople.Base.{
  ℕ, ◌≡◌, refl, sym, ap, ◌∙◌, inl, inr, Bool, true, false, ◌&&◌, Option, none, some, List, [], ◌∷◌,
  collect, Bool-cases, if◌then◌else◌, ◌>>=◌,
}
use constantinople.Transaction.{SignedTransaction, value, message_digest}
use constantinople.Auth.{TransactionPublicKey}
use constantinople.Auth.Batch.{
  TransactionSignature, Ed25519Batch, WebAuthn, TransactionBatchVerifier, new_verifier,
  add_signature, verify_batch, or_false,
}
use constantinople.Auth.Mixed.{
  IsEd25519Batch, is_accepted, queued, add_signature-IsAdded, verify_batch-eq-queued, rest-eq,
  and_true, false_if,
}
use constantinople.Signed.{
  Strategy, Verifier, all, add_transactions, verify_transaction_batch, verify_transaction_chunks,
}
use constantinople.Signed.Chunks.{IsStrategy, verify_chunks-eq-batch}

-- `TransactionBatchVerifier`, as signed.rs uses it: the message is the bytes of a digest.
abbrev pub transaction_verifier :
    {E P ES PS D : Type 0}
    → (ed : Ed25519Batch E ES) → WebAuthn P PS
    → List ℕ
    → (D → List ℕ)
    → Verifier D (TransactionPublicKey E P) (TransactionSignature ES PS)
transaction_verifier ed webauthn namespace bytes = record {
  Batch = TransactionBatchVerifier ed.Batch _ _;
  new = new_verifier ed webauthn;
  add = λ batch digest key signature.
      add_signature ed webauthn batch namespace (bytes digest) key signature;
  verify = verify_batch ed webauthn;
}

or_false-bind :
    {A B : Type 0} (added : Option A) (f : A → Option B) (test : B → Bool)
    → or_false (added >>= f) test ≡ or_false added (λ a. or_false (f a) test)
or_false-bind none f test = refl
or_false-bind (some a) f test = refl

-- All elements that pass are collected, or none.
collect_if :
    {A : Type 0} (p : Option A → Bool) (xs : List (Option A))
    → (if all p xs then collect (λ x. x) xs else none) ≡ collect (λ x. if p x then x else none) xs
collect_if p [] = refl
collect_if p (none ∷ xs) = elim (Bool-cases (p none)) [
  | inl passes ↦ elim (Bool-cases (all p xs)) [
    | inl later ↦ rw (passes, all, later, collect) refl
    | inr later ↦ rw (passes, all, later, collect) refl
  ]
  | inr fails ↦ rw (fails, all, collect) refl
]
collect_if p (some x ∷ xs) =
    let rest = collect_if p xs in
    elim (Bool-cases (p (some x))) [
      | inl passes ↦ elim (Bool-cases (all p xs)) [
        | inl later ↦
            (let whole = rw (later, if◌then◌else◌) at rest in
              rw (passes, all, later, collect, sym whole) refl)
        | inr later ↦
            (let nothing = rw (later, if◌then◌else◌) at rest in
              rw (passes, all, later, collect, sym nothing) refl)
      ]
      | inr fails ↦ rw (fails, all, collect) refl
    ]

module _ {E P ES PS L D : Type 0} (ed : Ed25519Batch E ES) (webauthn : WebAuthn P PS)
    (laws : IsEd25519Batch ed) (namespace : List ℕ) (bytes : D → List ℕ)
    (decode : L → Option (TransactionPublicKey E P)) where
  -- The test of a decoded transaction, by the key of its sender.
  abbrev pub passes_with :
      SignedTransaction L D (TransactionSignature ES PS) → Option (TransactionPublicKey E P) → Bool
  passes_with tx none = false
  passes_with tx (some key) =
      is_accepted ed webauthn laws namespace (bytes (message_digest tx)) key tx.signature

  -- A transaction alone: it decodes, its sender decodes, and its signature is accepted.
  abbrev pub passes : Option (SignedTransaction L D (TransactionSignature ES PS)) → Bool
  passes none = false
  passes (some tx) = passes_with tx (decode (value tx).sender)

  -- The transactions added after those that a verifier has been given.
  abbrev added_from :
      Strategy
      → List (Option (SignedTransaction L D (TransactionSignature ES PS)))
      → TransactionBatchVerifier ed.Batch P PS
      → Bool
  added_from s txs w =
      or_false (add_transactions decode (transaction_verifier ed webauthn namespace bytes) w txs)
        (verify_batch ed webauthn s)

  keyed-eq :
      (s : Strategy) (w : TransactionBatchVerifier ed.Batch P PS)
      (tx : SignedTransaction L D (TransactionSignature ES PS))
      (rest : List (Option (SignedTransaction L D (TransactionSignature ES PS))))
      (key : Option (TransactionPublicKey E P))
      → ((u : TransactionBatchVerifier ed.Batch P PS)
          → added_from s rest u ≡ (queued ed webauthn laws namespace u && all passes rest))
      → or_false
          (key >>= λ sender.
            add_signature ed webauthn w namespace (bytes (message_digest tx)) sender tx.signature
            >>= λ next.
                add_transactions decode
                  (transaction_verifier ed webauthn namespace bytes)
                  next
                  rest)
          (verify_batch ed webauthn s)
        ≡ (queued ed webauthn laws namespace w
            && (if passes_with tx key then all passes rest else false))
  keyed-eq s w tx rest none h = false_if (queued ed webauthn laws namespace w) false false refl
  keyed-eq s w tx rest (some key) h =
      or_false-bind
        (add_signature ed webauthn w namespace (bytes (message_digest tx)) key tx.signature) _
        (verify_batch ed webauthn s)
      ∙ rest-eq ed webauthn laws namespace w (passes_with tx (some key)) (all passes rest)
          (added_from s rest)
          (add_signature ed webauthn w namespace (bytes (message_digest tx)) key tx.signature)
          (add_signature-IsAdded ed webauthn laws namespace w (bytes (message_digest tx)) key
            tx.signature)
          h

  added_from-eq :
      (s : Strategy) (txs : List (Option (SignedTransaction L D (TransactionSignature ES PS))))
      (w : TransactionBatchVerifier ed.Batch P PS)
      → IsStrategy s
      → added_from s txs w ≡ (queued ed webauthn laws namespace w && all passes txs)
  added_from-eq s [] w h =
      verify_batch-eq-queued ed webauthn laws namespace s w h
      ∙ and_true (queued ed webauthn laws namespace w)
  added_from-eq s (none ∷ rest) w h =
      false_if (queued ed webauthn laws namespace w) false false refl
  added_from-eq s (some tx ∷ rest) w h =
      keyed-eq s w tx rest (decode (value tx).sender) (λ u. added_from-eq s rest u h)

  batch-or_false :
      (s : Strategy) (added : Option (TransactionBatchVerifier ed.Batch P PS))
      → (elim added [ none ↦ false | some batch ↦ verify_batch ed webauthn s batch ])
        ≡ or_false added (verify_batch ed webauthn s)
  batch-or_false s none = refl
  batch-or_false s (some batch) = refl

  verify_batch-each :
      (s : Strategy) (txs : List (Option (SignedTransaction L D (TransactionSignature ES PS))))
      → IsStrategy s
      → verify_transaction_batch decode (transaction_verifier ed webauthn namespace bytes) s txs
        ≡ all passes txs
  verify_batch-each s txs h =
      batch-or_false s (
        add_transactions decode (transaction_verifier ed webauthn namespace bytes)
          (new_verifier ed webauthn) txs)
      ∙ added_from-eq s txs (new_verifier ed webauthn) h
      ∙ ap (λ b. (b && true) && all passes txs) laws.new_valid

  -- A body passes exactly if each of its transactions does on its own: it decodes, its sender decodes,
  -- the scheme of its signature is that of its sender's key, and the signature of its digest verifies
  -- under it. The transactions are then returned in order, and the empty body is. The strategies fold
  -- in parts, and the batch of Ed25519 does what it documents.
  pub verify_chunks-each :
      (signatures hashes : Strategy)
      (txs : List (Option (SignedTransaction L D (TransactionSignature ES PS))))
      → IsStrategy signatures
      → IsStrategy hashes
      → verify_transaction_chunks decode
          (transaction_verifier ed webauthn namespace bytes)
          signatures
          hashes
          txs
        ≡ collect (λ lazy. if passes lazy then lazy else none) txs
  unfolding verify_transaction_chunks
  verify_chunks-each signatures hashes [] h k = refl
  verify_chunks-each signatures hashes (lazy ∷ rest) h k =
      verify_chunks-eq-batch decode (transaction_verifier ed webauthn namespace bytes) signatures
        hashes lazy rest k
      ∙ ap (λ b. if b then collect (λ tx. tx) (lazy ∷ rest) else none)
          (verify_batch-each signatures (lazy ∷ rest) h)
      ∙ collect_if passes (lazy ∷ rest)
