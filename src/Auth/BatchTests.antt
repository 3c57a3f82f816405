-- ===== src/Auth/BatchTests.antt =====
-- Signatures of both schemes in one batch.
use constantinople.Base.{
  ℕ, ◌≡◌, refl, Bool, true, false, ◌&&◌, none, some, List, [], ◌∷◌, ◌++◌, map, eqb, arith,
  replicate, sym, ap, drop, Option, collect, if◌then◌else◌,
}
use constantinople.Auth.{TransactionPublicKey}
use constantinople.Auth.Batch.{
  TransactionSignature, Ed25519Batch, WebAuthn, new_verifier, add_signature, verify_batch,
  SignedMessage, verify_from, verify_secp256r1, verify_webauthn_assertion, base64_url_no_pad,
  user_verified, webauthn_get,
}
use constantinople.Auth.Mixed.{IsEd25519Batch, verify_one, verify_from-each}
use constantinople.Auth.Challenge.{assertion-one_message}
use constantinople.Auth.Bodies.{transaction_verifier, passes, verify_chunks-each}
use constantinople.Transaction.{SignedTransaction}
use constantinople.Signed.{Strategy, all, verify_transaction_chunks, preload_transaction_chunks}
use constantinople.Signed.Chunks.{IsStrategy, part, foldl}

abbrev sequential : Strategy
sequential = record {
  parallelism_hint = 1;
  map_collect_vec = map;
  fold = λ xs init step combine. foldl step init xs;
}

sequential-IsStrategy : IsStrategy sequential
sequential-IsStrategy = record {
  maps = λ f xs. refl;
  folds = λ xs init step combine. (part xs, refl, refl);
}

-- A signature is the number of its key.
abbrev numbers : Ed25519Batch ℕ ℕ
numbers = record {
  Batch = Bool;
  new = true;
  add = λ batch namespace message key signature. some (batch && eqb key signature);
  verify = λ strategy batch. batch;
}

numbers-IsEd25519Batch : IsEd25519Batch numbers
numbers-IsEd25519Batch = record {
  is_valid = λ namespace message key signature. eqb key signature;
  all_valid = λ batch. batch;
  new_valid = refl;
  add_valid = λ b b' namespace message key signature h.
      ap (λ o. elim o [ none ↦ false | some b ↦ b ]) (sym h);
  add_refuses = λ b namespace message key signature h. absurd (ground arith);
  verifies = λ s b h. refl;
}

-- The client data is the challenge itself.
abbrev plain : WebAuthn ℕ ℕ
plain = record {
  Json = List ℕ;
  parse = some;
  type_of = λ json. some webauthn_get;
  challenge_of = some;
  sha256 = λ json. json;
  VerifyingKey = ℕ;
  RawSignature = ℕ;
  verifying_key = some;
  raw_signature = some;
  verify = λ key payload signature. eqb key signature;
}

abbrev ed_signed : ℕ → SignedMessage ℕ ℕ ℕ ℕ
ed_signed signature = record {
  message = 7 ∷ [];
  public_key = TransactionPublicKey.ed25519 4 [];
  signature = TransactionSignature.ed25519 signature [];
}

-- `TWFu` is the encoding of `Man`.
abbrev man : List ℕ
man = 77 ∷ 97 ∷ 110 ∷ []

encodings :
    map base64_url_no_pad (man ∷ (77 ∷ 97 ∷ []) ∷ (255 ∷ []) ∷ [])
    ≡ (84 ∷ 87 ∷ 70 ∷ 117 ∷ []) ∷ (84 ∷ 87 ∷ 69 ∷ []) ∷ (95 ∷ 119 ∷ []) ∷ []
unfolding base64_url_no_pad
encodings = refl

abbrev passkey_signed : SignedMessage ℕ ℕ ℕ ℕ
passkey_signed = record {
  message = man;
  public_key = TransactionPublicKey.secp256r1 5 [];
  signature =
      TransactionSignature.secp256r1 5 (replicate 32 0 ++ 5 ∷ replicate 4 0)
        (84 ∷ 87 ∷ 70 ∷ 117 ∷ []) [];
}

both_verify :
    verify_from numbers plain [] sequential
      (new_verifier numbers plain)
      (ed_signed 4 ∷ passkey_signed ∷ [])
    ≡ true
unfolding verify_from add_signature verify_batch verify_secp256r1 verify_webauthn_assertion
    base64_url_no_pad
both_verify = refl

verify_from-each_example :
    verify_from numbers plain [] sequential
      (new_verifier numbers plain)
      (ed_signed 4 ∷ passkey_signed ∷ ed_signed 3 ∷ [])
    ≡ all
        (verify_one numbers plain numbers-IsEd25519Batch [])
        (ed_signed 4 ∷ passkey_signed ∷ ed_signed 3 ∷ [])
verify_from-each_example =
    verify_from-each numbers plain numbers-IsEd25519Batch [] sequential
      (ed_signed 4 ∷ passkey_signed ∷ ed_signed 3 ∷ []) sequential-IsStrategy

assertion-one_message_example :
    (man ≡ man)
    × (user_verified (drop 32 (replicate 32 0 ++ 5 ∷ replicate 4 0)) ≡ true)
    × (user_verified (drop 32 (replicate 32 0 ++ 4 ∷ replicate 4 0)) ≡ true)
unfolding verify_webauthn_assertion base64_url_no_pad
assertion-one_message_example =
    assertion-one_message plain 5 6 man man 5 6 (replicate 32 0 ++ 5 ∷ replicate 4 0)
      (replicate 32 0 ++ 4 ∷ replicate 4 0) (84 ∷ 87 ∷ 70 ∷ 117 ∷ [])
      (omega arith, (omega arith, (omega arith, tt)))
      (omega arith, (omega arith, (omega arith, tt))) refl refl

abbrev body_transaction : ℕ → Option (SignedTransaction ℕ ℕ (TransactionSignature ℕ ℕ))
body_transaction signature = some (record {
  inner = record {
    inner = record { sender = 4; to = record { bytes = replicate 32 3 }; value = 5; nonce = 1 };
    seal = 7;
  };
  signature = TransactionSignature.ed25519 signature [];
})

abbrev sender_key : ℕ → Option (TransactionPublicKey ℕ ℕ)
sender_key sender = some (TransactionPublicKey.ed25519 sender [])

abbrev digest_bytes : ℕ → List ℕ
digest_bytes digest = digest ∷ []

verify_chunks-each_example :
    verify_transaction_chunks sender_key
      (transaction_verifier numbers plain [] digest_bytes)
      sequential
      sequential
      (body_transaction 4 ∷ body_transaction 4 ∷ [])
    ≡ collect
        (λ lazy.
          if passes numbers plain numbers-IsEd25519Batch [] digest_bytes sender_key lazy
          then lazy
          else none)
        (body_transaction 4 ∷ body_transaction 4 ∷ [])
verify_chunks-each_example =
    verify_chunks-each numbers plain numbers-IsEd25519Batch [] digest_bytes sender_key sequential
      sequential (body_transaction 4 ∷ body_transaction 4 ∷ []) sequential-IsStrategy
      sequential-IsStrategy

bodies :
    map
      (verify_transaction_chunks sender_key
        (transaction_verifier numbers plain [] digest_bytes)
        sequential
        sequential)
      ((body_transaction 4 ∷ []) ∷ (body_transaction 3 ∷ []) ∷ (none ∷ []) ∷ [] ∷ [])
    ≡ collect (λ tx. tx) (body_transaction 4 ∷ []) ∷ none ∷ none ∷ some [] ∷ []
unfolding verify_transaction_chunks preload_transaction_chunks add_signature verify_batch
    verify_secp256r1
bodies = refl
