-- ===== src/Auth/Mixed.antt =====
-- crates/primitives/src/auth.rs: the batch verifier accepts a mixed batch exactly if each signature of it
-- is accepted.
use constantinople.Base.{
  ℕ, ◌≡◌, refl, ap, ◌∙◌, Bool, true, false, ◌&&◌, not, Option, none, some, List, [], ◌∷◌, arith,
  if◌then◌else◌,
}
use constantinople.Auth.{TransactionPublicKey}
use constantinople.Auth.Batch.{
  TransactionSignature, Secp256r1Item, Ed25519Batch, WebAuthn, TransactionBatchVerifier,
  new_verifier, add_ed25519, add_signature, verify_batch, verify_item, verify_from, or_false,
  SignedMessage, verify_secp256r1, verify_webauthn_assertion,
}
use constantinople.Signed.{Strategy, all}
use constantinople.Signed.Chunks.{IsStrategy, fold-all, all-append}

-- What `ed25519::Batch` documents: a batch verifies exactly if each signature that was added does, and
-- only a signature that does not verify is refused.
pub record IsEd25519Batch {E ES : Type 0} (ed : Ed25519Batch E ES) : Type 1 where
  pub is_valid : List ℕ → List ℕ → E → ES → Bool
  pub all_valid : ed.Batch → Bool
  pub new_valid : all_valid ed.new ≡ true
  pub add_valid :
      (b b' : ed.Batch) (namespace message : List ℕ) (key : E) (signature : ES)
      → ed.add b namespace message key signature ≡ some b'
      → all_valid b' ≡ (all_valid b && is_valid namespace message key signature)
  pub add_refuses :
      (b : ed.Batch) (namespace message : List ℕ) (key : E) (signature : ES)
      → ed.add b namespace message key signature ≡ none
      → is_valid namespace message key signature ≡ false
  pub verifies : (s : Strategy) (b : ed.Batch) → IsStrategy s → ed.verify s b ≡ all_valid b

guard-eq : (a b : Bool) → (if not a then false else b) ≡ (a && b)
guard-eq true b = refl
guard-eq false b = refl

pub and_true : (a : Bool) → a ≡ (a && true)
and_true true = refl
and_true false = refl

and_last : (a b c : Bool) → (a && (b && (if c then true else false))) ≡ ((a && b) && c)
and_last true true true = refl
and_last true true false = refl
and_last true false c = refl
and_last false b c = refl

and_if : (a b c : Bool) → ((a && b) && c) ≡ (a && (if b then c else false))
and_if true true c = refl
and_if true false c = refl
and_if false b c = refl

pub false_if : (a b c : Bool) → b ≡ false → false ≡ (a && (if b then c else false))
false_if true true c h = absurd (ground arith)
false_if true false c h = refl
false_if false b c h = refl

and_swap : (a b c : Bool) → ((a && b) && c) ≡ ((a && c) && b)
and_swap true true true = refl
and_swap true true false = refl
and_swap true false true = refl
and_swap true false false = refl
and_swap false b c = refl

module _ {E P ES PS : Type 0} (ed : Ed25519Batch E ES) (webauthn : WebAuthn P PS)
    (laws : IsEd25519Batch ed) (namespace : List ℕ) where
  -- A single signature: the schemes agree, and it verifies under its scheme. The namespace is that
  -- of Ed25519 only.
  abbrev pub is_accepted : List ℕ → TransactionPublicKey E P → TransactionSignature ES PS → Bool
  is_accepted message (TransactionPublicKey.ed25519 key e) (TransactionSignature.ed25519 s f) =
      laws.is_valid namespace message key s
  is_accepted message (TransactionPublicKey.ed25519 key e)
        (TransactionSignature.secp256r1 s authenticator_data client_data_json f) =
      false
  is_accepted message (TransactionPublicKey.secp256r1 key e) (TransactionSignature.ed25519 s f) =
      false
  is_accepted message (TransactionPublicKey.secp256r1 key e)
        (TransactionSignature.secp256r1 s authenticator_data client_data_json f) =
      verify_webauthn_assertion webauthn key message s authenticator_data client_data_json

  abbrev pub verify_one : SignedMessage E P ES PS → Bool
  verify_one signed = is_accepted signed.message signed.public_key signed.signature

  -- What a verifier has been given is accepted.
  abbrev pub queued : TransactionBatchVerifier ed.Batch P PS → Bool
  queued v = laws.all_valid v.ed25519 && all (verify_item webauthn) v.secp256r1

  -- What adding a signature does to that.
  abbrev pub IsAdded :
      TransactionBatchVerifier ed.Batch P PS
      → Bool
      → Option (TransactionBatchVerifier ed.Batch P PS)
      → Type 0
  IsAdded v accepted none = accepted ≡ false
  IsAdded v accepted (some w) = queued w ≡ (queued v && accepted)

  add_ed25519-IsAdded :
      (v : TransactionBatchVerifier ed.Batch P PS) (message : List ℕ) (key : E) (signature : ES)
      (added : Option ed.Batch)
      → ed.add v.ed25519 namespace message key signature ≡ added
      → IsAdded v (laws.is_valid namespace message key signature) (add_ed25519 ed webauthn v added)
  add_ed25519-IsAdded v message key signature none e =
      laws.add_refuses v.ed25519 namespace message key signature e
  add_ed25519-IsAdded v message key signature (some batch) e =
      rw (laws.add_valid v.ed25519 batch namespace message key signature e) (
        and_swap (laws.all_valid v.ed25519) (laws.is_valid namespace message key signature)
          (all (verify_item webauthn) v.secp256r1))

  pub add_signature-IsAdded :
      (v : TransactionBatchVerifier ed.Batch P PS) (message : List ℕ)
      (public_key : TransactionPublicKey E P) (signature : TransactionSignature ES PS)
      → IsAdded v
          (is_accepted message public_key signature)
          (add_signature ed webauthn v namespace message public_key signature)
  unfolding add_signature
  add_signature-IsAdded v message (TransactionPublicKey.ed25519 key e)
        (TransactionSignature.ed25519 s f) =
      add_ed25519-IsAdded v message key s (ed.add v.ed25519 namespace message key s) refl
  add_signature-IsAdded v message (TransactionPublicKey.ed25519 key e)
        (TransactionSignature.secp256r1 s authenticator_data client_data_json f) =
      refl
  add_signature-IsAdded v message (TransactionPublicKey.secp256r1 key e)
        (TransactionSignature.ed25519 s f) =
      refl
  add_signature-IsAdded v message (TransactionPublicKey.secp256r1 key e)
        (TransactionSignature.secp256r1 s authenticator_data client_data_json f) =
      let item : Secp256r1Item P PS = record {
        message = message;
        public_key = key;
        signature = s;
        authenticator_data = authenticator_data;
        client_data_json = client_data_json;
      } in
      ap (λ b. laws.all_valid v.ed25519 && b)
        (all-append (verify_item webauthn) v.secp256r1 (item ∷ []))
      ∙ and_last (laws.all_valid v.ed25519) (all (verify_item webauthn) v.secp256r1)
          (verify_item webauthn item)

  verify_secp256r1-eq-all :
      (s : Strategy) (items : List (Secp256r1Item P PS))
      → IsStrategy s
      → verify_secp256r1 webauthn s items ≡ all (verify_item webauthn) items
  unfolding verify_secp256r1
  verify_secp256r1-eq-all s [] h = refl
  verify_secp256r1-eq-all s (item ∷ items) h = fold-all (verify_item webauthn) s (item ∷ items) h

  pub verify_batch-eq-queued :
      (s : Strategy) (v : TransactionBatchVerifier ed.Batch P PS)
      → IsStrategy s
      → verify_batch ed webauthn s v ≡ queued v
  unfolding verify_batch
  verify_batch-eq-queued s v h =
      rw (laws.verifies s v.ed25519 h, verify_batch)
        (rw (verify_secp256r1-eq-all s v.secp256r1 h)
          (guard-eq (laws.all_valid v.ed25519) (all (verify_item webauthn) v.secp256r1)))

  pub rest-eq :
      (v : TransactionBatchVerifier ed.Batch P PS) (accepted later : Bool)
      (test : TransactionBatchVerifier ed.Batch P PS → Bool)
      (added : Option (TransactionBatchVerifier ed.Batch P PS))
      → IsAdded v accepted added
      → ((w : TransactionBatchVerifier ed.Batch P PS) → test w ≡ (queued w && later))
      → or_false added test ≡ (queued v && (if accepted then later else false))
  rest-eq v accepted later test none h k = false_if (queued v) accepted later h
  rest-eq v accepted later test (some w) h k =
      k w ∙ (ap (λ b. b && later) h ∙ and_if (queued v) accepted later)

  verify_from-eq :
      (s : Strategy) (v : TransactionBatchVerifier ed.Batch P PS)
      (ms : List (SignedMessage E P ES PS))
      → IsStrategy s
      → verify_from ed webauthn namespace s v ms ≡ (queued v && all verify_one ms)
  unfolding verify_from
  verify_from-eq s v [] h = verify_batch-eq-queued s v h ∙ and_true (queued v)
  verify_from-eq s v (m ∷ ms) h =
      rest-eq v (verify_one m) (all verify_one ms) (λ w. verify_from ed webauthn namespace s w ms)
        (add_signature ed webauthn v namespace m.message m.public_key m.signature)
        (add_signature-IsAdded v m.message m.public_key m.signature) (λ w. verify_from-eq s w ms h)

  -- A fresh verifier to which signatures of both schemes are added one after the other, up to one
  -- that it refuses, and which is then asked to verify, accepts exactly if each signature is
  -- accepted on its own: its scheme is that of its key, and it verifies under it. The parallel
  -- strategy folds in parts, and the batch of Ed25519 does what it documents.
  pub verify_from-each :
      (s : Strategy) (ms : List (SignedMessage E P ES PS))
      → IsStrategy s
      → verify_from ed webauthn namespace s (new_verifier ed webauthn) ms ≡ all verify_one ms
  verify_from-each s ms h =
      verify_from-eq s (new_verifier ed webauthn) ms h
      ∙ ap (λ b. (b && true) && all verify_one ms) laws.new_valid
