-- ===== src/Auth/Batch.antt =====
-- crates/primitives/src/auth.rs: transaction signatures, WebAuthn assertions and the batch verifier.
use constantinople.Base.{
  ℕ, ◌+◌, ◌*◌, ◌/◌, ◌%◌, Bool, true, false, ◌&&◌, not, Option, none, some, List, [], ◌∷◌, ◌++◌,
  length, eqb, ltb, ◌==◌, bytes_eq, if◌then◌else◌, ◌-◌, drop,
}
use constantinople.Auth.{TransactionPublicKey}
use constantinople.Signed.{Strategy}

-- `TransactionSignature`
pub data TransactionSignature (ES PS : Type 0) : Type 0 where
  ed25519 : (signature : ES) (encoded : List ℕ) → TransactionSignature ES PS
  secp256r1 :
      (signature : PS) (authenticator_data client_data_json encoded : List ℕ)
      → TransactionSignature ES PS

-- `Secp256r1Item`
pub record Secp256r1Item (P PS : Type 0) : Type 0 where
  pub message : List ℕ
  pub public_key : P
  pub signature : PS
  pub authenticator_data : List ℕ
  pub client_data_json : List ℕ

-- `ed25519::Batch` of commonware_cryptography; `none` of `add` is its `false`.
pub record Ed25519Batch (E ES : Type 0) : Type 1 where
  pub Batch : Type 0
  pub new : Batch
  pub add : Batch → List ℕ → List ℕ → E → ES → Option Batch
  pub verify : Strategy → Batch → Bool

-- `ALPHABET`, by the index of a character
abbrev pub alphabet : ℕ → ℕ
alphabet i =
    if ltb i 26
    then i + 65
    else if ltb i 52
    then i + 71
    else if ltb i 62
    then i - 4
    else if eqb i 62
    then 45
    else 95

-- `base64_url_no_pad`, on its chunks of three bytes. Bits that are joined by `|` do not overlap, so
-- they are added.
unfoldable pub base64_url_no_pad : List ℕ → List ℕ
base64_url_no_pad [] = []
base64_url_no_pad (first ∷ []) = alphabet (first / 4) ∷ alphabet (first % 4 * 16) ∷ []
base64_url_no_pad (first ∷ second ∷ []) =
    alphabet (first / 4) ∷ alphabet (first % 4 * 16 + second / 16) ∷ alphabet (second % 16 * 4) ∷ []
base64_url_no_pad (first ∷ second ∷ third ∷ bytes) =
    alphabet (first / 4)
    ∷ alphabet (first % 4 * 16 + second / 16)
    ∷ alphabet (second % 16 * 4 + third / 64)
    ∷ alphabet (third % 64)
    ∷ base64_url_no_pad bytes

-- `authenticator_data[32] & WEBAUTHN_USER_VERIFIED_FLAG != 0`, on the rest of the data from there
abbrev pub user_verified : List ℕ → Bool
user_verified [] = false
user_verified (flags ∷ bytes) = eqb (flags / 4 % 2) 1

-- What `serde_json`, SHA-256 and p256 are used for: the text of a field of a JSON object, and the
-- parsing of keys and signatures with the check of a parsed signature.
pub record WebAuthn (P PS : Type 0) : Type 1 where
  pub Json : Type 0
  pub parse : List ℕ → Option Json
  pub type_of : Json → Option (List ℕ)
  pub challenge_of : Json → Option (List ℕ)
  pub sha256 : List ℕ → List ℕ
  pub VerifyingKey : Type 0
  pub RawSignature : Type 0
  pub verifying_key : P → Option VerifyingKey
  pub raw_signature : PS → Option RawSignature
  pub verify : VerifyingKey → List ℕ → RawSignature → Bool

-- `webauthn.get`
abbrev pub webauthn_get : List ℕ
webauthn_get = 119 ∷ 101 ∷ 98 ∷ 97 ∷ 117 ∷ 116 ∷ 104 ∷ 110 ∷ 46 ∷ 103 ∷ 101 ∷ 116 ∷ []

-- A field that is a text, and the one that is asked for
abbrev pub is_text : Option (List ℕ) → List ℕ → Bool
is_text none text = false
is_text (some found) text = found == text

module _ {P PS : Type 0} (webauthn : WebAuthn P PS) where
  abbrev pub verify_parsed :
      Option webauthn.VerifyingKey → List ℕ → Option webauthn.RawSignature → Bool
  verify_parsed none payload signature = false
  verify_parsed (some key) payload none = false
  verify_parsed (some key) payload (some signature) = webauthn.verify key payload signature

  -- `verify_raw_secp256r1`
  abbrev pub verify_raw_secp256r1 : P → List ℕ → PS → Bool
  verify_raw_secp256r1 key payload signature =
      verify_parsed (webauthn.verifying_key key) payload (webauthn.raw_signature signature)

  -- The tests of the parsed client data, and of the signature.
  abbrev pub verify_client_data : P → List ℕ → PS → List ℕ → List ℕ → Option webauthn.Json → Bool
  verify_client_data key challenge signature authenticator_data client_data_json none = false
  verify_client_data key challenge signature authenticator_data client_data_json
        (some client_data) =
      if not (is_text (webauthn.type_of client_data) webauthn_get)
      then false
      else if not (is_text (webauthn.challenge_of client_data) (base64_url_no_pad challenge))
      then false
      else verify_raw_secp256r1 key (authenticator_data ++ webauthn.sha256 client_data_json)
          signature

  -- `verify_webauthn_assertion`
  unfoldable pub verify_webauthn_assertion : P → List ℕ → PS → List ℕ → List ℕ → Bool
  verify_webauthn_assertion key challenge signature authenticator_data client_data_json =
      if ltb (length authenticator_data) 37
      then false
      else if not (user_verified (drop 32 authenticator_data))
      then false
      else verify_client_data key challenge signature authenticator_data client_data_json
          (webauthn.parse client_data_json)

  abbrev pub verify_item : Secp256r1Item P PS → Bool
  verify_item item =
      verify_webauthn_assertion item.public_key item.message item.signature item.authenticator_data
        item.client_data_json

  -- `verify_secp256r1`
  unfoldable pub verify_secp256r1 : Strategy → List (Secp256r1Item P PS) → Bool
  verify_secp256r1 strategy [] = true
  verify_secp256r1 strategy (item ∷ items) =
      strategy.fold (item ∷ items) true (λ valid item. valid && verify_item item)
        (λ left right. left && right)

-- A test of what was made, which fails where nothing was.
abbrev pub or_false : {A : Type 0} → Option A → (A → Bool) → Bool
or_false none test = false
or_false (some a) test = test a

-- A message with the key and the signature that go with it.
pub record SignedMessage (E P ES PS : Type 0) : Type 0 where
  pub message : List ℕ
  pub public_key : TransactionPublicKey E P
  pub signature : TransactionSignature ES PS

-- `TransactionBatchVerifier`
pub record TransactionBatchVerifier (B P PS : Type 0) : Type 0 where
  pub ed25519 : B
  pub secp256r1 : List (Secp256r1Item P PS)

module _ {E P ES PS : Type 0} (ed : Ed25519Batch E ES) (webauthn : WebAuthn P PS) where
  -- `TransactionBatchVerifier::new`
  abbrev pub new_verifier : TransactionBatchVerifier ed.Batch P PS
  new_verifier = record { ed25519 = ed.new; secp256r1 = [] }

  -- `self.ed25519.add(…)`
  abbrev pub add_ed25519 :
      TransactionBatchVerifier ed.Batch P PS
      → Option ed.Batch
      → Option (TransactionBatchVerifier ed.Batch P PS)
  add_ed25519 v none = none
  add_ed25519 v (some batch) = some (record v { ed25519 = batch })

  -- `TransactionBatchVerifier::add`; `none` is its `false`
  unfoldable pub add_signature :
      TransactionBatchVerifier ed.Batch P PS
      → List ℕ
      → List ℕ
      → TransactionPublicKey E P
      → TransactionSignature ES PS
      → Option (TransactionBatchVerifier ed.Batch P PS)
  add_signature v namespace message (TransactionPublicKey.ed25519 key e)
        (TransactionSignature.ed25519 signature f) =
      add_ed25519 v (ed.add v.ed25519 namespace message key signature)
  add_signature v namespace message (TransactionPublicKey.ed25519 key e)
        (TransactionSignature.secp256r1 signature authenticator_data client_data_json f) =
      none
  add_signature v namespace message (TransactionPublicKey.secp256r1 key e)
        (TransactionSignature.ed25519 signature f) =
      none
  add_signature v namespace message (TransactionPublicKey.secp256r1 key e)
        (TransactionSignature.secp256r1 signature authenticator_data client_data_json f) =
      some (record v {
        secp256r1 =
            v.secp256r1
            ++ (record {
              message = message;
              public_key = key;
              signature = signature;
              authenticator_data = authenticator_data;
              client_data_json = client_data_json;
            })
              ∷ [];
      })

  -- `TransactionBatchVerifier::verify`
  unfoldable pub verify_batch : Strategy → TransactionBatchVerifier ed.Batch P PS → Bool
  verify_batch strategy v =
      if not (ed.verify strategy v.ed25519)
      then false
      else verify_secp256r1 webauthn strategy v.secp256r1

  -- Messages added one after the other, up to one that is refused, and then verified.
  unfoldable pub verify_from :
      List ℕ
      → Strategy
      → TransactionBatchVerifier ed.Batch P PS
      → List (SignedMessage E P ES PS)
      → Bool
  verify_from namespace strategy v [] = verify_batch strategy v
  verify_from namespace strategy v (m ∷ ms) =
      or_false (add_signature v namespace m.message m.public_key m.signature)
        (λ w. verify_from namespace strategy w ms)
