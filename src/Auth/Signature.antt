-- ===== src/Auth/Signature.antt =====
-- crates/primitives/src/auth.rs: transaction signatures and their codec. The codecs of the two schemes'
-- own signatures are parameters, and a `u16` is written as commonware_codec writes it.
use constantinople.Base.{
  ℕ, ◌+◌, ◌<◌, ◌^◌, true, false, List, [], ◌∷◌, ◌++◌, Result, CodecError, length, take, drop, eqb,
  ltb, if◌then◌else◌,
}
use constantinople.Base.Result.{ok, err}
use constantinople.Base.Codec.{Codec, ◌>>=◌}
use constantinople.Account.{ed25519_scheme, secp256r1_scheme}
use constantinople.Auth.Batch.{TransactionSignature}

-- `SIGNATURE_BYTES` and the two bounds of an assertion
abbrev pub signature_bytes : ℕ
signature_bytes = 64

abbrev pub webauthn_authenticator_data_bytes : ℕ
webauthn_authenticator_data_bytes = 256

abbrev pub webauthn_client_data_json_bytes : ℕ
webauthn_client_data_json_bytes = 512

abbrev pub IsHalfWord : ℕ → Type 0
IsHalfWord n = n < 2 ^ 16

module _ {ES PS : Type 0} {IsEd : ES → Type 0} {IsP256 : PS → Type 0} (ed : Codec IsEd)
    (p256 : Codec IsP256) (u16 : Codec IsHalfWord) where
  -- `TransactionSignature::ed25519`
  abbrev pub ed25519_signature : ES → TransactionSignature ES PS
  ed25519_signature signature =
      TransactionSignature.ed25519 signature (ed25519_scheme ∷ ed.write signature)

  -- The assertion that `TransactionSignature::secp256r1` and `read_cfg` build.
  abbrev pub assertion : PS → List ℕ → List ℕ → TransactionSignature ES PS
  assertion signature authenticator_data client_data_json =
      TransactionSignature.secp256r1 signature authenticator_data client_data_json (
        secp256r1_scheme ∷ p256.write signature
        ++ (u16.write (length authenticator_data)
            ++ (authenticator_data ++ (u16.write (length client_data_json) ++ client_data_json))))

  -- `TransactionSignature::secp256r1`
  unfoldable pub secp256r1_signature :
      PS → List ℕ → List ℕ → Result CodecError (TransactionSignature ES PS)
  secp256r1_signature signature authenticator_data client_data_json =
      if ltb webauthn_authenticator_data_bytes (length authenticator_data)
      then err (CodecError.invalid "TransactionSignature" "authenticator data too large")
      else if ltb webauthn_client_data_json_bytes (length client_data_json)
      then err (CodecError.invalid "TransactionSignature" "client data JSON too large")
      else ok (assertion signature authenticator_data client_data_json)

  -- `TransactionSignature::as_ref`, which `write` puts
  abbrev pub encoded_signature : TransactionSignature ES PS → List ℕ
  encoded_signature (TransactionSignature.ed25519 signature encoded) = encoded
  encoded_signature
        (TransactionSignature.secp256r1 signature authenticator_data client_data_json encoded) =
      encoded

  -- The client data of `read_cfg`.
  unfoldable pub read_client_data :
      PS → List ℕ → List ℕ → Result CodecError (TransactionSignature ES PS × List ℕ)
  read_client_data signature authenticator_data buf = do
    (size, left) ← u16.read buf
    if ltb webauthn_client_data_json_bytes size
        then err (CodecError.invalid "TransactionSignature" "client data JSON too large")
        else if ltb (length left) size
        then err CodecError.end_of_buffer
        else ok (assertion signature authenticator_data (take size left), drop size left)

  -- The assertion of `read_cfg`, after the scheme.
  unfoldable pub read_assertion : List ℕ → Result CodecError (TransactionSignature ES PS × List ℕ)
  read_assertion buf = do
    (signature, left) ← p256.read buf
    (size, bytes) ← u16.read left
    if ltb webauthn_authenticator_data_bytes size
        then err (CodecError.invalid "TransactionSignature" "authenticator data too large")
        else if ltb (length bytes) (size + 2)
        then err CodecError.end_of_buffer
        else read_client_data signature (take size bytes) (drop size bytes)

  -- The match on the scheme of `read_cfg`.
  unfoldable pub read_scheme : List ℕ → Result CodecError (TransactionSignature ES PS × List ℕ)
  read_scheme [] = err CodecError.end_of_buffer
  read_scheme (scheme ∷ buf) = elim (eqb scheme ed25519_scheme) [
    | true ↦ (do (signature, left) ← ed.read buf; ok (ed25519_signature signature, left))
    | false ↦ elim (eqb scheme secp256r1_scheme) [
      | true ↦ read_assertion buf
      | false ↦ err (CodecError.invalid "TransactionSignature" "unknown scheme")
    ]
  ]

  -- `<TransactionSignature as Read>::read_cfg`
  unfoldable pub read_signature : List ℕ → Result CodecError (TransactionSignature ES PS × List ℕ)
  read_signature buf = elim (ltb (length buf) (1 + signature_bytes)) [
    | true ↦ err CodecError.end_of_buffer
    | false ↦ read_scheme buf
  ]
