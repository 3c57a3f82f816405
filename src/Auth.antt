-- ===== src/Auth.antt =====
-- crates/primitives/src/auth.rs: transaction public keys and their codec. The codecs of the two
-- schemes' own keys are parameters.
pub mod Key
pub mod Batch
pub mod Mixed
pub mod Bodies
mod Tests
mod BatchTests
pub mod Signature
pub mod Challenge
pub mod Wire
mod SignatureTests
use constantinople.Base.{
  ℕ, ◌+◌, ◌≡◌, Bool, true, false, ◌||◌, not, List, [], ◌∷◌, ◌++◌, Result, CodecError, length, take,
  drop, eqb, ltb,
}
use constantinople.Base.Result.{ok, err}
use constantinople.Base.Codec.{Codec, ◌>>=◌}
use constantinople.Account.{ed25519_scheme, secp256r1_scheme, account_key_size, public_key_size}

-- `TransactionPublicKey`
pub data TransactionPublicKey (E P : Type 0) : Type 0 where
  ed25519 : (key : E) (encoded : List ℕ) → TransactionPublicKey E P
  secp256r1 : (key : P) (encoded : List ℕ) → TransactionPublicKey E P

-- `as_ref`
abbrev pub as_ref : {E P : Type 0} → TransactionPublicKey E P → List ℕ
as_ref (TransactionPublicKey.ed25519 key encoded) = encoded
as_ref (TransactionPublicKey.secp256r1 key encoded) = encoded

-- `iter().any(|byte| *byte != 0)`
abbrev pub any_nonzero : List ℕ → Bool
any_nonzero [] = false
any_nonzero (b ∷ bs) = not (eqb b 0) || any_nonzero bs

module _ {E P : Type 0} {IsEd : E → Type 0} {IsP256 : P → Type 0} (ed : Codec IsEd)
    (p256 : Codec IsP256) where
  -- `TransactionPublicKey::ed25519`: one zero byte pads the key
  abbrev pub from_ed25519 : E → TransactionPublicKey E P
  from_ed25519 key = TransactionPublicKey.ed25519 key (ed25519_scheme ∷ ed.write key ++ 0 ∷ [])

  -- `TransactionPublicKey::secp256r1`
  abbrev pub from_secp256r1 : P → TransactionPublicKey E P
  from_secp256r1 key = TransactionPublicKey.secp256r1 key (secp256r1_scheme ∷ p256.write key)

  -- The match on the scheme of `read_cfg`, on the encoded key
  abbrev pub parse_encoded : List ℕ → Result CodecError (TransactionPublicKey E P)
  parse_encoded [] = err CodecError.end_of_buffer
  parse_encoded (scheme ∷ bytes) = elim (eqb scheme ed25519_scheme) [
    | true ↦ elim (any_nonzero (drop account_key_size bytes)) [
      | true ↦ err (CodecError.invalid "TransactionPublicKey" "non-zero padding")
      | false ↦ (do
        (key, left) ← ed.read (take account_key_size bytes)
        ok (TransactionPublicKey.ed25519 key (scheme ∷ bytes)))
    ]
    | false ↦ elim (eqb scheme secp256r1_scheme) [
      | true ↦ (do
        (key, left) ← p256.read bytes
        ok (TransactionPublicKey.secp256r1 key (scheme ∷ bytes)))
      | false ↦ err (CodecError.invalid "TransactionPublicKey" "unknown scheme")
    ]
  ]

  -- `<TransactionPublicKey as Read>::read_cfg`
  unfoldable pub read_public_key : List ℕ → Result CodecError (TransactionPublicKey E P × List ℕ)
  read_public_key buf = elim (ltb (length buf) public_key_size) [
    | true ↦ err CodecError.end_of_buffer
    | false ↦ (do
      key ← parse_encoded (take public_key_size buf)
      ok (key, drop public_key_size buf))
  ]
