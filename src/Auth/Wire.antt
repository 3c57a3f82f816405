-- ===== src/Auth/Wire.antt =====
-- crates/primitives/src/auth.rs: transaction signatures read back from their encodings.
use constantinople.Base.{
  ℕ, ◌+◌, ◌≡◌, ◌≤◌, refl, ap, false, List, ◌∷◌, ◌++◌, length, ltb, arith, take-append, drop-append,
  append_assoc, length-append, inl, inr, Bool-cases, subst,
}
use constantinople.Base.Result.{ok}
use constantinople.Base.Codec.{Codec, from_ok, ◌>>=◌}
use constantinople.Account.{ed25519_scheme, secp256r1_scheme}
use constantinople.Auth.Batch.{TransactionSignature}
use constantinople.Auth.Signature.{
  signature_bytes, webauthn_authenticator_data_bytes, webauthn_client_data_json_bytes, IsHalfWord,
  ed25519_signature, assertion, secp256r1_signature, encoded_signature, read_client_data,
  read_assertion, read_scheme, read_signature,
}

ltb-false : {a b : ℕ} → ltb a b ≡ false → b ≤ a
ltb-false h = ground arith

module _ {ES PS : Type 0} {IsEd : ES → Type 0} {IsP256 : PS → Type 0} (ed : Codec IsEd)
    (p256 : Codec IsP256) (u16 : Codec IsHalfWord) where
  ed25519_signature-reads :
      (signature : ES) (rest : List ℕ)
      → IsEd signature
      → length (ed.write signature) ≡ signature_bytes
      → read_signature ed p256 u16
          (encoded_signature ed p256 u16 (ed25519_signature ed p256 u16 signature) ++ rest)
        ≡ ok (ed25519_signature ed p256 u16 signature, rest)
  unfolding read_signature read_scheme
  ed25519_signature-reads signature rest valid size =
      let long : ltb (length (ed25519_scheme ∷ ed.write signature ++ rest)) (1 + signature_bytes)
          ≡ false =
        ground (arith, length-append (ed.write signature) rest) in
      rw (long, read_signature) (rw (ed.read_write signature rest valid, ◌>>=◌) refl)

  client_data-reads :
      (signature : PS) (authenticator_data json rest : List ℕ)
      → length json ≤ webauthn_client_data_json_bytes
      → read_client_data ed p256 u16 signature authenticator_data
          (u16.write (length json) ++ (json ++ rest))
        ≡ ok (assertion ed p256 u16 signature authenticator_data json, rest)
  unfolding read_client_data
  client_data-reads signature authenticator_data json rest h =
      let fits : ltb webauthn_client_data_json_bytes (length json) ≡ false = ground arith in
      let enough : ltb (length (json ++ rest)) (length json) ≡ false =
        ground (arith, length-append json rest) in
      rw (u16.read_write (length json) (json ++ rest) (omega arith), ◌>>=◌, fits, enough)
        (rw (take-append json rest, drop-append json rest) refl)

  assertion-reads :
      (signature : PS) (authenticator_data json rest : List ℕ)
      → IsP256 signature
      → ((n : ℕ) → length (u16.write n) ≡ 2)
      → length authenticator_data ≤ webauthn_authenticator_data_bytes
      → length json ≤ webauthn_client_data_json_bytes
      → read_assertion ed p256 u16 (
          p256.write signature
          ++ (u16.write (length authenticator_data)
              ++ (authenticator_data ++ (u16.write (length json) ++ (json ++ rest)))))
        ≡ ok (assertion ed p256 u16 signature authenticator_data json, rest)
  unfolding read_assertion
  assertion-reads signature authenticator_data json rest valid two h k =
      let tail = u16.write (length json) ++ (json ++ rest) in
      let fits : ltb webauthn_authenticator_data_bytes (length authenticator_data) ≡ false =
        ground arith in
      let enough : ltb (length (authenticator_data ++ tail)) (length authenticator_data + 2)
          ≡ false =
        ground (
          arith,
          length-append authenticator_data tail,
          length-append (u16.write (length json)) (json ++ rest),
          two (length json),
        ) in
      rw
        (
          p256.read_write signature
              (u16.write (length authenticator_data) ++ (authenticator_data ++ tail)) valid,
          ◌>>=◌,
          u16.read_write (length authenticator_data) (authenticator_data ++ tail) (omega arith),
          fits,
          enough,
        )
        (rw (take-append authenticator_data tail, drop-append authenticator_data tail)
          (client_data-reads signature authenticator_data json rest k))

  -- An assertion that was built is the expected one, of parts within the bounds.
  built-inv :
      (signature : PS) (authenticator_data json : List ℕ) (built : TransactionSignature ES PS)
      → secp256r1_signature ed p256 u16 signature authenticator_data json ≡ ok built
      → (length authenticator_data ≤ webauthn_authenticator_data_bytes)
        × (length json ≤ webauthn_client_data_json_bytes)
        × (assertion ed p256 u16 signature authenticator_data json ≡ built)
  unfolding secp256r1_signature
  built-inv signature authenticator_data json built h =
      elim (Bool-cases (ltb webauthn_authenticator_data_bytes (length authenticator_data))) [
        | inl large ↦ absurd (ground (arith, rw (large, secp256r1_signature) at h))
        | inr fits ↦ elim (Bool-cases (ltb webauthn_client_data_json_bytes (length json))) [
          | inl large ↦ absurd (ground (arith, rw (fits, large, secp256r1_signature) at h))
          | inr fits' ↦ (
            ltb-false fits,
            ltb-false fits',
            ap (from_ok (assertion ed p256 u16 signature authenticator_data json))
                (rw (fits, fits', secp256r1_signature) at h),
          )
        ]
      ]

  -- What a signature is written as: how it reads back, and its size between `MIN_SIZE` and `MAX_SIZE`.
  abbrev pub ReadsBack : List ℕ → TransactionSignature ES PS → Type 0
  ReadsBack rest signature =
      (read_signature ed p256 u16 (encoded_signature ed p256 u16 signature ++ rest)
        ≡ ok (signature, rest))
      × (65 ≤ length (encoded_signature ed p256 u16 signature))
      × (length (encoded_signature ed p256 u16 signature) ≤ 837)

  assertion-ReadsBack :
      (signature : PS) (authenticator_data json rest : List ℕ)
      → IsP256 signature
      → length (p256.write signature) ≡ signature_bytes
      → ((n : ℕ) → length (u16.write n) ≡ 2)
      → length authenticator_data ≤ webauthn_authenticator_data_bytes
      → length json ≤ webauthn_client_data_json_bytes
      → ReadsBack rest (assertion ed p256 u16 signature authenticator_data json)
  unfolding read_signature read_scheme
  assertion-ReadsBack signature authenticator_data json rest valid size two h k =
      let tail = u16.write (length json) ++ json in
      let body = u16.write (length authenticator_data) ++ (authenticator_data ++ tail) in
      let total = length-append (p256.write signature) body in
      let part1 =
        length-append (u16.write (length authenticator_data)) (authenticator_data ++ tail) in
      let part2 = length-append authenticator_data tail in
      let part3 = length-append (u16.write (length json)) json in
      let long : ltb (length (secp256r1_scheme ∷ (p256.write signature ++ body) ++ rest))
            (1 + signature_bytes)
          ≡ false =
        ground (arith, size, total, length-append (p256.write signature ++ body) rest) in
      let flat : (p256.write signature ++ body) ++ rest
          ≡ p256.write signature
            ++ (u16.write (length authenticator_data)
                ++ (authenticator_data ++ (u16.write (length json) ++ (json ++ rest)))) =
        simp append_assoc refl in
      (
        rw (long, read_signature)
            (rw flat (assertion-reads signature authenticator_data json rest valid two h k)),
        omega (arith, size, total),
        omega (
          arith,
          size,
          total,
          part1,
          part2,
          part3,
          two (length authenticator_data),
          two (length json),
        ),
      )

  -- Signatures of both schemes read back from their encodings, before any further bytes, and their
  -- encodings have between 65 and 837 bytes: that of an Ed25519 signature, and that of each WebAuthn
  -- assertion that can be built. The signatures of both schemes have 64 bytes, and a `u16` has two.
  pub signature-round_trip :
      (e : ES) (s : PS) (authenticator_data json rest : List ℕ) (built : TransactionSignature ES PS)
      → IsEd e
      → IsP256 s
      → length (ed.write e) ≡ signature_bytes
      → length (p256.write s) ≡ signature_bytes
      → ((n : ℕ) → length (u16.write n) ≡ 2)
      → secp256r1_signature ed p256 u16 s authenticator_data json ≡ ok built
      → ReadsBack rest (ed25519_signature ed p256 u16 e) × ReadsBack rest built
  signature-round_trip e s authenticator_data json rest built valid valid' size size' two made =
      let (h, k, same) = built-inv s authenticator_data json built made in
      (
        (ed25519_signature-reads e rest valid size, omega (arith, size), omega (arith, size)),
        subst (ReadsBack rest) same
            (assertion-ReadsBack s authenticator_data json rest valid' size' two h k),
      )
