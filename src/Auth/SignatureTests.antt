-- ===== src/Auth/SignatureTests.antt =====
-- Signatures of 64 bytes, and an instance of the round trip.
use constantinople.Base.{
  ℕ, ◌+◌, ◌*◌, ◌/◌, ◌%◌, ◌≡◌, ◌<◌, refl, sym, ap, subst, ◌∙◌, true, false, ◌&&◌, inl, inr, List, [],
  ◌∷◌, ◌++◌, Result, CodecError, length, take, drop, take-append, drop-append, ltb, arith,
  replicate, Bool-cases, lt→ltb, length-append, if◌then◌else◌,
}
use constantinople.Base.Result.{ok, err}
use constantinople.Base.Codec.{Codec, from_ok, take-drop, length-take}
use constantinople.Auth.Signature.{IsHalfWord, ed25519_signature, assertion, secp256r1_signature}
use constantinople.Auth.Wire.{ReadsBack, signature-round_trip}

abbrev Is64 : List ℕ → Type 0
Is64 bytes = length bytes ≡ 64

abbrev read_64 : List ℕ → Result CodecError (List ℕ × List ℕ)
read_64 buf =
    if ltb (length buf) 64 then err CodecError.end_of_buffer else ok (take 64 buf, drop 64 buf)

take_64 :
    (a rest : List ℕ) → length a ≡ 64 → (take 64 (a ++ rest) ≡ a) × (drop 64 (a ++ rest) ≡ rest)
take_64 a rest h =
    subst (λ n. (take n (a ++ rest) ≡ a) × (drop n (a ++ rest) ≡ rest)) h
      (take-append a rest, drop-append a rest)

read_64-write : (a rest : List ℕ) → Is64 a → read_64 (a ++ rest) ≡ ok (a, rest)
read_64-write a rest h =
    let long : ltb (length (a ++ rest)) 64 ≡ false = ground (arith, length-append a rest) in
    let (front, back) = take_64 a rest h in rw (long, read_64, front, back) refl

read_64-inv : (buf a rest : List ℕ) → read_64 buf ≡ ok (a, rest) → (buf ≡ a ++ rest) × Is64 a
read_64-inv buf a rest h = elim (Bool-cases (ltb (length buf) 64)) [
  | inl short ↦ absurd (ground (arith, rw (short, read_64) at h))
  | inr long ↦
      subst (λ (r : List ℕ × List ℕ). (buf ≡ r.0 ++ r.1) × Is64 r.0)
        (ap (from_ok (take 64 buf, drop 64 buf)) (rw (long, read_64) at h))
        (sym (take-drop 64 buf), length-take 64 buf (ground arith))
]

abbrev bytes_64 : Codec Is64
bytes_64 = record {
  write = λ bytes. bytes;
  read = read_64;
  read_write = read_64-write;
  read_inv = read_64-inv;
}

abbrev read_u16 : List ℕ → Result CodecError (ℕ × List ℕ)
read_u16 [] = err CodecError.end_of_buffer
read_u16 (a ∷ []) = err CodecError.end_of_buffer
read_u16 (a ∷ b ∷ rest) =
    if ltb a 256 && ltb b 256 then ok (a * 256 + b, rest) else err CodecError.end_of_buffer

abbrev write_u16 : ℕ → List ℕ
write_u16 n = n / 256 ∷ n % 256 ∷ []

read_u16-write :
    (n : ℕ) (rest : List ℕ) → IsHalfWord n → read_u16 (write_u16 n ++ rest) ≡ ok (n, rest)
read_u16-write n rest h =
    let high : ltb (n / 256) 256 ≡ true = lt→ltb _ _ (omega arith) in
    let low : ltb (n % 256) 256 ≡ true = lt→ltb _ _ (omega arith) in
    let whole : n / 256 * 256 + n % 256 ≡ n = omega arith in rw (high, low, whole) refl

read_u16-inv :
    (buf : List ℕ) (n : ℕ) (rest : List ℕ)
    → read_u16 buf ≡ ok (n, rest)
    → (buf ≡ write_u16 n ++ rest) × IsHalfWord n
read_u16-inv [] n rest h = absurd (ground arith)
read_u16-inv (a ∷ []) n rest h = absurd (ground arith)
read_u16-inv (a ∷ b ∷ left) n rest h = elim (Bool-cases (ltb a 256 && ltb b 256)) [
  | inl bytes ↦
      (let high : a < 256 = ground arith in
        let low : b < 256 = ground arith in
        let first : a ≡ (a * 256 + b) / 256 = omega arith in
        let second : b ≡ (a * 256 + b) % 256 = omega arith in
        subst (λ (r : ℕ × List ℕ). (a ∷ b ∷ left ≡ write_u16 r.0 ++ r.1) × IsHalfWord r.0)
          (ap (from_ok (a * 256 + b, left)) (rw (bytes, read_u16) at h))
          (
            ap (λ x. x ∷ b ∷ left) first ∙ ap (λ y. (a * 256 + b) / 256 ∷ y ∷ left) second,
            omega arith,
          ))
  | inr large ↦ absurd (ground (arith, rw (large, read_u16) at h))
]

abbrev u16 : Codec IsHalfWord
u16 = record {
  write = write_u16;
  read = read_u16;
  read_write = read_u16-write;
  read_inv = read_u16-inv;
}

abbrev signature : List ℕ
signature = replicate 64 9

signature-round_trip_example :
    ReadsBack bytes_64 bytes_64 u16 (3 ∷ []) (ed25519_signature bytes_64 bytes_64 u16 signature)
    × ReadsBack bytes_64 bytes_64 u16
        (3 ∷ [])
        (assertion bytes_64 bytes_64 u16 signature (1 ∷ 2 ∷ []) (4 ∷ 5 ∷ []))
unfolding secp256r1_signature
signature-round_trip_example =
    signature-round_trip bytes_64 bytes_64 u16 signature signature (1 ∷ 2 ∷ []) (4 ∷ 5 ∷ [])
      (3 ∷ []) (assertion bytes_64 bytes_64 u16 signature (1 ∷ 2 ∷ []) (4 ∷ 5 ∷ [])) refl refl refl
      refl (λ n. refl) refl

-- Data over a limit is refused.
large_refused :
    secp256r1_signature bytes_64 bytes_64 u16 signature (replicate 257 0) []
    ≡ err (CodecError.invalid "TransactionSignature" "authenticator data too large")
unfolding secp256r1_signature
large_refused = refl
