-- ===== src/Auth/Challenge.antt =====
-- crates/primitives/src/auth.rs: the challenge of a WebAuthn assertion names one message.
use constantinople.Base.{
  some_inj, ℕ, ◌+◌, ◌-◌, ◌*◌, ◌/◌, ◌%◌, ◌<◌, ◌≡◌, refl, sym, ap, ◌∙◌, true, inl, inr, Option, none,
  some, List, [], ◌∷◌, All, arith, Bool-cases, eqb, ltb, length, drop, bytes_eq, if◌then◌else◌,
}
use constantinople.Auth.Batch.{
  WebAuthn, alphabet, base64_url_no_pad, user_verified, is_text, webauthn_get, verify_client_data,
  verify_webauthn_assertion,
}

abbrev pub IsByte : ℕ → Type 0
IsByte b = b < 256

-- The index of a character of the alphabet.
abbrev value : ℕ → ℕ
value c =
    if eqb c 45
    then 62
    else if eqb c 95
    then 63
    else if ltb c 58
    then c + 4
    else if ltb c 91
    then c - 65
    else c - 71

value-alphabet : (i : ℕ) → i < 64 → value (alphabet i) ≡ i
value-alphabet i h = ground arith

-- The decoder of RFC 4648 for texts without padding.
abbrev decode : List ℕ → List ℕ
decode [] = []
decode (a ∷ []) = []
decode (a ∷ b ∷ []) = (value a * 4 + value b / 16) ∷ []
decode (a ∷ b ∷ c ∷ []) = (value a * 4 + value b / 16) ∷ (value b % 16 * 16 + value c / 4) ∷ []
decode (a ∷ b ∷ c ∷ d ∷ text) =
    (value a * 4 + value b / 16)
    ∷ (value b % 16 * 16 + value c / 4)
    ∷ (value c % 4 * 64 + value d)
    ∷ decode text

decode-base64 : (bytes : List ℕ) → All IsByte bytes → decode (base64_url_no_pad bytes) ≡ bytes
unfolding base64_url_no_pad
decode-base64 [] h = refl
decode-base64 (a ∷ []) h =
    let ha : a < 256 = h.0 in
    let first : a / 4 * 4 + a % 4 * 16 / 16 ≡ a = omega arith in
    rw (value-alphabet (a / 4) (omega arith), value-alphabet (a % 4 * 16) (omega arith), decode)
      (ap (λ x. x ∷ []) first)
decode-base64 (a ∷ b ∷ []) h =
    let ha : a < 256 = h.0 in
    let hb : b < 256 = h.1.0 in
    let first : a / 4 * 4 + (a % 4 * 16 + b / 16) / 16 ≡ a = omega arith in
    let second : (a % 4 * 16 + b / 16) % 16 * 16 + b % 16 * 4 / 4 ≡ b = omega arith in
    rw
      (
        value-alphabet (a / 4) (omega arith),
        value-alphabet (a % 4 * 16 + b / 16) (omega arith),
        value-alphabet (b % 16 * 4) (omega arith),
        decode,
      )
      (rw (first, second) refl)
decode-base64 (a ∷ b ∷ c ∷ bytes) h =
    let ha : a < 256 = h.0 in
    let hb : b < 256 = h.1.0 in
    let hc : c < 256 = h.1.1.0 in
    let first : a / 4 * 4 + (a % 4 * 16 + b / 16) / 16 ≡ a = omega arith in
    let second : (a % 4 * 16 + b / 16) % 16 * 16 + (b % 16 * 4 + c / 64) / 4 ≡ b = omega arith in
    let third : (b % 16 * 4 + c / 64) % 4 * 64 + c % 64 ≡ c = omega arith in
    rw
      (
        value-alphabet (a / 4) (omega arith),
        value-alphabet (a % 4 * 16 + b / 16) (omega arith),
        value-alphabet (b % 16 * 4 + c / 64) (omega arith),
        value-alphabet (c % 64) (omega arith),
        decode,
      )
      (rw (first, second, third, decode-base64 bytes h.1.1.1) refl)

base64-injective :
    (m n : List ℕ) → All IsByte m → All IsByte n → base64_url_no_pad m ≡ base64_url_no_pad n → m ≡ n
base64-injective m n h k e = sym (decode-base64 m h) ∙ (ap decode e ∙ decode-base64 n k)

text_of : (found : Option (List ℕ)) (text : List ℕ) → is_text found text ≡ true → found ≡ some text
text_of none text h = absurd (ground arith)
text_of (some found) text h = ap some ((bytes_eq.beq_iff found text).0 h)

module _ {P PS : Type 0} (webauthn : WebAuthn P PS) where
  -- Client data that was accepted was parsed, and its challenge is the encoded message.
  client_data-challenge :
      (key : P) (message : List ℕ) (signature : PS) (authenticator_data json : List ℕ)
      (parsed : Option webauthn.Json)
      → verify_client_data webauthn key message signature authenticator_data json parsed ≡ true
      → (client_data : webauthn.Json) × (parsed ≡ some client_data)
        × (webauthn.challenge_of client_data ≡ some (base64_url_no_pad message))
  client_data-challenge key message signature authenticator_data json none h = absurd (ground arith)
  client_data-challenge key message signature authenticator_data json (some client_data) h =
      elim (Bool-cases (is_text (webauthn.type_of client_data) webauthn_get)) [
        | inl get ↦
            elim (Bool-cases
              (is_text (webauthn.challenge_of client_data) (base64_url_no_pad message))) [
                | inl same ↦ (client_data, refl, text_of _ _ same)
                | inr other ↦ absurd (ground (arith, rw (get, other, verify_client_data) at h))
              ]
        | inr other ↦ absurd (ground (arith, rw (other, verify_client_data) at h))
      ]

  assertion-challenge :
      (key : P) (message : List ℕ) (signature : PS) (authenticator_data json : List ℕ)
      → verify_webauthn_assertion webauthn key message signature authenticator_data json ≡ true
      → (client_data : webauthn.Json) × (webauthn.parse json ≡ some client_data)
        × (webauthn.challenge_of client_data ≡ some (base64_url_no_pad message))
        × (user_verified (drop 32 authenticator_data) ≡ true)
  unfolding verify_webauthn_assertion
  assertion-challenge key message signature authenticator_data json h =
      elim (Bool-cases (ltb (length authenticator_data) 37)) [
        | inl short ↦ absurd (ground (arith, rw (short, verify_webauthn_assertion) at h))
        | inr long ↦ elim (Bool-cases (user_verified (drop 32 authenticator_data))) [
          | inl verified ↦
              (let (client_data, parses, challenge) =
                  client_data-challenge key message signature authenticator_data json
                    (webauthn.parse json) (rw (long, verified, verify_webauthn_assertion) at h) in
                (client_data, parses, challenge, verified))
          | inr unverified ↦
              absurd (ground (arith, rw (long, unverified, verify_webauthn_assertion) at h))
        ]
      ]

  -- The client data of an assertion stand for one message: where they are accepted for two
  -- messages, under any keys, signatures and authenticator data, the messages are the same, and
  -- in both cases the authenticator has verified its user. Messages are bytes.
  pub assertion-one_message :
      (k k' : P) (m m' : List ℕ) (s s' : PS) (d d' json : List ℕ)
      → All IsByte m
      → All IsByte m'
      → verify_webauthn_assertion webauthn k m s d json ≡ true
      → verify_webauthn_assertion webauthn k' m' s' d' json ≡ true
      → (m ≡ m') × (user_verified (drop 32 d) ≡ true) × (user_verified (drop 32 d') ≡ true)
  assertion-one_message k k' m m' s s' d d' json h h' a a' =
      let (c, parses, challenge, verified) = assertion-challenge k m s d json a in
      let (c', parses', challenge', verified') = assertion-challenge k' m' s' d' json a' in
      let same : c ≡ c' = some_inj (sym parses ∙ parses') in
      (
        base64-injective m m' h h'
            (some_inj (sym challenge ∙ (ap webauthn.challenge_of same ∙ challenge'))),
        verified,
        verified',
      )
