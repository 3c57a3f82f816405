-- ===== src/Auth/Key.antt =====
-- Public keys read back, and the account that a key names.
use constantinople.Base.{
  ℕ, ◌+◌, ◌≡◌, refl, sym, ap, ◌∙◌, false, some, List, [], ◌∷◌, ◌++◌, append-nil, length,
  length-append, take, drop, take-append, drop-append, ltb, arith,
}
use constantinople.Base.Result.{ok}
use constantinople.Base.Codec.{Codec}
use constantinople.Account.{from_public_key_bytes, account_key_size, public_key_size}
use constantinople.Auth.{
  TransactionPublicKey, as_ref, from_ed25519, from_secp256r1, parse_encoded, read_public_key,
}

module _ {E P : Type 0} {IsEd : E → Type 0} {IsP256 : P → Type 0} (ed : Codec IsEd)
    (p256 : Codec IsP256) where
  read_public_key-of_encoded :
      (pk : TransactionPublicKey E P) (encoded rest : List ℕ)
      → length encoded ≡ public_key_size
      → parse_encoded ed p256 encoded ≡ ok pk
      → read_public_key ed p256 (encoded ++ rest) ≡ ok (pk, rest)
  unfolding read_public_key
  read_public_key-of_encoded pk encoded rest size parses =
      let long : ltb (length (encoded ++ rest)) public_key_size ≡ false =
        ground (arith, length-append encoded rest) in
      rw (long, read_public_key)
        (rw (sym size, take-append encoded rest, drop-append encoded rest, parses) refl)

  parse-ed25519 :
      (key : E)
      → IsEd key
      → length (ed.write key) ≡ account_key_size
      → parse_encoded ed p256 (as_ref (from_ed25519 ed p256 key)) ≡ ok (from_ed25519 ed p256 key)
  parse-ed25519 key valid size =
      let padded = ed.write key ++ 0 ∷ [] in
      let padding : drop account_key_size padded ≡ 0 ∷ [] =
        ap (λ n. drop n padded) (sym size) ∙ drop-append (ed.write key) (0 ∷ []) in
      let body : take account_key_size padded ≡ ed.write key =
        ap (λ n. take n padded) (sym size) ∙ take-append (ed.write key) (0 ∷ []) in
      let reads : ed.read (ed.write key) ≡ ok (key, []) =
        ap ed.read (sym (append-nil (ed.write key))) ∙ ed.read_write key [] valid in
      rw (padding, parse_encoded, body, reads) refl

  parse-secp256r1 :
      (key : P)
      → IsP256 key
      → parse_encoded ed p256 (as_ref (from_secp256r1 ed p256 key))
        ≡ ok (from_secp256r1 ed p256 key)
  parse-secp256r1 key valid =
      let reads : p256.read (p256.write key) ≡ ok (key, []) =
        ap p256.read (sym (append-nil (p256.write key))) ∙ p256.read_write key [] valid in
      rw (reads, parse_encoded) refl

  -- What holds of the keys of both schemes: they read back from their encodings, and they name the
  -- key bytes, and the hash of the encoding, as accounts.
  pub record KeysWork (sha256 : List ℕ → List ℕ) (rest : List ℕ) (e : E) (p : P) : Type 0 where
    pub ed25519_reads :
        read_public_key ed p256 (as_ref (from_ed25519 ed p256 e) ++ rest)
        ≡ ok (from_ed25519 ed p256 e, rest)
    pub secp256r1_reads :
        read_public_key ed p256 (as_ref (from_secp256r1 ed p256 p) ++ rest)
        ≡ ok (from_secp256r1 ed p256 p, rest)
    pub ed25519_account :
        from_public_key_bytes sha256 (as_ref (from_ed25519 ed p256 e))
        ≡ some (record { bytes = ed.write e })
    pub secp256r1_account :
        from_public_key_bytes sha256 (as_ref (from_secp256r1 ed p256 p))
        ≡ some (record { bytes = sha256 (as_ref (from_secp256r1 ed p256 p)) })

  -- Keys of both schemes read back from their encodings, before any further bytes; an Ed25519 key
  -- names the account of its own bytes, and a secp256r1 key the account of the hash of its encoding.
  -- Ed25519 keys have 32 bytes and secp256r1 keys 33.
  pub public_key-round_trip :
      (sha256 : List ℕ → List ℕ) (rest : List ℕ) (e : E) (p : P)
      → IsEd e
      → length (ed.write e) ≡ account_key_size
      → IsP256 p
      → length (p256.write p) + 1 ≡ public_key_size
      → KeysWork sha256 rest e p
  unfolding from_public_key_bytes
  public_key-round_trip sha256 rest e p e_valid e_size p_valid p_size =
      let e_long : length (as_ref (from_ed25519 ed p256 e)) ≡ public_key_size =
        omega (arith, length-append (ed.write e) (0 ∷ [])) in
      let padded = ed.write e ++ 0 ∷ [] in
      let body : take account_key_size padded ≡ ed.write e =
        ap (λ n. take n padded) (sym e_size) ∙ take-append (ed.write e) (0 ∷ []) in
      let p_long : length (as_ref (from_secp256r1 ed p256 p)) ≡ public_key_size = omega arith in
      record {
        ed25519_reads =
            read_public_key-of_encoded (from_ed25519 ed p256 e) (as_ref (from_ed25519 ed p256 e))
              rest e_long (parse-ed25519 e e_valid e_size);
        secp256r1_reads =
            read_public_key-of_encoded (from_secp256r1 ed p256 p)
              (as_ref (from_secp256r1 ed p256 p)) rest p_long (parse-secp256r1 p p_valid);
        ed25519_account = ground (arith, body);
        secp256r1_account = ground arith;
      }
