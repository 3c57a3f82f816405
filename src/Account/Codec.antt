-- ===== src/Account/Codec.antt =====
-- crates/primitives/src/account.rs: the byte codecs of account keys, nonces and accounts. The codec
-- of `u64` is a parameter.
use constantinople.Base.{
  ℕ, ◌≡◌, refl, sym, ap, subst, ◌∙◌, inl, inr, true, false, List, ◌++◌, Result, CodecError, length,
  take, drop, take-append, drop-append, length-append, append_assoc, ◌↔◌, arith, ltb, Bool-cases,
}
use constantinople.Base.Result.{ok, err}
use constantinople.Base.Codec.{Codec, IsWord, ◌>>=◌, bind-ok, from_ok, take-drop, length-take}
use constantinople.Account.{AccountKey, Account, account_key_size, key_eq}
use constantinople.Account.Nonce.{Nonce}

-- `<AccountKey as Write>::write`
unfoldable pub write_key : AccountKey → List ℕ
write_key key = key.bytes

-- `<AccountKey as Read>::read_cfg`
unfoldable pub read_key : List ℕ → Result CodecError (AccountKey × List ℕ)
read_key buf = elim (ltb (length buf) account_key_size) [
  | true ↦ err CodecError.end_of_buffer
  | false ↦ ok (record { bytes = take account_key_size buf }, drop account_key_size buf)
]

abbrev pub IsKey : AccountKey → Type 0
IsKey key = length key.bytes ≡ account_key_size

pub read-write_key :
    (key : AccountKey) (rest : List ℕ)
    → IsKey key
    → read_key (write_key key ++ rest) ≡ ok (key, rest)
unfolding read_key write_key
read-write_key key rest h =
    let long : ltb (length (key.bytes ++ rest)) account_key_size ≡ false =
      ground (arith, length-append key.bytes rest) in
    rw (long, read_key) (rw (sym h, take-append key.bytes rest, drop-append key.bytes rest) refl)

pub read_key-inv :
    (buf : List ℕ) (key : AccountKey) (rest : List ℕ)
    → read_key buf ≡ ok (key, rest)
    → (buf ≡ write_key key ++ rest) × IsKey key
unfolding read_key write_key
read_key-inv buf key rest h = elim (Bool-cases (ltb (length buf) account_key_size)) [
  | inl short ↦ absurd (ground (arith, rw (short, read_key) at h))
  | inr long ↦
      (let made = rw (long, read_key) at h in
        let bytes : take account_key_size buf ≡ key.bytes =
          ap (λ r. (from_ok {A = AccountKey × List ℕ} (key, rest) r).0.bytes) made in
        let after : drop account_key_size buf ≡ rest =
          ap (λ r. (from_ok {A = AccountKey × List ℕ} (key, rest) r).1) made in
        (
          rw (sym bytes, sym after) (sym (take-drop account_key_size buf)),
          rw (sym bytes) (length-take account_key_size buf (ground arith)),
        ))
]

-- The codec of account keys.
abbrev pub key_codec : Codec IsKey
key_codec = record {
  write = write_key;
  read = read_key;
  read_write = read-write_key;
  read_inv = read_key-inv;
}

module _ (u64 : Codec IsWord) where
  -- `<Nonce as Write>::write`
  unfoldable pub write_nonce : Nonce → List ℕ
  write_nonce n = u64.write n.base ++ u64.write n.bitmap

  -- `<Nonce as Read>::read_cfg`
  unfoldable pub read_nonce : List ℕ → Result CodecError (Nonce × List ℕ)
  read_nonce buf = do
    (base, buf1) ← u64.read buf
    (bitmap, buf2) ← u64.read buf1
    ok (record { base = base; bitmap = bitmap }, buf2)

  abbrev pub HasWords : Nonce → Type 0
  HasWords n = IsWord n.base × IsWord n.bitmap

  pub read-write_nonce :
      (n : Nonce) (rest : List ℕ) → HasWords n → read_nonce (write_nonce n ++ rest) ≡ ok (n, rest)
  unfolding read_nonce write_nonce
  read-write_nonce n rest h =
      rw
        (
          append_assoc (u64.write n.base) (u64.write n.bitmap) rest,
          u64.read_write n.base (u64.write n.bitmap ++ rest) h.0,
          read_nonce,
          u64.read_write n.bitmap rest h.1,
        )
        refl

  pub read_nonce-inv :
      (buf : List ℕ) (n : Nonce) (rest : List ℕ)
      → read_nonce buf ≡ ok (n, rest)
      → (buf ≡ write_nonce n ++ rest) × HasWords n
  unfolding read_nonce write_nonce
  read_nonce-inv buf n rest h =
      let ((base, buf1), h0, h1) = bind-ok (u64.read buf) _ (n, rest) h in
      let ((bitmap, buf2), h2, h3) = bind-ok (u64.read buf1) _ (n, rest) h1 in
      let (first, base_fits) = u64.read_inv buf base buf1 h0 in
      let (second, bitmap_fits) = u64.read_inv buf1 bitmap buf2 h2 in
      let made : Nonce × List ℕ = (record { base = base; bitmap = bitmap }, buf2) in
      subst (λ (p : Nonce × List ℕ). (buf ≡ write_nonce p.0 ++ p.1) × HasWords p.0)
        (ap (from_ok made) h3)
        (
          first
              ∙ ap (λ b. u64.write base ++ b) second
              ∙ sym (append_assoc (u64.write base) (u64.write bitmap) buf2),
          (base_fits, bitmap_fits),
        )

  -- The codec of nonces.
  abbrev pub nonce_codec : Codec HasWords
  nonce_codec = record {
    write = write_nonce;
    read = read_nonce;
    read_write = read-write_nonce;
    read_inv = read_nonce-inv;
  }

  -- `<Account as Write>::write`
  unfoldable pub write_account : Account → List ℕ
  write_account a = u64.write a.balance ++ write_nonce a.nonce

  -- `<Account as Read>::read_cfg`
  unfoldable pub read_account : List ℕ → Result CodecError (Account × List ℕ)
  read_account buf = do
    (balance, buf1) ← u64.read buf
    (nonce, buf2) ← read_nonce buf1
    ok (record { balance = balance; nonce = nonce }, buf2)

  abbrev pub IsStorable : Account → Type 0
  IsStorable a = IsWord a.balance × HasWords a.nonce

  pub read-write_account :
      (a : Account) (rest : List ℕ)
      → IsStorable a
      → read_account (write_account a ++ rest) ≡ ok (a, rest)
  unfolding read_account write_account
  read-write_account a rest h =
      rw
        (
          append_assoc (u64.write a.balance) (write_nonce a.nonce) rest,
          u64.read_write a.balance (write_nonce a.nonce ++ rest) h.0,
          read_account,
          read-write_nonce a.nonce rest h.1,
        )
        refl

  pub read_account-inv :
      (buf : List ℕ) (a : Account) (rest : List ℕ)
      → read_account buf ≡ ok (a, rest)
      → (buf ≡ write_account a ++ rest) × IsStorable a
  unfolding read_account write_account
  read_account-inv buf a rest h =
      let ((balance, buf1), h0, h1) = bind-ok (u64.read buf) _ (a, rest) h in
      let ((nonce, buf2), h2, h3) = bind-ok (read_nonce buf1) _ (a, rest) h1 in
      let (first, balance_fits) = u64.read_inv buf balance buf1 h0 in
      let (second, nonce_fits) = read_nonce-inv buf1 nonce buf2 h2 in
      let made : Account × List ℕ = (record { balance = balance; nonce = nonce }, buf2) in
      subst (λ (p : Account × List ℕ). (buf ≡ write_account p.0 ++ p.1) × IsStorable p.0)
        (ap (from_ok made) h3)
        (
          first
              ∙ ap (λ b. u64.write balance ++ b) second
              ∙ sym (append_assoc (u64.write balance) (write_nonce nonce) buf2),
          (balance_fits, nonce_fits),
        )

  -- An account whose numbers are words reads back from what it writes, before any further bytes; and
  -- whatever reads as an account is just what that account writes, before what is left.
  pub account-round_trip :
      (a : Account) (buf rest : List ℕ)
      → IsStorable a
      → (read_account (write_account a ++ rest) ≡ ok (a, rest))
        × ((read_account buf ≡ ok (a, rest)) ↔ (buf ≡ write_account a ++ rest))
  account-round_trip a buf rest h = (
    read-write_account a rest h,
    (
      (λ e. (read_account-inv buf a rest e).0),
      (λ e. ap read_account e ∙ read-write_account a rest h),
    ),
  )
