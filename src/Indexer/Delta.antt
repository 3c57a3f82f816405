-- ===== src/Indexer/Delta.antt =====
-- crates/indexer/src/publisher/qmdb.rs: the state delta that is captured of a block, and the account
-- rows that are decoded from it.

use mathlib.Core.Option.{none, some}
use constantinople.Base.{
  ℕ, ◌+◌, ◌-◌, ◌<◌, ◌≡◌, refl, sym, ap, ◌∙◌, ◌&&◌, false, some, List, [], ◌∷◌, ◌++◌, map,
  append-nil, append_assoc, length-append, arith, eqb, ltb, All, Result,
}
use constantinople.Base.Result.{ok}
use constantinople.Base.Codec.{Codec, IsWord}
use constantinople.Base.Word.{checked_sub}
use constantinople.Account.{AccountKey, Account}
use constantinople.Account.Codec.{write_account, write_nonce, IsStorable}
use constantinople.Indexer.{SqlRow, CellValue}
use constantinople.Indexer.Rows.{slice, from_be_bytes}
use constantinople.Indexer.Indexed.{IsBigEndian, slice_middle}
use constantinople.Indexer.Upload.{
  StateOperation, PublishError, encode_account, encode_account_operation, account_value_balance,
  account_value_nonce_base, account_value_nonce_bitmap, account_rows, load_state_ops,
  build_state_delta,
}

-- An operation whose accounts can be stored.
abbrev pub IsStorableOperation : Codec IsWord → StateOperation Account → Type 0
IsStorableOperation u64 (StateOperation.delete key) = Unit
IsStorableOperation u64 (StateOperation.update key account) = IsStorable u64 account
IsStorableOperation u64 (StateOperation.commit_floor account floor) = Unit

-- The row of an account at a location of the log.
abbrev pub row_of : AccountKey → Account → ℕ → SqlRow
row_of key account location = record {
  table = "account_meta";
  values =
      CellValue.fixed_binary key.bytes
      ∷ CellValue.uint64 account.balance
      ∷ CellValue.uint64 account.nonce.base
      ∷ CellValue.uint64 account.nonce.bitmap
      ∷ CellValue.uint64 location
      ∷ [];
}

-- The rows of the updates among operations that stand in the log from a location on.
abbrev pub rows_of : List (StateOperation Account) → ℕ → List SqlRow
rows_of [] location = []
rows_of (StateOperation.delete key ∷ ops) location = rows_of ops (location + 1)
rows_of (StateOperation.commit_floor account floor ∷ ops) location = rows_of ops (location + 1)
rows_of (StateOperation.update key account ∷ ops) location =
    row_of key account location ∷ rows_of ops (location + 1)

module _ (u64 : Codec IsWord) (be : IsBigEndian u64) where
  -- The three numbers are read off the encoding of an account.
  account_value-encode :
      (a : Account)
      → IsStorable u64 a
      → (account_value_balance (encode_account u64 a) ≡ a.balance)
        × (account_value_nonce_base (encode_account u64 a) ≡ a.nonce.base)
        × (account_value_nonce_bitmap (encode_account u64 a) ≡ a.nonce.bitmap)
  unfolding write_account write_nonce
  account_value-encode a (h, (hb, hm)) =
      let balance = u64.write a.balance in
      let base = u64.write a.nonce.base in
      let bitmap = u64.write a.nonce.bitmap in
      let s0 = be.word_size a.balance h in
      let s1 = be.word_size a.nonce.base hb in
      let s2 = be.word_size a.nonce.bitmap hm in
      let longer : balance ++ (base ++ bitmap) ≡ (balance ++ base) ++ (bitmap ++ []) =
        sym (append_assoc balance base bitmap)
        ∙ ap (λ b. (balance ++ base) ++ b) (sym (append-nil bitmap)) in
      (
        ap from_be_bytes (slice_middle 0 8 [] balance (base ++ bitmap) refl (omega (arith, s0)))
            ∙ be.word_value a.balance h,
        ap from_be_bytes (slice_middle 8 16 balance base bitmap s0 (omega (arith, s1)))
            ∙ be.word_value a.nonce.base hb,
        ap from_be_bytes (
              ap (slice 16 24) longer
              ∙ slice_middle 16 24 (balance ++ base) bitmap []
                  (omega (arith, s0, s1, length-append {0} balance base)) (omega (arith, s2)))
            ∙ be.word_value a.nonce.bitmap hm,
      )

  account_rows-encode :
      (ops : List (StateOperation Account)) (location : ℕ)
      → All (IsStorableOperation u64) ops
      → account_rows (map (encode_account_operation u64) ops) location ≡ rows_of ops location
  unfolding account_rows
  account_rows-encode [] location h = refl
  account_rows-encode (StateOperation.delete key ∷ ops) location h =
      account_rows-encode ops (location + 1) h.1
  account_rows-encode (StateOperation.commit_floor account floor ∷ ops) location h =
      account_rows-encode ops (location + 1) h.1
  account_rows-encode (StateOperation.update key account ∷ ops) location h =
      let (balance, base, bitmap) = account_value-encode account h.0 in
      rw (balance, base, bitmap, account_rows-encode ops (location + 1) h.1) refl

  checked_sub-positive : (start end : ℕ) → start < end → checked_sub end start ≡ some (end - start)
  checked_sub-positive start end h = ground arith

  difference-ne-zero : (start end : ℕ) → start < end → eqb (end - start) 0 ≡ false
  difference-ne-zero start end h = ground arith

  -- An operation as it is stored: an account is its balance and the two numbers of its nonce.
  abbrev pub stored_account : Account → List ℕ
  stored_account a = u64.write a.balance ++ (u64.write a.nonce.base ++ u64.write a.nonce.bitmap)

  abbrev pub stored : StateOperation Account → StateOperation (List ℕ)
  stored (StateOperation.delete key) = StateOperation.delete key
  stored (StateOperation.update key account) = StateOperation.update key (stored_account account)
  stored (StateOperation.commit_floor none floor) = StateOperation.commit_floor none floor
  stored (StateOperation.commit_floor (some account) floor) =
      StateOperation.commit_floor (some (stored_account account)) floor

  encode_account_operation-stored :
      (ops : List (StateOperation Account))
      → map (encode_account_operation u64) ops ≡ map stored ops
  unfolding write_account write_nonce
  encode_account_operation-stored [] = refl
  encode_account_operation-stored (StateOperation.delete key ∷ ops) =
      ap (λ xs. StateOperation.delete key ∷ xs) (encode_account_operation-stored ops)
  encode_account_operation-stored (StateOperation.update key account ∷ ops) =
      ap (λ xs. StateOperation.update key (stored_account account) ∷ xs)
        (encode_account_operation-stored ops)
  encode_account_operation-stored (StateOperation.commit_floor none floor ∷ ops) =
      ap (λ xs. StateOperation.commit_floor none floor ∷ xs) (encode_account_operation-stored ops)
  encode_account_operation-stored (StateOperation.commit_floor (some account) floor ∷ ops) =
      ap (λ xs. StateOperation.commit_floor (some (stored_account account)) floor ∷ xs)
        (encode_account_operation-stored ops)

  -- Where the log of the store is not behind a block that needs history, and ends before the block
  -- does, the delta that is captured is just the operations that the state database proves, in order, each account as
  -- the bytes of its balance and of its nonce; and
  -- the account rows decoded from it are one for each update, with the numbers of the account and
  -- the location of the update in the log. The accounts that are updated hold words.
  pub account_rows-delta :
      (historical_proof : (end start count : ℕ)
        → Result PublishError (List (StateOperation Account)))
      (start height end : ℕ) (ops : List (StateOperation Account))
      → (eqb start 0 && ltb 1 height) ≡ false
      → start < end
      → historical_proof end start (end - start) ≡ ok ops
      → All (IsStorableOperation u64) ops
      → (delta : List (StateOperation (List ℕ))) × (build_state_delta u64 historical_proof start
            height end
          ≡ ok delta)
        × (delta ≡ map stored ops)
        × (account_rows delta start ≡ rows_of ops start)
  unfolding build_state_delta load_state_ops
  account_rows-delta historical_proof start height end ops recent before proved storable = (
    map (encode_account_operation u64) ops,
    rw
        (
          recent,
          checked_sub-positive start end before,
          load_state_ops,
          difference-ne-zero start end before,
          proved,
        )
        refl,
    encode_account_operation-stored ops,
    account_rows-encode ops start storable,
  )
