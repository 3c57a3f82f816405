-- ===== src/Indexer/Expand.antt =====
-- crates/indexer/src/publisher/qmdb.rs: what was queued expands at upload time without an error, to
-- operations that fill their place in the log.

use constantinople.Base.{
  ℕ, ◌+◌, ◌-◌, ◌≤◌, ◌^◌, ◌≡◌, refl, sym, ap, ◌∙◌, inl, inr, false, ◌&&◌, Option, some, List, [],
  ◌∷◌, ◌++◌, map, length, length-append, length-map, arith, eqb, ltb, Option-cases, All, collect,
  if◌then◌else◌, ◌>>=◌,
}
use constantinople.Base.Result.{ok}
use constantinople.Base.Codec.{Codec, IsWord}
use constantinople.Base.Word.{checked_sub}
use constantinople.Account.{public_key_size}
use constantinople.Transaction.{Sealed, SignedTransaction, message_digest}
use constantinople.Transaction.Codec.{write_signed}
use constantinople.Block.Codec.{LazyBlock}
use constantinople.Signed.Lazy.{encoded_signed_transaction}
use constantinople.Indexer.{SqlRow, CellValue}
use constantinople.Indexer.Described.{
  Sent, IsSent, indexed_from, index_from-sent, length-indexed_from, digests_of_indexed_from,
  described_rows, rows_from-described,
}
use constantinople.Indexer.Rows.{
  index_from, digests_of_indexed, rows_from, encode_indexed_block_rows_at,
}
use constantinople.Indexer.Indexed.{IsBigEndian}
use constantinople.Indexer.Upload.{
  TransactionOperation, QueuedFinalizedUpload, PendingPreparedQmdbUpload, operations,
  operation_count, transaction_upload_end, transaction_ops_from_digests, in_sync,
  build_transaction_upload_from_digests, expand_queued_finalized_upload, account_rows,
}

-- The number of commits that open a log: one, where it is empty.
abbrev pub openings : ℕ → ℕ
openings start = if eqb start 0 then 1 else 0

operation_count-some :
    (start n c : ℕ) → operation_count start n ≡ some c → c ≡ openings start + n + 1
operation_count-some start n c h = ground arith

module _ {C D P L S : Type 0} where
  -- What a successful reservation of the transaction log says.
  pub transaction_upload_end-inv :
      (start end : ℕ) (block : Sealed (LazyBlock C D P L S) D)
      → transaction_upload_end start block ≡ some (ok end)
      → ((eqb start 0 && ltb 1 block.inner.header.height) ≡ false)
        × (start + (openings start + length block.inner.body + 1) ≡ end)
        × (end ≡ block.inner.header.transactions_range.1)
  unfolding transaction_upload_end
  transaction_upload_end-inv start end block h = ground arith

checked_sub-some : (a b c : ℕ) → c + b ≡ a → checked_sub a b ≡ some c
checked_sub-some a b c h = ground arith

in_sync_refl : {A : Type 0} (start : ℕ) (a : A) → in_sync start start a ≡ ok a
in_sync_refl start a = ground arith

module _ {C D P L S : Type 0} where
  length-operations :
      (start : ℕ) (block : Sealed (LazyBlock C D P L S) D) (digests : List D)
      → length (operations start block digests) ≡ openings start + length digests + 1
  length-operations start block digests =
      let append : D → TransactionOperation D = TransactionOperation.append in
      ground (
        arith,
        length-append (map append digests)
            (TransactionOperation.commit block.inner.header.transactions_range.0 ∷ []),
        length-map digests append,
      )

  -- A reserved block with as many digests as transactions gets its operations.
  build-reserved :
      (start end : ℕ) (block : Sealed (LazyBlock C D P L S) D) (digests : List D)
      → transaction_upload_end start block ≡ some (ok end)
      → length digests ≡ length block.inner.body
      → build_transaction_upload_from_digests block start digests
        ≡ some (ok (operations start block digests))
  unfolding build_transaction_upload_from_digests transaction_ops_from_digests
  build-reserved start end block digests reserved same =
      let (late, fills, ends) = transaction_upload_end-inv start end block reserved in
      let count = length-operations start block digests in
      let subtracted : checked_sub block.inner.header.transactions_range.1
            (length (operations start block digests))
          ≡ some start =
        checked_sub-some block.inner.header.transactions_range.1
          (length (operations start block digests)) start (omega arith) in
      let synced : in_sync start start (operations start block digests)
          ≡ ok (operations start block digests) =
        in_sync_refl start (operations start block digests) in
      rw (late, subtracted, ◌>>=◌, synced) refl

length-collect :
    {A B : Type 0} (f : A → Option B) (xs : List A) (ys : List B)
    → collect f xs ≡ some ys
    → length ys ≡ length xs
length-collect f [] ys h = ground arith
length-collect f (x ∷ xs) ys h = elim (Option-cases (f x)) [
  | inl missing ↦ absurd (ground (arith, rw (missing, collect) at h))
  | inr (y, found) ↦ elim (Option-cases (collect f xs)) [
    | inl missing ↦ absurd (ground (arith, rw (found, collect, missing) at h))
    | inr (zs, rest) ↦ ground (arith, rw (found, collect, rest) at h, length-collect f xs zs rest)
  ]
]

-- The row of a block whose body has `tx_count` transactions that can be indexed.
abbrev pub block_row :
    {C D P L S : Type 0} → (D → List ℕ) → Sealed (LazyBlock C D P L S) D → ℕ → ℕ → SqlRow
block_row as_bytes block tx_count now = record {
  table = "block_meta";
  values =
      CellValue.uint64 block.inner.header.height
      ∷ CellValue.fixed_binary (as_bytes block.seal)
      ∷ CellValue.uint64 tx_count
      ∷ CellValue.fixed_binary (as_bytes block.inner.header.transactions_root)
      ∷ CellValue.uint64 (block.inner.header.transactions_range.1 - 1)
      ∷ CellValue.uint64 0
      ∷ CellValue.timestamp now
      ∷ [];
}

module _ {C D P L S : Type 0} (sha256 : List ℕ → List ℕ) (hash : List ℕ → D) (as_bytes : D → List ℕ)
    (decode : List ℕ → Option (SignedTransaction L D S)) (write : SignedTransaction L D S → List ℕ)
    (block : Sealed (LazyBlock C D P L S) D) (now : ℕ) where
  encode_rows-some :
      (bodies : List (List ℕ)) (start : ℕ) (rows : List SqlRow)
      → collect (encoded_signed_transaction decode write) block.inner.body ≡ some bodies
      → checked_sub block.inner.header.transactions_range.1
          (length (index_from sha256 hash 0 bodies) + 1)
        ≡ some start
      → rows_from as_bytes block.inner.header.height start (index_from sha256 hash 0 bodies)
        ≡ some rows
      → encode_indexed_block_rows_at sha256 hash as_bytes decode write block now
        ≡ some (record {
          sql = block_row as_bytes block (length (index_from sha256 hash 0 bodies)) now ∷ rows;
          transaction_digests = digests_of_indexed (index_from sha256 hash 0 bodies);
        })
  unfolding encode_indexed_block_rows_at
  encode_rows-some bodies start rows encoded located made =
      rw (encode_indexed_block_rows_at, encoded, ◌>>=◌, located, made) refl

module _ {C D P L S : Type 0} {IsSender : L → Type 0} {IsSignature : S → Type 0}
    (u64 : Codec IsWord) (pk : Codec IsSender) (sig : Codec IsSignature) (hash : List ℕ → D)
    (sha256 : List ℕ → List ℕ) (be : IsBigEndian u64)
    (pk_size : (sender : L) → IsSender sender → length (pk.write sender) ≡ public_key_size)
    (as_bytes : D → List ℕ) (decode : List ℕ → Option (SignedTransaction L D S)) where
  -- A queued upload for which the log has reserved operations up to `end`, and whose body encodes
  -- at most 2 ^ 32 transactions that the indexer can read, expands without an error or a panic. The
  -- operations of its transactions are the opening commit of an empty log, the digests in order and
  -- the commit of the block with its inactivity floor; they fill the log from the writer's location
  -- to `end`, which is the end of the block's range. The SQL rows are the row of the block, and
  -- those of each transaction in order, numbered by the location of its digest in the log: its
  -- bytes, the activity of its sender, and that of its receiver, if it is another account.
  pub expand-reserved :
      (upload : QueuedFinalizedUpload C D P L S) (sent : List (Sent L D S)) (end : ℕ)
      → transaction_upload_end upload.transaction_start upload.block ≡ some (ok end)
      → collect
          (encoded_signed_transaction decode (write_signed u64 pk sig hash))
          upload.block.inner.body
        ≡ some (map (λ s. write_signed u64 pk sig hash s.transaction) sent)
      → All (IsSent u64 pk sig hash sha256 be pk_size) sent
      → length sent ≤ 2 ^ 32
      → (prepared : PendingPreparedQmdbUpload D) × (expand_queued_finalized_upload sha256 hash
            as_bytes decode
            (write_signed u64 pk sig hash)
            upload
          ≡ some (ok prepared))
        × (prepared.transaction_ops
            ≡ (if eqb upload.transaction_start 0 then TransactionOperation.commit 0 ∷ [] else [])
              ++ (map TransactionOperation.append (map (λ s. message_digest s.transaction) sent)
                  ++ TransactionOperation.commit upload.block.inner.header.transactions_range.0
                    ∷ []))
        × (upload.transaction_start + length prepared.transaction_ops ≡ end)
        × (end ≡ upload.block.inner.header.transactions_range.1)
        × (prepared.block_rows.sql
            ≡ block_row as_bytes upload.block (length sent) upload.finalized_ts_micros
              ∷ described_rows as_bytes
                  (write_signed u64 pk sig hash)
                  upload.block.inner.header.height
                  (upload.transaction_start + openings upload.transaction_start)
                  0
                  sent)
        × (prepared.block_rows.transaction_digests ≡ map (λ s. message_digest s.transaction) sent)
  unfolding expand_queued_finalized_upload
  expand-reserved upload sent end reserved encoded valid few =
      let start = upload.transaction_start in
      let header = upload.block.inner.header in
      let write = write_signed u64 pk sig hash in
      let bodies = map (λ (s : Sent L D S). write s.transaction) sent in
      let (late, fills, ends) = transaction_upload_end-inv start end upload.block reserved in
      let ts = index_from sha256 hash 0 bodies in
      let all_indexed : ts ≡ indexed_from write 0 sent =
        index_from-sent u64 pk sig hash sha256 be pk_size 0 sent valid in
      let size : length ts ≡ length sent =
        ap length all_indexed ∙ length-indexed_from write 0 sent in
      let digests : digests_of_indexed ts ≡ map (λ s. message_digest s.transaction) sent =
        ap digests_of_indexed all_indexed ∙ digests_of_indexed_from write 0 sent in
      let same : length sent ≡ length upload.block.inner.body =
        sym (length-map sent (λ s. write s.transaction))
        ∙ length-collect (encoded_signed_transaction decode write) upload.block.inner.body bodies
            encoded in
      let first = start + openings start in
      let rows = described_rows as_bytes write header.height first 0 sent in
      let made : rows_from as_bytes header.height first ts ≡ some rows =
        ap (rows_from as_bytes header.height first) all_indexed
        ∙ rows_from-described as_bytes write header.height first 0 sent (omega arith) in
      let located : checked_sub header.transactions_range.1 (length ts + 1) ≡ some first =
        checked_sub-some header.transactions_range.1 (length ts + 1) first (omega arith) in
      let count : length (digests_of_indexed ts) ≡ length upload.block.inner.body =
        ap length digests ∙ length-map sent (λ s. message_digest s.transaction) ∙ same in
      let built = build-reserved start end upload.block (digests_of_indexed ts) reserved count in
      let encodes =
        encode_rows-some sha256 hash as_bytes decode write upload.block upload.finalized_ts_micros
          bodies first rows encoded located made in
      (
        record {
          height = header.height;
          block_rows = record {
            sql = block_row as_bytes upload.block (length ts) upload.finalized_ts_micros ∷ rows;
            transaction_digests = digests_of_indexed ts;
          };
          state_delta = upload.state_delta;
          account_sql = account_rows upload.state_delta upload.state_start;
          transaction_ops = operations start upload.block (digests_of_indexed ts);
        },
        rw (encodes, expand_queued_finalized_upload, ◌>>=◌, built) refl,
        ap (operations start upload.block) digests,
        omega (arith, fills, count, length-operations start upload.block (digests_of_indexed ts)),
        ends,
        ap (λ n. block_row as_bytes upload.block n upload.finalized_ts_micros ∷ rows) size,
        digests,
      )
