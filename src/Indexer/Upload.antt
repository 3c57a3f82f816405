-- ===== src/Indexer/Upload.antt =====
-- crates/indexer/src/publisher/qmdb.rs: what is queued of a finalized block, and what is derived
-- from it at upload time. `Option` around a result is a panic. The proof reader of the state
-- database is the parameter `historical_proof`.
use mathlib.Core.Option
use constantinople.Base.{
  ℕ, ◌+◌, ◌^◌, Bool, ◌&&◌, not, Option, none, some, List, [], ◌∷◌, ◌++◌, map, Result, length, eqb,
  ltb, leb, ◌>>=◌, if◌then◌else◌,
}
use constantinople.Base.Result.{ok, err}
use constantinople.Base.Codec.{Codec, IsWord}
use constantinople.Base.Word.{checked_add, checked_sub, u64_max}
use constantinople.Account.{AccountKey, Account}
use constantinople.Account.Codec.{write_account}
use constantinople.Transaction.{Sealed, SignedTransaction}
use constantinople.Block.Codec.{LazyBlock}
use constantinople.Indexer.{SqlRow, encode_account_meta_row}
use constantinople.Indexer.Rows.{
  IndexedBlockRows, encode_indexed_block_rows_at, from_be_bytes, slice,
}

-- The operations of the two logs; the value of a commit is always `None`.
pub data StateOperation (V : Type 0) : Type 0 where
  delete : (key : AccountKey) → StateOperation V
  update : (key : AccountKey) (account : V) → StateOperation V
  commit_floor : (account : Option V) (floor : ℕ) → StateOperation V

pub data TransactionOperation (D : Type 0) : Type 0 where
  commit : (floor : ℕ) → TransactionOperation D
  append : (digest : D) → TransactionOperation D

-- The part of `PublishError` that the code here raises; `qmdb` stands for the errors of a reader.
pub data PublishError : Type 0 where
  store_empty_past_genesis : (height : ℕ) → PublishError
  writer_out_of_sync : (writer_next block_start : ℕ) → PublishError
  checkpoint_too_large : (locations : ℕ) → PublishError
  committer_stopped : (height : ℕ) → PublishError
  empty_batch : PublishError
  qmdb : PublishError

-- `?` on a `Result`.
infixl 5 ◌and_then◌
abbrev pub ◌and_then◌ :
    {A B : Type 0} → Result PublishError A → (A → Result PublishError B) → Result PublishError B
ok a and_then f = f a
err e and_then f = err e

-- The guard that `build_state_delta`, `validate_writer_range`, `transaction_upload_end` and
-- `build_transaction_upload_from_digests` begin with.
abbrev pub past_genesis : {A : Type 0} → ℕ → ℕ → Result PublishError A → Result PublishError A
past_genesis writer_next height r =
    if eqb writer_next 0 && ltb 1 height
    then err (PublishError.store_empty_past_genesis height)
    else r

-- `validate_writer_range`
unfoldable pub validate_writer_range : ℕ → ℕ → ℕ → Result PublishError (Unit {0})
validate_writer_range writer_next block_end height = past_genesis writer_next height (
    if ltb block_end writer_next
    then err (PublishError.writer_out_of_sync writer_next block_end)
    else ok tt)

-- The operations that a block takes: one for each transaction, one commit, and the first commit.
abbrev pub operation_count : ℕ → ℕ → Option ℕ
operation_count writer_next tx_count = do
  count ← checked_add tx_count 1
  if eqb writer_next 0 then checked_add count 1 else some count

-- The comparison with the start of the block.
abbrev pub in_sync : {A : Type 0} → ℕ → ℕ → A → Result PublishError A
in_sync writer_next block_start a =
    if eqb writer_next block_start
    then ok a
    else err (PublishError.writer_out_of_sync writer_next block_start)

module _ {C D P L S : Type 0} where
  -- `transaction_upload_end`
  unfoldable pub transaction_upload_end :
      ℕ → Sealed (LazyBlock C D P L S) D → Option (Result PublishError ℕ)
  transaction_upload_end writer_next block =
      if eqb writer_next 0 && ltb 1 block.inner.header.height
      then some (err (PublishError.store_empty_past_genesis block.inner.header.height))
      else do
        op_count ← operation_count writer_next (length block.inner.body)
        block_start ← checked_sub block.inner.header.transactions_range.1 op_count
        if eqb writer_next block_start
            then Option.map ok (checked_add writer_next op_count)
            else some (err (PublishError.writer_out_of_sync writer_next block_start))

  -- The operations of `transaction_ops_from_digests`, before the check.
  abbrev pub operations :
      ℕ → Sealed (LazyBlock C D P L S) D → List D → List (TransactionOperation D)
  operations writer_next block digests =
      (if eqb writer_next 0 then TransactionOperation.commit 0 ∷ [] else [])
      ++ (map TransactionOperation.append digests
          ++ TransactionOperation.commit block.inner.header.transactions_range.0 ∷ [])

  -- `transaction_ops_from_digests`
  unfoldable pub transaction_ops_from_digests :
      Sealed (LazyBlock C D P L S) D
      → ℕ
      → List D
      → Option (Result PublishError (List (TransactionOperation D)))
  transaction_ops_from_digests block writer_next digests = do
    let ops = operations writer_next block digests
    block_start ← checked_sub block.inner.header.transactions_range.1 (length ops)
    some (in_sync writer_next block_start ops)

  -- `build_transaction_upload_from_digests`
  unfoldable pub build_transaction_upload_from_digests :
      Sealed (LazyBlock C D P L S) D
      → ℕ
      → List D
      → Option (Result PublishError (List (TransactionOperation D)))
  build_transaction_upload_from_digests block writer_next digests =
      if eqb writer_next 0 && ltb 1 block.inner.header.height
      then some (err (PublishError.store_empty_past_genesis block.inner.header.height))
      else transaction_ops_from_digests block writer_next digests

-- `encode_account`, with the codec of `u64`
abbrev pub encode_account : Codec IsWord → Account → List ℕ
encode_account u64 account = write_account u64 account

-- `encode_account_operation`
abbrev pub encode_account_operation :
    Codec IsWord → StateOperation Account → StateOperation (List ℕ)
encode_account_operation u64 (StateOperation.delete key) = StateOperation.delete key
encode_account_operation u64 (StateOperation.update key account) =
    StateOperation.update key (encode_account u64 account)
encode_account_operation u64 (StateOperation.commit_floor account floor) =
    StateOperation.commit_floor (Option.map (encode_account u64) account) floor

-- `account_value_balance`, `account_value_nonce_base` and `account_value_nonce_bitmap`
abbrev pub account_value_balance : List ℕ → ℕ
account_value_balance account = from_be_bytes (slice 0 8 account)

abbrev pub account_value_nonce_base : List ℕ → ℕ
account_value_nonce_base account = from_be_bytes (slice 8 16 account)

abbrev pub account_value_nonce_bitmap : List ℕ → ℕ
account_value_nonce_bitmap account = from_be_bytes (slice 16 24 account)

-- `account_rows`, of which `start_location` moves with the offset
unfoldable pub account_rows : List (StateOperation (List ℕ)) → ℕ → List SqlRow
account_rows [] location = []
account_rows (StateOperation.delete key ∷ rest) location = account_rows rest (location + 1)
account_rows (StateOperation.commit_floor account floor ∷ rest) location =
    account_rows rest (location + 1)
account_rows (StateOperation.update key account ∷ rest) location =
    encode_account_meta_row (record {
      account = key.bytes;
      balance = account_value_balance account;
      nonce_base = account_value_nonce_base account;
      nonce_bitmap = account_value_nonce_bitmap account;
      qmdb_location = location;
    })
    ∷ account_rows rest (location + 1)

module _ (u64 : Codec IsWord)
    (historical_proof : (end start count : ℕ)
      → Result PublishError (List (StateOperation Account))) where
  -- `load_state_ops`
  unfoldable pub load_state_ops : ℕ → ℕ → Result PublishError (List (StateOperation (List ℕ)))
  load_state_ops start end = elim (checked_sub end start) [
    | none ↦ err PublishError.empty_batch
    | some count ↦
        if eqb count 0
        then err PublishError.empty_batch
        else (historical_proof end start count and_then λ operations.
            ok (map (encode_account_operation u64) operations))
  ]

  -- `build_state_delta`
  unfoldable pub build_state_delta :
      ℕ → ℕ → ℕ → Result PublishError (List (StateOperation (List ℕ)))
  build_state_delta writer_next height end =
      past_genesis writer_next height (load_state_ops writer_next end)

-- `QueuedFinalizedUpload`
pub record QueuedFinalizedUpload (C D P L S : Type 0) : Type 0 where
  pub block : Sealed (LazyBlock C D P L S) D
  pub finalized_ts_micros : ℕ
  pub state_start : ℕ
  pub transaction_start : ℕ
  pub state_delta : List (StateOperation (List ℕ))

-- The result of a panic-free step, or what it goes on with.
abbrev pub go_on :
    {A B : Type 0}
    → Option (Result PublishError A)
    → (A → Option (Result PublishError B))
    → Option (Result PublishError B)
go_on none f = none
go_on (some (err e)) f = some (err e)
go_on (some (ok a)) f = f a

module _ {C D P L S : Type 0} where
  -- `QueuedFinalizedUpload::state_end`
  abbrev pub state_end : QueuedFinalizedUpload C D P L S → ℕ
  state_end upload = upload.block.inner.header.state_range.1

  -- `QueuedFinalizedUpload::transaction_end`; `none` is a panic
  abbrev pub transaction_end : QueuedFinalizedUpload C D P L S → Option ℕ
  transaction_end upload = elim (transaction_upload_end upload.transaction_start upload.block) [
    | none ↦ none
    | some (err e) ↦ none
    | some (ok end) ↦ some end
  ]

  module _ (u64 : Codec IsWord)
      (historical_proof : (end start count : ℕ)
        → Result PublishError (List (StateOperation Account))) where
    -- `build_queued_finalized_upload_with_context`
    unfoldable pub build_queued_finalized_upload :
        ℕ
        → ℕ
        → Sealed (LazyBlock C D P L S) D
        → ℕ
        → Option (Result PublishError (QueuedFinalizedUpload C D P L S))
    build_queued_finalized_upload state_next transaction_next block now =
        let header = block.inner.header in
        go_on (some (validate_writer_range state_next header.state_range.1 header.height)) λ valid.
          go_on (transaction_upload_end transaction_next block) λ end.
            go_on
              (some (
                build_state_delta u64 historical_proof state_next header.height
                  header.state_range.1))
              λ delta. some (
                ok (record {
                  block = block;
                  finalized_ts_micros = now;
                  state_start = state_next;
                  transaction_start = transaction_next;
                  state_delta = delta;
                }))

-- `PendingPreparedQmdbUpload`
pub record PendingPreparedQmdbUpload (D : Type 0) : Type 0 where
  pub height : ℕ
  pub block_rows : IndexedBlockRows D
  pub state_delta : List (StateOperation (List ℕ))
  pub account_sql : List SqlRow
  pub transaction_ops : List (TransactionOperation D)

module _ {C D P L S : Type 0} (sha256 : List ℕ → List ℕ) (hash : List ℕ → D) (as_bytes : D → List ℕ)
    (decode : List ℕ → Option (SignedTransaction L D S))
    (write : SignedTransaction L D S → List ℕ) where
  -- `expand_queued_finalized_upload`
  unfoldable pub expand_queued_finalized_upload :
      QueuedFinalizedUpload C D P L S → Option (Result PublishError (PendingPreparedQmdbUpload D))
  expand_queued_finalized_upload upload = do
    rows ←
        encode_indexed_block_rows_at sha256 hash as_bytes decode write upload.block
          upload.finalized_ts_micros
    go_on
        (build_transaction_upload_from_digests upload.block upload.transaction_start
          rows.transaction_digests)
        (λ ops. some (
          ok (record {
            height = upload.block.inner.header.height;
            block_rows = rows;
            state_delta = upload.state_delta;
            account_sql = account_rows upload.state_delta upload.state_start;
            transaction_ops = ops;
          })))

-- `Publisher`: the next locations, what was sent to the preparer, and whether it still receives.
pub record Publisher (C D P L S : Type 0) : Type 0 where
  pub state_next : ℕ
  pub transaction_next : ℕ
  pub sent : List (QueuedFinalizedUpload C D P L S)
  pub receiving : Bool

-- `UploadCompletion`: of an upload that was persisted before, or one that is waited for
pub data UploadCompletion : Type 0 where
  completed : UploadCompletion
  waiting : UploadCompletion

module _ {C D P L S : Type 0} where
  -- `enqueue_queued_finalized`; `none` is a panic
  unfoldable pub enqueue_queued_finalized :
      QueuedFinalizedUpload C D P L S
      → Publisher C D P L S
      → Option (Result PublishError UploadCompletion × Publisher C D P L S)
  enqueue_queued_finalized upload p = do
    end ← transaction_end upload
    some (
        if leb (state_end upload) p.state_next && leb end p.transaction_next
        then (ok UploadCompletion.completed, p)
        else if not (eqb p.state_next upload.state_start)
        then (err (PublishError.writer_out_of_sync p.state_next upload.state_start), p)
        else if not (eqb p.transaction_next upload.transaction_start)
        then (err (PublishError.writer_out_of_sync p.transaction_next upload.transaction_start), p)
        else if not p.receiving
        then (err (PublishError.committer_stopped upload.block.inner.header.height), p)
        else (
          ok UploadCompletion.waiting,
          record p {
            state_next = state_end upload;
            transaction_next = end;
            sent = p.sent ++ upload ∷ [];
          },
        ))

-- `next_writer_location`
abbrev pub next_writer_location : Option ℕ → ℕ
next_writer_location none = 0
next_writer_location (some location) = location + 1

module _ {W Checkpoint : Type 0} (empty : W)
    (fetch : (watermark max : ℕ) → Result PublishError Checkpoint)
    (from_checkpoint : Checkpoint → Result PublishError W) where
  -- `recover_writer_state`
  unfoldable pub recover_writer_state : Option ℕ → Result PublishError W
  recover_writer_state none = ok empty
  recover_writer_state (some watermark) = elim (checked_add watermark 1) [
    | none ↦ err (PublishError.checkpoint_too_large u64_max)
    | some locations ↦
        if ltb locations (2 ^ 32)
        then (fetch watermark locations and_then from_checkpoint)
        else err (PublishError.checkpoint_too_large locations)
  ]
