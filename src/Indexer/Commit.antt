-- ===== src/Indexer/Commit.antt =====
-- crates/indexer/src/publisher/qmdb.rs: the committer of prepared uploads, a state machine whose state
-- holds the variables of `run_qmdb_committer`. `none` is a panic. The Store gives each commit its
-- sequence number `seq`.
use constantinople.Base.{
  ℕ, Bool, true, false, ◌&&◌, Option, none, some, List, [], ◌∷◌, leb, ◌>>=◌, if◌then◌else◌,
}
use constantinople.Indexer.{SqlRow}
use constantinople.Indexer.Writer.{QmdbWriter, SqlWriter, with_watermark}

-- `PreparedQmdbUpload`, with its completion channel as a number; U and T are the uploads of the
-- two writers.
pub record PreparedQmdbUpload (U T : Type 0) : Type 0 where
  pub height : ℕ
  pub sql_rows : List SqlRow
  pub state : U
  pub transactions : T
  pub completion : ℕ

-- `StagedQmdbUpload`
pub record StagedQmdbUpload (U T : Type 0) : Type 0 where
  pub height : ℕ
  pub state : U
  pub transactions : T
  pub completion : ℕ

-- `PendingUploadCompletion`
pub record PendingUploadCompletion : Type 0 where
  pub state_latest : ℕ
  pub transaction_latest : ℕ
  pub completion : ℕ

abbrev pub is_empty : {A : Type 0} → List A → Bool
is_empty [] = true
is_empty (x ∷ xs) = false

-- An optional step of staging.
abbrev pub stage_optional : {M R : Type 0} → (M → R → Option R) → Option M → R → Option R
stage_optional stage none rows = some rows
stage_optional stage (some mark) rows = stage mark rows

module _ {Row : Type 0} (sw tw : QmdbWriter Row) (q : SqlWriter Row) where
  -- The three writers.
  pub record Writers : Type 0 where
    pub sql : q.State
    pub state : sw.State
    pub transactions : tw.State

  -- `QmdbCommitBatch`; with its sequence number it is a `CommittedQmdbBatch`.
  pub record QmdbCommitBatch : Type 0 where
    pub upload : StagedQmdbUpload sw.Upload tw.Upload
    pub sql : Option q.Batch
    pub state_watermark : Option sw.Watermark
    pub transaction_watermark : Option tw.Watermark
    pub store_batch : List Row

  -- `prepare_prepared_qmdb_upload`, on the two lists of operations
  unfoldable pub prepare_prepared_qmdb_upload :
      Writers
      → ℕ
      → List SqlRow
      → sw.Operations
      → tw.Operations
      → ℕ
      → Option (PreparedQmdbUpload sw.Upload tw.Upload × Writers)
  prepare_prepared_qmdb_upload w height sql_rows state_delta transaction_ops completion = do
    (state, s1) ← sw.prepare_upload w.state state_delta
    (transactions, t1) ← tw.prepare_upload w.transactions transaction_ops
    some (
      record {
        height = height;
        sql_rows = sql_rows;
        state = state;
        transactions = transactions;
        completion = completion;
      },
      record w { state = s1; transactions = t1 },
    )

  -- The loop of `prepare_sql_upload`.
  abbrev pub insert_rows : q.State → List SqlRow → Option q.State
  insert_rows s [] = some s
  insert_rows s (row ∷ rows) = elim (q.insert_row s row) [
    | none ↦ none
    | some s1 ↦ insert_rows s1 rows
  ]

  -- `prepare_sql_upload`
  unfoldable pub prepare_sql_upload : q.State → List SqlRow → Option (Option q.Batch × q.State)
  prepare_sql_upload s rows = do s1 ← insert_rows s rows; q.prepare_flush s1

  -- The staging of the SQL batch, if there is one.
  abbrev pub stage_sql : q.State → Option q.Batch → Option (Option q.Batch × List Row)
  stage_sql s none = some (none, [])
  stage_sql s (some prepared) = do
    (staged, rows) ← q.stage_flush s prepared []
    some (some staged, rows)

  -- The two watermarks of `prepare_commit_batch_blocking`.
  unfoldable pub inline_marks :
      Bool
      → sw.State
      → sw.Upload
      → tw.State
      → tw.Upload
      → Option ((Option sw.Watermark × sw.State) × (Option tw.Watermark × tw.State))
  inline_marks false s u t v = some ((none, s), (none, t))
  inline_marks true s u t v = do
    state ← sw.prepare_flush_for_uploads s (u ∷ [])
    transactions ← tw.prepare_flush_for_uploads t (v ∷ [])
    some (state, transactions)

  -- `stage_commit_batch_blocking`
  unfoldable pub stage_commit_batch :
      Writers
      → PreparedQmdbUpload sw.Upload tw.Upload
      → Option sw.Watermark
      → Option tw.Watermark
      → Option (QmdbCommitBatch × q.State)
  stage_commit_batch w upload state_mark transaction_mark = do
    (sql, q1) ← prepare_sql_upload w.sql upload.sql_rows
    (staged, rows1) ← stage_sql q1 sql
    (state, rows2) ← sw.stage_upload w.state upload.state rows1
    (transactions, rows3) ← tw.stage_upload w.transactions upload.transactions rows2
    rows4 ← stage_optional (sw.stage_flush w.state) state_mark rows3
    rows5 ← stage_optional (tw.stage_flush w.transactions) transaction_mark rows4
    some (
      record {
        upload = record {
          height = upload.height;
          state = state;
          transactions = transactions;
          completion = upload.completion;
        };
        sql = staged;
        state_watermark = state_mark;
        transaction_watermark = transaction_mark;
        store_batch = rows5;
      },
      q1,
    )

  -- `prepare_commit_batch_blocking`
  unfoldable pub prepare_commit_batch :
      Writers → PreparedQmdbUpload sw.Upload tw.Upload → Bool → Option (QmdbCommitBatch × Writers)
  prepare_commit_batch w upload inline_watermarks = do
    ((state_mark, s1), (transaction_mark, t1)) ←
        inline_marks inline_watermarks w.state upload.state w.transactions upload.transactions
    let w1 = record w { state = s1; transactions = t1 }
    (batch, q1) ← stage_commit_batch w1 upload state_mark transaction_mark
    some (batch, record w1 { sql = q1 })

  -- `mark_committed_batch`
  unfoldable pub mark_committed_batch :
      QmdbCommitBatch → ℕ → Writers → PendingUploadCompletion × Writers
  mark_committed_batch batch seq w = (
    record {
      state_latest = sw.latest_location batch.upload.state;
      transaction_latest = tw.latest_location batch.upload.transactions;
      completion = batch.upload.completion;
    },
    record {
      sql = elim batch.sql [
        | none ↦ w.sql
        | some prepared ↦ q.mark_flush_persisted w.sql prepared seq
      ];
      state =
          with_watermark sw (sw.mark_upload_persisted w.state batch.upload.state seq)
            batch.state_watermark seq;
      transactions =
          with_watermark tw (tw.mark_upload_persisted w.transactions batch.upload.transactions seq)
            batch.transaction_watermark seq;
    },
  )

  -- `commit_required_batch`, whose assertion is that the batch has a row
  abbrev pub commit_required_batch : List Row → ℕ → Option ℕ
  commit_required_batch rows seq = if is_empty rows then none else some seq

  -- The part of `flush_qmdb_watermarks` that commits.
  unfoldable pub commit_watermarks :
      Writers → Option sw.Watermark → Option tw.Watermark → ℕ → Option Writers
  commit_watermarks w none none seq = some w
  commit_watermarks w state transactions seq = do
    rows1 ← stage_optional (sw.stage_flush w.state) state []
    rows2 ← stage_optional (tw.stage_flush w.transactions) transactions rows1
    committed ← commit_required_batch rows2 seq
    some (record w {
      state = with_watermark sw w.state state committed;
      transactions = with_watermark tw w.transactions transactions committed;
    })

  -- `flush_qmdb_watermarks`
  unfoldable pub flush_qmdb_watermarks : Writers → ℕ → Option Writers
  flush_qmdb_watermarks w seq = do
    (state, s1) ← sw.prepare_flush w.state
    (transactions, t1) ← tw.prepare_flush w.transactions
    commit_watermarks (record w { state = s1; transactions = t1 }) state transactions seq

-- `watermark.is_some_and(|watermark| watermark >= latest)`
abbrev pub is_published : Option ℕ → ℕ → Bool
is_published none latest = false
is_published (some watermark) latest = leb latest watermark

-- The loop of `complete_published_uploads`: what is completed, and what is retained.
unfoldable pub split_published :
    Option ℕ
    → Option ℕ
    → List PendingUploadCompletion
    → List PendingUploadCompletion × List PendingUploadCompletion
split_published state transactions [] = ([], [])
split_published state transactions (p ∷ ps) =
    let rest = split_published state transactions ps in
    if is_published state p.state_latest && is_published transactions p.transaction_latest
    then (p ∷ rest.0, rest.1)
    else (rest.0, p ∷ rest.1)
