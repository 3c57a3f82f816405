-- ===== src/Indexer/Committer.antt =====
-- crates/indexer/src/publisher/qmdb.rs: the loop of `run_qmdb_committer`, one wait at a time. An event
-- is what the loop finds when it looks: an upload in the channel, a commit that has finished.
use constantinople.Base.{
  ℕ, ◌≡◌, Bool, true, false, ◌&&◌, ◌||◌, not, Option, none, some, List, [], ◌∷◌, ◌++◌, length, ltb,
  ◌>>=◌, if◌then◌else◌,
}
use constantinople.Indexer.{SqlRow}
use constantinople.Indexer.Writer.{QmdbWriter, SqlWriter}
use constantinople.Indexer.Commit.{
  PreparedQmdbUpload, PendingUploadCompletion, Writers, QmdbCommitBatch, prepare_commit_batch,
  prepare_prepared_qmdb_upload, mark_committed_batch, flush_qmdb_watermarks, split_published,
  is_empty, commit_required_batch,
}

-- Where the loop stands: in its inner `while`, at its `select!`, after a commit was joined, or at
-- its end.
pub data Phase : Type 0 where
  filling : Phase
  selecting : Phase
  joining : Phase
  stopped : Phase

module _ {Row : Type 0} (sw tw : QmdbWriter Row) (q : SqlWriter Row) where
  -- `pending_completions` is `pending`; `signalled` are the completions that were sent, and `stored`
  -- the batches that the Store has committed.
  pub record Committer : Type 0 where
    pub writers : Writers sw tw q
    pub queue : List (PreparedQmdbUpload sw.Upload tw.Upload)
    pub closed : Bool
    pub rx_closed : Bool
    pub commits : List (QmdbCommitBatch sw tw q)
    pub pending : List PendingUploadCompletion
    pub phase : Phase
    pub signalled : List PendingUploadCompletion
    pub stored : List (QmdbCommitBatch sw tw q)

  -- `complete_published_uploads`
  unfoldable pub complete_published_uploads : Committer → Committer
  complete_published_uploads c =
      let (completed, retained) =
        split_published (sw.latest_published_watermark c.writers.state)
          (tw.latest_published_watermark c.writers.transactions) c.pending in
      record c { pending = retained; signalled = c.signalled ++ completed }

  -- The flush of `flush_and_complete_published_uploads`, where uploads are left.
  abbrev pub flush_pending : ℕ → Committer → Option Committer
  flush_pending seq c = do
    w ← flush_qmdb_watermarks sw tw q c.writers seq
    some (complete_published_uploads (record c { writers = w }))

  -- `flush_and_complete_published_uploads`
  unfoldable pub flush_and_complete_published_uploads : ℕ → Committer → Option Committer
  flush_and_complete_published_uploads seq c =
      let c1 = complete_published_uploads c in
      elim (is_empty c1.pending) [ true ↦ some c1 | false ↦ flush_pending seq c1 ]

  -- `stage_and_spawn_commit`, with the flag for watermarks in the batch; `join` is the end of the task
  -- that it spawns
  unfoldable pub stage_and_spawn_commit :
      PreparedQmdbUpload sw.Upload tw.Upload → Committer → Option Committer
  stage_and_spawn_commit upload c = do
    (batch, w) ← prepare_commit_batch sw tw q c.writers upload (is_empty c.commits)
    some (record c { writers = w; commits = c.commits ++ batch ∷ []; phase = Phase.filling })

  -- The end of the loop, with its assertion.
  unfoldable pub finish : ℕ → Committer → Option Committer
  finish seq c = do
    c1 ← flush_and_complete_published_uploads seq c
    if is_empty c1.pending then some (record c1 { phase = Phase.stopped }) else none

  -- After the inner `while`.
  unfoldable pub after_filling : ℕ → Committer → Option Committer
  after_filling seq c = elim (c.rx_closed && is_empty c.commits) [
    | true ↦ finish seq c
    | false ↦ some (record c { phase = Phase.selecting })
  ]

  -- `rx.try_recv()`, where there is room
  abbrev pub try_recv :
      ℕ → Committer → List (PreparedQmdbUpload sw.Upload tw.Upload) → Option Committer
  try_recv seq c [] = after_filling seq (record c { rx_closed = c.rx_closed || c.closed })
  try_recv seq c (upload ∷ rest) = stage_and_spawn_commit upload (record c { queue = rest })

  -- One round of the inner `while`, or its exit
  unfoldable pub fill : ℕ → ℕ → Committer → Option Committer
  fill max_in_flight_commits seq c = elim (ltb (length c.commits) max_in_flight_commits) [
    | true ↦ try_recv seq c c.queue
    | false ↦ after_filling seq c
  ]

  -- The branch `rx.recv()` of the `select!`
  unfoldable pub recv : Committer → List (PreparedQmdbUpload sw.Upload tw.Upload) → Option Committer
  recv c [] = some (record c { rx_closed = true; phase = Phase.filling })
  recv c (upload ∷ rest) = stage_and_spawn_commit upload (record c { queue = rest })

  -- A batch that was committed: `mark_committed_batch`, and its completion is pending.
  abbrev pub committed :
      ℕ
      → List (QmdbCommitBatch sw tw q)
      → QmdbCommitBatch sw tw q
      → List (QmdbCommitBatch sw tw q)
      → Committer
      → Committer
  committed seq before batch after c =
      let (completion, w) = mark_committed_batch sw tw q batch seq c.writers in
      record c {
        writers = w;
        commits = before ++ after;
        pending = c.pending ++ completion ∷ [];
        phase = Phase.joining;
        stored = c.stored ++ batch ∷ [];
      }

  -- The task of `spawn_commit` has ended, and the loop joins it: `none` is the panic of the task,
  -- which `expect` raises.
  unfoldable pub join :
      ℕ
      → List (QmdbCommitBatch sw tw q)
      → QmdbCommitBatch sw tw q
      → List (QmdbCommitBatch sw tw q)
      → Committer
      → Option Committer
  join seq before batch after c = do
    store_seq ← commit_required_batch sw tw q batch.store_batch seq
    some (committed store_seq before batch after c)

  -- No further commit has finished.
  unfoldable pub drained : ℕ → Committer → Option Committer
  drained seq c = do
    c1 ← flush_and_complete_published_uploads seq c
    some (record c1 { phase = Phase.filling })

  -- The steps of the loop and of the preparer, which sends uploads until it closes the channel.
  pub data Step (max_in_flight_commits : ℕ) (c d : Committer) : Type 0 where
    arrive :
        (height completion : ℕ) (sql_rows : List SqlRow) (state_delta : sw.Operations)
        (ops : tw.Operations) (upload : PreparedQmdbUpload sw.Upload tw.Upload)
        (w : Writers sw tw q)
        → c.closed ≡ false
        → prepare_prepared_qmdb_upload sw tw q c.writers height sql_rows state_delta ops completion
          ≡ some (upload, w)
        → d ≡ record c { writers = w; queue = c.queue ++ upload ∷ [] }
        → Step max_in_flight_commits c d
    close : c.closed ≡ false → d ≡ record c { closed = true } → Step max_in_flight_commits c d
    fills :
        (seq : ℕ)
        → c.phase ≡ Phase.filling
        → fill max_in_flight_commits seq c ≡ some d
        → Step max_in_flight_commits c d
    receives :
        c.phase ≡ Phase.selecting
        → c.rx_closed ≡ false
        → ltb (length c.commits) max_in_flight_commits ≡ true
        → (is_empty c.queue && not c.closed) ≡ false
        → recv c c.queue ≡ some d
        → Step max_in_flight_commits c d
    joins :
        (seq : ℕ) (before : List (QmdbCommitBatch sw tw q)) (batch : QmdbCommitBatch sw tw q)
        (after : List (QmdbCommitBatch sw tw q))
        → (c.phase ≡ Phase.filling → ⊥)
        → (c.phase ≡ Phase.stopped → ⊥)
        → c.commits ≡ before ++ batch ∷ after
        → join seq before batch after c ≡ some d
        → Step max_in_flight_commits c d
    drains :
        (seq : ℕ)
        → c.phase ≡ Phase.joining
        → drained seq c ≡ some d
        → Step max_in_flight_commits c d

  -- The states that the loop reaches.
  pub data Reach (max_in_flight_commits : ℕ) (c : Committer) : Committer → Type 0 where
    here : Reach max_in_flight_commits c c
    next :
        {d e : Committer}
        → Reach max_in_flight_commits c d
        → Step max_in_flight_commits d e
        → Reach max_in_flight_commits c e

  -- The variables before the loop.
  abbrev pub new_committer : Writers sw tw q → Committer
  new_committer w = record {
    writers = w;
    queue = [];
    closed = false;
    rx_closed = false;
    commits = [];
    pending = [];
    phase = Phase.filling;
    signalled = [];
    stored = [];
  }
