-- ===== src/Indexer/InFlight.antt =====
-- crates/indexer/src/publisher/qmdb.rs: what is in flight while the committer runs, where staging and
-- flushing do not fail.
use constantinople.Base.{
  ℕ, ◌≡◌, inl, inr, refl, sym, ap, subst, ◌∙◌, some_inj, Bool, true, false, ◌&&◌, ◌||◌, not, some,
  List, [], ◌∷◌, ◌++◌, All, All-append, arith, Bool-cases, ◌>>=◌, ltb, length,
}
use constantinople.Indexer.Writer.{QmdbWriter, SqlWriter, FlushesSafely, with_watermark}
use constantinople.Indexer.Commit.{
  PreparedQmdbUpload, Writers, QmdbCommitBatch, prepare_commit_batch, commit_required_batch,
  is_empty, flush_qmdb_watermarks,
}
use constantinople.Indexer.Committer.{
  Committer, Step, Reach, new_committer, flush_pending, flush_and_complete_published_uploads,
  complete_published_uploads, stage_and_spawn_commit, finish, after_filling, try_recv, fill, recv,
  join, drained,
}
use constantinople.Indexer.Persisted.{bind-some}
use constantinople.Indexer.Flush.{commit_watermarks-some}

All-left :
    {A : Type 0} (P : A → Type 0) (xs : List A) (y : A) (ys : List A)
    → All P (xs ++ y ∷ ys)
    → All P (xs ++ ys)
All-left P [] y ys h = h.1
All-left P (x ∷ xs) y ys h = (h.0, All-left P xs y ys h.1)

pub closed_or :
    (rx closed : Bool) → (rx ≡ true → closed ≡ true) → (rx || closed) ≡ true → closed ≡ true
closed_or true closed h k = h refl
closed_or false closed h k = k

module _ {Row : Type 0} (sw tw : QmdbWriter Row) (q : SqlWriter Row) where
  -- The staging of an upload does not fail, and gives a row.
  abbrev pub StagesSafely : Type 0
  StagesSafely =
      (w : Writers sw tw q) (u : PreparedQmdbUpload sw.Upload tw.Upload) (inline : Bool)
      → (batch : QmdbCommitBatch sw tw q) × (w' : Writers sw tw q) × (row : Row) × (rows : List Row)
        × (prepare_commit_batch sw tw q w u inline ≡ some (batch, w'))
        × (batch.store_batch ≡ row ∷ rows)

  -- What `commit_required_batch` asserts.
  abbrev pub HasRow : QmdbCommitBatch sw tw q → Type 0
  HasRow batch = is_empty batch.store_batch ≡ false

  -- Every batch in flight has a row, and the loop takes the channel for closed only if it is.
  abbrev pub IsFit : Committer sw tw q → Type 0
  IsFit c = All HasRow c.commits × (c.rx_closed ≡ true → c.closed ≡ true)

module _ {Row : Type 0} (sw tw : QmdbWriter Row) (q : SqlWriter Row) (ss : FlushesSafely sw)
    (ts : FlushesSafely tw) where
  flush_pending-some :
      (seq : ℕ) (c : Committer sw tw q)
      → (d : Committer sw tw q) × (flush_pending sw tw q seq c ≡ some d)
        × (d.queue ≡ c.queue)
        × (d.commits ≡ c.commits)
        × (d.closed ≡ c.closed)
        × (d.rx_closed ≡ c.rx_closed)
  unfolding flush_qmdb_watermarks complete_published_uploads
  flush_pending-some seq c =
      let (mark, s1, e) = ss.prepares c.writers.state in
      let (mark', t1, e') = ts.prepares c.writers.transactions in
      let v = record c.writers {
        state = with_watermark sw s1 mark seq;
        transactions = with_watermark tw t1 mark' seq;
      } in
      let flushed : flush_qmdb_watermarks sw tw q c.writers seq ≡ some v =
        rw (e, ◌>>=◌, e')
          (commit_watermarks-some sw tw q ss ts (record c.writers { state = s1; transactions = t1 })
            mark mark' seq) in
      (
        complete_published_uploads sw tw q (record c { writers = v }),
        ap (λ o. o >>= λ w. some (complete_published_uploads sw tw q (record c { writers = w })))
            flushed,
        refl,
        refl,
        refl,
        refl,
      )

  pub flush-some :
      (seq : ℕ) (c : Committer sw tw q)
      → (d : Committer sw tw q) × (flush_and_complete_published_uploads sw tw q seq c ≡ some d)
        × (d.queue ≡ c.queue)
        × (d.commits ≡ c.commits)
        × (d.closed ≡ c.closed)
        × (d.rx_closed ≡ c.rx_closed)
  unfolding flush_and_complete_published_uploads complete_published_uploads
  flush-some seq c =
      let c1 = complete_published_uploads sw tw q c in
      elim (Bool-cases (is_empty c1.pending)) [
        | inl nothing ↦
            (c1, rw (nothing, flush_and_complete_published_uploads) refl, refl, refl, refl, refl)
        | inr left ↦
            (let (d, made, a, b, e, r) = flush_pending-some seq c1 in
              (d, rw (left, flush_and_complete_published_uploads) made, a, b, e, r))
      ]

  -- What a flush leaves alone, it keeps fit.
  flush-IsFit :
      (seq : ℕ) (c d : Committer sw tw q)
      → flush_and_complete_published_uploads sw tw q seq c ≡ some d
      → IsFit sw tw q c
      → IsFit sw tw q d
  flush-IsFit seq c d h fit =
      let (e, made, hq, hc, hd, hr) = flush-some seq c in
      subst (IsFit sw tw q) (some_inj (sym made ∙ h))
        (subst (All (HasRow sw tw q)) (sym hc) fit.0, λ k. hd ∙ fit.1 (sym hr ∙ k))

  module _ (safe : StagesSafely sw tw q) where
    stage-IsFit :
        (u : PreparedQmdbUpload sw.Upload tw.Upload) (c d : Committer sw tw q)
        → stage_and_spawn_commit sw tw q u c ≡ some d
        → IsFit sw tw q c
        → IsFit sw tw q d
    unfolding stage_and_spawn_commit
    stage-IsFit u c d h fit =
        let (batch, w, row, rows, e, filled) = safe c.writers u (is_empty c.commits) in
        subst (IsFit sw tw q) (some_inj (rw (e, ◌>>=◌) at h))
          (All-append (HasRow sw tw q) c.commits (batch ∷ []) fit.0 (ap is_empty filled, tt), fit.1)

    finish-IsFit :
        (seq : ℕ) (c d : Committer sw tw q)
        → finish sw tw q seq c ≡ some d
        → IsFit sw tw q c
        → IsFit sw tw q d
    unfolding finish
    finish-IsFit seq c d h fit =
        let (c1, e, h1) = bind-some (flush_and_complete_published_uploads sw tw q seq c) _ h in
        elim (Bool-cases (is_empty c1.pending)) [
          | inl nothing ↦
              subst (IsFit sw tw q) (some_inj (rw nothing at h1)) (flush-IsFit seq c c1 e fit)
          | inr left ↦ absurd (ground (arith, rw left at h1))
        ]

    after_filling-IsFit :
        (seq : ℕ) (c d : Committer sw tw q)
        → after_filling sw tw q seq c ≡ some d
        → IsFit sw tw q c
        → IsFit sw tw q d
    unfolding after_filling
    after_filling-IsFit seq c d h fit = elim (Bool-cases (c.rx_closed && is_empty c.commits)) [
      | inl over ↦ finish-IsFit seq c d (rw (over, after_filling) at h) fit
      | inr more ↦ subst (IsFit sw tw q) (some_inj (rw (more, after_filling) at h)) fit
    ]

    try_recv-IsFit :
        (seq : ℕ) (c d : Committer sw tw q) (queue : List (PreparedQmdbUpload sw.Upload tw.Upload))
        → try_recv sw tw q seq c queue ≡ some d
        → IsFit sw tw q c
        → IsFit sw tw q d
    try_recv-IsFit seq c d [] h fit =
        after_filling-IsFit seq (record c { rx_closed = c.rx_closed || c.closed }) d h
          (fit.0, closed_or c.rx_closed c.closed fit.1)
    try_recv-IsFit seq c d (u ∷ rest) h fit = stage-IsFit u (record c { queue = rest }) d h fit

    fill-IsFit :
        (max seq : ℕ) (c d : Committer sw tw q)
        → fill sw tw q max seq c ≡ some d
        → IsFit sw tw q c
        → IsFit sw tw q d
    unfolding fill
    fill-IsFit max seq c d h fit = elim (Bool-cases (ltb (length c.commits) max)) [
      | inl room ↦ try_recv-IsFit seq c d c.queue (rw (room, fill) at h) fit
      | inr full ↦ after_filling-IsFit seq c d (rw (full, fill) at h) fit
    ]

    not_waiting : (closed : Bool) → (true && not closed) ≡ false → closed ≡ true
    not_waiting true h = refl
    not_waiting false h = absurd (ground arith)

    recv-IsFit :
        (c d : Committer sw tw q) (queue : List (PreparedQmdbUpload sw.Upload tw.Upload))
        → (is_empty queue && not c.closed) ≡ false
        → recv sw tw q c queue ≡ some d
        → IsFit sw tw q c
        → IsFit sw tw q d
    unfolding recv
    recv-IsFit c d [] ready h fit =
        subst (IsFit sw tw q) (some_inj h) (fit.0, λ k. not_waiting c.closed ready)
    recv-IsFit c d (u ∷ rest) ready h fit = stage-IsFit u (record c { queue = rest }) d h fit

    join-IsFit :
        (seq : ℕ) (before : List (QmdbCommitBatch sw tw q)) (b : QmdbCommitBatch sw tw q)
        (after : List (QmdbCommitBatch sw tw q)) (c d : Committer sw tw q)
        → c.commits ≡ before ++ b ∷ after
        → join sw tw q seq before b after c ≡ some d
        → IsFit sw tw q c
        → IsFit sw tw q d
    unfolding join
    join-IsFit seq before b after c d split h fit =
        let (store_seq, e, h1) = bind-some (commit_required_batch sw tw q b.store_batch seq) _ h in
        subst (IsFit sw tw q) (some_inj h1) (
          All-left (HasRow sw tw q) before b after (subst (All (HasRow sw tw q)) split fit.0),
          fit.1,
        )

    Step-IsFit :
        {max : ℕ} (c d : Committer sw tw q)
        → Step sw tw q max c d
        → IsFit sw tw q c
        → IsFit sw tw q d
    unfolding drained
    Step-IsFit c d (Step.arrive height completion rows ops txs u w open_ made same) fit =
        subst (IsFit sw tw q) (sym same) fit
    Step-IsFit c d (Step.close open_ same) fit = subst (IsFit sw tw q) (sym same) (fit.0, λ k. refl)
    Step-IsFit {max} c d (Step.fills seq at made) fit = fill-IsFit max seq c d made fit
    Step-IsFit c d (Step.receives at open_ room ready made) fit =
        recv-IsFit c d c.queue ready made fit
    Step-IsFit c d (Step.joins seq before batch after p r split made) fit =
        join-IsFit seq before batch after c d split made fit
    Step-IsFit c d (Step.drains seq at made) fit =
        let (c1, e, h1) = bind-some (flush_and_complete_published_uploads sw tw q seq c) _ made in
        subst (IsFit sw tw q) (some_inj h1) (flush-IsFit seq c c1 e fit)

    pub Reach-IsFit :
        {max : ℕ} (w0 : Writers sw tw q) {c : Committer sw tw q}
        → Reach sw tw q max (new_committer sw tw q w0) c
        → IsFit sw tw q c
    Reach-IsFit w0 Reach.here = (tt, λ k. absurd (ground arith))
    Reach-IsFit w0 (Reach.next {d} {e} r step) = Step-IsFit d e step (Reach-IsFit w0 r)
