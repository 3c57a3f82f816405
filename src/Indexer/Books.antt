-- ===== src/Indexer/Books.antt =====
-- crates/indexer/src/publisher/qmdb.rs: the books of the committer about both writers, through its
-- flushes and the uploads that it takes.
use mathlib.Core.List.{map-append}
use constantinople.Base.{
  some_inj, ℕ, ◌≤◌, ◌<◌, ◌≡◌, inl, inr, sym, subst, true, some, List, [], ◌∷◌, ◌++◌, map, All,
  All-append, arith, Option-cases, Bool-cases,
}
use constantinople.Indexer.{SqlRow}
use constantinople.Indexer.Writer.{QmdbWriter, SqlWriter, IsWriter}
use constantinople.Indexer.Commit.{
  PreparedQmdbUpload, PendingUploadCompletion, Writers, QmdbCommitBatch, prepare_commit_batch,
  prepare_prepared_qmdb_upload, flush_qmdb_watermarks, split_published, is_published, is_empty,
}
use constantinople.Indexer.Committer.{
  Committer, complete_published_uploads, flush_pending, flush_and_complete_published_uploads,
  stage_and_spawn_commit,
}
use constantinople.Indexer.Side.{
  Span, span, IsStored, IsSide, IsSide-same, IsSide-arrive, published-IsStored,
}
use constantinople.Indexer.Persisted.{
  bind-some, SameLogs, prepare_commit_batch-keeps, flush_qmdb_watermarks-SameLogs,
}
use constantinople.Indexer.Spans.{
  All-weaken, All-of_map, All-to_map, staged_spans, arrived_spans, split_published-parts,
}

module _ {Row : Type 0} (sw tw : QmdbWriter Row) (q : SqlWriter Row) (sl : IsWriter sw)
    (tl : IsWriter tw) (w0 : Writers sw tw q) where
  -- The spans of the batches in flight, and those of the uploads in the channel.
  abbrev pub state_waiting :
      List (QmdbCommitBatch sw tw q) → List (PreparedQmdbUpload sw.Upload tw.Upload) → List Span
  state_waiting commits queue =
      map (λ b. span sw sl b.upload.state) commits ++ map (λ u. span sw sl u.state) queue

  abbrev pub transaction_waiting :
      List (QmdbCommitBatch sw tw q) → List (PreparedQmdbUpload sw.Upload tw.Upload) → List Span
  transaction_waiting commits queue =
      map (λ b. span tw tl b.upload.transactions) commits
      ++ map (λ u. span tw tl u.transactions) queue

  -- The books of the two logs, with what was not in the Store at the start.
  abbrev pub StateBooks : Committer sw tw q → Type 0
  StateBooks c =
      IsSide sw sl w0.state c.writers.state (state_waiting c.commits c.queue)
        (map (λ b. span sw sl b.upload.state) c.stored) (map (λ p. p.state_latest) c.pending)
        (map (λ p. p.state_latest) c.signalled)

  abbrev pub TransactionBooks : Committer sw tw q → Type 0
  TransactionBooks c =
      IsSide tw tl w0.transactions c.writers.transactions (transaction_waiting c.commits c.queue)
        (map (λ b. span tw tl b.upload.transactions) c.stored)
        (map (λ p. p.transaction_latest) c.pending) (map (λ p. p.transaction_latest) c.signalled)

  abbrev pub IsBooked : Committer sw tw q → Type 0
  IsBooked c = StateBooks c × TransactionBooks c

  -- Both sides after the writers changed without a change of the logs.
  pub IsBooked-same :
      (c : Committer sw tw q) (w : Writers sw tw q)
      → SameLogs sw tw q sl tl c.writers w
      → IsBooked c
      → IsBooked (record c { writers = w })
  IsBooked-same c w (hs, ht) (bs, bt) = (
    IsSide-same sw sl w0.state c.writers.state w.state _ _ _ _ bs hs,
    IsSide-same tw tl w0.transactions c.writers.transactions w.transactions _ _ _ _ bt ht,
  )

  -- A published completion is safe.
  safe_of_published :
      {w : QmdbWriter Row} (laws : IsWriter w) (s0 s : w.State) (waiting stored : List Span)
      (pend done : List ℕ)
      → IsSide w laws s0 s waiting stored pend done
      → (p : ℕ) → is_published (w.latest_published_watermark s) p ≡ true
      → (l : ℕ) → l ≤ p
      → IsStored w laws s0 stored l
  safe_of_published {w} laws s0 s waiting stored pend done side p h =
      elim (Option-cases (w.latest_published_watermark s)) [
        | inl nothing ↦ absurd (ground (arith, rw (nothing, is_published) at h))
        | inr (mark, found) ↦
            published-IsStored w laws s0 s s waiting stored pend done side mark p found
              (ground (arith, rw (found, is_published) at h))
      ]

  -- Completions that are published are done; the others go on waiting.
  IsSide-complete :
      {w : QmdbWriter Row} (laws : IsWriter w) (f : PendingUploadCompletion → ℕ) (s0 s : w.State)
      (waiting stored : List Span) (pend : List ℕ)
      (signalled completed retained : List PendingUploadCompletion)
      → IsSide w laws s0 s waiting stored pend (map f signalled)
      → All (λ p. is_published (w.latest_published_watermark s) (f p) ≡ true) completed
      → All (λ p. f p < laws.next s) retained
      → IsSide w laws s0 s waiting stored (map f retained) (map f (signalled ++ completed))
  IsSide-complete {w} laws f s0 s waiting stored pend signalled completed retained side done kept =
      record {
        tracked = side.tracked;
        ready = side.ready;
        waits = side.waits;
        pends = All-to_map f (λ n. n < laws.next s) retained kept;
        safe =
            subst (All (λ n. (l : ℕ) → l ≤ n → IsStored w laws s0 stored l))
              (sym (map-append f signalled completed))
              (All-append (λ n. (l : ℕ) → l ≤ n → IsStored w laws s0 stored l) (map f signalled)
                (map f completed) side.safe
                (All-to_map f (λ n. (l : ℕ) → l ≤ n → IsStored w laws s0 stored l) completed
                  (All-weaken completed
                    (λ p h.
                      safe_of_published laws s0 s waiting stored pend (map f signalled) side (f p)
                        h)
                    done)));
      }

  pub complete-IsBooked :
      (c : Committer sw tw q) → IsBooked c → IsBooked (complete_published_uploads sw tw q c)
  unfolding complete_published_uploads
  complete-IsBooked c (bs, bt) =
      let s = sw.latest_published_watermark c.writers.state in
      let t = tw.latest_published_watermark c.writers.transactions in
      let (done_s, kept_s) =
        split_published-parts (λ p. p.state_latest < sl.next c.writers.state) s t c.pending
          (All-of_map (λ p. p.state_latest) _ c.pending bs.pends) in
      let (done_t, kept_t) =
        split_published-parts (λ p. p.transaction_latest < tl.next c.writers.transactions) s t
          c.pending (All-of_map (λ p. p.transaction_latest) _ c.pending bt.pends) in
      let (completed, retained) = split_published s t c.pending in
      (
        IsSide-complete sl (λ p. p.state_latest) w0.state c.writers.state _ _ _ c.signalled
            completed retained bs (All-weaken completed (λ p h. h.0) done_s) kept_s,
        IsSide-complete tl (λ p. p.transaction_latest) w0.transactions c.writers.transactions _ _ _
            c.signalled completed retained bt (All-weaken completed (λ p h. h.1) done_t) kept_t,
      )

  pub flush-IsBooked :
      (seq : ℕ) (c d : Committer sw tw q)
      → flush_and_complete_published_uploads sw tw q seq c ≡ some d
      → IsBooked c
      → IsBooked d
  unfolding flush_and_complete_published_uploads
  flush-IsBooked seq c d h b =
      let c1 = complete_published_uploads sw tw q c in
      let b1 = complete-IsBooked c b in
      elim (Bool-cases (is_empty c1.pending)) [
        | inl nothing ↦
            subst IsBooked (some_inj (rw (nothing, flush_and_complete_published_uploads) at h)) b1
        | inr left ↦
            (let h1 : flush_pending sw tw q seq c1 ≡ some d =
                rw (left, flush_and_complete_published_uploads) at h in
              let (w, e, h2) = bind-some (flush_qmdb_watermarks sw tw q c1.writers seq) _ h1 in
              subst IsBooked (some_inj h2) (
                complete-IsBooked (record c1 { writers = w })
                  (IsBooked-same c1 w
                    (flush_qmdb_watermarks-SameLogs sw tw q sl tl c1.writers seq w e) b1)))
      ]

  pub stage-IsBooked :
      (u : PreparedQmdbUpload sw.Upload tw.Upload)
      (rest : List (PreparedQmdbUpload sw.Upload tw.Upload)) (c d : Committer sw tw q)
      → c.queue ≡ u ∷ rest
      → stage_and_spawn_commit sw tw q u (record c { queue = rest }) ≡ some d
      → IsBooked c
      → IsBooked d
  unfolding stage_and_spawn_commit
  stage-IsBooked u rest c d front h b =
      let ((batch, w), e, h1) =
        bind-some (prepare_commit_batch sw tw q c.writers u (is_empty c.commits)) _ h in
      let ((ss, st), same) =
        prepare_commit_batch-keeps sw tw q sl tl c.writers u (is_empty c.commits) (batch, w) e in
      let (bs, bt) = IsBooked-same c w same b in
      subst IsBooked (some_inj h1) (
        subst
            (λ wait.
              IsSide sw sl w0.state w.state wait (map (λ b. span sw sl b.upload.state) c.stored)
                (map (λ p. p.state_latest) c.pending) (map (λ p. p.state_latest) c.signalled))
            (staged_spans (λ b. span sw sl b.upload.state) (λ u. span sw sl u.state) c.commits batch
              u rest c.queue front ss)
            bs,
        subst
            (λ wait.
              IsSide tw tl w0.transactions w.transactions wait
                (map (λ b. span tw tl b.upload.transactions) c.stored)
                (map (λ p. p.transaction_latest) c.pending)
                (map (λ p. p.transaction_latest) c.signalled))
            (staged_spans (λ b. span tw tl b.upload.transactions) (λ u. span tw tl u.transactions)
              c.commits batch u rest c.queue front st)
            bt,
      )

  pub arrive-IsBooked :
      (height completion : ℕ) (rows : List SqlRow) (ops : sw.Operations) (txs : tw.Operations)
      (u : PreparedQmdbUpload sw.Upload tw.Upload) (w : Writers sw tw q) (c : Committer sw tw q)
      → prepare_prepared_qmdb_upload sw tw q c.writers height rows ops txs completion ≡ some (u, w)
      → IsBooked c
      → IsBooked (record c { writers = w; queue = c.queue ++ u ∷ [] })
  unfolding prepare_prepared_qmdb_upload
  arrive-IsBooked height completion rows ops txs u w c h (bs, bt) =
      let ((su, s1), e1, h1) = bind-some (sw.prepare_upload c.writers.state ops) _ h in
      let ((tu, t1), e2, h2) = bind-some (tw.prepare_upload c.writers.transactions txs) _ h1 in
      let (sf, sh, sb, sa, ss) = sl.upload_next c.writers.state ops su s1 e1 in
      let (tf, th, tb, ta, ts) = tl.upload_next c.writers.transactions txs tu t1 e2 in
      subst
        (λ (r : PreparedQmdbUpload sw.Upload tw.Upload × Writers sw tw q).
          IsBooked (record c { writers = r.1; queue = c.queue ++ r.0 ∷ [] }))
        (some_inj h2)
        (
          subst
              (λ wait.
                IsSide sw sl w0.state s1 wait (map (λ b. span sw sl b.upload.state) c.stored)
                  (map (λ p. p.state_latest) c.pending) (map (λ p. p.state_latest) c.signalled))
              (sym (
                arrived_spans (λ b. span sw sl b.upload.state) (λ u. span sw sl u.state) c.commits _
                  c.queue))
              (IsSide-arrive sw sl w0.state c.writers.state s1 _ _ _ _ bs su sf sh sb sa ss),
          subst
              (λ wait.
                IsSide tw tl w0.transactions t1 wait
                  (map (λ b. span tw tl b.upload.transactions) c.stored)
                  (map (λ p. p.transaction_latest) c.pending)
                  (map (λ p. p.transaction_latest) c.signalled))
              (sym (
                arrived_spans (λ b. span tw tl b.upload.transactions)
                  (λ u. span tw tl u.transactions) c.commits _ c.queue))
              (IsSide-arrive tw tl w0.transactions c.writers.transactions t1 _ _ _ _ bt tu tf th tb
                ta ts),
        )
