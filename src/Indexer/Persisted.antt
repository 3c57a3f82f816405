-- ===== src/Indexer/Persisted.antt =====
-- crates/indexer/src/publisher/qmdb.rs: the committer keeps its books of both writers in order.
use constantinople.Base.{
  some_inj, ℕ, ◌≡◌, refl, subst, Bool, true, false, Option, none, some, [], ◌∷◌, arith, ◌>>=◌,
}
use constantinople.Indexer.Writer.{QmdbWriter, SqlWriter, IsWriter, with_watermark}
use constantinople.Indexer.Commit.{
  PreparedQmdbUpload, Writers, QmdbCommitBatch, prepare_commit_batch, inline_marks,
  stage_commit_batch, prepare_sql_upload, stage_sql, stage_optional, commit_watermarks,
  commit_required_batch, flush_qmdb_watermarks,
}
use constantinople.Indexer.Side.{SameLog, SameLog-trans, span}

-- Inversion of a successful `do` step.
pub bind-some :
    {A B : Type 0} (o : Option A) (f : A → Option B) {b : B}
    → (o >>= f) ≡ some b
    → (a : A) × (o ≡ some a) × (f a ≡ some b)
bind-some none f h = absurd (ground arith)
bind-some (some a) f h = (a, refl, h)

SameLog-refl :
    {Row : Type 0} (w : QmdbWriter Row) (laws : IsWriter w) (s : w.State) → SameLog w laws s s
SameLog-refl w laws s = (refl, (λ l. ((λ p. p), (λ p. p))))

pub with_watermark-SameLog :
    {Row : Type 0} (w : QmdbWriter Row) (laws : IsWriter w) (s : w.State)
    (mark : Option w.Watermark) (seq : ℕ)
    → SameLog w laws s (with_watermark w s mark seq)
with_watermark-SameLog w laws s none seq = SameLog-refl w laws s
with_watermark-SameLog w laws s (some mark) seq = laws.mark_flush s mark seq

module _ {Row : Type 0} (sw tw : QmdbWriter Row) (q : SqlWriter Row) (sl : IsWriter sw)
    (tl : IsWriter tw) where
  -- Neither log changes.
  abbrev pub SameLogs : Writers sw tw q → Writers sw tw q → Type 0
  SameLogs v w = SameLog sw sl v.state w.state × SameLog tw tl v.transactions w.transactions

  inline_marks-SameLog :
      (inline : Bool) (s : sw.State) (u : sw.Upload) (t : tw.State) (v : tw.Upload)
      (r : (Option sw.Watermark × sw.State) × (Option tw.Watermark × tw.State))
      → inline_marks sw tw q inline s u t v ≡ some r
      → SameLog sw sl s r.0.1 × SameLog tw tl t r.1.1
  unfolding inline_marks
  inline_marks-SameLog false s u t v r h =
      subst (λ r. SameLog sw sl s r.0.1 × SameLog tw tl t r.1.1) (some_inj h)
        (SameLog-refl sw sl s, SameLog-refl tw tl t)
  inline_marks-SameLog true s u t v r h =
      let ((m, s1), e1, h1) = bind-some (sw.prepare_flush_for_uploads s (u ∷ [])) _ h in
      let ((n, t1), e2, h2) = bind-some (tw.prepare_flush_for_uploads t (v ∷ [])) _ h1 in
      subst (λ r. SameLog sw sl s r.0.1 × SameLog tw tl t r.1.1) (some_inj h2)
        (sl.flush_for_keeps s (u ∷ []) m s1 e1, tl.flush_for_keeps t (v ∷ []) n t1 e2)

  -- A batch holds its upload at the same locations.
  abbrev pub SameSpans : PreparedQmdbUpload sw.Upload tw.Upload → QmdbCommitBatch sw tw q → Type 0
  SameSpans u b =
      (span sw sl b.upload.state ≡ span sw sl u.state)
      × (span tw tl b.upload.transactions ≡ span tw tl u.transactions)

  pub stage_commit_batch-SameSpans :
      (w : Writers sw tw q) (u : PreparedQmdbUpload sw.Upload tw.Upload) (m : Option sw.Watermark)
      (n : Option tw.Watermark) (r : QmdbCommitBatch sw tw q × q.State)
      → stage_commit_batch sw tw q w u m n ≡ some r
      → SameSpans u r.0
  unfolding stage_commit_batch
  stage_commit_batch-SameSpans w u m n r h =
      let ((sql, q1), e1, h1) = bind-some (prepare_sql_upload sw tw q w.sql u.sql_rows) _ h in
      let ((staged, rows1), e2, h2) = bind-some (stage_sql sw tw q q1 sql) _ h1 in
      let ((state, rows2), e3, h3) = bind-some (sw.stage_upload w.state u.state rows1) _ h2 in
      let ((txs, rows3), e4, h4) =
        bind-some (tw.stage_upload w.transactions u.transactions rows2) _ h3 in
      let (rows4, e5, h5) = bind-some (stage_optional (sw.stage_flush w.state) m rows3) _ h4 in
      let (rows5, e6, h6) =
        bind-some (stage_optional (tw.stage_flush w.transactions) n rows4) _ h5 in
      let k1 = sl.stage_keeps w.state u.state rows1 state rows2 e3 in
      let k2 = tl.stage_keeps w.transactions u.transactions rows2 txs rows3 e4 in
      subst (λ r. SameSpans u r.0) (some_inj h6) ((λ i. (k1.0 i, k1.1 i)), (λ i. (k2.0 i, k2.1 i)))

  pub prepare_commit_batch-keeps :
      (w : Writers sw tw q) (u : PreparedQmdbUpload sw.Upload tw.Upload) (inline : Bool)
      (r : QmdbCommitBatch sw tw q × Writers sw tw q)
      → prepare_commit_batch sw tw q w u inline ≡ some r
      → SameSpans u r.0 × SameLogs w r.1
  unfolding prepare_commit_batch
  prepare_commit_batch-keeps w u inline r h =
      let (((m, s1), (n, t1)), e1, h1) =
        bind-some (inline_marks sw tw q inline w.state u.state w.transactions u.transactions) _ h in
      let w1 = record w { state = s1; transactions = t1 } in
      let ((batch, q1), e2, h2) = bind-some (stage_commit_batch sw tw q w1 u m n) _ h1 in
      let same =
        inline_marks-SameLog inline w.state u.state w.transactions u.transactions ((m, s1), (n, t1))
          e1 in
      subst (λ r. SameSpans u r.0 × SameLogs w r.1) (some_inj h2)
        (stage_commit_batch-SameSpans w1 u m n (batch, q1) e2, same)

  -- What a commit of both watermarks does, staged one after the other.
  both_marks-SameLogs :
      (w : Writers sw tw q) (m : Option sw.Watermark) (n : Option tw.Watermark) (seq : ℕ)
      (v : Writers sw tw q)
      → (stage_optional (sw.stage_flush w.state) m [] >>= λ rows1.
          stage_optional (tw.stage_flush w.transactions) n rows1 >>= λ rows2.
          commit_required_batch sw tw q rows2 seq >>= λ committed. some (record w {
            state = with_watermark sw w.state m committed;
            transactions = with_watermark tw w.transactions n committed;
          }))
        ≡ some v
      → SameLogs w v
  both_marks-SameLogs w m n seq v h =
      let (rows1, e1, h1) = bind-some (stage_optional (sw.stage_flush w.state) m []) _ h in
      let (rows2, e2, h2) =
        bind-some (stage_optional (tw.stage_flush w.transactions) n rows1) _ h1 in
      let (committed, e3, h3) = bind-some (commit_required_batch sw tw q rows2 seq) _ h2 in
      subst (SameLogs w) (some_inj h3) (
        with_watermark-SameLog sw sl w.state m committed,
        with_watermark-SameLog tw tl w.transactions n committed,
      )

  commit_watermarks-SameLogs :
      (w : Writers sw tw q) (m : Option sw.Watermark) (n : Option tw.Watermark) (seq : ℕ)
      (v : Writers sw tw q)
      → commit_watermarks sw tw q w m n seq ≡ some v
      → SameLogs w v
  unfolding commit_watermarks
  commit_watermarks-SameLogs w none none seq v h =
      subst (SameLogs w) (some_inj h)
        (SameLog-refl sw sl w.state, SameLog-refl tw tl w.transactions)
  commit_watermarks-SameLogs w (some m) n seq v h = both_marks-SameLogs w (some m) n seq v h
  commit_watermarks-SameLogs w none (some n) seq v h = both_marks-SameLogs w none (some n) seq v h

  pub flush_qmdb_watermarks-SameLogs :
      (w : Writers sw tw q) (seq : ℕ) (v : Writers sw tw q)
      → flush_qmdb_watermarks sw tw q w seq ≡ some v
      → SameLogs w v
  unfolding flush_qmdb_watermarks
  flush_qmdb_watermarks-SameLogs w seq v h =
      let ((m, s1), e1, h1) = bind-some (sw.prepare_flush w.state) _ h in
      let ((n, t1), e2, h2) = bind-some (tw.prepare_flush w.transactions) _ h1 in
      let w1 = record w { state = s1; transactions = t1 } in
      let (ks, kt) = commit_watermarks-SameLogs w1 m n seq v h2 in
      (
        SameLog-trans sw sl w.state s1 v.state (sl.flush_keeps w.state m s1 e1) ks,
        SameLog-trans tw tl w.transactions t1 v.transactions (tl.flush_keeps w.transactions n t1 e2)
            kt,
      )
