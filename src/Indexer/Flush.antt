-- ===== src/Indexer/Flush.antt =====
-- crates/indexer/src/publisher/qmdb.rs: once every batch is joined, a flush completes every upload, and
-- the assertion at the end of the loop holds.
use constantinople.Base.{
  ℕ, ◌+◌, ◌<◌, ◌≡◌, ◌⊎◌, inl, inr, refl, ap, subst, ◌∙◌, true, false, Option, none, some, List, [],
  ◌∷◌, ◌++◌, map, All, arith, ◌>>=◌, length, length-append,
}
use constantinople.Indexer.Writer.{
  QmdbWriter, SqlWriter, IsWriter, with_watermark, Covers, FlushesSafely,
}
use constantinople.Indexer.Commit.{
  PendingUploadCompletion, Writers, commit_watermarks, flush_qmdb_watermarks, split_published,
  is_published, is_empty,
}
use constantinople.Indexer.Committer.{
  Committer, Phase, complete_published_uploads, flush_pending, flush_and_complete_published_uploads,
  finish,
}
use constantinople.Indexer.Side.{Span, Covered, span}
use constantinople.Indexer.Spans.{All-of_map}
use constantinople.Indexer.Books.{IsBooked, complete-IsBooked}

-- Where every completion is published, all are completed.
split_published-all :
    (s t : Option ℕ) (ps : List PendingUploadCompletion)
    → All
        (λ (p : PendingUploadCompletion).
          (is_published s p.state_latest ≡ true) × (is_published t p.transaction_latest ≡ true))
        ps
    → split_published s t ps ≡ (ps, [])
unfolding split_published
split_published-all s t [] h = refl
split_published-all s t (p ∷ ps) h =
    rw (h.0.0, h.0.1)
      (ap (λ (r : List PendingUploadCompletion × List PendingUploadCompletion). (p ∷ r.0, r.1))
        (split_published-all s t ps h.1))

-- No completion is lost by the split.
length-split_published :
    (s t : Option ℕ) (ps : List PendingUploadCompletion)
    → length (split_published s t ps).0 + length (split_published s t ps).1 ≡ length ps
unfolding split_published
length-split_published s t [] = omega arith
length-split_published s t (p ∷ ps) = ground (arith, length-split_published s t ps)

Covers-is_published : (n p : ℕ) (o : Option ℕ) → Covers n o → p < n → is_published o p ≡ true
Covers-is_published n p none h k = absurd h
Covers-is_published n p (some mark) h k = ground arith

All-zip {ℓ κ μ} :
    {A : Type 0} {P : A → Type ℓ} {Q : A → Type κ} {R : A → Type μ} (xs : List A)
    → ((a : A) → P a → Q a → R a)
    → All P xs
    → All Q xs
    → All R xs
All-zip [] f h k = tt
All-zip (x ∷ xs) f h k = (f x h.0 k.0, All-zip xs f h.1 k.1)

no_waiting {ℓ} :
    {B U : Type 0} {P : Type ℓ} (f : B → Span) (g : U → Span) (commits : List B) (queue : List U)
    (l : ℕ)
    → commits ≡ []
    → queue ≡ []
    → P ⊎ Covered l (map f commits ++ map g queue)
    → P
no_waiting f g [] [] l hc hq (inl p) = p
no_waiting f g [] [] l hc hq (inr covered) = absurd covered
no_waiting f g [] (u ∷ us) l hc hq h = absurd (ground arith)
no_waiting f g (b ∷ bs) queue l hc hq h = absurd (ground arith)

pub list_cases : {A : Type 0} (xs : List A) → (xs ≡ []) ⊎ ((y : A) × (ys : List A) × (xs ≡ y ∷ ys))
list_cases [] = inl refl
list_cases (y ∷ ys) = inr (y, ys, refl)

module _ {Row : Type 0} (sw tw : QmdbWriter Row) (q : SqlWriter Row) (ss : FlushesSafely sw)
    (ts : FlushesSafely tw) where
  -- A commit of watermarks that can be staged is made.
  pub commit_watermarks-some :
      (w : Writers sw tw q) (m : Option sw.Watermark) (n : Option tw.Watermark) (seq : ℕ)
      → commit_watermarks sw tw q w m n seq
        ≡ some (record w {
          state = with_watermark sw w.state m seq;
          transactions = with_watermark tw w.transactions n seq;
        })
  unfolding commit_watermarks
  commit_watermarks-some w none none seq = refl
  commit_watermarks-some w (some m) none seq =
      let (row, rows, e) = ss.stages w.state m [] in rw (e, ◌>>=◌) refl
  commit_watermarks-some w none (some n) seq =
      let (row, rows, e) = ts.stages w.transactions n [] in rw (e, ◌>>=◌) refl
  commit_watermarks-some w (some m) (some n) seq =
      let (row, rows, e) = ss.stages w.state m [] in
      let (row', rows', e') = ts.stages w.transactions n (row ∷ rows) in rw (e, ◌>>=◌, e') refl

  module _ (sl : IsWriter sw) (tl : IsWriter tw) where
    -- A flush publishes what is persisted from the start on.
    flush-publishes :
        (w : Writers sw tw q) (n m seq : ℕ)
        → ((l : ℕ) → l < n → sl.Persisted w.state l)
        → ((l : ℕ) → l < m → tl.Persisted w.transactions l)
        → 0 < n
        → 0 < m
        → (v : Writers sw tw q) × (flush_qmdb_watermarks sw tw q w seq ≡ some v)
          × Covers n (sw.latest_published_watermark v.state)
          × Covers m (tw.latest_published_watermark v.transactions)
    unfolding flush_qmdb_watermarks
    flush-publishes w n m seq hs ht pn pm =
        let (mark, s1, e) = ss.prepares w.state in
        let (mark', t1, e') = ts.prepares w.transactions in
        (
          record w {
            state = with_watermark sw s1 mark seq;
            transactions = with_watermark tw t1 mark' seq;
          },
          rw (e, ◌>>=◌, e')
              (commit_watermarks-some (record w { state = s1; transactions = t1 }) mark mark' seq),
          sl.flush_publishes w.state n seq mark s1 hs pn e,
          tl.flush_publishes w.transactions m seq mark' t1 ht pm e',
        )

    -- The pending uploads of a state of the books lie below the next locations.
    pending-below :
        (w0 : Writers sw tw q) (c : Committer sw tw q)
        → IsBooked sw tw q sl tl w0 c
        → All (λ (p : PendingUploadCompletion). p.state_latest < sl.next c.writers.state) c.pending
          × All
              (λ (p : PendingUploadCompletion).
                p.transaction_latest < tl.next c.writers.transactions)
              c.pending
    pending-below w0 c (bs, bt) = (
      All-of_map (λ p. p.state_latest) _ c.pending bs.pends,
      All-of_map (λ p. p.transaction_latest) _ c.pending bt.pends,
    )

    -- With nothing in the channel and nothing in flight, all locations are persisted.
    all-persisted :
        (w0 : Writers sw tw q) (c : Committer sw tw q)
        → c.queue ≡ []
        → c.commits ≡ []
        → IsBooked sw tw q sl tl w0 c
        → ((l : ℕ) → l < sl.next c.writers.state → sl.Persisted c.writers.state l)
          × ((l : ℕ) → l < tl.next c.writers.transactions → tl.Persisted c.writers.transactions l)
    all-persisted w0 c hq hc (bs, bt) = (
      (λ l h.
          no_waiting (λ b. span sw sl b.upload.state) (λ u. span sw sl u.state) c.commits c.queue l
            hc hq (bs.ready l h)),
      (λ l h.
          no_waiting (λ b. span tw tl b.upload.transactions) (λ u. span tw tl u.transactions)
            c.commits c.queue l hc hq (bt.ready l h)),
    )

    -- A flush leaves the channel and the batches in flight as they are.
    abbrev pub Keeps : Committer sw tw q → Committer sw tw q → Type 0
    Keeps d c = (d.queue ≡ c.queue) × (d.commits ≡ c.commits) × (d.closed ≡ c.closed)

    module _ (w0 : Writers sw tw q) (seq : ℕ) (c : Committer sw tw q) (hq : c.queue ≡ [])
        (hc : c.commits ≡ []) (booked : IsBooked sw tw q sl tl w0 c) where
      -- The flush of what a first pass retained.
      flush_pending-completes :
          (p : PendingUploadCompletion) (ps : List PendingUploadCompletion)
          → (complete_published_uploads sw tw q c).pending ≡ p ∷ ps
          → (d : Committer sw tw q) × (flush_pending sw tw q seq
                (complete_published_uploads sw tw q c)
              ≡ some d)
            × (d.pending ≡ [])
            × (length d.signalled ≡ length c.signalled + length c.pending)
            × Keeps d c
      unfolding complete_published_uploads
      flush_pending-completes p ps left =
          let c1 = complete_published_uploads sw tw q c in
          let (persisted, persisted') = all-persisted w0 c hq hc booked in
          let (below, below') = pending-below w0 c1 (complete-IsBooked sw tw q sl tl w0 c booked) in
          let head =
            subst (All (λ (p : PendingUploadCompletion). p.state_latest < sl.next c.writers.state))
              left below in
          let head' =
            subst
              (All (λ (p : PendingUploadCompletion).
                p.transaction_latest < tl.next c.writers.transactions))
              left below' in
          let (v, flushed, covers, covers') =
            flush-publishes c.writers (sl.next c.writers.state) (tl.next c.writers.transactions) seq
              persisted persisted' (omega (arith, head.0)) (omega (arith, head'.0)) in
          let all =
            split_published-all (sw.latest_published_watermark v.state)
              (tw.latest_published_watermark v.transactions) c1.pending
              (All-zip c1.pending
                (λ p h k. (
                  Covers-is_published (sl.next c.writers.state) p.state_latest _ covers h,
                  Covers-is_published (tl.next c.writers.transactions) p.transaction_latest _
                      covers' k,
                ))
                below below') in
          (
            complete_published_uploads sw tw q (record c1 { writers = v }),
            rw (flushed, ◌>>=◌) refl,
            ap (λ r. r.1) all,
            ap (λ r. length ((c1).signalled ++ r.0)) all
                ∙ omega (
                  arith,
                  length-append {0} (c1).signalled (c1).pending,
                  length-append {0} c.signalled
                      (split_published (sw.latest_published_watermark c.writers.state)
                        (tw.latest_published_watermark c.writers.transactions) c.pending).0,
                  length-split_published (sw.latest_published_watermark c.writers.state)
                      (tw.latest_published_watermark c.writers.transactions) c.pending,
                ),
            (refl, refl, refl),
          )

      flush_nothing :
          is_empty (complete_published_uploads sw tw q c).pending ≡ true
          → flush_and_complete_published_uploads sw tw q seq c
            ≡ some (complete_published_uploads sw tw q c)
      unfolding flush_and_complete_published_uploads
      flush_nothing h = rw (h, flush_and_complete_published_uploads) refl

      flush_left :
          is_empty (complete_published_uploads sw tw q c).pending ≡ false
          → flush_and_complete_published_uploads sw tw q seq c
            ≡ flush_pending sw tw q seq (complete_published_uploads sw tw q c)
      unfolding flush_and_complete_published_uploads
      flush_left h = rw (h, flush_and_complete_published_uploads) refl

      completed_count :
          (complete_published_uploads sw tw q c).pending ≡ []
          → length (complete_published_uploads sw tw q c).signalled
            ≡ length c.signalled + length c.pending
      unfolding complete_published_uploads
      completed_count nothing =
          let s = sw.latest_published_watermark c.writers.state in
          let t = tw.latest_published_watermark c.writers.transactions in
          let none_left : length (split_published s t c.pending).1 ≡ 0 = ap length nothing in
          omega (
            arith,
            none_left,
            length-append {0} c.signalled (split_published s t c.pending).0,
            length-split_published s t c.pending,
          )

      complete-Keeps : Keeps (complete_published_uploads sw tw q c) c
      unfolding complete_published_uploads
      complete-Keeps = (refl, refl, refl)

      -- Both passes together.
      pub flush-completes :
          (d : Committer sw tw q) × (flush_and_complete_published_uploads sw tw q seq c ≡ some d)
          × (d.pending ≡ [])
          × (length d.signalled ≡ length c.signalled + length c.pending)
          × Keeps d c
      flush-completes = elim (list_cases (complete_published_uploads sw tw q c).pending) [
        | inl nothing ↦ (
          complete_published_uploads sw tw q c,
          flush_nothing (ap is_empty nothing),
          nothing,
          completed_count nothing,
          complete-Keeps,
        )
        | inr (p, ps, left) ↦
            (let (d, made, empty, count, keeps) = flush_pending-completes p ps left in
              (d, flush_left (ap is_empty left) ∙ made, empty, count, keeps))
      ]

      -- Where every sender is gone, the channel is empty and nothing is in flight, the loop ends
      -- without failing its assertion, and every completion is signalled.
      pub finish-completes :
          (d : Committer sw tw q) × (finish sw tw q seq c ≡ some d)
          × (d.phase ≡ Phase.stopped)
          × (d.pending ≡ [])
          × (length d.signalled ≡ length c.signalled + length c.pending)
          × Keeps d c
      unfolding finish
      finish-completes =
          let (d, made, nothing, count, keeps) = flush-completes in
          (
            record d { phase = Phase.stopped },
            rw (made, ◌>>=◌, nothing) refl,
            refl,
            nothing,
            count,
            keeps,
          )
