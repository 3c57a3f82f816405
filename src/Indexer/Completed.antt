-- ===== src/Indexer/Completed.antt =====
-- crates/indexer/src/publisher/qmdb.rs: in every state that the committer reaches, a completion was
-- sent only for an upload that the Store holds, with everything before it.
use mathlib.Core.List.{map-append}
use constantinople.Base.{
  some_inj, ℕ, ◌≤◌, ◌<◌, ◌≡◌, inl, inr, refl, sym, ap, subst, ◌∙◌, ◌&&◌, ◌||◌, Option, some, List,
  [], ◌∷◌, ◌++◌, map, All, arith, Bool-cases, ltb, length,
}
use constantinople.Indexer.Writer.{QmdbWriter, SqlWriter, IsWriter, with_watermark}
use constantinople.Indexer.Commit.{
  PreparedQmdbUpload, PendingUploadCompletion, Writers, QmdbCommitBatch, mark_committed_batch,
  is_empty, commit_required_batch,
}
use constantinople.Indexer.Committer.{
  Committer, Step, Reach, new_committer, flush_and_complete_published_uploads, finish,
  after_filling, try_recv, fill, recv, join, committed, drained,
}
use constantinople.Indexer.Side.{span, IsStored, IsSide, IsSide-start, IsSide-same, IsSide-join}
use constantinople.Indexer.Persisted.{bind-some, with_watermark-SameLog}
use constantinople.Indexer.Spans.{joined_spans, left_spans, All-of_map}
use constantinople.Indexer.Books.{IsBooked, stage-IsBooked, flush-IsBooked, arrive-IsBooked}

All-both {ℓ κ} :
    {A : Type 0} (P : A → Type ℓ) (Q : A → Type κ) (xs : List A)
    → All P xs
    → All Q xs
    → All (λ x. P x × Q x) xs
All-both P Q [] p r = tt
All-both P Q (x ∷ xs) p r = ((p.0, r.0), All-both P Q xs p.1 r.1)

-- A side after a batch was joined: its upload is marked, and a watermark that it carried.
module _ {Row B U : Type 0} (w : QmdbWriter Row) (laws : IsWriter w) (up : B → w.Upload)
    (waiting_upload : U → w.Upload) (latest : PendingUploadCompletion → ℕ) (s0 s : w.State)
    (before : List B) (b : B) (after commits : List B) (queue : List U) (stored : List B)
    (pending : List PendingUploadCompletion) (done : List ℕ) where
  IsSide-joined :
      (seq : ℕ) (mark : Option w.Watermark) (p : PendingUploadCompletion)
      → commits ≡ before ++ b ∷ after
      → latest p ≡ w.latest_location (up b)
      → IsSide w laws s0 s
          (map (λ b. span w laws (up b)) commits ++ map (λ u. span w laws (waiting_upload u)) queue)
          (map (λ b. span w laws (up b)) stored)
          (map latest pending)
          done
      → IsSide w laws s0
          (with_watermark w (w.mark_upload_persisted s (up b) seq) mark seq)
          (map (λ b. span w laws (up b)) (before ++ after)
            ++ map (λ u. span w laws (waiting_upload u)) queue)
          (map (λ b. span w laws (up b)) (stored ++ b ∷ []))
          (map latest (pending ++ p ∷ []))
          done
  IsSide-joined seq mark p split at side =
      let f = λ (b : B). span w laws (up b) in
      let g = λ (u : U). span w laws (waiting_upload u) in
      let marked = w.mark_upload_persisted s (up b) seq in
      let (same, marks) = laws.mark_upload s (up b) seq in
      let joined =
        IsSide-join w laws s0 s marked (map f commits ++ map g queue) (map f stored)
          (map latest pending) done side (up b) (map f before) (map f after ++ map g queue)
          (joined_spans f g before b after commits queue split) same marks in
      let waits =
        subst
          (λ wait.
            IsSide w laws s0 marked wait (map f stored ++ f b ∷ [])
              (map latest pending ++ w.latest_location (up b) ∷ []) done)
          (left_spans f g before after queue) joined in
      let stores =
        subst
          (λ st.
            IsSide w laws s0 marked (map f (before ++ after) ++ map g queue) st
              (map latest pending ++ w.latest_location (up b) ∷ []) done)
          (sym (map-append f stored (b ∷ []))) waits in
      let pends =
        subst
          (λ pe.
            IsSide w laws s0 marked (map f (before ++ after) ++ map g queue)
              (map f (stored ++ b ∷ [])) pe done)
          (ap (λ n. map latest pending ++ n ∷ []) (sym at)
            ∙ sym (map-append latest pending (p ∷ [])))
          stores in
      IsSide-same w laws s0 marked (with_watermark w marked mark seq) _ _ _ _ pends
        (with_watermark-SameLog w laws marked mark seq)

module _ {Row : Type 0} (sw tw : QmdbWriter Row) (q : SqlWriter Row) (sl : IsWriter sw)
    (tl : IsWriter tw) (w0 : Writers sw tw q) where
  committed-IsBooked :
      (seq : ℕ) (before : List (QmdbCommitBatch sw tw q)) (b : QmdbCommitBatch sw tw q)
      (after : List (QmdbCommitBatch sw tw q)) (c : Committer sw tw q)
      → c.commits ≡ before ++ b ∷ after
      → IsBooked sw tw q sl tl w0 c
      → IsBooked sw tw q sl tl w0 (committed sw tw q seq before b after c)
  unfolding mark_committed_batch
  committed-IsBooked seq before b after c split (bs, bt) = (
    IsSide-joined sw sl (λ b. b.upload.state) (λ u. u.state) (λ p. p.state_latest) w0.state
        c.writers.state before b after c.commits c.queue c.stored c.pending
        (map (λ p. p.state_latest) c.signalled) seq b.state_watermark _ split refl bs,
    IsSide-joined tw tl (λ b. b.upload.transactions) (λ u. u.transactions)
        (λ p. p.transaction_latest) w0.transactions c.writers.transactions before b after c.commits
        c.queue c.stored c.pending (map (λ p. p.transaction_latest) c.signalled) seq
        b.transaction_watermark _ split refl bt,
  )

  join-IsBooked :
      (seq : ℕ) (before : List (QmdbCommitBatch sw tw q)) (b : QmdbCommitBatch sw tw q)
      (after : List (QmdbCommitBatch sw tw q)) (c d : Committer sw tw q)
      → c.commits ≡ before ++ b ∷ after
      → join sw tw q seq before b after c ≡ some d
      → IsBooked sw tw q sl tl w0 c
      → IsBooked sw tw q sl tl w0 d
  unfolding join
  join-IsBooked seq before b after c d split h booked =
      let (store_seq, e, h1) = bind-some (commit_required_batch sw tw q b.store_batch seq) _ h in
      subst (IsBooked sw tw q sl tl w0) (some_inj h1)
        (committed-IsBooked store_seq before b after c split booked)

  finish-IsBooked :
      (seq : ℕ) (c d : Committer sw tw q)
      → finish sw tw q seq c ≡ some d
      → IsBooked sw tw q sl tl w0 c
      → IsBooked sw tw q sl tl w0 d
  unfolding finish
  finish-IsBooked seq c d h b =
      let (c1, e, h1) = bind-some (flush_and_complete_published_uploads sw tw q seq c) _ h in
      let b1 = flush-IsBooked sw tw q sl tl w0 seq c c1 e b in
      elim (Bool-cases (is_empty c1.pending)) [
        | inl nothing ↦ subst (IsBooked sw tw q sl tl w0) (some_inj (rw nothing at h1)) b1
        | inr left ↦ absurd (ground (arith, rw left at h1))
      ]

  after_filling-IsBooked :
      (seq : ℕ) (c d : Committer sw tw q)
      → after_filling sw tw q seq c ≡ some d
      → IsBooked sw tw q sl tl w0 c
      → IsBooked sw tw q sl tl w0 d
  unfolding after_filling
  after_filling-IsBooked seq c d h b = elim (Bool-cases (c.rx_closed && is_empty c.commits)) [
    | inl over ↦ finish-IsBooked seq c d (rw (over, after_filling) at h) b
    | inr more ↦ subst (IsBooked sw tw q sl tl w0) (some_inj (rw (more, after_filling) at h)) b
  ]

  try_recv-IsBooked :
      (seq : ℕ) (c d : Committer sw tw q) (queue : List (PreparedQmdbUpload sw.Upload tw.Upload))
      → c.queue ≡ queue
      → try_recv sw tw q seq c queue ≡ some d
      → IsBooked sw tw q sl tl w0 c
      → IsBooked sw tw q sl tl w0 d
  try_recv-IsBooked seq c d [] same h b =
      after_filling-IsBooked seq (record c { rx_closed = c.rx_closed || c.closed }) d h b
  try_recv-IsBooked seq c d (u ∷ rest) same h b =
      stage-IsBooked sw tw q sl tl w0 u rest c d same h b

  fill-IsBooked :
      (max seq : ℕ) (c d : Committer sw tw q)
      → fill sw tw q max seq c ≡ some d
      → IsBooked sw tw q sl tl w0 c
      → IsBooked sw tw q sl tl w0 d
  unfolding fill
  fill-IsBooked max seq c d h b = elim (Bool-cases (ltb (length c.commits) max)) [
    | inl room ↦ try_recv-IsBooked seq c d c.queue refl (rw (room, fill) at h) b
    | inr full ↦ after_filling-IsBooked seq c d (rw (full, fill) at h) b
  ]

  recv-IsBooked :
      (c d : Committer sw tw q) (queue : List (PreparedQmdbUpload sw.Upload tw.Upload))
      → c.queue ≡ queue
      → recv sw tw q c queue ≡ some d
      → IsBooked sw tw q sl tl w0 c
      → IsBooked sw tw q sl tl w0 d
  unfolding recv
  recv-IsBooked c d [] same h b = subst (IsBooked sw tw q sl tl w0) (some_inj h) b
  recv-IsBooked c d (u ∷ rest) same h b = stage-IsBooked sw tw q sl tl w0 u rest c d same h b

  Step-IsBooked :
      {max : ℕ} (c d : Committer sw tw q)
      → Step sw tw q max c d
      → IsBooked sw tw q sl tl w0 c
      → IsBooked sw tw q sl tl w0 d
  unfolding drained
  Step-IsBooked c d (Step.arrive height completion rows ops txs u w open_ made same) b =
      subst (IsBooked sw tw q sl tl w0) (sym same)
        (arrive-IsBooked sw tw q sl tl w0 height completion rows ops txs u w c made b)
  Step-IsBooked c d (Step.close open_ same) b = subst (IsBooked sw tw q sl tl w0) (sym same) b
  Step-IsBooked {max} c d (Step.fills seq at made) b = fill-IsBooked max seq c d made b
  Step-IsBooked c d (Step.receives at open_ room some_ made) b =
      recv-IsBooked c d c.queue refl made b
  Step-IsBooked c d (Step.joins seq before batch after p r split made) b =
      join-IsBooked seq before batch after c d split made b
  Step-IsBooked c d (Step.drains seq at made) b =
      let (c1, e, h1) = bind-some (flush_and_complete_published_uploads sw tw q seq c) _ made in
      subst (IsBooked sw tw q sl tl w0) (some_inj h1) (flush-IsBooked sw tw q sl tl w0 seq c c1 e b)

  -- At the start every location below the next is persisted, in both logs.
  abbrev pub StartsPersisted : Type 0
  StartsPersisted =
      ((l : ℕ) → l < sl.next w0.state → sl.Persisted w0.state l)
      × ((l : ℕ) → l < tl.next w0.transactions → tl.Persisted w0.transactions l)

  pub Reach-IsBooked :
      {max : ℕ} {c : Committer sw tw q}
      → StartsPersisted
      → Reach sw tw q max (new_committer sw tw q w0) c
      → IsBooked sw tw q sl tl w0 c
  Reach-IsBooked start Reach.here =
      (IsSide-start sw sl w0.state start.0, IsSide-start tw tl w0.transactions start.1)
  Reach-IsBooked start (Reach.next {d} {e} r step) = Step-IsBooked d e step (Reach-IsBooked start r)

  -- In every state that the committer reaches, whatever the order in which uploads arrive and
  -- commits finish: where the completion of an upload was signalled, each location of both logs up
  -- to the last of that upload was persisted at the start, or lies in an upload whose batch the
  -- Store has committed. At the start everything below the next locations is persisted, and the
  -- writers do what they document.
  pub signalled-persisted :
      (max : ℕ) (c : Committer sw tw q)
      → StartsPersisted
      → Reach sw tw q max (new_committer sw tw q w0) c
      → All
          (λ (p : PendingUploadCompletion).
            ((l : ℕ)
              → l ≤ p.state_latest
              → IsStored sw sl w0.state (map (λ b. span sw sl b.upload.state) c.stored) l)
            × ((l : ℕ)
                → l ≤ p.transaction_latest
                → IsStored tw tl w0.transactions
                    (map (λ b. span tw tl b.upload.transactions) c.stored)
                    l))
          c.signalled
  signalled-persisted max c start r =
      let (bs, bt) = Reach-IsBooked start r in
      All-both _ _ c.signalled (All-of_map (λ p. p.state_latest) _ c.signalled bs.safe)
        (All-of_map (λ p. p.transaction_latest) _ c.signalled bt.safe)
