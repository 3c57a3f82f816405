-- ===== src/Indexer/Ends.antt =====
-- crates/indexer/src/publisher/qmdb.rs: the committer stops only once the senders are gone and nothing
-- is left.
use constantinople.Base.{
  ℕ, ◌<◌, ◌≡◌, inl, inr, refl, sym, ap, subst, ◌∙◌, some_inj, Bool, true, false, ◌&&◌, ◌||◌, some,
  List, [], ◌∷◌, arith, Bool-cases, ltb, length, ltb→le,
}
use constantinople.Indexer.Writer.{QmdbWriter, SqlWriter, FlushesSafely}
use constantinople.Indexer.Commit.{PreparedQmdbUpload, Writers, commit_required_batch, is_empty}
use constantinople.Indexer.Committer.{
  Committer, Phase, Step, Reach, new_committer, flush_and_complete_published_uploads, finish,
  after_filling, try_recv, fill, join, drained,
}
use constantinople.Indexer.Persisted.{bind-some}
use constantinople.Indexer.Drain.{stage-phase, recv-phase}
use constantinople.Indexer.InFlight.{StagesSafely, IsFit, Reach-IsFit, flush-some, closed_or}

pub is_empty-eq : {A : Type 0} (xs : List A) → is_empty xs ≡ true → xs ≡ []
is_empty-eq [] h = refl
is_empty-eq (x ∷ xs) h = absurd (ground arith)

and_both : (a b : Bool) → (a && b) ≡ true → (a ≡ true) × (b ≡ true)
and_both true b h = (refl, h)
and_both false b h = absurd (ground arith)

module _ {Row : Type 0} (sw tw : QmdbWriter Row) (q : SqlWriter Row) where
  -- The loop has stopped, and nothing is left.
  abbrev pub IsDone : Committer sw tw q → Type 0
  IsDone d = (d.phase ≡ Phase.stopped) × (d.queue ≡ []) × (d.commits ≡ []) × (d.pending ≡ [])

  -- Where the loop has stopped, the senders are gone.
  abbrev pub EndsDone : Committer sw tw q → Type 0
  EndsDone c = c.phase ≡ Phase.stopped → IsDone c × (c.closed ≡ true)

  not_stopped : (c : Committer sw tw q) → c.phase ≡ Phase.filling → EndsDone c
  not_stopped c h k = absurd (ground arith)

  still_done :
      (c d : Committer sw tw q) → c.closed ≡ false → d.phase ≡ c.phase → EndsDone c → EndsDone d
  still_done c d open_ same ends k =
      let (done, closed) = ends (sym same ∙ k) in absurd (ground arith)

module _ {Row : Type 0} (sw tw : QmdbWriter Row) (q : SqlWriter Row) (ss : FlushesSafely sw)
    (ts : FlushesSafely tw) where
  finish-EndsDone :
      (seq : ℕ) (c d : Committer sw tw q)
      → finish sw tw q seq c ≡ some d
      → c.queue ≡ []
      → c.commits ≡ []
      → c.closed ≡ true
      → EndsDone sw tw q d
  unfolding finish
  finish-EndsDone seq c d h hq hc closed =
      let (c1, e, h1) = bind-some (flush_and_complete_published_uploads sw tw q seq c) _ h in
      let (c2, made, kq, kc, kd, kr) = flush-some sw tw q ss ts seq c in
      let same : c1 ≡ c2 = some_inj (sym e ∙ made) in
      elim (Bool-cases (is_empty c1.pending)) [
        | inl nothing ↦ subst (EndsDone sw tw q) (some_inj (rw nothing at h1)) (λ k. (
          (
            refl,
            ap (λ (c : Committer sw tw q). c.queue) same ∙ kq ∙ hq,
            ap (λ (c : Committer sw tw q). c.commits) same ∙ kc ∙ hc,
            is_empty-eq c1.pending nothing,
          ),
          ap (λ (c : Committer sw tw q). c.closed) same ∙ kd ∙ closed,
        ))
        | inr left ↦ absurd (ground (arith, rw left at h1))
      ]

  after_filling-EndsDone :
      (seq : ℕ) (c d : Committer sw tw q)
      → after_filling sw tw q seq c ≡ some d
      → (c.commits ≡ [] → c.queue ≡ [])
      → (c.rx_closed ≡ true → c.closed ≡ true)
      → EndsDone sw tw q d
  unfolding after_filling
  after_filling-EndsDone seq c d h empty rx =
      elim (Bool-cases (c.rx_closed && is_empty c.commits)) [
        | inl over ↦
            (let (gone, nothing) = and_both c.rx_closed (is_empty c.commits) over in
              let hc = is_empty-eq c.commits nothing in
              finish-EndsDone seq c d (rw (over, after_filling) at h) (empty hc) hc (rx gone))
        | inr more ↦
            subst (EndsDone sw tw q) (some_inj (rw (more, after_filling) at h))
              (λ k. absurd (ground arith))
      ]

  try_recv-EndsDone :
      (seq : ℕ) (c d : Committer sw tw q) (queue : List (PreparedQmdbUpload sw.Upload tw.Upload))
      → c.queue ≡ queue
      → try_recv sw tw q seq c queue ≡ some d
      → IsFit sw tw q c
      → EndsDone sw tw q d
  try_recv-EndsDone seq c d [] same h fit =
      after_filling-EndsDone seq (record c { rx_closed = c.rx_closed || c.closed }) d h (λ k. same)
        (closed_or c.rx_closed c.closed fit.1)
  try_recv-EndsDone seq c d (u ∷ rest) same h fit =
      not_stopped sw tw q d (stage-phase sw tw q u (record c { queue = rest }) d h)

  fill-EndsDone :
      (max seq : ℕ) (c d : Committer sw tw q)
      → 0 < max
      → fill sw tw q max seq c ≡ some d
      → IsFit sw tw q c
      → EndsDone sw tw q d
  unfolding fill
  fill-EndsDone max seq c d some_room h fit = elim (Bool-cases (ltb (length c.commits) max)) [
    | inl room ↦ try_recv-EndsDone seq c d c.queue refl (rw (room, fill) at h) fit
    | inr full ↦
        after_filling-EndsDone seq c d (rw (full, fill) at h)
          (λ k. absurd (omega (arith, ltb→le (length c.commits) max full, ap length k))) fit.1
  ]

  Step-EndsDone :
      {max : ℕ} (c d : Committer sw tw q)
      → 0 < max
      → Step sw tw q max c d
      → IsFit sw tw q c
      → EndsDone sw tw q c
      → EndsDone sw tw q d
  unfolding drained join
  Step-EndsDone c d room (Step.arrive height completion rows ops txs u w open_ made same) fit ends =
      subst (EndsDone sw tw q) (sym same)
        (still_done sw tw q c (record c { writers = w; queue = _ }) open_ refl ends)
  Step-EndsDone c d room (Step.close open_ same) fit ends =
      subst (EndsDone sw tw q) (sym same)
        (still_done sw tw q c (record c { closed = true }) open_ refl ends)
  Step-EndsDone {max} c d room (Step.fills seq at made) fit ends =
      fill-EndsDone max seq c d room made fit
  Step-EndsDone c d room (Step.receives at open_ space ready made) fit ends =
      not_stopped sw tw q d (recv-phase sw tw q c d c.queue made)
  Step-EndsDone c d room (Step.joins seq before batch after p r split made) fit ends =
      let (store_seq, e, h1) =
        bind-some (commit_required_batch sw tw q batch.store_batch seq) _ made in
      subst (EndsDone sw tw q) (some_inj h1) (λ k. absurd (ground arith))
  Step-EndsDone c d room (Step.drains seq at made) fit ends =
      let (c1, e, h1) = bind-some (flush_and_complete_published_uploads sw tw q seq c) _ made in
      subst (EndsDone sw tw q) (some_inj h1) (λ k. absurd (ground arith))

  pub Reach-EndsDone :
      {max : ℕ} (w0 : Writers sw tw q) {c : Committer sw tw q}
      → StagesSafely sw tw q
      → 0 < max
      → Reach sw tw q max (new_committer sw tw q w0) c
      → EndsDone sw tw q c
  Reach-EndsDone w0 safe room Reach.here = λ k. absurd (ground arith)
  Reach-EndsDone w0 safe room (Reach.next {d} {e} r step) =
      Step-EndsDone d e room step (Reach-IsFit sw tw q ss ts safe w0 r)
        (Reach-EndsDone w0 safe room r)
