-- ===== src/Indexer/Drain.antt =====
-- crates/indexer/src/publisher/qmdb.rs: once the senders are gone, the committer stops with every upload
-- completed.
use constantinople.Base.{
  some_inj, ℕ, ◌+◌, ◌*◌, ◌≡◌, inl, inr, sym, ap, subst, Bool, true, false, ◌&&◌, ◌||◌, some, List,
  [], ◌∷◌, arith, Bool-cases, ltb, length,
}
use constantinople.Indexer.Writer.{QmdbWriter, SqlWriter}
use constantinople.Indexer.Commit.{
  PreparedQmdbUpload, prepare_commit_batch, commit_required_batch, is_empty,
}
use constantinople.Indexer.Committer.{
  Committer, Phase, Step, Reach, flush_and_complete_published_uploads, stage_and_spawn_commit,
  finish, after_filling, try_recv, fill, recv, join, drained,
}
use constantinople.Indexer.Persisted.{bind-some}

-- How far a phase is from the `select!`.
abbrev pub rank : Phase → ℕ
rank Phase.filling = 1
rank Phase.selecting = 0
rank Phase.joining = 2
rank Phase.stopped = 0

abbrev pub open_rank : Bool → ℕ
open_rank true = 0
open_rank false = 2

module _ {Row : Type 0} (sw tw : QmdbWriter Row) (q : SqlWriter Row) where
  -- The rounds that are left, at most.
  abbrev pub rounds : Committer sw tw q → ℕ
  rounds c = 6 * length c.queue + 4 * length c.commits + open_rank c.rx_closed + rank c.phase

  -- The loop waits only where there is something to wait for.
  abbrev pub WaitsForSome : Committer sw tw q → Type 0
  WaitsForSome c = c.phase ≡ Phase.selecting → (c.rx_closed && is_empty c.commits) ≡ false

  pub stage-phase :
      (u : PreparedQmdbUpload sw.Upload tw.Upload) (c d : Committer sw tw q)
      → stage_and_spawn_commit sw tw q u c ≡ some d
      → d.phase ≡ Phase.filling
  unfolding stage_and_spawn_commit
  stage-phase u c d h =
      let ((batch, w), e, h1) =
        bind-some (prepare_commit_batch sw tw q c.writers u (is_empty c.commits)) _ h in
      sym (ap (λ (c : Committer sw tw q). c.phase) (some_inj h1))

  -- A phase that is not the `select!` waits for nothing.
  not_selecting : (c : Committer sw tw q) → c.phase ≡ Phase.filling → WaitsForSome c
  not_selecting c h k = absurd (ground arith)

  finish-phase :
      (seq : ℕ) (c d : Committer sw tw q) → finish sw tw q seq c ≡ some d → WaitsForSome d
  unfolding finish
  finish-phase seq c d h =
      let (c1, e, h1) = bind-some (flush_and_complete_published_uploads sw tw q seq c) _ h in
      elim (Bool-cases (is_empty c1.pending)) [
        | inl nothing ↦
            subst WaitsForSome (some_inj (rw nothing at h1)) (λ k. absurd (ground arith))
        | inr left ↦ absurd (ground (arith, rw left at h1))
      ]

  after_filling-phase :
      (seq : ℕ) (c d : Committer sw tw q) → after_filling sw tw q seq c ≡ some d → WaitsForSome d
  unfolding after_filling
  after_filling-phase seq c d h = elim (Bool-cases (c.rx_closed && is_empty c.commits)) [
    | inl over ↦ finish-phase seq c d (rw (over, after_filling) at h)
    | inr more ↦ subst WaitsForSome (some_inj (rw (more, after_filling) at h)) (λ k. more)
  ]

  try_recv-phase :
      (seq : ℕ) (c d : Committer sw tw q) (queue : List (PreparedQmdbUpload sw.Upload tw.Upload))
      → try_recv sw tw q seq c queue ≡ some d
      → WaitsForSome d
  try_recv-phase seq c d [] h =
      after_filling-phase seq (record c { rx_closed = c.rx_closed || c.closed }) d h
  try_recv-phase seq c d (u ∷ rest) h =
      not_selecting d (stage-phase u (record c { queue = rest }) d h)

  pub recv-phase :
      (c d : Committer sw tw q) (queue : List (PreparedQmdbUpload sw.Upload tw.Upload))
      → recv sw tw q c queue ≡ some d
      → d.phase ≡ Phase.filling
  unfolding recv
  recv-phase c d [] h = sym (ap (λ (c : Committer sw tw q). c.phase) (some_inj h))
  recv-phase c d (u ∷ rest) h = stage-phase u (record c { queue = rest }) d h

  fill-phase :
      (max seq : ℕ) (c d : Committer sw tw q) → fill sw tw q max seq c ≡ some d → WaitsForSome d
  unfolding fill
  fill-phase max seq c d h = elim (Bool-cases (ltb (length c.commits) max)) [
    | inl room ↦ try_recv-phase seq c d c.queue (rw (room, fill) at h)
    | inr full ↦ after_filling-phase seq c d (rw (full, fill) at h)
  ]

  Step-WaitsForSome :
      {max : ℕ} (c d : Committer sw tw q) → Step sw tw q max c d → WaitsForSome c → WaitsForSome d
  unfolding drained join
  Step-WaitsForSome c d (Step.arrive height completion rows ops txs u w open_ made same) h =
      subst WaitsForSome (sym same) h
  Step-WaitsForSome c d (Step.close open_ same) h = subst WaitsForSome (sym same) h
  Step-WaitsForSome {max} c d (Step.fills seq at made) h = fill-phase max seq c d made
  Step-WaitsForSome c d (Step.receives at open_ room some_ made) h =
      not_selecting d (recv-phase c d c.queue made)
  Step-WaitsForSome c d (Step.joins seq before batch after p r split made) h =
      let (store_seq, e, h1) =
        bind-some (commit_required_batch sw tw q batch.store_batch seq) _ made in
      subst WaitsForSome (some_inj h1) (λ k. absurd (ground arith))
  Step-WaitsForSome c d (Step.drains seq at made) h =
      let (c1, e, h1) = bind-some (flush_and_complete_published_uploads sw tw q seq c) _ made in
      subst WaitsForSome (some_inj h1) (λ k. absurd (ground arith))

  pub Reach-WaitsForSome :
      {max : ℕ} {c d : Committer sw tw q} → WaitsForSome c → Reach sw tw q max c d → WaitsForSome d
  Reach-WaitsForSome h Reach.here = h
  Reach-WaitsForSome h (Reach.next {d} {e} r step) =
      Step-WaitsForSome d e step (Reach-WaitsForSome h r)
