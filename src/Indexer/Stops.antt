-- ===== src/Indexer/Stops.antt =====
-- crates/indexer/src/publisher/qmdb.rs: once the senders are gone, the committer stops with every upload
-- completed.
use constantinople.Base.{
  ℕ, suc, zero, ◌≢◌, ◌≤◌, ◌<◌, ◌≡◌, ◌⊎◌, inl, inr, refl, ap, ◌∙◌, Bool, true, false, ◌&&◌, ◌||◌,
  not, some, subst, All, List, [], ◌∷◌, ◌++◌, arith, Bool-cases, ◌>>=◌, ltb, length, length-append,
  lt→ltb, ltb→le,
}
use constantinople.Indexer.Writer.{QmdbWriter, SqlWriter, IsWriter, FlushesSafely}
use constantinople.Indexer.Commit.{
  PreparedQmdbUpload, Writers, QmdbCommitBatch, is_empty, commit_required_batch,
}
use constantinople.Indexer.Committer.{
  Committer, Phase, Step, Reach, new_committer, stage_and_spawn_commit, after_filling, fill, recv,
  join, committed, drained,
}
use constantinople.Indexer.Books.{IsBooked}
use constantinople.Indexer.Completed.{StartsPersisted, Reach-IsBooked}
use constantinople.Indexer.Flush.{finish-completes}
use constantinople.Indexer.Ends.{is_empty-eq, IsDone, Reach-EndsDone}
use constantinople.Indexer.InFlight.{StagesSafely, HasRow, IsFit, Reach-IsFit, flush-some}
use constantinople.Indexer.Drain.{rank, open_rank, rounds, WaitsForSome, Reach-WaitsForSome}

and_right : (a b : Bool) → (a && b) ≡ true → b ≡ true
and_right true b h = h
and_right false b h = absurd (ground arith)

and_left_false : (a b : Bool) → b ≡ true → (a && b) ≡ false → a ≡ false
and_left_false true b h k = absurd (ground arith)
and_left_false false b h k = refl

stopped-cases : (phase : Phase) → (phase ≡ Phase.stopped) ⊎ (phase ≢ Phase.stopped)
stopped-cases Phase.filling = inr (λ k. absurd (ground arith))
stopped-cases Phase.selecting = inr (λ k. absurd (ground arith))
stopped-cases Phase.joining = inr (λ k. absurd (ground arith))
stopped-cases Phase.stopped = inl refl

Reach-trans :
    {Row : Type 0} {sw tw : QmdbWriter Row} {q : SqlWriter Row} {max : ℕ}
    {c d e : Committer sw tw q}
    → Reach sw tw q max c d
    → Reach sw tw q max d e
    → Reach sw tw q max c e
Reach-trans r Reach.here = r
Reach-trans r (Reach.next s step) = Reach.next (Reach-trans r s) step

module _ {Row : Type 0} (sw tw : QmdbWriter Row) (q : SqlWriter Row) (ss : FlushesSafely sw)
    (ts : FlushesSafely tw) where
  module _ (safe : StagesSafely sw tw q) where
    -- A staged upload leaves the channel, and a batch is in flight.
    stage-some :
        (u : PreparedQmdbUpload sw.Upload tw.Upload)
        (rest : List (PreparedQmdbUpload sw.Upload tw.Upload)) (c : Committer sw tw q)
        → c.queue ≡ u ∷ rest
        → (d : Committer sw tw q) × (stage_and_spawn_commit sw tw q u (record c { queue = rest })
            ≡ some d)
          × (d.closed ≡ c.closed)
          × (d.phase ≡ Phase.filling)
          × (rounds sw tw q d < rounds sw tw q c)
    unfolding stage_and_spawn_commit
    stage-some u rest c front =
        let (batch, w, row, rows, e, filled) = safe c.writers u (is_empty c.commits) in
        let size : length c.queue ≡ suc (length rest) = ap length front in
        (
          record c {
            writers = w;
            queue = rest;
            commits = c.commits ++ batch ∷ [];
            phase = Phase.filling;
          },
          rw (e, ◌>>=◌) refl,
          refl,
          refl,
          omega (arith, size, length-append {0} c.commits (batch ∷ [])),
        )

    module _ (sl : IsWriter sw) (tl : IsWriter tw) (w0 : Writers sw tw q) (max : ℕ)
        (some_room : 0 < max) where
      open_rank-or : (a b : Bool) → open_rank (a || b) ≤ open_rank a
      open_rank-or true b = omega arith
      open_rank-or false true = omega arith
      open_rank-or false false = omega arith

      and_not : (a : Bool) → (a && not true) ≡ false
      and_not true = refl
      and_not false = refl

      still_open :
          (c : Committer sw tw q)
          → c.commits ≡ []
          → c.phase ≡ Phase.selecting
          → WaitsForSome sw tw q c
          → c.rx_closed ≡ false
      still_open c flying at waits =
          and_left_false c.rx_closed (is_empty c.commits) (ap is_empty flying) (waits at)

      room_for : (c : Committer sw tw q) → c.commits ≡ [] → ltb (length c.commits) max ≡ true
      room_for c flying = lt→ltb (length c.commits) max (omega (arith, ap length flying))

      -- A step that ends the loop, or that leaves fewer rounds.
      abbrev Progress : Committer sw tw q → Type 0
      Progress c =
          (d : Committer sw tw q) × Step sw tw q max c d
          × (d.closed ≡ true)
          × (IsDone sw tw q d ⊎ ((rounds sw tw q d < rounds sw tw q c) × (d.phase ≢ Phase.stopped)))

      after_filling-Progress :
          (c e : Committer sw tw q)
          → c.phase ≡ Phase.filling
          → fill sw tw q max 0 c ≡ after_filling sw tw q 0 e
          → e.closed ≡ true
          → e.phase ≡ Phase.filling
          → rounds sw tw q e ≤ rounds sw tw q c
          → (is_empty e.commits ≡ true → e.queue ≡ [])
          → IsBooked sw tw q sl tl w0 e
          → Progress c
      unfolding after_filling
      after_filling-Progress c e at made closed at' fewer empty b =
          elim (Bool-cases (e.rx_closed && is_empty e.commits)) [
            | inl over ↦
                (let hc = is_empty-eq e.commits (and_right e.rx_closed (is_empty e.commits) over) in
                  let hq = empty (ap is_empty hc) in
                  let (d, ends, stops, nothing, count, (kq, kc, kd)) =
                    finish-completes sw tw q ss ts sl tl w0 0 e hq hc b in
                  (
                    d,
                    Step.fills 0 at (made ∙ rw (over, after_filling) ends),
                    kd ∙ closed,
                    inl (stops, kq ∙ hq, kc ∙ hc, nothing),
                  ))
            | inr more ↦ (
              record e { phase = Phase.selecting },
              Step.fills 0 at (made ∙ rw (more, after_filling) refl),
              closed,
              inr (omega (arith, ap rank at'), (λ k. absurd (ground arith))),
            )
          ]

      filling-Progress :
          (c : Committer sw tw q) (queue : List (PreparedQmdbUpload sw.Upload tw.Upload))
          → c.queue ≡ queue
          → c.phase ≡ Phase.filling
          → c.closed ≡ true
          → IsBooked sw tw q sl tl w0 c
          → Progress c
      unfolding fill
      filling-Progress c queue front at closed b = elim (Bool-cases (ltb (length c.commits) max)) [
        | inl room ↦ with_room queue front room
        | inr full ↦
            after_filling-Progress c c at (rw (full, fill) refl) closed at (omega arith)
              (λ h. absurd (
                omega
                  (arith, ltb→le (length c.commits) max full, ap length (is_empty-eq c.commits h))))
              b
      ]
        where
          with_room :
              (us : List (PreparedQmdbUpload sw.Upload tw.Upload))
              → c.queue ≡ us
              → ltb (length c.commits) max ≡ true
              → Progress c
          with_room [] front room =
              after_filling-Progress c (record c { rx_closed = c.rx_closed || c.closed }) at
                (rw (room, fill, front) refl) closed at
                (omega (arith, open_rank-or c.rx_closed c.closed)) (λ h. front) b
          with_room (u ∷ rest) front room =
              let (d, made, same, filling, fewer) = stage-some u rest c front in
              (
                d,
                Step.fills 0 at (rw (room, fill, front) made),
                same ∙ closed,
                inr (fewer, (λ k. absurd (ground arith))),
              )

      first_row :
          (b : QmdbCommitBatch sw tw q) (bs : List (QmdbCommitBatch sw tw q))
          → All (HasRow sw tw q) (b ∷ bs)
          → commit_required_batch sw tw q b.store_batch 0 ≡ some 0
      first_row b bs h = rw (h.0, commit_required_batch) refl

      selecting-Progress :
          (c : Committer sw tw q) (queue : List (PreparedQmdbUpload sw.Upload tw.Upload))
          (commits : List (QmdbCommitBatch sw tw q))
          → c.queue ≡ queue
          → c.commits ≡ commits
          → c.phase ≡ Phase.selecting
          → WaitsForSome sw tw q c
          → c.closed ≡ true
          → IsFit sw tw q c
          → Progress c
      unfolding recv join
      selecting-Progress c queue (b ∷ bs) front flying at waits closed fit = (
        committed sw tw q 0 [] b bs c,
        Step.joins 0 [] b bs (λ k. absurd (ground arith)) (λ k. absurd (ground arith)) flying
            (rw (first_row b bs (subst (All (HasRow sw tw q)) flying fit.0), ◌>>=◌) refl),
        closed,
        inr (omega (arith, ap length flying, ap rank at), (λ k. absurd (ground arith))),
      )
      selecting-Progress c [] [] front flying at waits closed fit = (
        record c { rx_closed = true; phase = Phase.filling },
        Step.receives at (still_open c flying at waits) (room_for c flying)
            (rw (closed) (and_not (is_empty c.queue))) (rw front refl),
        closed,
        inr (
          omega (arith, ap rank at, ap open_rank (still_open c flying at waits)),
          (λ k. absurd (ground arith)),
        ),
      )
      selecting-Progress c (u ∷ rest) [] front flying at waits closed fit =
          let (d, made, same, filling, fewer) = stage-some u rest c front in
          (
            d,
            Step.receives at (still_open c flying at waits) (room_for c flying)
                (rw (closed) (and_not (is_empty c.queue))) (rw (front, recv) made),
            same ∙ closed,
            inr (fewer, (λ k. absurd (ground arith))),
          )

      joining-Progress :
          (c : Committer sw tw q) → c.phase ≡ Phase.joining → c.closed ≡ true → Progress c
      unfolding drained
      joining-Progress c at closed =
          let (d, made, hq, hc, hd, hr) = flush-some sw tw q ss ts 0 c in
          (
            record d { phase = Phase.filling },
            Step.drains 0 at (rw (made, ◌>>=◌) refl),
            hd ∙ closed,
            inr (
              omega (arith, ap length hq, ap length hc, ap open_rank hr, ap rank at),
              (λ k. absurd (ground arith)),
            ),
          )

      progress :
          (c : Committer sw tw q) (phase : Phase)
          → c.phase ≡ phase
          → (phase ≢ Phase.stopped)
          → WaitsForSome sw tw q c
          → c.closed ≡ true
          → IsBooked sw tw q sl tl w0 c
          → IsFit sw tw q c
          → Progress c
      progress c Phase.filling at live waits closed b fit =
          filling-Progress c c.queue refl at closed b
      progress c Phase.selecting at live waits closed b fit =
          selecting-Progress c c.queue c.commits refl refl at waits closed fit
      progress c Phase.joining at live waits closed b fit = joining-Progress c at closed
      progress c Phase.stopped at live waits closed b fit = absurd (live refl)

      drains_within :
          (n : ℕ) (c : Committer sw tw q)
          → rounds sw tw q c < n
          → StartsPersisted sw tw q sl tl w0
          → Reach sw tw q max (new_committer sw tw q w0) c
          → c.closed ≡ true
          → c.phase ≢ Phase.stopped
          → (d : Committer sw tw q) × Reach sw tw q max c d × IsDone sw tw q d
      drains_within zero c h start r closed live = absurd (omega arith)
      drains_within (suc n) c h start r closed live =
          let (d, step, closed', case) =
            progress c c.phase refl live (Reach-WaitsForSome sw tw q (λ k. absurd (ground arith)) r)
              closed (Reach-IsBooked sw tw q sl tl w0 start r)
              (Reach-IsFit sw tw q ss ts safe w0 r) in
          elim case [
            | inl done ↦ (d, Reach.next Reach.here step, done)
            | inr (fewer, live') ↦
                (let (e, more, done) =
                    drains_within n d (omega arith) start (Reach.next r step) closed' live' in
                  (e, Reach-trans (Reach.next Reach.here step) more, done))
          ]

      closed-drains :
          (c : Committer sw tw q)
          → StartsPersisted sw tw q sl tl w0
          → Reach sw tw q max (new_committer sw tw q w0) c
          → c.closed ≡ true
          → c.phase ≢ Phase.stopped
          → (d : Committer sw tw q) × Reach sw tw q max c d × IsDone sw tw q d
      closed-drains c start r closed live =
          drains_within (suc (rounds sw tw q c)) c (omega arith) start r closed live

      close-drains :
          (c : Committer sw tw q)
          → StartsPersisted sw tw q sl tl w0
          → Reach sw tw q max (new_committer sw tw q w0) c
          → c.phase ≢ Phase.stopped
          → (d : Committer sw tw q) × Reach sw tw q max c d × IsDone sw tw q d
      close-drains c start r live = elim (Bool-cases c.closed) [
        | inl closed ↦ closed-drains c start r closed live
        | inr open_ ↦
            (let step = Step.close open_ refl in
              let (d, more, done) =
                closed-drains (record c { closed = true }) start (Reach.next r step) refl live in
              (d, Reach-trans (Reach.next Reach.here step) more, done))
      ]

      -- From every state that the committer reaches it can go on, once the senders are gone, to its
      -- end without a panic, and there the channel is empty, nothing is in flight and no completion
      -- is pending; in no state that it reaches has it stopped before that. There is room for one
      -- commit, staging does not fail and gives a batch of at least one row, flushing does not fail,
      -- the writers do what they document, and at the start everything below the next locations is
      -- persisted.
      pub reached-drains :
          (c : Committer sw tw q)
          → StartsPersisted sw tw q sl tl w0
          → Reach sw tw q max (new_committer sw tw q w0) c
          → (d : Committer sw tw q) × Reach sw tw q max c d
            × IsDone sw tw q d
            × (d.closed ≡ true)
            × ((c.phase ≢ Phase.stopped) ⊎ (IsDone sw tw q c × (c.closed ≡ true)))
      reached-drains c start r = elim (stopped-cases c.phase) [
        | inl over ↦
            (let (done, closed) = Reach-EndsDone sw tw q ss ts w0 safe some_room r over in
              (c, Reach.here, done, closed, inr (done, closed)))
        | inr live ↦
            (let (d, more, done) = close-drains c start r live in
              let ends =
                Reach-EndsDone sw tw q ss ts w0 safe some_room (Reach-trans r more) done.0 in
              (d, more, done, ends.1, inl live))
      ]
