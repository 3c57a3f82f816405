-- ===== src/Indexer/CommitterTests.antt =====
-- A writer that meets the interface, and instances of what the committer guarantees: two uploads whose
-- batches finish in the other order.
use constantinople.Base.{
  some_inj, ◌≢◌, ℕ, zero, suc, ◌+◌, ◌≤◌, ◌<◌, ◌≡◌, ◌⊎◌, ◌↔◌, inl, inr, refl, ap, Bool, true, false,
  ◌&&◌, ◌||◌, Option, none, some, List, [], ◌∷◌, map, All, arith, leb, Bool-cases, if◌then◌else◌,
  subst, ◌>>=◌,
}
use native.Mathlib.Decide.{dec_lt}
use constantinople.Indexer.{SqlRow}
use constantinople.Indexer.Writer.{
  QmdbWriter, SqlWriter, IsWriter, FlushesSafely, Covers, with_watermark,
}
use constantinople.Indexer.Commit.{
  PreparedQmdbUpload, prepare_prepared_qmdb_upload, mark_committed_batch, flush_qmdb_watermarks,
  commit_watermarks, split_published, PendingUploadCompletion, Writers, QmdbCommitBatch,
  prepare_commit_batch, prepare_sql_upload, insert_rows, inline_marks, stage_commit_batch,
}
use constantinople.Indexer.Committer.{
  Committer, Phase, Step, Reach, new_committer, fill, stage_and_spawn_commit, after_filling, join,
  drained, flush_and_complete_published_uploads, complete_published_uploads,
}
use constantinople.Indexer.Side.{Span, IsStored, span}
use constantinople.Indexer.Completed.{signalled-persisted}
use constantinople.Indexer.InFlight.{StagesSafely}
use constantinople.Indexer.Stops.{reached-drains}
use constantinople.Indexer.Ends.{IsDone}

abbrev covers : ℕ → List Span → Bool
covers l [] = false
covers l (s ∷ ss) = (leb s.0 l && leb l s.1) || covers l ss

-- The first location from `n` on that is not covered, within `fuel` locations.
abbrev prefix : ℕ → ℕ → List Span → ℕ
prefix zero n ss = n
prefix (suc fuel) n ss = elim (covers n ss) [ true ↦ prefix fuel (n + 1) ss | false ↦ n ]

-- More than every covered location.
abbrev bound : List Span → ℕ
bound [] = 0
bound (s ∷ ss) = s.1 + 1 + bound ss

covers-bound : (l : ℕ) (ss : List Span) → covers l ss ≡ true → l < bound ss
covers-bound l [] h = absurd (ground arith)
covers-bound l (s ∷ ss) h = elim (Bool-cases (covers l ss)) [
  | inl later ↦ omega (arith, covers-bound l ss later)
  | inr not_later ↦ ground arith
]

prefix_ge : (fuel n : ℕ) (ss : List Span) → n ≤ prefix fuel n ss
prefix_ge zero n ss = omega arith
prefix_ge (suc fuel) n ss = elim (Bool-cases (covers n ss)) [
  | inl here ↦ rw (here, prefix) (omega (arith, prefix_ge fuel (n + 1) ss))
  | inr gap ↦ rw (gap, prefix) (omega arith)
]

prefix_sound : (fuel n l : ℕ) (ss : List Span) → n ≤ l → l < prefix fuel n ss → covers l ss ≡ true
prefix_sound zero n l ss h k = absurd (omega arith)
prefix_sound (suc fuel) n l ss h k = elim (Bool-cases (covers n ss)) [
  | inl here ↦ elim (dec_lt n l) [
    | yes beyond ↦ prefix_sound fuel (n + 1) l ss (omega arith) (rw (here, prefix) at k)
    | no same ↦ (let e : l ≡ n = omega arith in rw e here)
  ]
  | inr gap ↦ absurd (omega (arith, (let k' : l < n = rw (gap, prefix) at k in k')))
]

prefix_complete :
    (fuel n target : ℕ) (ss : List Span)
    → target ≤ n + fuel
    → ((l : ℕ) → l < target → covers l ss ≡ true)
    → target ≤ prefix fuel n ss
prefix_complete zero n target ss h k = omega arith
prefix_complete (suc fuel) n target ss h k = elim (Bool-cases (covers n ss)) [
  | inl here ↦ rw (here, prefix) (prefix_complete fuel (n + 1) target ss (omega arith) k)
  | inr gap ↦ elim (dec_lt n target) [
    | yes below ↦ absurd (ground (arith, k n below))
    | no over ↦ rw (gap, prefix) (omega arith)
  ]
]

record Log : Type 0 where
  end : ℕ
  marked : List Span
  flushed : ℕ

abbrev whole : Log → ℕ
whole s = prefix (bound s.marked) 0 s.marked

abbrev last : ℕ → Option ℕ
last zero = none
last (suc n) = some n

abbrev published_count : Log → ℕ
published_count s = if leb s.flushed (whole s) then s.flushed else whole s

abbrev log_writer : QmdbWriter ℕ
log_writer = record {
  State = Log;
  Operations = ℕ;
  Upload = Span;
  Watermark = ℕ;
  latest_location = λ u. u.1;
  prepare_upload = λ s k. some ((s.end, s.end + k), record s { end = s.end + k + 1 });
  prepare_flush_for_uploads = λ s us. some (none, s);
  prepare_flush = λ s. some (some (whole s), s);
  stage_upload = λ s u rows. some (u, u.0 ∷ rows);
  stage_flush = λ s mark rows. some (mark ∷ rows);
  mark_upload_persisted = λ s u seq. record s { marked = u ∷ s.marked };
  mark_flush_persisted = λ s mark seq. record s { flushed = mark };
  latest_published_watermark = λ s. last (published_count s);
}

covers-marked :
    (l : ℕ) (s : Span) (ss : List Span)
    → covers l (s ∷ ss) ≡ true ↔ ((covers l ss ≡ true) ⊎ ((s.0 ≤ l) × (l ≤ s.1)))
covers-marked l s ss = (
  λ k. elim (Bool-cases (covers l ss)) [
    | inl later ↦ inl later
    | inr not_later ↦ inr (ground arith)
  ],
  λ k. elim k [ inl later ↦ ground arith | inr here ↦ (let (a, b) = here in ground arith) ],
)

last-covered :
    (s : Log) (mark l : ℕ)
    → last (published_count s) ≡ some mark
    → l ≤ mark
    → covers l s.marked ≡ true
last-covered s mark l h k =
    prefix_sound (bound s.marked) 0 l s.marked (omega arith)
      (below s mark l (published_count s) refl h k)
  where
    below :
        (s : Log) (mark l n : ℕ)
        → published_count s ≡ n
        → last n ≡ some mark
        → l ≤ mark
        → l < whole s
    below s mark l zero e h k = absurd (ground arith)
    below s mark l (suc n) e h k = ground arith

leb_refl : (n : ℕ) → leb n n ≡ true
leb_refl n = ground arith

flushed-covers :
    (s : Log) (n : ℕ)
    → ((l : ℕ) → l < n → covers l s.marked ≡ true)
    → 0 < n
    → (whole_now : ℕ) → n ≤ whole_now
    → Covers n (last (if leb whole_now whole_now then whole_now else whole_now))
flushed-covers s n h k zero le = absurd (omega arith)
flushed-covers s n h k (suc m) le = rw (leb_refl (suc m)) (omega arith)

whole_complete : (s : Log) (n : ℕ) → ((l : ℕ) → l < n → covers l s.marked ≡ true) → n ≤ whole s
whole_complete s zero h = omega arith
whole_complete s (suc n) h =
    prefix_complete (bound s.marked) 0 (suc n) s.marked
      (omega (arith, covers-bound n s.marked (h n (omega arith)))) h

unfoldable IsPersisted : Log → ℕ → Type 0
IsPersisted s l = covers l s.marked ≡ true

same_log :
    (s : Log) (mark : Option ℕ) (s' : Log) (made : Option ℕ)
    → ◌≡◌ {A = Option (Option ℕ × Log)} (some (made, s)) (some (mark, s'))
    → (s'.end ≡ s.end) × ((l : ℕ) → IsPersisted s' l ↔ IsPersisted s l)
same_log s mark s' made h =
    subst
      (λ (r : Option ℕ × Log). (r.1.end ≡ s.end) × ((l : ℕ) → IsPersisted r.1 l ↔ IsPersisted s l))
      (some_inj h) (refl, λ l. ((λ p. p), (λ p. p)))

unfoldable log_writer-IsWriter : IsWriter log_writer
unfolding IsPersisted
log_writer-IsWriter = record {
  Persisted = IsPersisted;
  first_location = λ u. u.0;
  next = λ s. s.end;
  upload_next = λ s k u s' h.
      subst
        (λ (r : Span × Log).
          (r.0.0 ≡ s.end)
          × (r.0.0 ≤ r.0.1)
          × (r.0.1 < r.1.end)
          × (r.1.end ≤ r.0.1 + 1)
          × ((l : ℕ) → IsPersisted r.1 l ↔ IsPersisted s l))
        (some_inj h) (refl, omega arith, omega arith, omega arith, λ l. ((λ p. p), (λ p. p)));
  flush_for_keeps = λ s us mark s' h. same_log s mark s' _ h;
  flush_keeps = λ s mark s' h. same_log s mark s' _ h;
  stage_keeps = λ s u rows u' rows' h.
      subst (λ (r : Span × List ℕ). (r.0.0 ≡ u.0) × (r.0.1 ≡ u.1)) (some_inj h) (refl, refl);
  mark_upload = λ s u seq. (refl, λ l. covers-marked l u s.marked);
  mark_flush = λ s mark seq. (refl, λ l. ((λ k. k), (λ k. k)));
  published = last-covered;
  flush_publishes = λ s n seq mark s' h k made.
      subst
        (λ (r : Option ℕ × Log).
          Covers n (last (published_count (with_watermark log_writer r.1 r.0 seq))))
        (some_inj made) (flushed-covers s n h k (whole s) (whole_complete s n h));
}

log_writer-FlushesSafely : FlushesSafely log_writer
log_writer-FlushesSafely = record {
  prepares = λ s. (some (whole s), s, refl);
  stages = λ s mark rows. (mark, rows, refl);
}

-- A SQL writer that counts rows.
abbrev row_counter : SqlWriter ℕ
row_counter = record {
  State = ℕ;
  Batch = ℕ;
  insert_row = λ s row. some (s + 1);
  prepare_flush = λ s. some (some s, 0);
  stage_flush = λ s batch rows. some (batch, batch ∷ rows);
  mark_flush_persisted = λ s batch seq. s;
}

insert_rows-some :
    (s : ℕ) (rows : List SqlRow)
    → (s' : ℕ) × (insert_rows log_writer log_writer row_counter s rows ≡ some s')
insert_rows-some s [] = (s, refl)
insert_rows-some s (row ∷ rows) = insert_rows-some (s + 1) rows

abbrev TestBatch : Type 0
TestBatch = QmdbCommitBatch log_writer log_writer row_counter

-- The batch of an upload, with the watermarks that it carries.
abbrev batch_of : PreparedQmdbUpload Span Span → ℕ → Option ℕ → Option ℕ → List ℕ → TestBatch
batch_of u sql state transactions rows = record {
  upload = record {
    height = u.height;
    state = u.state;
    transactions = u.transactions;
    completion = u.completion;
  };
  sql = some sql;
  state_watermark = state;
  transaction_watermark = transactions;
  store_batch = rows;
}

stages_safely : StagesSafely log_writer log_writer row_counter
unfolding prepare_commit_batch inline_marks stage_commit_batch prepare_sql_upload
stages_safely w u true =
    let (s', e) = insert_rows-some w.sql u.sql_rows in
    (
      batch_of u s' none none (u.transactions.0 ∷ u.state.0 ∷ s' ∷ []),
      record w { sql = 0 },
      u.transactions.0,
      u.state.0 ∷ s' ∷ [],
      rw (e, ◌>>=◌) refl,
      refl,
    )
stages_safely w u false =
    let (s', e) = insert_rows-some w.sql u.sql_rows in
    (
      batch_of u s' none none (u.transactions.0 ∷ u.state.0 ∷ s' ∷ []),
      record w { sql = 0 },
      u.transactions.0,
      u.state.0 ∷ s' ∷ [],
      rw (e, ◌>>=◌) refl,
      refl,
    )

abbrev TestCommitter : Type 0
TestCommitter = Committer log_writer log_writer row_counter

abbrev empty_log : Log
empty_log = record { end = 0; marked = []; flushed = 0 }

abbrev start : Writers log_writer log_writer row_counter
start = record { sql = 0; state = empty_log; transactions = empty_log }

abbrev first : PreparedQmdbUpload Span Span
first = record { height = 1; sql_rows = []; state = (0, 2); transactions = (0, 1); completion = 1 }

abbrev second : PreparedQmdbUpload Span Span
second = record { height = 2; sql_rows = []; state = (3, 3); transactions = (2, 5); completion = 2 }

abbrev first_arrived : TestCommitter
first_arrived = record (new_committer log_writer log_writer row_counter start) {
  writers = record start {
    state = record empty_log { end = 3 };
    transactions = record empty_log { end = 2 };
  };
  queue = first ∷ [];
}

abbrev step_or : TestCommitter → Option TestCommitter → TestCommitter
step_or c none = c
step_or c (some d) = d

abbrev filled : TestCommitter → TestCommitter
filled c = step_or c (fill log_writer log_writer row_counter 2 7 c)

abbrev second_arrived : TestCommitter → TestCommitter
second_arrived c = record c {
  writers = record c.writers {
    state = record c.writers.state { end = 4 };
    transactions = record c.writers.transactions { end = 6 };
  };
  queue = second ∷ [];
}

abbrev both_in_flight : TestCommitter
both_in_flight = filled (record (filled (second_arrived (filled first_arrived))) { closed = true })

both_in_flight-Reach :
    Reach log_writer log_writer row_counter 2
      (new_committer log_writer log_writer row_counter start)
      both_in_flight
unfolding fill stage_and_spawn_commit prepare_commit_batch inline_marks stage_commit_batch
    prepare_sql_upload after_filling prepare_prepared_qmdb_upload
both_in_flight-Reach =
    Reach.next
      (Reach.next
        (Reach.next
          (Reach.next
            (Reach.next
              (Reach.next Reach.here
                (Step.arrive 1 1 [] 2 1 first first_arrived.writers refl refl refl))
              (Step.fills 7 refl refl))
            (Step.arrive 2 2 [] 0 3 second (second_arrived (filled first_arrived)).writers refl refl
              refl))
          (Step.fills 7 refl refl))
        (Step.close refl refl))
      (Step.fills 7 refl refl)

-- No watermark can be raised before an upload is persisted.
abbrev first_batch : TestBatch
first_batch = batch_of first 0 none none (0 ∷ 0 ∷ 0 ∷ [])

abbrev second_batch : TestBatch
second_batch = batch_of second 0 none none (2 ∷ 3 ∷ 0 ∷ [])

batches : both_in_flight.commits ≡ first_batch ∷ second_batch ∷ []
unfolding fill stage_and_spawn_commit prepare_commit_batch inline_marks stage_commit_batch
    prepare_sql_upload after_filling
batches = refl

abbrev second_joined : TestCommitter
second_joined =
    step_or both_in_flight
      (join log_writer log_writer row_counter 8 (first_batch ∷ []) second_batch [] both_in_flight)

abbrev second_drained : TestCommitter
second_drained =
    filled (step_or second_joined (drained log_writer log_writer row_counter 9 second_joined))

abbrev first_joined : TestCommitter
first_joined =
    step_or second_drained
      (join log_writer log_writer row_counter 10 [] first_batch [] second_drained)

abbrev all_drained : TestCommitter
all_drained = step_or first_joined (drained log_writer log_writer row_counter 11 first_joined)

all_drained-Reach :
    Reach log_writer log_writer row_counter 2
      (new_committer log_writer log_writer row_counter start)
      all_drained
unfolding fill stage_and_spawn_commit prepare_commit_batch inline_marks stage_commit_batch
    prepare_sql_upload after_filling join drained mark_committed_batch
    flush_and_complete_published_uploads complete_published_uploads flush_qmdb_watermarks
    commit_watermarks split_published
all_drained-Reach =
    Reach.next
      (Reach.next
        (Reach.next
          (Reach.next
            (Reach.next both_in_flight-Reach (
              Step.joins 8 (first_batch ∷ []) second_batch [] (λ h. absurd (ground arith))
                (λ h. absurd (ground arith)) batches refl))
            (Step.drains 9 refl refl))
          (Step.fills 7 refl refl))
        (Step.joins 10 [] first_batch [] (λ h. absurd (ground arith)) (λ h. absurd (ground arith))
          refl refl))
      (Step.drains 11 refl refl)

none_stored : (w : Log) → w ≡ empty_log → (l : ℕ) → l < w.end → IsPersisted w l
none_stored w h l k = absurd (omega (arith, ap (λ (w : Log). w.end) h))

-- Both completions are signalled, though the second batch was committed first.
signalled-persisted_example :
    All
      (λ (p : PendingUploadCompletion).
        ((l : ℕ)
          → l ≤ p.state_latest
          → IsStored log_writer log_writer-IsWriter empty_log
              (map (λ b. span log_writer log_writer-IsWriter b.upload.state) all_drained.stored)
              l)
        × ((l : ℕ)
            → l ≤ p.transaction_latest
            → IsStored log_writer log_writer-IsWriter empty_log
                (map
                  (λ b. span log_writer log_writer-IsWriter b.upload.transactions)
                  all_drained.stored)
                l))
      all_drained.signalled
unfolding log_writer-IsWriter
signalled-persisted_example =
    signalled-persisted log_writer log_writer row_counter log_writer-IsWriter log_writer-IsWriter
      start 2 all_drained (none_stored empty_log refl, none_stored empty_log refl) all_drained-Reach

signalled_both : map (λ p. p.completion) all_drained.signalled ≡ 2 ∷ 1 ∷ []
unfolding fill stage_and_spawn_commit prepare_commit_batch inline_marks stage_commit_batch
    prepare_sql_upload after_filling join drained mark_committed_batch
    flush_and_complete_published_uploads complete_published_uploads flush_qmdb_watermarks
    commit_watermarks split_published
signalled_both = refl

-- From the state with both commits in flight.
reached-drains_example :
    (d : TestCommitter) × Reach log_writer log_writer row_counter 2 both_in_flight d
    × ((d.phase ≡ Phase.stopped) × (d.queue ≡ []) × (d.commits ≡ []) × (d.pending ≡ []))
    × (d.closed ≡ true)
    × ((both_in_flight.phase ≢ Phase.stopped)
        ⊎ (IsDone log_writer log_writer row_counter both_in_flight
            × (both_in_flight.closed ≡ true)))
unfolding log_writer-IsWriter fill stage_and_spawn_commit prepare_commit_batch inline_marks
    stage_commit_batch prepare_sql_upload after_filling
reached-drains_example =
    reached-drains log_writer log_writer row_counter log_writer-FlushesSafely
      log_writer-FlushesSafely stages_safely log_writer-IsWriter log_writer-IsWriter start 2
      (omega arith) both_in_flight (none_stored empty_log refl, none_stored empty_log refl)
      both_in_flight-Reach
