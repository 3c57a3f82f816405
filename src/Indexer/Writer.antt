-- ===== src/Indexer/Writer.antt =====
-- crates/indexer/src/publisher/qmdb.rs: the writers of exoware_qmdb and exoware_sql that the publisher
-- drives, as interfaces. `Row` is a row of the Store.
use constantinople.Base.{ℕ, ◌+◌, ◌≤◌, ◌<◌, ◌≡◌, ◌↔◌, ◌⊎◌, Option, none, some, List, ◌∷◌}
use constantinople.Indexer.{SqlRow}

-- `UnorderedWriter` or `KeylessWriter`; `none` is an error.
pub record QmdbWriter (Row : Type 0) : Type 1 where
  pub State : Type 0
  pub Operations : Type 0
  pub Upload : Type 0
  pub Watermark : Type 0
  pub latest_location : Upload → ℕ
  pub prepare_upload : State → Operations → Option (Upload × State)
  pub prepare_flush_for_uploads : State → List Upload → Option (Option Watermark × State)
  pub prepare_flush : State → Option (Option Watermark × State)
  pub stage_upload : State → Upload → List Row → Option (Upload × List Row)
  pub stage_flush : State → Watermark → List Row → Option (List Row)
  pub mark_upload_persisted : State → Upload → ℕ → State
  pub mark_flush_persisted : State → Watermark → ℕ → State
  pub latest_published_watermark : State → Option ℕ

-- `BatchWriter`; `none` is an error.
pub record SqlWriter (Row : Type 0) : Type 1 where
  pub State : Type 0
  pub Batch : Type 0
  pub insert_row : State → SqlRow → Option State
  pub prepare_flush : State → Option (Option Batch × State)
  pub stage_flush : State → Batch → List Row → Option (Batch × List Row)
  pub mark_flush_persisted : State → Batch → ℕ → State

-- A writer once a prepared watermark, if there is one, is persisted.
abbrev pub with_watermark :
    {Row : Type 0} (w : QmdbWriter Row) → w.State → Option w.Watermark → ℕ → w.State
with_watermark w s none seq = s
with_watermark w s (some mark) seq = w.mark_flush_persisted s mark seq

-- A watermark that covers all locations below `n`.
abbrev pub Covers : ℕ → Option ℕ → Type 0
Covers n none = ⊥
Covers n (some mark) = n ≤ mark + 1

-- What the writers document. An upload takes the next locations of the log; a location is persisted
-- once the upload that holds it is marked; the published watermark stays below every location that is
-- not persisted, and a flush raises it up to there.
pub record IsWriter {Row : Type 0} (w : QmdbWriter Row) : Type 1 where
  pub Persisted : w.State → ℕ → Type 0
  pub first_location : w.Upload → ℕ
  pub next : w.State → ℕ
  pub upload_next :
      (s : w.State) (ops : w.Operations) (u : w.Upload) (s' : w.State)
      → w.prepare_upload s ops ≡ some (u, s')
      → (first_location u ≡ next s)
        × (first_location u ≤ w.latest_location u)
        × (w.latest_location u < next s')
        × (next s' ≤ w.latest_location u + 1)
        × ((l : ℕ) → Persisted s' l ↔ Persisted s l)
  pub flush_for_keeps :
      (s : w.State) (us : List w.Upload) (mark : Option w.Watermark) (s' : w.State)
      → w.prepare_flush_for_uploads s us ≡ some (mark, s')
      → (next s' ≡ next s) × ((l : ℕ) → Persisted s' l ↔ Persisted s l)
  pub flush_keeps :
      (s : w.State) (mark : Option w.Watermark) (s' : w.State)
      → w.prepare_flush s ≡ some (mark, s')
      → (next s' ≡ next s) × ((l : ℕ) → Persisted s' l ↔ Persisted s l)
  pub stage_keeps :
      (s : w.State) (u : w.Upload) (rows : List Row) (u' : w.Upload) (rows' : List Row)
      → w.stage_upload s u rows ≡ some (u', rows')
      → (first_location u' ≡ first_location u) × (w.latest_location u' ≡ w.latest_location u)
  pub mark_upload :
      (s : w.State) (u : w.Upload) (seq : ℕ)
      → (next (w.mark_upload_persisted s u seq) ≡ next s)
        × ((l : ℕ)
            → Persisted (w.mark_upload_persisted s u seq) l
              ↔ (Persisted s l ⊎ ((first_location u ≤ l) × (l ≤ w.latest_location u))))
  pub mark_flush :
      (s : w.State) (mark : w.Watermark) (seq : ℕ)
      → (next (w.mark_flush_persisted s mark seq) ≡ next s)
        × ((l : ℕ) → Persisted (w.mark_flush_persisted s mark seq) l ↔ Persisted s l)
  pub published :
      (s : w.State) (mark l : ℕ)
      → w.latest_published_watermark s ≡ some mark
      → l ≤ mark
      → Persisted s l
  pub flush_publishes :
      (s : w.State) (n seq : ℕ) (mark : Option w.Watermark) (s' : w.State)
      → ((l : ℕ) → l < n → Persisted s l)
      → 0 < n
      → w.prepare_flush s ≡ some (mark, s')
      → Covers n (w.latest_published_watermark (with_watermark w s' mark seq))

-- A writer whose flushes can be prepared, and staged with at least one row.
pub record FlushesSafely {Row : Type 0} (w : QmdbWriter Row) : Type 0 where
  pub prepares :
      (s : w.State)
      → (mark : Option w.Watermark) × (s' : w.State) × (w.prepare_flush s ≡ some (mark, s'))
  pub stages :
      (s : w.State) (mark : w.Watermark) (rows : List Row)
      → (row : Row) × (rows' : List Row) × (w.stage_flush s mark rows ≡ some (row ∷ rows'))
