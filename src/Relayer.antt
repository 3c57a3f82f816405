-- ===== src/Relayer.antt =====
-- bin/validator/src/relayer.rs: the relayer, which hands a batch on to the next leaders, asks them for
-- its status and tries again in later views. The leaders are behind HTTP: a world answers each request
-- and moves on, and the requests of one round are answered in the order of their targets. A `String`
-- is its bytes, and a `HashSet` is a list of which only the members count.
pub mod Submit
pub mod Filter
pub mod Targets
pub mod Clock
pub mod Truthful
pub mod Leaders
mod Tests
use constantinople.Base.{
  ℕ, zero, suc, ◌+◌, ◌%◌, ◌^◌, Bool, true, false, not, Option, none, some, List, [], ◌∷◌, length,
  max, eqb, ltb, Eq, ◌==◌, bytes_eq, ◌>>=◌, if◌then◌else◌,
}
use constantinople.Base.Dict.{elem}
use constantinople.Mempool.{TxStatus, BatchStatus}

-- `Leader`
pub record Leader : Type 0 where
  pub public_key : List ℕ
  pub sort_key : List ℕ
  pub url : List ℕ

-- `ForwardResult`
pub data ForwardResult : Type 0 where
  accepted : (leader : Leader) → ForwardResult
  deterministic : (status : ℕ) → ForwardResult
  transient : (leader : Leader) → ForwardResult

-- What a leader answers: a status code, and a body unless reading it fails.
pub record Response : Type 0 where
  pub status : ℕ
  pub body : Option (List ℕ)

-- The client, on a world `W`, for requests that end; `none` is one that fails.
pub record Http (W : Type 0) : Type 0 where
  pub post : List ℕ → List ℕ → W → Option Response × W
  pub get : List ℕ → W → Option Response × W

-- `ForwardSummary`
pub record ForwardSummary : Type 0 where
  pub accepted : Bool
  pub deterministic : Option ℕ

-- `iter().filter(p)`
abbrev pub filter : {A : Type 0} → (A → Bool) → List A → List A
filter p [] = []
filter p (x ∷ xs) = elim (p x) [ true ↦ x ∷ filter p xs | false ↦ filter p xs ]

abbrev pub is_empty : {A : Type 0} → List A → Bool
is_empty [] = true
is_empty (x ∷ xs) = false

-- `leaders[i]`; `none` is a panic
abbrev pub at : {A : Type 0} → ℕ → List A → Option A
at i [] = none
at zero (x ∷ xs) = some x
at (suc i) (x ∷ xs) = at i xs

-- `next_two_leaders`
unfoldable pub next_two_leaders : List Leader → ℕ → Option (List Leader)
next_two_leaders leaders observed_view = if is_empty leaders then some [] else do
  let first = (observed_view + 1) % 2 ^ 64 % length leaders
  let second = (observed_view + 2) % 2 ^ 64 % length leaders
  one ← at first leaders
  two ← at second leaders
  some (if eqb first second then one ∷ [] else one ∷ two ∷ [])

-- `leader_by_id`
abbrev pub leader_by_id : List Leader → List ℕ → Option Leader
leader_by_id [] public_key = none
leader_by_id (l ∷ ls) public_key =
    let rest = leader_by_id ls public_key in if l.public_key == public_key then some l else rest

-- `best_effort_status`
unfoldable pub best_effort_status : List (List ℕ) → List (List ℕ) → ℕ → TxStatus
best_effort_status digests included height =
    let filtered = filter (λ digest. not (elem digest included)) digests in
    if is_empty included
    then TxStatus.dropped
    else if is_empty filtered
    then TxStatus.finalized height
    else TxStatus.partially_finalized height (filter (λ digest. elem digest included) digests)
        filtered

-- The loop over the results in `forward_to_targets`.
abbrev pub summary_from : ForwardSummary → List ForwardResult → ForwardSummary
summary_from s [] = s
summary_from s (ForwardResult.accepted leader ∷ rs) = summary_from (record s { accepted = true }) rs
summary_from s (ForwardResult.deterministic status ∷ rs) =
    summary_from (record s { deterministic = some status }) rs
summary_from s (ForwardResult.transient leader ∷ rs) = summary_from s rs

-- `wait_for_view_advance`, on the views that the receiver is yet to see; `none` is a wait that does
-- not end. The state of the application holds a sender, so that `changed` never fails.
unfoldable pub wait_for_view_advance : List ℕ → ℕ → Option (List ℕ × ℕ)
wait_for_view_advance [] current = none
wait_for_view_advance (next ∷ views) current =
    let rest = wait_for_view_advance views current in
    if ltb current next then some (views, next) else rest

-- `Observer::report`, on the view of an activity
abbrev pub report : ℕ → ℕ → ℕ
report view current = if ltb current view then view else current

-- What a status says is included, and the height that it gives.
abbrev pub reported : BatchStatus → List (List ℕ)
reported (BatchStatus.accepted digests) = []
reported (BatchStatus.finalized height included) = included
reported (BatchStatus.partially_finalized height included filtered) = included
reported (BatchStatus.dropped filtered) = []

abbrev pub reported_height : ℕ → BatchStatus → ℕ
reported_height height (BatchStatus.accepted digests) = height
reported_height height (BatchStatus.finalized h included) = max height h
reported_height height (BatchStatus.partially_finalized h included filtered) = max height h
reported_height height (BatchStatus.dropped filtered) = height
