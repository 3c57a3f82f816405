-- ===== src/Relayer/Submit.antt =====
-- bin/validator/src/relayer.rs: `submit_with_retries` and `submit_to_pinned_leader`, with what they
-- call. The numbers are the HTTP status codes.
use constantinople.Base.{
  ℕ, zero, suc, ◌⊎◌, inl, inr, Bool, true, false, ◌||◌, ◌&&◌, not, Option, none, some, List, [],
  ◌∷◌, ◌++◌, map, eqb, ltb, leb, ◌==◌, bytes_eq, ◌>>=◌, if◌then◌else◌,
}
use constantinople.Base.Dict.{elem}
use constantinople.Transaction.{SignedTransaction, message_digest}
use constantinople.Mempool.{TxStatus, BatchStatus}
use constantinople.Relayer.{
  Leader, ForwardResult, Response, Http, ForwardSummary, filter, is_empty, next_two_leaders,
  leader_by_id, best_effort_status, summary_from, wait_for_view_advance, reported, reported_height,
}

-- `(StatusCode, String)`
abbrev pub Answer : Type 0
Answer = ℕ × List ℕ

-- The paths that are appended to the URL of a leader.
abbrev pub transactions_path : List ℕ
transactions_path = 47 ∷ 116 ∷ 114 ∷ 97 ∷ 110 ∷ 115 ∷ 97 ∷ 99 ∷ 116 ∷ 105 ∷ 111 ∷ 110 ∷ 115 ∷ []

abbrev pub ingest_path : List ℕ
ingest_path = transactions_path ++ 47 ∷ 105 ∷ 110 ∷ 103 ∷ 101 ∷ 115 ∷ 116 ∷ []

-- `DecodedBatch`
pub record DecodedBatch (L D S : Type 0) : Type 0 where
  pub transactions : List (SignedTransaction L D S)
  pub digests : List (List ℕ)

-- The variables of the loop of `submit_with_retries`, and the world.
pub record Relay (W : Type 0) : Type 0 where
  pub pending : List (List ℕ)
  pub included : List (List ℕ)
  pub height : ℕ
  pub accepted_any : Bool
  pub attempts : List (List ℕ × Leader)
  pub views : List ℕ
  pub view : ℕ
  pub world : W

-- What the relayer calls of other packages: the HTTP client, JSON, the codec of a batch, the printing
-- of a digest and SHA-256.
pub record Externals (W L D S : Type 0) : Type 0 where
  pub http : Http W
  pub ingest_digests : List ℕ → Option (List (List ℕ))
  pub batch_status : List ℕ → Option BatchStatus
  pub to_json : TxStatus → List ℕ
  pub encode : List (SignedTransaction L D S) → List ℕ
  pub to_string : D → List ℕ
  pub batch_id : List ℕ → List ℕ

-- An answer with the status 202, by its `IngestResponse`.
abbrev pub acknowledged_with : Leader → Option (List (List ℕ)) → ForwardResult
acknowledged_with leader none = ForwardResult.transient leader
acknowledged_with leader (some []) = ForwardResult.transient leader
acknowledged_with leader (some (d ∷ ds)) = ForwardResult.accepted leader

module _ {W L D S : Type 0} (x : Externals W L D S) where
  -- `json_response`
  abbrev pub json_response : TxStatus → Answer
  json_response status = (200, x.to_json status)

  -- An answer with the status 202.
  abbrev pub acknowledged : Leader → Option (List ℕ) → ForwardResult
  acknowledged leader none = ForwardResult.transient leader
  acknowledged leader (some bytes) = acknowledged_with leader (x.ingest_digests bytes)

  -- The match of `forward_to_leader`.
  unfoldable pub forward_result : Leader → Option Response → ForwardResult
  forward_result leader none = ForwardResult.transient leader
  forward_result leader (some response) =
      if eqb response.status 202
      then acknowledged leader response.body
      else if eqb response.status 400 || eqb response.status 413
      then ForwardResult.deterministic response.status
      else ForwardResult.transient leader

  -- `forward_to_leader`
  abbrev pub forward_to_leader : Leader → List ℕ → W → ForwardResult × W
  forward_to_leader leader body w =
      let (answer, w1) = x.http.post (leader.url ++ ingest_path) body w in
      (forward_result leader answer, w1)

  -- The `join_all` of `forward_to_targets`.
  abbrev pub forward_all : List Leader → List ℕ → W → List ForwardResult × W
  forward_all [] body w = ([], w)
  forward_all (leader ∷ leaders) body w =
      let (result, w1) = forward_to_leader leader body w in
      let (results, w2) = forward_all leaders body w1 in (result ∷ results, w2)

  -- `forward_to_targets`
  unfoldable pub forward_to_targets : List Leader → List ℕ → W → ForwardSummary × W
  forward_to_targets targets body w =
      let (results, w1) = forward_all targets body w in
      (summary_from (record { accepted = false; deterministic = none }) results, w1)

  -- What `fetch_status_from_leader` makes of an answer.
  unfoldable pub status_of_response : Option Response → Option BatchStatus
  status_of_response none = none
  status_of_response (some response) =
      if eqb response.status 200 then response.body >>= x.batch_status else none

  -- `fetch_status_from_leader`
  abbrev pub fetch_status_from_leader : Leader → List ℕ → W → Option BatchStatus × W
  fetch_status_from_leader leader id w =
      let (answer, w1) = x.http.get (leader.url ++ transactions_path ++ 47 ∷ id) w in
      (status_of_response answer, w1)

  -- The match of `merge_statuses`.
  abbrev pub merge_status : Option BatchStatus → Relay W → Relay W
  merge_status none r = r
  merge_status (some status) r = record r {
    included = r.included ++ reported status;
    height = reported_height r.height status;
  }

  -- `merge_statuses`
  unfoldable pub merge_statuses : List (List ℕ × Leader) → Relay W → Relay W
  merge_statuses [] r = r
  merge_statuses ((id, leader) ∷ attempts) r =
      let (status, w1) = fetch_status_from_leader leader id r.world in
      merge_statuses attempts (merge_status status (record r { world = w1 }))

  -- `encode_pending`
  abbrev pub encode_pending : DecodedBatch L D S → List (List ℕ) → List ℕ
  encode_pending batch pending =
      x.encode (filter (λ tx. elem (x.to_string (message_digest tx)) pending) batch.transactions)

  -- A round of the loop after its forward: an answer, or the variables after the round.
  unfoldable pub settle : Relay W → Answer ⊎ Relay W
  settle r =
      let merged = merge_statuses r.attempts r in
      let pending = filter (λ digest. not (elem digest merged.included)) merged.pending in
      if is_empty pending
      then inl (json_response (TxStatus.finalized merged.height))
      else inr (record merged { pending = pending })

  abbrev pub settle_unless : Option ℕ → Relay W → Answer ⊎ Relay W
  settle_unless none r = settle r
  settle_unless (some status) r = inl (status, [])

  -- A round of the loop, up to the test for the last one; `none` is a panic.
  unfoldable pub submit_round :
      List Leader → DecodedBatch L D S → Relay W → Option (Answer ⊎ Relay W)
  submit_round leaders batch r = do
    next ← next_two_leaders leaders r.view
    let body = encode_pending batch r.pending
    let id = x.batch_id body
    let attempts = r.attempts ++ map (λ leader. (id, leader)) next
    let targets = map (λ a. a.1) (filter (λ a. a.0 == id) attempts)
    let (result, w1) = forward_to_targets targets body r.world
    some (
        settle_unless result.deterministic (record r {
          accepted_any = r.accepted_any || result.accepted;
          attempts = attempts;
          world = w1;
        }))

  -- The answer when no view is left.
  unfoldable pub give_up : DecodedBatch L D S → Relay W → Answer
  give_up batch r =
      if not r.accepted_any
      then (503, [])
      else json_response (best_effort_status batch.digests r.included r.height)

  -- The variables after the wait; `none` is a wait that does not end.
  unfoldable pub advance : Relay W → Option (Relay W)
  advance r = do
    (views, view) ← wait_for_view_advance r.views r.view
    some (record r { views = views; view = view })

  -- The `for` loop, with the number of retries left; `none` is a panic, or a wait that does not end.
  unfoldable pub submit_rounds : ℕ → List Leader → DecodedBatch L D S → Relay W → Option Answer
  submit_rounds zero leaders batch r = elim (submit_round leaders batch r) [
    | none ↦ none
    | some (inl answer) ↦ some answer
    | some (inr after) ↦ some (give_up batch after)
  ]
  submit_rounds (suc left) leaders batch r = elim (submit_round leaders batch r) [
    | none ↦ none
    | some (inl answer) ↦ some answer
    | some (inr after) ↦ elim (advance after) [
      | none ↦ none
      | some later ↦ submit_rounds left leaders batch later
    ]
  ]

  -- `submit_with_retries`
  unfoldable pub submit_with_retries :
      List Leader → ℕ → List ℕ → ℕ → DecodedBatch L D S → W → Option Answer
  submit_with_retries leaders max_retry_views views view batch w =
      if is_empty leaders
      then some (503, [])
      else submit_rounds max_retry_views leaders batch (record {
        pending = batch.digests;
        included = [];
        height = 0;
        accepted_any = false;
        attempts = [];
        views = views;
        view = view;
        world = w;
      })

  -- `should_retry_pinned_submit`
  abbrev pub should_retry_pinned_submit : ℕ → Bool
  should_retry_pinned_submit status = eqb status 503 || (leb 500 status && ltb status 600)

  -- The answer of a leader, handed on.
  abbrev pub handed_on : Response → Answer
  handed_on response = (response.status, elim response.body [ none ↦ [] | some body ↦ body ])

  -- The attempts of `submit_blocking_to_leader`, with the number that are left after one.
  unfoldable pub submit_attempts : ℕ → Leader → List ℕ → W → Answer × W
  submit_attempts zero leader body w =
      let (answer, w1) = x.http.post (leader.url ++ transactions_path) body w in
      (elim answer [ none ↦ (503, []) | some response ↦ handed_on response ], w1)
  submit_attempts (suc left) leader body w =
      let (answer, w1) = x.http.post (leader.url ++ transactions_path) body w in
      elim answer [
        | none ↦ submit_attempts left leader body w1
        | some response ↦ elim (should_retry_pinned_submit response.status) [
          | true ↦ submit_attempts left leader body w1
          | false ↦ (handed_on response, w1)
        ]
      ]

  -- `submit_blocking_to_leader`, in `PINNED_SUBMIT_RETRIES` attempts
  abbrev pub submit_blocking_to_leader : Leader → List ℕ → W → Answer × W
  submit_blocking_to_leader leader body w = submit_attempts 2 leader body w

  -- `submit_to_pinned_leader`
  abbrev pub submit_to_pinned_leader : List Leader → List ℕ → List ℕ → W → Answer × W
  submit_to_pinned_leader leaders body target w = elim (leader_by_id leaders target) [
    | none ↦ ((400, []), w)
    | some leader ↦ submit_blocking_to_leader leader body w
  ]
