-- ===== src/Relayer/Tests.antt =====
-- A relayer on scripted leaders, and instances of what it guarantees.
use constantinople.Base.{
  ℕ, ◌+◌, ◌≤◌, ◌<◌, ◌≡◌, refl, Option, none, some, List, [], ◌∷◌, map, arith, eqb, if◌then◌else◌,
  bytes_eq, length,
}
use constantinople.Transaction.{SignedTransaction}
use constantinople.Mempool.{TxStatus, BatchStatus}
use constantinople.Relayer.{
  Leader, Response, at, next_two_leaders, best_effort_status, wait_for_view_advance,
}
use constantinople.Relayer.Submit.{
  DecodedBatch, Externals, forward_result, forward_to_targets, status_of_response, merge_statuses,
  settle, submit_round, give_up, advance, submit_rounds, submit_with_retries,
}
use constantinople.Relayer.Leaders.{next_two_leaders-cover}

-- A script is the answers to come.
abbrev Script : Type 0
Script = List (Option Response)

abbrev answered : Script → Option Response × Script
answered [] = (none, [])
answered (answer ∷ script) = (answer, script)

abbrev status_one : ℕ → Option BatchStatus
status_one n =
    if eqb n 1
    then some (BatchStatus.partially_finalized 5 ((1 ∷ []) ∷ []) ((2 ∷ []) ∷ []))
    else none

abbrev scripted_status : List ℕ → Option BatchStatus
scripted_status [] = none
scripted_status (n ∷ ns) = status_one n

abbrev scripted_json : TxStatus → List ℕ
scripted_json (TxStatus.finalized height) = height ∷ []
scripted_json (TxStatus.partially_finalized height included filtered) =
    height ∷ length included ∷ length filtered ∷ []
scripted_json TxStatus.dropped = []

abbrev scripted : Externals Script ℕ ℕ ℕ
scripted = record {
  http = record { post = λ url body. answered; get = λ url. answered };
  ingest_digests = λ body. some (body ∷ []);
  batch_status = scripted_status;
  to_json = scripted_json;
  encode = map (λ (tx : SignedTransaction ℕ ℕ ℕ). tx.inner.seal);
  to_string = λ digest. digest ∷ [];
  batch_id = λ body. body;
}

abbrev leader_a : Leader
leader_a = record { public_key = 97 ∷ []; sort_key = 97 ∷ []; url = [] }

abbrev leader_b : Leader
leader_b = record { public_key = 98 ∷ []; sort_key = 98 ∷ []; url = [] }

abbrev transaction : ℕ → SignedTransaction ℕ ℕ ℕ
transaction digest = record {
  inner = record {
    inner = record { sender = 0; to = record { bytes = [] }; value = 1; nonce = 0 };
    seal = digest;
  };
  signature = 0;
}

abbrev batch : DecodedBatch ℕ ℕ ℕ
batch = record {
  transactions = transaction 1 ∷ transaction 2 ∷ [];
  digests = (1 ∷ []) ∷ (2 ∷ []) ∷ [];
}

-- The leader takes the batch and reports the first transaction; the next view brings nothing more.
abbrev script : Script
script =
    some (record { status = 202; body = some [] })
    ∷ some (record { status = 200; body = some (1 ∷ []) })
    ∷ none
    ∷ none
    ∷ none
    ∷ []

submit_partly :
    submit_with_retries scripted (leader_a ∷ []) 1 (3 ∷ []) 2 batch script
    ≡ some (200, 5 ∷ 1 ∷ 1 ∷ [])
unfolding submit_with_retries submit_rounds submit_round next_two_leaders forward_to_targets
    forward_result settle merge_statuses status_of_response advance wait_for_view_advance give_up
    best_effort_status
submit_partly = refl

submit_refused :
    submit_with_retries scripted
      (leader_a ∷ [])
      1
      []
      2
      batch
      (some (record { status = 413; body = none }) ∷ [])
    ≡ some (413, [])
unfolding submit_with_retries submit_rounds submit_round next_two_leaders forward_to_targets
    forward_result
submit_refused = refl

submit_without_leaders : submit_with_retries scripted [] 1 [] 2 batch [] ≡ some (503, [])
unfolding submit_with_retries
submit_without_leaders = refl

next_two_leaders-cover_example :
    (later : ℕ) × (7 ≤ later)
    × (later < 7 + 2)
    × (targets : List Leader) × (next_two_leaders (leader_a ∷ leader_b ∷ []) later ≡ some targets)
    × (at 0 targets ≡ some leader_b)
next_two_leaders-cover_example =
    next_two_leaders-cover (leader_a ∷ leader_b ∷ []) 7 1 leader_b refl (omega arith)
