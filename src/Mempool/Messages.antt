-- ===== src/Mempool/Messages.antt =====
-- crates/mempool/src/webserver/actor.rs: proposals and reports, and the loop over the messages.
-- `iteration` is the order in which a `HashSet` of batches is visited.
use constantinople.Base.{
  ℕ, ◌+◌, ◌-◌, max, Bool, true, false, ◌&&◌, ◌||◌, not, Option, none, some, List, [], ◌∷◌, ◌++◌, Eq,
  bytes_eq, ltb, leb,
}
use constantinople.Base.Dict.{Dict, lookup, insert, elem}
use constantinople.Transaction.{SignedTransaction, message_digest}
use constantinople.Mempool.{
  DigestOutcome, Config, PoolEntry, ProposedBatch, Watchers, Mempool, Round, Block, Message, Reply,
}
use constantinople.Mempool.Watch.{watched_batches_for, resolve_all}
use constantinople.Mempool.Actor.{digests_of, discard_all, is_empty, rotation_round, submit}

-- The variables of the loop that fills a proposal.
pub record Filling (L D S : Type 0) : Type 0 where
  pub pool : List (PoolEntry L D S)
  pub pool_bytes : ℕ
  pub proposed : List (ProposedBatch D)
  pub batch_txs : List (SignedTransaction L D S)
  pub batch_bytes : ℕ

module _ {D : Type 0} ⦃e : Eq D⦄ where
  abbrev pub any_finalized : List D → List D → Bool
  any_finalized [] finalized = false
  any_finalized (d ∷ ds) finalized = elem d finalized || any_finalized ds finalized

  -- The outcomes of the digests of a batch.
  abbrev pub record_outcomes : ℕ → List D → List D → Dict D DigestOutcome → Dict D DigestOutcome
  record_outcomes height finalized [] outcomes = outcomes
  record_outcomes height finalized (d ∷ ds) outcomes =
      record_outcomes height finalized ds (elim (elem d finalized) [
        | true ↦ insert d (DigestOutcome.finalized height) outcomes
        | false ↦ insert d DigestOutcome.dropped outcomes
      ])

module _ {L D S : Type 0} ⦃e : Eq D⦄ where
  -- `Message::Propose`: entries from the front, until one does not fit
  unfoldable pub fill :
      Config
      → ℕ
      → List (PoolEntry L D S)
      → ℕ
      → List (ProposedBatch D)
      → List (SignedTransaction L D S)
      → ℕ
      → Filling L D S
  fill c height [] pool_bytes proposed batch_txs batch_bytes = record {
    pool = [];
    pool_bytes = pool_bytes;
    proposed = proposed;
    batch_txs = batch_txs;
    batch_bytes = batch_bytes;
  }
  fill c height (entry ∷ pool) pool_bytes proposed batch_txs batch_bytes =
      elim (ltb c.max_propose_bytes (batch_bytes + entry.total_bytes) && not (is_empty batch_txs)) [
        | true ↦ record {
          pool = entry ∷ pool;
          pool_bytes = pool_bytes;
          proposed = proposed;
          batch_txs = batch_txs;
          batch_bytes = batch_bytes;
        }
        | false ↦
            fill c height pool (pool_bytes - entry.total_bytes)
              (proposed ++ record { height = height; digests = digests_of entry.transactions } ∷ [])
              (batch_txs ++ entry.transactions) (batch_bytes + entry.total_bytes)
      ]

  unfoldable pub propose : Config → ℕ → ℕ → Mempool L D S → Mempool L D S × List (Reply L D S)
  unfolding fill
  propose c height response m =
      let f = fill c height m.pool m.pool_bytes m.proposed [] 0 in
      (
        record {
          pool = f.pool;
          pool_bytes = f.pool_bytes;
          proposed = f.proposed;
          remembered = m.remembered;
          watched = m.watched;
          known_digests = m.known_digests;
          highest_consensus_round = m.highest_consensus_round;
        },
        Reply.proposal response f.batch_txs ∷ [],
      )

  -- The digests of the transactions of a block that decode.
  abbrev pub finalized_digests : List (Option (SignedTransaction L D S)) → List D
  finalized_digests [] = []
  finalized_digests (none ∷ body) = finalized_digests body
  finalized_digests (some tx ∷ body) = message_digest tx ∷ finalized_digests body

  -- Records the outcomes, forgets the digests, and resolves the batches that were waiting.
  unfoldable pub settle_batch :
      (D → List ℕ)
      → (List (List ℕ) → List (List ℕ))
      → ℕ
      → List D
      → List D
      → Mempool L D S
      → Mempool L D S × List (Reply L D S)
  settle_batch to_string iteration height finalized digests m =
      let affected = iteration (watched_batches_for digests m.watched.digest_watchers []) in
      let watched : Watchers D = record {
        batch_digests = m.watched.batch_digests;
        digest_watchers = m.watched.digest_watchers;
        digest_outcomes = record_outcomes height finalized digests m.watched.digest_outcomes;
        pending_waiters = m.watched.pending_waiters;
      } in
      let ((remembered, resolved), replies) = resolve_all to_string affected m.remembered watched in
      (
        record {
          pool = m.pool;
          pool_bytes = m.pool_bytes;
          proposed = m.proposed;
          remembered = remembered;
          watched = resolved;
          known_digests = discard_all digests m.known_digests;
          highest_consensus_round = m.highest_consensus_round;
        },
        replies,
      )

  abbrev pub keep_batch : ProposedBatch D → Mempool L D S → Mempool L D S
  keep_batch batch m = record {
    pool = m.pool;
    pool_bytes = m.pool_bytes;
    proposed = m.proposed ++ batch ∷ [];
    remembered = m.remembered;
    watched = m.watched;
    known_digests = m.known_digests;
    highest_consensus_round = m.highest_consensus_round;
  }

  -- One proposed batch under a finalized block: it is settled, dropped with no digest finalized when
  -- its blocks of grace are over, or kept.
  unfoldable pub report_batch :
      Config
      → (D → List ℕ)
      → (List (List ℕ) → List (List ℕ))
      → ℕ
      → List D
      → ProposedBatch D
      → Mempool L D S
      → Mempool L D S × List (Reply L D S)
  unfolding settle_batch
  report_batch c to_string iteration height finalized batch m =
      elim (any_finalized batch.digests finalized) [
        | true ↦ settle_batch to_string iteration height finalized batch.digests m
        | false ↦ elim (leb (batch.height + c.drop_grace_blocks) height) [
          | true ↦ settle_batch to_string iteration height [] batch.digests m
          | false ↦ (keep_batch batch m, [])
        ]
      ]

  abbrev pub report_batches :
      Config
      → (D → List ℕ)
      → (List (List ℕ) → List (List ℕ))
      → ℕ
      → List D
      → List (ProposedBatch D)
      → Mempool L D S
      → Mempool L D S × List (Reply L D S)
  report_batches c to_string iteration height finalized [] m = (m, [])
  report_batches c to_string iteration height finalized (batch ∷ batches) m =
      let (m1, replies) = report_batch c to_string iteration height finalized batch m in
      let (m2, later) = report_batches c to_string iteration height finalized batches m1 in
      (m2, replies ++ later)

  abbrev pub observe_round : Round → Mempool L D S → List (ProposedBatch D) → Mempool L D S
  observe_round round m proposed = record {
    pool = m.pool;
    pool_bytes = m.pool_bytes;
    proposed = proposed;
    remembered = m.remembered;
    watched = m.watched;
    known_digests = m.known_digests;
    highest_consensus_round = max m.highest_consensus_round (rotation_round round);
  }

  -- `Message::Report(Update::Block(..))`
  unfoldable pub report_block :
      Config
      → (D → List ℕ)
      → (List (List ℕ) → List (List ℕ))
      → Block L D S
      → ℕ
      → Mempool L D S
      → Mempool L D S × List (Reply L D S)
  unfolding report_batch
  report_block c to_string iteration block acknowledgement m =
      let (m1, replies) =
        report_batches c to_string iteration block.height (finalized_digests block.body) m.proposed
          (observe_round block.round m []) in
      (m1, replies ++ Reply.acknowledged acknowledgement ∷ [])

  -- The arms of the loop of `Actor::run`.
  unfoldable pub handle :
      Config
      → (S → ℕ)
      → (D → List ℕ)
      → (List (List ℕ) → List (List ℕ))
      → Message L D S
      → Mempool L D S
      → Mempool L D S × List (Reply L D S)
  unfolding submit propose report_block
  handle c signature_size to_string iteration (Message.submit id ds txs bytes result ingest) m =
      submit c signature_size to_string id ds txs bytes result ingest m
  handle c signature_size to_string iteration (Message.query_status batch_id response) m =
      (m, Reply.status response (lookup batch_id m.remembered.statuses) ∷ [])
  handle c signature_size to_string iteration (Message.query_consensus_round response) m =
      (m, Reply.consensus_round response m.highest_consensus_round ∷ [])
  handle c signature_size to_string iteration (Message.propose height response) m =
      propose c height response m
  handle c signature_size to_string iteration (Message.report_block block acknowledgement) m =
      report_block c to_string iteration block acknowledgement m
  handle c signature_size to_string iteration (Message.report_tip round) m =
      (observe_round round m m.proposed, [])
