-- ===== src/Mempool.antt =====
-- crates/mempool/src/webserver: the actor that keeps the pool of verified transactions, and the
-- messages of its mailbox. A `String` is its bytes. A oneshot sender is the number of its channel,
-- and what is sent through one is a `Reply`. `usize` sums are those of values held in memory.
pub mod Status
pub mod Watch
pub mod Actor
pub mod Messages
pub mod Reachable
pub mod Bytes
pub mod Fifo
pub mod Counts
pub mod Known
pub mod Remembered
pub mod Outcome
pub mod Tests
use constantinople.Base.{ℕ, ◌+◌, List, [], ◌∷◌, Option, Eq}
use constantinople.Base.Dict.{Dict}
use constantinople.Transaction.{SignedTransaction}

-- `TxStatus`
pub data TxStatus : Type 0 where
  finalized : (height : ℕ) → TxStatus
  partially_finalized : (height : ℕ) (included filtered : List (List ℕ)) → TxStatus
  dropped : TxStatus

-- `BatchStatus`
pub data BatchStatus : Type 0 where
  accepted : (digests : List (List ℕ)) → BatchStatus
  finalized : (height : ℕ) (included : List (List ℕ)) → BatchStatus
  partially_finalized : (height : ℕ) (included filtered : List (List ℕ)) → BatchStatus
  dropped : (filtered : List (List ℕ)) → BatchStatus

-- `DigestOutcome`
pub data DigestOutcome : Type 0 where
  finalized : (height : ℕ) → DigestOutcome
  dropped : DigestOutcome

-- `IngestStatus`
pub data IngestStatus : Type 0 where
  accepted : IngestStatus
  dropped : IngestStatus

-- The limits of `Config`.
pub record Config : Type 0 where
  pub max_pool_bytes : ℕ
  pub max_propose_bytes : ℕ
  pub drop_grace_blocks : ℕ

-- `PoolEntry<H>`
pub record PoolEntry (L D S : Type 0) : Type 0 where
  pub transactions : List (SignedTransaction L D S)
  pub total_bytes : ℕ

-- `ProposedBatch<H>`
pub record ProposedBatch (D : Type 0) : Type 0 where
  pub height : ℕ
  pub digests : List D

-- `statuses` and `status_order`
pub record Statuses : Type 0 where
  pub statuses : Dict (List ℕ) BatchStatus
  pub status_order : List (List ℕ)

-- `batch_digests`, `digest_watchers`, `digest_outcomes` and `pending_waiters`
pub record Watchers (D : Type 0) : Type 0 where
  pub batch_digests : Dict (List ℕ) (List D)
  pub digest_watchers : Dict D (List (List ℕ))
  pub digest_outcomes : Dict D DigestOutcome
  pub pending_waiters : Dict (List ℕ) (List ℕ)

-- The variables of `Actor::run`.
pub record Mempool (L D S : Type 0) : Type 0 where
  pub pool : List (PoolEntry L D S)
  pub pool_bytes : ℕ
  pub proposed : List (ProposedBatch D)
  pub remembered : Statuses
  pub watched : Watchers D
  pub known_digests : List D
  pub highest_consensus_round : ℕ

-- `Round`
pub record Round : Type 0 where
  pub epoch : ℕ
  pub view : ℕ

-- What the actor reads of a finalized block; a transaction whose bytes do not decode is `none`.
pub record Block (L D S : Type 0) : Type 0 where
  pub round : Round
  pub height : ℕ
  pub body : List (Option (SignedTransaction L D S))

-- `Message`
pub data Message (L D S : Type 0) : Type 0 where
  submit :
      (batch_id : List ℕ) (digests : List D) (transactions : List (SignedTransaction L D S))
      (total_bytes : ℕ) (result ingest_result : Option ℕ)
      → Message L D S
  query_status : (batch_id : List ℕ) (response : ℕ) → Message L D S
  query_consensus_round : (response : ℕ) → Message L D S
  propose : (height response : ℕ) → Message L D S
  report_block : (block : Block L D S) (acknowledgement : ℕ) → Message L D S
  report_tip : (round : Round) → Message L D S

-- What the actor sends, with the channel that it goes to.
pub data Reply (L D S : Type 0) : Type 0 where
  result : (sender : ℕ) (status : TxStatus) → Reply L D S
  ingest_result : (sender : ℕ) (status : IngestStatus) → Reply L D S
  status : (sender : ℕ) (status : Option BatchStatus) → Reply L D S
  consensus_round : (sender round : ℕ) → Reply L D S
  proposal : (sender : ℕ) (transactions : List (SignedTransaction L D S)) → Reply L D S
  acknowledged : (sender : ℕ) → Reply L D S

-- The initial values of the variables.
abbrev pub new : {L D S : Type 0} → Mempool L D S
new = record {
  pool = [];
  pool_bytes = 0;
  proposed = [];
  remembered = record { statuses = []; status_order = [] };
  watched = record {
    batch_digests = [];
    digest_watchers = [];
    digest_outcomes = [];
    pending_waiters = [];
  };
  known_digests = [];
  highest_consensus_round = 0;
}
