-- ===== src/Mempool/Actor.antt =====
-- crates/mempool/src/webserver/actor.rs: the message loop, one function per message.
-- `iteration` is the order in which a `HashSet` of batches is visited, `to_string` the hex form of a
-- digest, and `signature_size` the encoded size of a signature.
use constantinople.Base.{
  ℕ, ◌+◌, ◌%◌, ◌^◌, min, Bool, true, false, ◌&&◌, not, Option, none, some, List, [], ◌∷◌, ◌++◌, map,
  Eq, ◌==◌, bytes_eq, ltb,
}
use constantinople.Base.Dict.{lookup, insert, elem, add}
use constantinople.Transaction.{SignedTransaction, message_digest, encode_size}
use constantinople.Mempool.{
  TxStatus, BatchStatus, IngestStatus, Config, PoolEntry, Watchers, Mempool, Round, Reply,
}
use constantinople.Mempool.Status.{accepted_status, tx_status_from_batch, remember_status}
use constantinople.Mempool.Watch.{push_entry, watch_batch, forget_expired_batches}

-- `set.remove(&k)`
abbrev pub discard : {K : Type 0} ⦃e : Eq K⦄ → K → List K → List K
discard k [] = []
discard k (x ∷ xs) = elim (k == x) [ true ↦ discard k xs | false ↦ x ∷ discard k xs ]

abbrev pub discard_all : {K : Type 0} ⦃e : Eq K⦄ → List K → List K → List K
discard_all [] s = s
discard_all (k ∷ ks) s = discard_all ks (discard k s)

-- `pending_waiters.entry(batch_id).or_default().push(result)`
abbrev pub await : {D : Type 0} → List ℕ → Option ℕ → Watchers D → Watchers D
await batch_id none w = w
await batch_id (some sender) w = record {
  batch_digests = w.batch_digests;
  digest_watchers = w.digest_watchers;
  digest_outcomes = w.digest_outcomes;
  pending_waiters = push_entry batch_id sender w.pending_waiters;
}

-- `rotation_round`
abbrev pub rotation_round : Round → ℕ
rotation_round r = (r.epoch + r.view) % 2 ^ 64

module _ {L D S : Type 0} where
  abbrev pub digests_of : List (SignedTransaction L D S) → List D
  digests_of txs = map message_digest txs

  abbrev pub is_empty : List (SignedTransaction L D S) → Bool
  is_empty [] = true
  is_empty (tx ∷ txs) = false

module _ {L D S : Type 0} ⦃e : Eq D⦄ where
  -- `new_transactions`: those whose digest is not known, and the known digests with theirs
  abbrev pub new_transactions :
      List (SignedTransaction L D S) → List D → List (SignedTransaction L D S) × List D
  new_transactions [] known = ([], known)
  new_transactions (tx ∷ txs) known = elim (elem (message_digest tx) known) [
    | true ↦ new_transactions txs known
    | false ↦
        (let rest = new_transactions txs (add (message_digest tx) known) in (tx ∷ rest.0, rest.1))
  ]

  -- `remove_known_digests`
  abbrev pub remove_known_digests : List (SignedTransaction L D S) → List D → List D
  remove_known_digests txs known = discard_all (digests_of txs) known

  -- `total_bytes_for`
  abbrev pub total_bytes_for : (S → ℕ) → List (SignedTransaction L D S) → ℕ
  total_bytes_for signature_size [] = 0
  total_bytes_for signature_size (tx ∷ txs) =
      encode_size signature_size tx + total_bytes_for signature_size txs

  -- `sender.send(..)` through a sender that may be absent
  abbrev pub send_result : Option ℕ → TxStatus → List (Reply L D S)
  send_result none status = []
  send_result (some sender) status = Reply.result sender status ∷ []

  abbrev pub send_ingest : Option ℕ → IngestStatus → List (Reply L D S)
  send_ingest none status = []
  send_ingest (some sender) status = Reply.ingest_result sender status ∷ []

  -- A batch that has a status is not submitted again.
  abbrev pub resubmit :
      List ℕ
      → Option ℕ
      → Option ℕ
      → BatchStatus
      → Mempool L D S
      → Mempool L D S × List (Reply L D S)
  resubmit batch_id result ingest_result status m = elim (tx_status_from_batch status) [
    | some outcome ↦
        (m, send_ingest ingest_result IngestStatus.accepted ++ send_result result outcome)
    | none ↦ (
      record {
        pool = m.pool;
        pool_bytes = m.pool_bytes;
        proposed = m.proposed;
        remembered = m.remembered;
        watched = await batch_id result m.watched;
        known_digests = m.known_digests;
        highest_consensus_round = m.highest_consensus_round;
      },
      send_ingest ingest_result IngestStatus.accepted,
    )
  ]

  -- There is no room: the digests are unknown again.
  abbrev pub refuse :
      List (SignedTransaction L D S)
      → List D
      → Option ℕ
      → Option ℕ
      → Mempool L D S
      → Mempool L D S × List (Reply L D S)
  refuse transactions known result ingest_result m = (
    record {
      pool = m.pool;
      pool_bytes = m.pool_bytes;
      proposed = m.proposed;
      remembered = m.remembered;
      watched = m.watched;
      known_digests = remove_known_digests transactions known;
      highest_consensus_round = m.highest_consensus_round;
    },
    send_result result TxStatus.dropped ++ send_ingest ingest_result IngestStatus.dropped,
  )

  -- `pool.push_back`, unless there is nothing new
  abbrev pub push_pool :
      List (SignedTransaction L D S) → ℕ → List (PoolEntry L D S) → List (PoolEntry L D S)
  push_pool [] bytes pool = pool
  push_pool (tx ∷ txs) bytes pool =
      pool ++ record { transactions = tx ∷ txs; total_bytes = bytes } ∷ []

  abbrev pub pushed_bytes : List (SignedTransaction L D S) → ℕ → ℕ → ℕ
  pushed_bytes [] bytes pool_bytes = pool_bytes
  pushed_bytes (tx ∷ txs) bytes pool_bytes = pool_bytes + bytes

  abbrev pub accept :
      (D → List ℕ)
      → List ℕ
      → List D
      → List (SignedTransaction L D S)
      → ℕ
      → List D
      → Option ℕ
      → Option ℕ
      → Mempool L D S
      → Mempool L D S × List (Reply L D S)
  accept to_string batch_id digests transactions bytes known result ingest_result m =
      let (remembered, expired) =
        remember_status m.remembered batch_id (accepted_status to_string digests) in
      let watched : Watchers D = record {
        batch_digests = insert batch_id digests m.watched.batch_digests;
        digest_watchers = watch_batch batch_id digests [] m.watched.digest_watchers;
        digest_outcomes = m.watched.digest_outcomes;
        pending_waiters = m.watched.pending_waiters;
      } in
      (
        record {
          pool = push_pool transactions bytes m.pool;
          pool_bytes = pushed_bytes transactions bytes m.pool_bytes;
          proposed = m.proposed;
          remembered = remembered;
          watched = await batch_id result (forget_expired_batches expired watched);
          known_digests = known;
          highest_consensus_round = m.highest_consensus_round;
        },
        send_ingest ingest_result IngestStatus.accepted,
      )

  -- New transactions enter the pool if there is room for them.
  unfoldable pub offer :
      Config
      → (D → List ℕ)
      → List ℕ
      → List D
      → List (SignedTransaction L D S)
      → ℕ
      → List D
      → Option ℕ
      → Option ℕ
      → Mempool L D S
      → Mempool L D S × List (Reply L D S)
  offer c to_string batch_id digests fresh bytes known result ingest_result m =
      elim (not (is_empty fresh) && ltb c.max_pool_bytes (m.pool_bytes + bytes)) [
        | true ↦ refuse fresh known result ingest_result m
        | false ↦ accept to_string batch_id digests fresh bytes known result ingest_result m
      ]

  -- `Message::Submit`
  unfoldable pub submit :
      Config
      → (S → ℕ)
      → (D → List ℕ)
      → List ℕ
      → List D
      → List (SignedTransaction L D S)
      → ℕ
      → Option ℕ
      → Option ℕ
      → Mempool L D S
      → Mempool L D S × List (Reply L D S)
  unfolding offer
  submit c signature_size to_string batch_id digests transactions total_bytes result ingest_result
        m =
      elim (lookup batch_id m.remembered.statuses) [
        | some status ↦ resubmit batch_id result ingest_result status m
        | none ↦
            (let (fresh, known) = new_transactions transactions m.known_digests in
              let bytes = min (total_bytes_for signature_size fresh) total_bytes in
              offer c to_string batch_id digests fresh bytes known result ingest_result m)
      ]
