-- ===== src/Mempool/Tests.antt =====
-- Two batches that share a transaction, and instances of the theorems on the actor.
use constantinople.Base.{ℕ, ◌≡◌, refl, none, some, List, [], ◌∷◌, arith, nat_eq, bytes_eq, collect}
use constantinople.Base.Dict.{Dict, lookup, elem}
use constantinople.Transaction.{SignedTransaction}
use constantinople.Mempool.{Config, Mempool, PoolEntry, Message, BatchStatus, DigestOutcome, new}
use constantinople.Mempool.Status.{batch_status_from_outcomes, remember_status}
use constantinople.Mempool.Watch.{resolve_batch_if_terminal, forget_batch}
use constantinople.Mempool.Actor.{submit}
use constantinople.Mempool.Messages.{handle}
use constantinople.Mempool.Reachable.{Reachable, started, handled}
use constantinople.Mempool.Bytes.{IsWithin, pool_bytes_bounded}
use constantinople.Mempool.Fifo.{Proposes, propose-takes_front}
use constantinople.Mempool.Counts.{pending, bit}
use constantinople.Mempool.Known.{known-once}
use constantinople.Mempool.Remembered.{IsRemembered, statuses_bounded}
use constantinople.Mempool.Outcome.{IsRefused, submit-refuses, status_of, batch_status-of_outcomes}

abbrev limits : Config
limits = record { max_pool_bytes = 500; max_propose_bytes = 200; drop_grace_blocks = 2 }

abbrev size : ℕ → ℕ
size s = 66

abbrev name : ℕ → List ℕ
name d = d ∷ []

abbrev as_is : List (List ℕ) → List (List ℕ)
as_is ids = ids

abbrev tx : ℕ → SignedTransaction ℕ ℕ ℕ
tx d = record {
  inner = record {
    inner = record { sender = 1; to = record { bytes = 3 ∷ [] }; value = 5; nonce = d };
    seal = d;
  };
  signature = 0;
}

abbrev two : Message ℕ ℕ ℕ
two = Message.submit (1 ∷ []) (11 ∷ 12 ∷ []) (tx 11 ∷ tx 12 ∷ []) 300 (some 1) none

abbrev overlapping : Message ℕ ℕ ℕ
overlapping = Message.submit (2 ∷ []) (12 ∷ 13 ∷ []) (tx 12 ∷ tx 13 ∷ []) 300 none (some 2)

abbrev ask : Message ℕ ℕ ℕ
ask = Message.propose 7 3

abbrev block : Message ℕ ℕ ℕ
block =
    Message.report_block
      (record {
        round = record { epoch = 0; view = 9 };
        height = 7;
        body = some (tx 11) ∷ none ∷ [];
      })
      4

abbrev run : Message ℕ ℕ ℕ → Mempool ℕ ℕ ℕ → Mempool ℕ ℕ ℕ
run message m = (handle limits size name as_is message m).0

abbrev pooled : Mempool ℕ ℕ ℕ
pooled = run overlapping (run two new)

abbrev asked : Mempool ℕ ℕ ℕ
asked = run ask pooled

pooled-Reachable : Reachable limits size name as_is pooled
pooled-Reachable = handled overlapping (run two new) (handled two new started)

asked-Reachable : Reachable limits size name as_is asked
asked-Reachable = handled ask pooled pooled-Reachable

-- The transaction 12 is pooled once.
pooled_bytes : pooled.pool_bytes ≡ 444
unfolding handle remember_status
pooled_bytes = refl

-- Both batches wait for 12; the block settles the first with 12 filtered.
settled_status_of_two :
    lookup (1 ∷ []) (run block asked).remembered.statuses
    ≡ some (BatchStatus.partially_finalized 7 ((11 ∷ []) ∷ []) ((12 ∷ []) ∷ []))
unfolding handle remember_status resolve_batch_if_terminal forget_batch
settled_status_of_two = refl

pool_bytes_bounded_example : IsWithin limits asked
pool_bytes_bounded_example = pool_bytes_bounded limits name as_is size asked asked-Reachable

known-once_example : pending 12 pooled ≡ bit (elem 12 pooled.known_digests)
known-once_example = known-once limits name as_is size 12 pooled pooled-Reachable

statuses_bounded_example : IsRemembered asked.remembered
statuses_bounded_example = statuses_bounded name limits as_is size asked asked-Reachable

propose-takes_front_example : (taken : List (PoolEntry ℕ ℕ ℕ)) × Proposes limits 7 3 pooled taken
propose-takes_front_example =
    propose-takes_front limits 7 3 pooled
      (pool_bytes_bounded limits name as_is size pooled pooled-Reachable)

abbrev outcomes : Dict ℕ DigestOutcome
outcomes = (11, DigestOutcome.finalized 7) ∷ (12, DigestOutcome.dropped) ∷ []

batch_status-of_outcomes_example :
    batch_status_from_outcomes name (12 ∷ 11 ∷ []) outcomes
    ≡ status_of name (12 ∷ 11 ∷ []) 0 [] [] (collect (λ d. lookup d outcomes) (12 ∷ 11 ∷ []))
batch_status-of_outcomes_example = batch_status-of_outcomes name (12 ∷ 11 ∷ []) outcomes

abbrev small : Config
small = record { max_pool_bytes = 100; max_propose_bytes = 200; drop_grace_blocks = 2 }

submit-refuses_example :
    IsRefused new
      (submit small size name (1 ∷ []) (11 ∷ []) (tx 11 ∷ []) 300 (some 1) none new).0
      (submit small size name (1 ∷ []) (11 ∷ []) (tx 11 ∷ []) 300 (some 1) none new).1
      (some 1)
      none
submit-refuses_example =
    submit-refuses small size name (1 ∷ []) (11 ∷ []) (tx 11 ∷ []) 300 (some 1) none new refl refl
      (omega arith)
