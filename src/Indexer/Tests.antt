-- ===== src/Indexer/Tests.antt =====
-- Instances: blocks of the indexer, over codecs that write a number after a run of zeros.
use mathlib.Core.Option
use constantinople.Base.{
  ℕ, ◌+◌, ◌≡◌, refl, true, false, Option, none, some, List, [], ◌∷◌, map, collect, Result,
  replicate, length, arith,
}
use constantinople.Base.Result.{ok}
use constantinople.Base.Codec.{IsWord}
use constantinople.Base.Cells.{cell, padded}
use constantinople.Account.{Account, from_public_key_bytes}
use constantinople.Account.Codec.{write_key}
use constantinople.Transaction.{Sealed, Transaction, SignedTransaction, message_digest, seal}
use constantinople.Transaction.Codec.{write_transaction, write_signed, IsSealed}
use constantinople.Block.{Header}
use constantinople.Block.Codec.{LazyBlock, new_lazy_block}
use constantinople.Signed.Lazy.{encoded_signed_transaction, get_lazy}
use constantinople.Indexer.{hex_lower}
use constantinople.Indexer.Rows.{index_transaction, from_be_bytes}
use constantinople.Indexer.Indexed.{IsBigEndian, indexed, sender_account, index_transaction-signed}
use constantinople.Indexer.Upload.{
  StateOperation, TransactionOperation, PublishError, QueuedFinalizedUpload,
  PendingPreparedQmdbUpload, Publisher, transaction_upload_end, expand_queued_finalized_upload,
  build_state_delta, account_rows, enqueue_queued_finalized,
}
use constantinople.Indexer.Expand.{block_row, expand-reserved}
use constantinople.Indexer.Described.{Sent, described_rows}
use constantinople.Indexer.Queue.{Event, act, act_all, Follows, act_all-IsContiguous}
use constantinople.Indexer.Delta.{rows_of, stored, account_rows-delta}

word_value-padded : (n : ℕ) → IsWord n → from_be_bytes ((padded 7).write n) ≡ n
word_value-padded n h = omega arith

padded-IsBigEndian : IsBigEndian (padded 7)
padded-IsBigEndian = record { word_size = λ n h. refl; word_value = word_value-padded }

abbrev sha256 : List ℕ → List ℕ
sha256 bytes = replicate 32 9

abbrev sum : List ℕ → ℕ
sum [] = 0
sum (b ∷ bs) = b + sum bs

abbrev pk_size : (sender : ℕ) → IsWord sender → length ((padded 33).write sender) ≡ 34
pk_size sender h = refl

abbrev transfer : ℕ → Transaction ℕ
transfer nonce = record {
  sender = 5;
  to = record { bytes = replicate 32 1 };
  value = 3;
  nonce = nonce;
}

abbrev signed : ℕ → SignedTransaction ℕ ℕ ℕ
signed nonce = record {
  inner = record { inner = transfer nonce; seal = 40 + nonce };
  signature = 6;
}

signed-IsSealed : IsSealed (padded 7) (padded 33) cell sum (signed 2)
unfolding seal write_transaction write_key
signed-IsSealed = record {
  encodable = record {
    sender_valid = omega arith;
    to_valid = refl;
    value_fits = omega arith;
    value_positive = omega arith;
    nonce_fits = omega arith;
  };
  signature_valid = omega arith;
  sealed = refl;
}

index_transaction-signed_example :
    index_transaction sha256 sum 4 (write_signed (padded 7) (padded 33) cell sum (signed 2))
    ≡ Option.map (indexed 4 (write_signed (padded 7) (padded 33) cell sum (signed 2)) (signed 2)) (
        sender_account (padded 7) (padded 33) cell sum sha256 padded-IsBigEndian pk_size (signed 2))
index_transaction-signed_example =
    index_transaction-signed (padded 7) (padded 33) cell sum sha256 padded-IsBigEndian pk_size 4
      (signed 2) signed-IsSealed

-- A truncated payload is skipped, and `0x0f` reads "0f".
truncated_is_skipped : index_transaction sha256 sum 0 (replicate 80 1) ≡ none
unfolding index_transaction
truncated_is_skipped = refl

hex_of_15 : hex_lower (15 ∷ []) ≡ b'0' ∷ b'f' ∷ []
unfolding hex_lower
hex_of_15 = refl

abbrev header : ℕ → ℕ → Header ℕ ℕ ℕ
header height end = record {
  context = record { round = record { epoch = 0; view = 4 }; leader = 7; parent = (2, 21) };
  parent = 21;
  height = height;
  timestamp = 1000;
  state_root = 31;
  state_range = (0, end);
  transactions_root = 32;
  transactions_range = (4, end);
}

abbrev block : Sealed (LazyBlock ℕ ℕ ℕ ℕ ℕ) ℕ
block = record { inner = new_lazy_block (header 3 10) (signed 2 ∷ []); seal = 77 }

abbrev upload : QueuedFinalizedUpload ℕ ℕ ℕ ℕ ℕ
upload = record {
  block = block;
  finalized_ts_micros = 5;
  state_start = 7;
  transaction_start = 8;
  state_delta = [];
}

abbrev never : List ℕ → Option (SignedTransaction ℕ ℕ ℕ)
never bytes = none

abbrev write : SignedTransaction ℕ ℕ ℕ → List ℕ
write = write_signed (padded 7) (padded 33) cell sum

reserved : transaction_upload_end 8 block ≡ some (ok 10)
unfolding transaction_upload_end
reserved = refl

encoded :
    collect (encoded_signed_transaction never write) block.inner.body
    ≡ some (map write (signed 2 ∷ []))
unfolding encoded_signed_transaction get_lazy
encoded = refl

found :
    sender_account (padded 7) (padded 33) cell sum sha256 padded-IsBigEndian pk_size (signed 2)
    ≡ some (record { bytes = replicate 32 0 })
unfolding from_public_key_bytes
found = refl

abbrev sent : List (Sent ℕ ℕ ℕ)
sent = record { transaction = signed 2; sender = record { bytes = replicate 32 0 } } ∷ []

expand-reserved_example :
    (prepared : PendingPreparedQmdbUpload ℕ) × (expand_queued_finalized_upload sha256 sum
        (λ d. d ∷ [])
        never
        write
        upload
      ≡ some (ok prepared))
    × (prepared.transaction_ops
        ≡ TransactionOperation.append (message_digest (signed 2))
          ∷ TransactionOperation.commit 4
          ∷ [])
    × (8 + length prepared.transaction_ops ≡ 10)
    × (◌≡◌ {A = ℕ} 10 10)
    × (prepared.block_rows.sql
        ≡ block_row (λ d. d ∷ []) block 1 5 ∷ described_rows (λ d. d ∷ []) write 3 8 0 sent)
    × (prepared.block_rows.transaction_digests ≡ message_digest (signed 2) ∷ [])
expand-reserved_example =
    expand-reserved (padded 7) (padded 33) cell sum sha256 padded-IsBigEndian pk_size (λ d. d ∷ [])
      never upload sent 10 reserved encoded ((signed-IsSealed, found), tt) (omega arith)

-- One state operation is proved: an update of an account.
abbrev proofs : (end start count : ℕ) → Result PublishError (List (StateOperation Account))
proofs end start count = ok (
    StateOperation.update (record { bytes = replicate 32 1 })
      (record { balance = 42; nonce = record { base = 7; bitmap = 3 } })
    ∷ [])

abbrev update : List (StateOperation Account)
update =
    StateOperation.update (record { bytes = replicate 32 1 })
      (record { balance = 42; nonce = record { base = 7; bitmap = 3 } })
    ∷ []

account_rows-delta_example :
    (delta : List (StateOperation (List ℕ))) × (build_state_delta (padded 7) proofs 9 3 10
      ≡ ok delta)
    × (delta ≡ map (stored (padded 7) padded-IsBigEndian) update)
    × (account_rows delta 9 ≡ rows_of update 9)
account_rows-delta_example =
    account_rows-delta (padded 7) padded-IsBigEndian proofs 9 3 10 update refl (omega arith) refl
      ((omega arith, (omega arith, omega arith)), tt)

-- A publisher that takes one upload, is offered it again, and stops.
abbrev fresh : Publisher ℕ ℕ ℕ ℕ ℕ
fresh = record { state_next = 7; transaction_next = 8; sent = []; receiving = true }

abbrev events : List (Event ℕ ℕ ℕ ℕ ℕ)
events = Event.offer upload ∷ Event.offer upload ∷ Event.stop ∷ []

abbrev stopped : Publisher ℕ ℕ ℕ ℕ ℕ
stopped = record { state_next = 10; transaction_next = 10; sent = upload ∷ []; receiving = false }

events_run : act_all events fresh ≡ some stopped
unfolding act_all act enqueue_queued_finalized transaction_upload_end
events_run = refl

act_all-IsContiguous_example : Follows 7 8 stopped.sent stopped.state_next stopped.transaction_next
act_all-IsContiguous_example =
    act_all-IsContiguous 7 8 events fresh stopped (omega arith, (omega arith, (tt, tt))) events_run
      (refl, refl)
