-- ===== src/Consensus/Tests.antt =====
-- Databases that are lists, a block over them, and instances of the theorems on consensus.
use constantinople.Base.{
  ℕ, ◌+◌, ◌*◌, arith, ◌≡◌, refl, sym, ap, Bool, true, Option, none, some, List, [], ◌∷◌, ◌++◌, map,
  length, replicate, nat_eq, ◌&&◌, eqb,
}
use constantinople.Base.Dict.{lookup, insert, remove}
use constantinople.Account.{AccountKey, Account, default_account, key_eq, ed25519_scheme}
use constantinople.Transaction.{SignedTransaction}
use constantinople.Block.{SealedBlock, Header}
use constantinople.Executor.{State, PreparedTransfer, execute}
use constantinople.Executor.{apply_transfer}
use constantinople.Executor.Proposal.{prepare_proposal, propose_prepared, prepare_transfer}
use constantinople.Account.{from_public_key_bytes}
use constantinople.Account.Nonce.{consume, next_nonce_state, consume_current_nonce, count_advance}
use constantinople.Base.Sort.{sort_by_key}
use constantinople.Signed.{Strategy, preload_transaction_chunks}
use constantinople.Signed.Chunks.{IsStrategy, foldl, part}
use constantinople.Consensus.{Databases, Outcome}
use constantinople.Consensus.Glue.{
  finalized, StateSyncTarget, TransactionHistoryTarget, genesis_block_with_parent, sync_targets,
}
use constantinople.Consensus.Retention.{after, finalized-keeps_cadence}
use constantinople.Consensus.Load.{LoadedState, load_state, load_execution_state, execute_loaded}
use constantinople.Consensus.Execution.{execute_proposal, finalize_child}
use constantinople.Consensus.Lifecycle.{
  SignatureChecks, verify_signatures, propose_child, verify_child, apply_certified,
}
use constantinople.Consensus.Reads.{Reads, KeepsElements, execute_loaded-eq-execute}
use constantinople.Consensus.Honest.{propose_child-verifies, from_some}
use constantinople.Consensus.Certified.{KeepsFloor, apply_certified-of_verified}

-- The transaction database is its digests with the inactivity floor.
abbrev lists : Databases ℕ
lists = record {
  StateBatch = State;
  StateMerkleized = State;
  TransactionBatch = List ℕ × ℕ;
  TransactionMerkleized = List ℕ × ℕ;
  get_many = λ batch ks. some (map (λ k. lookup k batch) ks);
  write = λ batch k v. elim v [ none ↦ remove k batch | some a ↦ insert k a batch ];
  merkleize_state = λ batch. some batch;
  state_root = λ batch. length batch;
  state_bounds = λ batch. record { inactivity_floor = 0; total_size = length batch + 1 };
  append = λ batch d. (batch.0 ++ d ∷ [], batch.1);
  with_inactivity_floor = λ batch floor. (batch.0, floor);
  merkleize_transactions = λ batch. some batch;
  transactions_root = λ batch. length batch.0;
  transactions_bounds =
      λ batch. record { inactivity_floor = batch.1; total_size = batch.1 + (length batch.0 + 1) };
}

abbrev key : ℕ → AccountKey
key n = record { bytes = replicate 32 n }

-- A sender is a number; its encoding is that of an Ed25519 key.
abbrev encoded : ℕ → List ℕ
encoded n = ed25519_scheme ∷ replicate 33 n

abbrev id : List ℕ → List ℕ
id bytes = bytes

abbrev as_is : List AccountKey → List AccountKey
as_is ks = ks

abbrev pay : ℕ → ℕ → ℕ → SignedTransaction ℕ ℕ ℕ
pay sender recipient amount = record {
  inner = record {
    inner = record { sender = sender; to = key recipient; value = amount; nonce = 0 };
    seal = sender;
  };
  signature = 0;
}

abbrev header : ℕ → Header ℕ ℕ ℕ
header timestamp = record {
  context = record { round = record { epoch = 0; view = 1 }; leader = 5; parent = (0, 0) };
  parent = 0;
  height = 0;
  timestamp = timestamp;
  state_root = 0;
  state_range = (0, 1);
  transactions_root = 0;
  transactions_range = (0, 1);
}

abbrev parent : SealedBlock ℕ ℕ ℕ ℕ ℕ
parent = record { inner = record { header = header 100; body = [] }; seal = 77 }

abbrev hash : Header ℕ ℕ ℕ → ℕ
hash h = h.timestamp

-- The second transaction cannot be paid for.
abbrev submitted : List (SignedTransaction ℕ ℕ ℕ)
submitted = pay 1 2 30 ∷ pay 3 1 500 ∷ []

abbrev child : SealedBlock ℕ ℕ ℕ ℕ ℕ
child = record {
  inner = record {
    header = record {
      context = (header 100).context;
      parent = 77;
      height = 1;
      timestamp = 150;
      state_root = 2;
      state_range = (0, 3);
      transactions_root = 1;
      transactions_range = (0, 2);
    };
    body = some (pay 1 2 30) ∷ [];
  };
  seal = 150;
}

abbrev accounts : State
accounts =
    (key 1, record { balance = 70; nonce = record { base = 1; bitmap = 0 } })
    ∷ (key 2, record { balance = 130; nonce = record { base = 0; bitmap = 0 } })
    ∷ []

-- One worker, and signatures that are the digests less one.
abbrev inline : Strategy
inline = record {
  parallelism_hint = 1;
  map_collect_vec = map;
  fold = λ xs init step combine. foldl step init xs;
}

inline-IsStrategy : IsStrategy inline
inline-IsStrategy = record {
  maps = λ f xs. refl;
  folds = λ xs init step combine. (part xs, refl, refl);
}

abbrev all_signed : SignatureChecks ℕ ℕ ℕ
all_signed = record {
  PublicKey = ℕ;
  decode = some;
  verifier = record {
    Batch = Bool;
    new = true;
    add = λ batch d pk sig. some (batch && eqb d (sig + 1));
    verify = λ strategy batch. batch;
  };
  signature_strategy = inline;
  hash_strategy = inline;
}

proposal :
    propose_child lists encoded id as_is hash 150 (header 100).context parent [] ([], 0) submitted
    ≡ some (child, (accounts, (1 ∷ [], 0)))
unfolding propose_child execute_proposal finalize_child load_state prepare_proposal propose_prepared
    prepare_transfer from_public_key_bytes apply_transfer consume next_nonce_state
    consume_current_nonce count_advance sort_by_key
proposal = refl

abbrev nothing : AccountKey → Option Account
nothing k = none

reads : Reads lists [] nothing
reads ks = refl

keeps : KeepsElements as_is
keeps k ks = refl

keeps_floor : KeepsFloor lists
keeps_floor batch floor m h = ap (λ o. (from_some m o).1) (sym h)

signed : verify_signatures all_signed child.inner.body ≡ Outcome.returned tt
unfolding preload_transaction_chunks
signed = refl

propose_child-verifies_example :
    verify_child lists encoded id as_is all_signed child parent [] ([], 0)
    ≡ Outcome.returned (some (accounts, (1 ∷ [], 0)))
propose_child-verifies_example =
    propose_child-verifies lists encoded id as_is nothing [] ([], 0) parent reads keeps hash 150
      (header 100).context submitted all_signed child (accounts, (1 ∷ [], 0)) proposal refl signed

apply_certified-of_verified_example :
    apply_certified lists encoded id as_is inline child [] ([], 0)
    ≡ Outcome.returned (accounts, (1 ∷ [], 0))
apply_certified-of_verified_example =
    apply_certified-of_verified lists encoded id as_is [] ([], 0) parent all_signed child
      (accounts, (1 ∷ [], 0)) keeps_floor inline-IsStrategy propose_child-verifies_example

abbrev both_ways : List (PreparedTransfer ℕ)
both_ways =
    record { sender = key 1; recipient = key 2; value = 30; nonce = 0; digest = 1 }
    ∷ record { sender = key 2; recipient = key 1; value = 40; nonce = 0; digest = 2 }
    ∷ []

abbrev new_accounts : State
new_accounts = (key 1, default_account) ∷ (key 2, default_account) ∷ []

execute_loaded-eq-execute_example :
    (loaded : LoadedState) × (load_execution_state lists as_is [] both_ways ≡ some loaded)
    × (execute_loaded loaded both_ways ≡ execute new_accounts both_ways)
execute_loaded-eq-execute_example =
    execute_loaded-eq-execute lists as_is nothing [] new_accounts both_ways reads keeps
      ((refl, refl), ((refl, refl), tt))

abbrev square : ℕ → ℕ
square n = n * n

finalized-keeps_cadence_example :
    (finalized (after 4 square square 7) 8 64 64).1
    ≡ some (record { prune_height = 4; prune_to = 16 })
finalized-keeps_cadence_example = finalized-keeps_cadence 4 square square 7 (omega arith)

abbrev state_target : StateSyncTarget ℕ
state_target = record { root = 8; range = (2, 5) }

abbrev history_target : TransactionHistoryTarget ℕ
history_target = record { root = 9; leaf_count = 4 }

-- What syncing to a genesis block asks for; `none` is the panic where it was not built.
abbrev targets_of :
    Option (SealedBlock ℕ ℕ ℕ ℕ ℕ) → Option (StateSyncTarget ℕ × TransactionHistoryTarget ℕ)
targets_of none = none
targets_of (some block) = some (sync_targets block)

genesis_syncs :
    targets_of (genesis_block_with_parent hash 0 5 (0, 0) 0 state_target history_target)
    ≡ some (state_target, history_target)
unfolding genesis_block_with_parent
genesis_syncs = refl
