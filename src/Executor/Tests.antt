-- ===== src/Executor/Tests.antt =====
-- A small state, blocks over it, and instances of the executor's theorems.
use mathlib.Core.List.{Perm}
use constantinople.Base.{
  ℕ, ◌+◌, ◌<◌, ◌≡◌, ◌≢◌, refl, none, some, List, [], ◌∷◌, ◌++◌, All, arith, collect, replicate,
}
use constantinople.Base.Dict.{lookup}
use constantinople.Base.Sort.{sort_by_key, IsAscending}
use constantinople.Account.{
  AccountKey, Account, default_account, key_eq, key_ord, from_public_key_bytes,
}
use constantinople.Account.Nonce.{consume, next_nonce_state, consume_current_nonce, count_advance}
use constantinople.Account.Nonce.Consume.{default-IsNonce}
use constantinople.Executor.{
  State, Changeset, PreparedTransfer, new_overlay, apply_transfer, execute, execute_unique,
}
use constantinople.Transaction.{SignedTransaction}
use constantinople.Executor.Proposal.{prepare_transfer, propose}
use constantinople.Executor.Partition.{propose-perm, propose_executes}
use constantinople.Executor.Unique.{execute_unique-eq-execute}
use constantinople.Executor.Writes.{IsState, IsAccount, IsTransfer, execute_changeset}
use constantinople.Executor.Conservation.{
  balance_in, written_over, sent, received, balance-execute, sum_over, execute_conserves,
}
use constantinople.Executor.Replay.{
  HasNoReplay, AreSpent, execute_no_replay, execute_replay_rejected,
}

abbrev alice : AccountKey
alice = record { bytes = 7 ∷ [] }

abbrev bob : AccountKey
bob = record { bytes = 3 ∷ [] }

abbrev carol : AccountKey
carol = record { bytes = 9 ∷ [] }

abbrev state : State
state = (alice, default_account) ∷ (bob, default_account) ∷ []

abbrev bigger_state : State
bigger_state = (carol, default_account) ∷ state

-- The digest is a number here.
abbrev payment : ℕ → ℕ → PreparedTransfer ℕ
payment value nonce = record {
  sender = alice;
  recipient = bob;
  value = value;
  nonce = nonce;
  digest = nonce;
}

abbrev block : List (PreparedTransfer ℕ)
block = payment 30 0 ∷ payment 5 2 ∷ []

abbrev changeset : Changeset
changeset =
    (bob, record { balance = 135; nonce = record { base = 0; bitmap = 0 } })
    ∷ (alice, record { balance = 65; nonce = record { base = 1; bitmap = 1 } })
    ∷ []

block-executes : execute state block ≡ some changeset
unfolding execute apply_transfer consume next_nonce_state consume_current_nonce count_advance
    sort_by_key
block-executes = refl

-- More than the balance is refused, and so is a nonce that is used twice.
overdraft_refused : execute state (payment 101 0 ∷ []) ≡ none
unfolding execute apply_transfer consume next_nonce_state
overdraft_refused = refl

default-IsAccount : IsAccount default_account
default-IsAccount = record { balance_fits = omega arith; nonce_valid = default-IsNonce }

state-IsState : IsState state
state-IsState = (default-IsAccount, (default-IsAccount, tt))

payment-IsTransfer :
    (value nonce : ℕ) → value < 100 → nonce < 100 → IsTransfer (payment value nonce)
payment-IsTransfer value nonce p q = record { value_fits = omega arith; nonce_fits = omega arith }

block-IsTransfer : All IsTransfer block
block-IsTransfer = (
  payment-IsTransfer 30 0 (omega arith) (omega arith),
  (payment-IsTransfer 5 2 (omega arith) (omega arith), tt),
)

keys : List AccountKey
keys = alice ∷ bob ∷ carol ∷ []

execute_changeset_example :
    IsAscending changeset
    × IsState changeset
    × All (λ (e : AccountKey × Account). lookup e.0 state ≢ none) changeset
execute_changeset_example =
    execute_changeset state block changeset state-IsState block-IsTransfer block-executes

balance-execute_example :
    balance_in (written_over state changeset) alice + sent alice block
    ≡ balance_in (new_overlay state) alice + received alice block
balance-execute_example =
    balance-execute state block changeset alice state-IsState block-IsTransfer block-executes

execute_conserves_example :
    sum_over (balance_in (written_over state changeset)) (alice ∷ bob ∷ [])
    ≡ sum_over (balance_in (new_overlay state)) (alice ∷ bob ∷ [])
execute_conserves_example =
    execute_conserves state block changeset (alice ∷ bob ∷ []) state-IsState block-IsTransfer
      (refl, (refl, tt)) ((refl, refl), ((refl, refl), tt)) block-executes

execute_no_replay_example : HasNoReplay block × AreSpent (written_over state changeset) block
execute_no_replay_example =
    execute_no_replay state block changeset state-IsState block-IsTransfer block-executes

-- The state that a later block loads.
abbrev next_state : State
next_state = (alice, record { balance = 65; nonce = record { base = 1; bitmap = 1 } }) ∷ []

next_state-IsState : IsState next_state
next_state-IsState = let (_, valid, _) = execute_changeset_example in (valid.1.0, tt)

execute_replay_rejected_example : execute next_state ([] ++ payment 5 2 ∷ []) ≡ none
execute_replay_rejected_example =
    execute_replay_rejected state next_state (payment 30 0 ∷ []) [] [] [] (payment 5 2)
      (payment 5 2) changeset state-IsState next_state-IsState block-IsTransfer tt
      (payment-IsTransfer 5 2 (omega arith) (omega arith)) block-executes refl refl

abbrev one : List (PreparedTransfer ℕ)
one = payment 30 0 ∷ []

execute_unique-eq-execute_example :
    execute_unique one (default_account ∷ default_account ∷ []) ≡ execute state one
execute_unique-eq-execute_example =
    execute_unique-eq-execute state one (default_account ∷ default_account ∷ []) (refl, refl, tt)
      (refl, (refl, tt))

-- Transactions with a number for the lazy sender key: it is written as the last byte of an Ed25519
-- key, so that senders 7 and 3 are the accounts of the same keys.
abbrev write_sender : ℕ → List ℕ
write_sender n = 0 ∷ n ∷ replicate 32 0

abbrev wide : ℕ → AccountKey
wide n = record { bytes = n ∷ replicate 31 0 }

abbrev wide_state : State
wide_state = (wide 7, default_account) ∷ (wide 3, default_account) ∷ []

abbrev submit : ℕ → ℕ → SignedTransaction ℕ ℕ ℕ
submit value nonce = record {
  inner = record {
    inner = record { sender = 7; to = wide 3; value = value; nonce = nonce };
    seal = nonce;
  };
  signature = 0;
}

abbrev submitted : List (SignedTransaction ℕ ℕ ℕ)
submitted = submit 500 0 ∷ submit 30 0 ∷ submit 5 0 ∷ []

filters : (propose write_sender (λ b. b) wide_state submitted).valid ≡ submit 30 0 ∷ []
unfolding propose prepare_transfer from_public_key_bytes apply_transfer consume next_nonce_state
    consume_current_nonce count_advance
filters = refl

propose-perm_example :
    let out = propose write_sender (λ b. b) wide_state submitted in
    Perm (out.valid ++ out.invalid) submitted
propose-perm_example = propose-perm write_sender (λ b. b) wide_state submitted

propose_executes_example :
    let out = propose write_sender (λ b. b) wide_state submitted in
    (collect (prepare_transfer write_sender (λ b. b)) out.valid ≡ some out.transfers)
    × (execute ((carol, default_account) ∷ wide_state) out.transfers ≡ some out.changeset)
unfolding propose prepare_transfer from_public_key_bytes apply_transfer consume next_nonce_state
    consume_current_nonce count_advance
propose_executes_example =
    propose_executes write_sender (λ b. b) wide_state ((carol, default_account) ∷ wide_state)
      submitted ((refl, refl), tt)
