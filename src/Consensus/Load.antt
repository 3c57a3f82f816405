-- ===== src/Consensus/Load.antt =====
-- crates/application/src/consensus/execution.rs and db.rs: loading accounts, and executing on them.
-- `iteration` is the order in which a `HashSet` of keys is visited.
use constantinople.Base.{true, false, Option, none, some, List, [], ◌∷◌, map, eqb, length, ◌>>=◌}
use constantinople.Base.Dict.{insert, add_all}
use constantinople.Account.{AccountKey, Account, default_account, key_eq}
use constantinople.Executor.{State, Changeset, PreparedTransfer, execute, execute_unique}
use constantinople.Executor.Unique.{account_keys}
use constantinople.Consensus.{Databases}

-- `LoadedState`
pub data LoadedState : Type 0 where
  unique : (accounts : List Account) → LoadedState
  shared : (accounts : State) → LoadedState

-- `unwrap_or_default`
abbrev pub unwrap_or_default : Option Account → Account
unwrap_or_default none = default_account
unwrap_or_default (some account) = account

-- `zip` and `collect` into a map
abbrev pub zip_accounts : List AccountKey → List (Option Account) → State → State
zip_accounts [] values state = state
zip_accounts (k ∷ ks) [] state = state
zip_accounts (k ∷ ks) (v ∷ vs) state = zip_accounts ks vs (insert k (unwrap_or_default v) state)

module _ {D : Type 0} (q : Databases D) where
  open q use {StateBatch, TransactionBatch, get_many, write, append}

  -- `load_accounts`
  abbrev pub load_accounts : StateBatch → List AccountKey → Option State
  load_accounts batch [] = some []
  load_accounts batch (k ∷ ks) = do
    values ← get_many batch (k ∷ ks)
    some (zip_accounts (k ∷ ks) values [])

  -- `apply_changeset`
  abbrev pub apply_changeset : StateBatch → Changeset → StateBatch
  apply_changeset batch [] = batch
  apply_changeset batch ((key, account) ∷ changes) =
      apply_changeset (write batch key (some account)) changes

  -- `apply_transaction_digests`
  abbrev pub apply_transaction_digests : TransactionBatch → List D → TransactionBatch
  apply_transaction_digests batch [] = batch
  apply_transaction_digests batch (digest ∷ digests) =
      apply_transaction_digests (append batch digest) digests

  module _ (iteration : List AccountKey → List AccountKey) where
    -- `load_state`
    unfoldable pub load_state : StateBatch → List (PreparedTransfer D) → Option State
    load_state batch [] = some []
    load_state batch (t ∷ ts) = load_accounts batch (iteration (add_all (account_keys (t ∷ ts)) []))

    -- `load_execution_state`
    unfoldable pub load_execution_state :
        StateBatch → List (PreparedTransfer D) → Option LoadedState
    load_execution_state batch [] = some (LoadedState.unique [])
    load_execution_state batch (t ∷ ts) =
        let keys = account_keys (t ∷ ts) in
        let distinct = add_all keys [] in
        elim (eqb (length distinct) (length keys)) [
          | true ↦ (do
            values ← get_many batch keys
            some (LoadedState.unique (map unwrap_or_default values)))
          | false ↦ (do
            state ← load_accounts batch (iteration distinct)
            some (LoadedState.shared state))
        ]

module _ {D : Type 0} where
  -- `execute_loaded`
  unfoldable pub execute_loaded : LoadedState → List (PreparedTransfer D) → Option Changeset
  execute_loaded (LoadedState.unique accounts) transfers = execute_unique transfers accounts
  execute_loaded (LoadedState.shared accounts) transfers = execute accounts transfers

  -- `transfer_digests`
  abbrev pub transfer_digests : List (PreparedTransfer D) → List D
  transfer_digests transfers = map (λ t. t.digest) transfers
