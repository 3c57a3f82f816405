-- ===== src/Executor.antt =====
-- crates/application/src/executor.rs: transfers over an overlay of loaded accounts, the
-- proposal-side filter, the sequential executor and its fast path for distinct accounts.
pub mod Step
pub mod Proposal
pub mod Agreement
pub mod Partition
pub mod Unique
pub mod Writes
pub mod Conservation
pub mod Replay
mod Tests
use constantinople.Base.{
  ℕ, ◌+◌, ◌*◌, ◌-◌, ◌≡◌, Bool, true, false, not, ◌||◌, Option, none, some, List, [], ◌∷◌, ◌++◌, eqb,
  ltb, if◌then◌else◌, length, ◌==◌, ◌>>=◌,
}
use constantinople.Base.Word.{checked_add}
use constantinople.Base.Dict.{Dict, lookup, insert}
use constantinople.Base.Sort.{sort_by_key}
use constantinople.Account.{AccountKey, Account, key_eq, key_ord, from_public_key_bytes}
use constantinople.Account.Nonce.{consume}

-- `State = HashMap<AccountKey, Account>`
abbrev pub State : Type 0
State = Dict AccountKey Account

-- `Changeset = Vec<(AccountKey, Account)>`
abbrev pub Changeset : Type 0
Changeset = List (AccountKey × Account)

pub record PreparedTransfer (D : Type 0) : Type 0 where
  pub sender : AccountKey
  pub recipient : AccountKey
  pub value : ℕ
  pub nonce : ℕ
  pub digest : D

pub record Overlay : Type 0 where
  pub base : State
  pub writes : Dict AccountKey Account

-- `Overlay::new`
abbrev pub new_overlay : State → Overlay
new_overlay base = record { base = base; writes = [] }

-- `Overlay::get`
abbrev pub get : Overlay → AccountKey → Option Account
get o key = elim (lookup key o.writes) [ some account ↦ some account | none ↦ lookup key o.base ]

-- `Overlay::set`
abbrev pub set : Overlay → AccountKey → Account → Overlay
set o key account = record o { writes = insert key account o.writes }

-- `Overlay::into_changeset`
unfoldable pub into_changeset : Overlay → Changeset
into_changeset o = sort_by_key o.writes

module _ {D : Type 0} where
  -- `apply_transfer`: the overlay after the call, and whether the transfer was applied.
  unfoldable pub apply_transfer : Overlay → PreparedTransfer D → Overlay × Bool
  apply_transfer o t = elim (get o t.sender) [
    | none ↦ (o, false)
    | some sender ↦
        let (nonce, consumed) = consume sender.nonce t.nonce in
        if ltb sender.balance t.value || not consumed
        then (o, false)
        else if t.sender == t.recipient
        then (set o t.sender (record sender { nonce = nonce }), true)
        else elim (get o t.recipient) [
          | none ↦ (o, false)
          | some recipient ↦ elim (checked_add recipient.balance t.value) [
            | none ↦ (o, false)
            | some recipient_balance ↦ (
              set (set o t.sender (record { balance = sender.balance - t.value; nonce = nonce }))
                  t.recipient (record recipient { balance = recipient_balance }),
              true,
            )
          ]
        ]
  ]

  -- The loop of `execute`.
  unfoldable pub execute_from : Overlay → List (PreparedTransfer D) → Option Overlay
  execute_from o [] = some o
  execute_from o (t ∷ ts) =
      let (o', applied) = apply_transfer o t in
      let rest = execute_from o' ts in if not applied then none else rest

  unfoldable pub execute : State → List (PreparedTransfer D) → Option Changeset
  unfolding execute_from into_changeset
  execute state transfers = elim (execute_from (new_overlay state) transfers) [
    | none ↦ none
    | some overlay ↦ some (into_changeset overlay)
  ]

  -- The loop of `execute_unique` over `zip(accounts.chunks_exact(2))`.
  unfoldable pub unique_from :
      Changeset → List (PreparedTransfer D) → List Account → Option Changeset
  unique_from changeset [] accounts = some changeset
  unique_from changeset (t ∷ ts) [] = some changeset
  unique_from changeset (t ∷ ts) (s ∷ []) = some changeset
  unique_from changeset (t ∷ ts) (sender ∷ recipient ∷ accounts) =
      let (nonce, consumed) = consume sender.nonce t.nonce in
      elim (ltb sender.balance t.value || not consumed) [
        | true ↦ none
        | false ↦ elim (checked_add recipient.balance t.value) [
          | none ↦ none
          | some recipient_balance ↦
              unique_from
                (changeset
                  ++ (t.sender, record { balance = sender.balance - t.value; nonce = nonce })
                    ∷ (t.recipient, record recipient { balance = recipient_balance })
                    ∷ [])
                ts accounts
        ]
      ]

  unfoldable pub execute_unique : List (PreparedTransfer D) → List Account → Option Changeset
  unfolding unique_from
  execute_unique transfers accounts =
      if not (eqb (length accounts) (length transfers * 2))
      then none
      else elim (unique_from [] transfers accounts) [
        | none ↦ none
        | some changeset ↦ some (sort_by_key changeset)
      ]
