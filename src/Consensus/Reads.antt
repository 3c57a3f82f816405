-- ===== src/Consensus/Reads.antt =====
-- What loading accounts gives, where the batch reads as a function of the keys.
use constantinople.Base.{
  ◌+◌, ◌≤◌, ◌≡◌, refl, sym, ◌∙◌, inl, inr, true, false, ◌&&◌, Option, some, List, [], ◌∷◌, map, eqb,
  length, length-append, arith, All, Bool-cases, if◌then◌else◌, ◌==◌, beq_refl,
}
use constantinople.Base.Dict.{
  lookup, insert, elem, add, add_all, IsDistinct, lookup-insert, elem-add, elem-add_all,
}
use constantinople.Account.{AccountKey, Account, key_eq, key_beq_iff}
use constantinople.Executor.{State, PreparedTransfer, execute}
use constantinople.Executor.Agreement.{AgreeOn, execute-eq_of_lookup}
use constantinople.Executor.Unique.{account_keys, Loads, execute_unique-eq-execute}
use constantinople.Consensus.{Databases}
use constantinople.Consensus.Load.{
  LoadedState, unwrap_or_default, zip_accounts, load_accounts, load_state, load_execution_state,
  execute_loaded,
}

-- A batch reads: `get_many` answers with the contents at the keys, in the order of the keys.
abbrev pub Reads :
    {D : Type 0} (q : Databases D) → q.StateBatch → (AccountKey → Option Account) → Type 0
Reads q batch contents = (ks : List AccountKey) → q.get_many batch ks ≡ some (map contents ks)

-- An order of iteration keeps the elements.
abbrev pub KeepsElements : (List AccountKey → List AccountKey) → Type 0
KeepsElements iteration =
    (k : AccountKey) (ks : List AccountKey) → elem k (iteration ks) ≡ elem k ks

module _ (contents : AccountKey → Option Account) where
  -- The account at a key, by default a new one.
  abbrev pub account_at : AccountKey → Account
  account_at k = unwrap_or_default (contents k)

  lookup-zip_accounts :
      (j : AccountKey) (ks : List AccountKey) (s : State)
      → lookup j (zip_accounts ks (map contents ks) s)
        ≡ (if elem j ks then some (account_at j) else lookup j s)
  lookup-zip_accounts j [] s = refl
  lookup-zip_accounts j (k ∷ ks) s = elim (Bool-cases (j == k)) [
    | inl same ↦
        (let at : j ≡ k = (key_beq_iff j k).0 same in
          rw at (
            ground (
              arith,
              lookup-zip_accounts k ks (insert k (account_at k) s),
              lookup-insert k k (account_at k) s,
              beq_refl k,
            )))
    | inr other ↦ ground (
      arith,
      lookup-zip_accounts j ks (insert k (account_at k) s),
      lookup-insert j k (account_at k) s,
    )
  ]

  module _ {D : Type 0} where
    -- The state holds the accounts of all senders and recipients.
    abbrev pub HoldsFor : State → List (PreparedTransfer D) → Type 0
    HoldsFor s = All (λ t.
        (lookup t.sender s ≡ some (account_at t.sender))
        × (lookup t.recipient s ≡ some (account_at t.recipient)))

    HoldsFor-of_keys :
        (s : State) (ts : List (PreparedTransfer D))
        → ((k : AccountKey) → elem k (account_keys ts) ≡ true → lookup k s ≡ some (account_at k))
        → HoldsFor s ts
    HoldsFor-of_keys s [] h = tt
    HoldsFor-of_keys s (t ∷ ts) h = (
      (
        h t.sender (ground (arith, beq_refl t.sender)),
        h t.recipient (ground (arith, beq_refl t.recipient)),
      ),
      HoldsFor-of_keys s ts (λ k p. h k (ground arith)),
    )

    HoldsFor-Loads :
        (s : State) (ts : List (PreparedTransfer D))
        → HoldsFor s ts
        → Loads s ts (map unwrap_or_default (map contents (account_keys ts)))
    HoldsFor-Loads s [] h = tt
    HoldsFor-Loads s (t ∷ ts) h = (h.0.0, h.0.1, HoldsFor-Loads s ts h.1)

    HoldsFor-AgreeOn :
        (s s' : State) (ts : List (PreparedTransfer D))
        → HoldsFor s ts
        → HoldsFor s' ts
        → AgreeOn s s' ts
    HoldsFor-AgreeOn s s' [] h g = tt
    HoldsFor-AgreeOn s s' (t ∷ ts) h g =
        ((h.0.0 ∙ sym g.0.0, h.0.1 ∙ sym g.0.1), HoldsFor-AgreeOn s s' ts h.1 g.1)

length-add_all : (ks s : List AccountKey) → length (add_all ks s) ≤ length s + length ks
length-add_all [] s = omega arith
length-add_all (k ∷ ks) s = ground (arith, length-add_all ks (add k s), length-append s (k ∷ []))

-- A set that is as long as the list it was filled from shows that nothing occurs twice.
add_all-IsDistinct :
    (ks s : List AccountKey)
    → length (add_all ks s) ≡ length s + length ks
    → IsDistinct ks × ((k : AccountKey) → (elem k s && elem k ks) ≡ false)
add_all-IsDistinct [] s h = (tt, λ k. ground arith)
add_all-IsDistinct (k ∷ ks) s h = elim (Bool-cases (elem k s)) [
  | inl old ↦ absurd (ground (arith, length-add_all ks s))
  | inr fresh ↦
      (let (distinct, apart) =
          add_all-IsDistinct ks (add k s) (ground (arith, length-append s (k ∷ []))) in
        (
          (ground (arith, apart k, elem-add k k s, beq_refl k), distinct),
          λ j. ground (arith, apart j, elem-add j k s, key_beq_iff j k),
        ))
]

module _ {D : Type 0} (q : Databases D) (iteration : List AccountKey → List AccountKey)
    (contents : AccountKey → Option Account) (batch : q.StateBatch) where
  -- The state that `load_accounts` makes.
  abbrev state_of : List AccountKey → State
  state_of ks = zip_accounts ks (map contents ks) []

  load_accounts-eq :
      (ks : List AccountKey)
      → Reads q batch contents
      → load_accounts q batch ks ≡ some (state_of ks)
  load_accounts-eq [] r = refl
  load_accounts-eq (k ∷ ks) r = rw (r (k ∷ ks), load_accounts) refl

  state_of-HoldsFor :
      (ts : List (PreparedTransfer D))
      → KeepsElements iteration
      → HoldsFor contents (state_of (iteration (add_all (account_keys ts) []))) ts
  state_of-HoldsFor ts keeps =
      let ks = iteration (add_all (account_keys ts) []) in
      HoldsFor-of_keys contents (state_of ks) ts (λ k p. ground (
        arith,
        lookup-zip_accounts contents k ks [],
        keeps k (add_all (account_keys ts) []),
        elem-add_all k (account_keys ts) [],
      ))

  pub load_state-HoldsFor :
      (ts : List (PreparedTransfer D))
      → Reads q batch contents
      → KeepsElements iteration
      → (s : State) × (load_state q iteration batch ts ≡ some s) × HoldsFor contents s ts
  unfolding load_state
  load_state-HoldsFor [] r keeps = ([], refl, tt)
  load_state-HoldsFor (t ∷ ts) r keeps = (
    state_of (iteration (add_all (account_keys (t ∷ ts)) [])),
    load_accounts-eq (iteration (add_all (account_keys (t ∷ ts)) [])) r,
    state_of-HoldsFor (t ∷ ts) keeps,
  )

  load_unique :
      (t : PreparedTransfer D) (ts : List (PreparedTransfer D))
      → Reads q batch contents
      → eqb (length (add_all (account_keys (t ∷ ts)) [])) (length (account_keys (t ∷ ts))) ≡ true
      → load_execution_state q iteration batch (t ∷ ts)
        ≡ some (LoadedState.unique (map unwrap_or_default (map contents (account_keys (t ∷ ts)))))
  unfolding load_execution_state
  load_unique t ts r p = rw (p, load_execution_state, r (account_keys (t ∷ ts))) refl

  load_shared :
      (t : PreparedTransfer D) (ts : List (PreparedTransfer D))
      → Reads q batch contents
      → eqb (length (add_all (account_keys (t ∷ ts)) [])) (length (account_keys (t ∷ ts))) ≡ false
      → load_execution_state q iteration batch (t ∷ ts)
        ≡ some (LoadedState.shared (state_of (iteration (add_all (account_keys (t ∷ ts)) []))))
  unfolding load_execution_state
  load_shared t ts r p =
      rw
        (
          p,
          load_execution_state,
          load_accounts-eq (iteration (add_all (account_keys (t ∷ ts)) [])) r,
        )
        refl

  -- Whichever path the loading takes, execution gives what the sequential executor gives on any
  -- state that holds, for each sender and recipient, the account that the batch reads, and a new
  -- account where it reads none. `get_many` reads as a function of the keys, and the order of
  -- iteration of a set keeps its elements.
  pub execute_loaded-eq-execute :
      (s : State) (ts : List (PreparedTransfer D))
      → Reads q batch contents
      → KeepsElements iteration
      → HoldsFor contents s ts
      → (loaded : LoadedState) × (load_execution_state q iteration batch ts ≡ some loaded)
        × (execute_loaded loaded ts ≡ execute s ts)
  unfolding execute_loaded load_execution_state
  execute_loaded-eq-execute s [] r keeps h =
      (LoadedState.unique [], refl, execute_unique-eq-execute s [] [] tt tt)
  execute_loaded-eq-execute s (t ∷ ts) r keeps h =
      let keys = account_keys (t ∷ ts) in
      let set = add_all keys [] in
      elim (Bool-cases (eqb (length set) (length keys))) [
        | inl distinct ↦ (
          LoadedState.unique (map unwrap_or_default (map contents keys)),
          load_unique t ts r distinct,
          execute_unique-eq-execute s (t ∷ ts) (map unwrap_or_default (map contents keys))
              (HoldsFor-Loads contents s (t ∷ ts) h) (add_all-IsDistinct keys [] (ground arith)).0,
        )
        | inr repeated ↦ (
          LoadedState.shared (state_of (iteration set)),
          load_shared t ts r repeated,
          execute-eq_of_lookup s (state_of (iteration set)) (t ∷ ts) (
              HoldsFor-AgreeOn contents s (state_of (iteration set)) (t ∷ ts) h
                (state_of-HoldsFor (t ∷ ts) keeps)),
        )
      ]
