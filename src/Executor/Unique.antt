-- ===== src/Executor/Unique.antt =====
-- `execute_unique`, which skips the overlay, against `execute`, where no account is named twice.
use constantinople.Base.{
  ℕ, ◌-◌, ◌*◌, ◌≡◌, refl, ◌∙◌, inl, inr, true, false, not, ◌||◌, Option, none, some, List, [], ◌∷◌,
  ◌++◌, arith, eqb, ltb, Bool-cases, Option-cases, All, append_assoc, length, ◌==◌,
}
use constantinople.Base.Word.{checked_add}
use constantinople.Base.Dict.{Dict, lookup, insert, elem, IsDistinct, lookup-insert, insert_new}
use constantinople.Account.{AccountKey, Account, key_eq, key_ord, key_beq_iff}
use constantinople.Account.Nonce.{consume}
use constantinople.Executor.{
  State, Changeset, PreparedTransfer, Overlay, new_overlay, apply_transfer, execute_from, execute,
  unique_from, execute_unique, into_changeset, set,
}

module _ {D : Type 0} where
  -- The accounts that a list of transfers names, sender before recipient.
  abbrev pub account_keys : List (PreparedTransfer D) → List AccountKey
  account_keys [] = []
  account_keys (t ∷ ts) = t.sender ∷ t.recipient ∷ account_keys ts

  -- `accounts` holds the loaded sender and recipient of each transfer, in order.
  abbrev pub Loads : State → List (PreparedTransfer D) → List Account → Type 0
  Loads s [] [] = Unit
  Loads s [] (a ∷ rest) = ⊥
  Loads s (t ∷ ts) [] = ⊥
  Loads s (t ∷ ts) (a ∷ []) = ⊥
  Loads s (t ∷ ts) (a ∷ b ∷ rest) =
      (lookup t.sender s ≡ some a) × (lookup t.recipient s ≡ some b) × Loads s ts rest

abbrev IsFresh : Dict AccountKey Account → List AccountKey → Type 0
IsFresh w = All (λ k. lookup k w ≡ none)

IsFresh-insert :
    (w : Dict AccountKey Account) (k : AccountKey) (a : Account) (ks : List AccountKey)
    → elem k ks ≡ false
    → IsFresh w ks
    → IsFresh (insert k a w) ks
IsFresh-insert w k a [] e f = tt
IsFresh-insert w k a (j ∷ ks) e f =
    ground (arith, IsFresh-insert w k a ks, lookup-insert j k a w, key_beq_iff j k, key_beq_iff k j)

IsFresh-nil : (ks : List AccountKey) → IsFresh [] ks
IsFresh-nil [] = tt
IsFresh-nil (k ∷ ks) = (refl, IsFresh-nil ks)

abbrev written : Option Overlay → Option Changeset
written none = none
written (some o) = some o.writes

module _ {D : Type 0} (s : State) (w : Dict AccountKey Account) (t : PreparedTransfer D)
    (a b : Account) (ea : lookup t.sender s ≡ some a) (eb : lookup t.recipient s ≡ some b)
    (fa : lookup t.sender w ≡ none) (fb : lookup t.recipient w ≡ none)
    (apart : (t.sender == t.recipient) ≡ false) where
  abbrev over : Overlay
  over = record { base = s; writes = w }

  refuses_debit :
      (ltb a.balance t.value || not (consume a.nonce t.nonce).1) ≡ true
      → (apply_transfer over t).1 ≡ false
  unfolding apply_transfer
  refuses_debit h = ground arith

  refuses_credit : checked_add b.balance t.value ≡ none → (apply_transfer over t).1 ≡ false
  unfolding apply_transfer
  refuses_credit h = ground arith

  pays :
      {c : ℕ}
      → (ltb a.balance t.value || not (consume a.nonce t.nonce).1) ≡ false
      → checked_add b.balance t.value ≡ some c
      → apply_transfer over t ≡ (
        set
            (set over t.sender
              (record { balance = a.balance - t.value; nonce = (consume a.nonce t.nonce).0 }))
            t.recipient
            (record b { balance = c }),
        true,
      )
  unfolding apply_transfer
  pays h k = ground arith

  pays_new :
      (v r : Account)
      → insert t.recipient r (insert t.sender v w) ≡ w ++ (t.sender, v) ∷ (t.recipient, r) ∷ []
  pays_new v r =
      let first : insert t.sender v w ≡ w ++ (t.sender, v) ∷ [] = insert_new t.sender v w fa in
      let free : lookup t.recipient (insert t.sender v w) ≡ none = ground (
        arith,
        lookup-insert t.recipient t.sender v w,
        key_beq_iff t.recipient t.sender,
        key_beq_iff t.sender t.recipient,
      ) in
      insert_new t.recipient r (insert t.sender v w) free ∙ rw (first, append_assoc)

module _ {D : Type 0} (s : State) where
  pub unique_from-eq_execute_from :
      (w : Dict AccountKey Account) (ts : List (PreparedTransfer D)) (accounts : List Account)
      → Loads s ts accounts
      → IsFresh w (account_keys ts)
      → IsDistinct (account_keys ts)
      → unique_from w ts accounts ≡ written (execute_from (record { base = s; writes = w }) ts)
  unfolding unique_from execute_from
  unique_from-eq_execute_from w [] accounts l f d = refl
  unique_from-eq_execute_from w (t ∷ ts) [] l f d = absurd l
  unique_from-eq_execute_from w (t ∷ ts) (a ∷ []) l f d = absurd l
  unique_from-eq_execute_from w (t ∷ ts) (a ∷ b ∷ accounts) l f d =
      let apart : (t.sender == t.recipient) ≡ false = ground arith in
      elim (Bool-cases (ltb a.balance t.value || not (consume a.nonce t.nonce).1)) [
        | inl bad ↦
            (let no_debit = refuses_debit s w t a b l.0 l.1 f.0 f.1.0 apart bad in
              ground (arith, no_debit))
        | inr good ↦ elim (Option-cases (checked_add b.balance t.value)) [
          | inl overflow ↦
              (let no_credit = refuses_credit s w t a b l.0 l.1 f.0 f.1.0 apart overflow in
                ground (arith, no_credit))
          | inr (c, fits) ↦
              (let v : Account = record {
                balance = a.balance - t.value;
                nonce = (consume a.nonce t.nonce).0;
              } in
                let r : Account = record b { balance = c } in
                let paid = pays s w t a b l.0 l.1 f.0 f.1.0 apart good fits in
                let new = pays_new s w t a b l.0 l.1 f.0 f.1.0 apart v r in
                let fresh : IsFresh (w ++ (t.sender, v) ∷ (t.recipient, r) ∷ []) (account_keys ts) =
                  rw new at (
                    IsFresh-insert (insert t.sender v w) t.recipient r (account_keys ts) d.1.0
                      (IsFresh-insert w t.sender v (account_keys ts) (ground arith) f.1.1)) in
                let rest =
                  unique_from-eq_execute_from (w ++ (t.sender, v) ∷ (t.recipient, r) ∷ []) ts
                    accounts l.2 fresh d.1.1 in
                rw (good, unique_from, fits, paid, execute_from, new) rest)
        ]
      ]

module _ {D : Type 0} where
  length-Loads :
      (s : State) (ts : List (PreparedTransfer D)) (accounts : List Account)
      → Loads s ts accounts
      → length accounts ≡ length ts * 2
  length-Loads s [] [] l = refl
  length-Loads s [] (a ∷ rest) l = absurd l
  length-Loads s (t ∷ ts) [] l = absurd l
  length-Loads s (t ∷ ts) (a ∷ []) l = absurd l
  length-Loads s (t ∷ ts) (a ∷ b ∷ rest) l = omega (arith, length-Loads s ts rest l.2)

  -- Where no account is named twice, and the list holds what the state holds for the senders and
  -- recipients in order, the fast path returns what the sequential executor returns, errors included.
  pub execute_unique-eq-execute :
      (s : State) (ts : List (PreparedTransfer D)) (accounts : List Account)
      → Loads s ts accounts
      → IsDistinct (account_keys ts)
      → execute_unique ts accounts ≡ execute s ts
  unfolding execute_unique execute into_changeset
  execute_unique-eq-execute s ts accounts l d =
      let counted : eqb (length accounts) (length ts * 2) ≡ true =
        ground (arith, length-Loads s ts accounts l) in
      let same = unique_from-eq_execute_from s [] ts accounts l (IsFresh-nil (account_keys ts)) d in
      elim (Option-cases (execute_from (new_overlay s) ts)) [
        | inl e ↦ rw (counted, same, e, execute)
        | inr (o, e) ↦ rw (counted, same, e, execute)
      ]
