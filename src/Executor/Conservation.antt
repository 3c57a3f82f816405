-- ===== src/Executor/Conservation.antt =====
-- Where the money goes: the balance of every account after a block, and the sum of all of them.
use constantinople.Base.{
  ℕ, ◌+◌, ◌-◌, ◌≡◌, refl, ◌∙◌, inl, inr, Bool, true, false, Option, none, some, List, [], ◌∷◌,
  arith, Bool-cases, All, ◌==◌, ap,
}
use constantinople.Base.Dict.{lookup, elem, IsDistinct}
use constantinople.Base.Sort.{sort_by_key, lookup-sort_by_key}
use constantinople.Account.{AccountKey, Account, key_eq, key_ord, key_beq_iff}
use constantinople.Account.Nonce.{Nonce}
use constantinople.Executor.{
  State, Changeset, PreparedTransfer, Overlay, new_overlay, apply_transfer, execute_from, execute,
  set, get,
}
use constantinople.Executor.Step.{
  refused, to_self, to_other, Debits, Credits, apply_transfer-Applied, get-set, other_paid,
}
use constantinople.Executor.Writes.{
  IsState, IsTransfer, new_overlay-IsSound, execute_from-IsSound, execute-some, execute_from-base,
}

-- The balance that an overlay shows for an account; 0 for an account that is not loaded.
abbrev pub balance_of : Option Account → ℕ
balance_of none = 0
balance_of (some a) = a.balance

abbrev pub balance_in : Overlay → AccountKey → ℕ
balance_in o k = balance_of (get o k)

-- A loaded state with a changeset written over it.
abbrev pub written_over : State → Changeset → Overlay
written_over s cs = record { base = s; writes = cs }

abbrev pub when : Bool → ℕ → ℕ
when true n = n
when false n = 0

module _ {D : Type 0} where
  -- What the transfers take from an account and bring to it.
  abbrev pub sent : AccountKey → List (PreparedTransfer D) → ℕ
  sent k [] = 0
  sent k (t ∷ ts) = when (k == t.sender) t.value + sent k ts

  abbrev pub received : AccountKey → List (PreparedTransfer D) → ℕ
  received k [] = 0
  received k (t ∷ ts) = when (k == t.recipient) t.value + received k ts

  balance_self :
      (o : Overlay) (t : PreparedTransfer D) (s : Account) (n : Nonce) (k : AccountKey)
      → get o t.sender ≡ some s
      → balance_in (set o t.sender (record s { nonce = n })) k ≡ balance_in o k
  balance_self o t s n k e =
      ground (arith, get-set o k t.sender (record s { nonce = n }), key_beq_iff k t.sender)

  balance_other :
      (o : Overlay) (t : PreparedTransfer D) (s : Account) (n : Nonce) (r : Account)
      (k : AccountKey)
      → Debits o t s n
      → Credits o t r
      → balance_in (other_paid o t s n r) k + when (k == t.sender) t.value
        ≡ balance_in o k + when (k == t.recipient) t.value
  balance_other o t s n r k d c =
      let paid : Account = record { balance = s.balance - t.value; nonce = n } in
      ground (
        arith,
        get-set (set o t.sender paid) k t.recipient (record r { balance = r.balance + t.value }),
        get-set o k t.sender paid,
        key_beq_iff k t.sender,
        key_beq_iff k t.recipient,
        key_beq_iff t.sender t.recipient,
      )

  balance-apply_transfer :
      (o : Overlay) (t : PreparedTransfer D) (k : AccountKey)
      → (apply_transfer o t).1 ≡ true
      → balance_in (apply_transfer o t).0 k + when (k == t.sender) t.value
        ≡ balance_in o k + when (k == t.recipient) t.value
  balance-apply_transfer o t k h = elim (apply_transfer-Applied o t) [
    | refused e ↦ absurd (ground arith)
    | to_self s n d same e ↦ rw e (
        ground (
          arith,
          balance_self o t s n k d.loaded,
          key_beq_iff t.sender t.recipient,
          key_beq_iff k t.sender,
          key_beq_iff k t.recipient,
        ))
    | to_other s n r d c e ↦ rw e (balance_other o t s n r k d c)
  ]

  balance-execute_from :
      (o o' : Overlay) (ts : List (PreparedTransfer D)) (k : AccountKey)
      → execute_from o ts ≡ some o'
      → balance_in o' k + sent k ts ≡ balance_in o k + received k ts
  unfolding execute_from
  balance-execute_from o o' [] k e = ground arith
  balance-execute_from o o' (t ∷ ts) k e = elim (Bool-cases (apply_transfer o t).1) [
    | inr bad ↦ absurd (ground arith)
    | inl good ↦
        (let step = balance-apply_transfer o t k good in
          let rest = balance-execute_from (apply_transfer o t).0 o' ts k (ground arith) in
          omega arith)
  ]

  -- Reading a changeset over the state is reading the overlay.
  pub get-written_over :
      (s : State) (ts : List (PreparedTransfer D)) (cs : Changeset) (k : AccountKey) (o : Overlay)
      → IsState s
      → All IsTransfer ts
      → execute_from (new_overlay s) ts ≡ some o
      → cs ≡ sort_by_key o.writes
      → get (written_over s cs) k ≡ get o k
  get-written_over s ts cs k o v q run same =
      let sound = execute_from-IsSound (new_overlay s) o ts q (new_overlay-IsSound s v) run in
      let base = execute_from-base (new_overlay s) o ts run in
      ground (
        arith,
        ap (lookup k) same ∙ lookup-sort_by_key k o.writes sound.distinct,
        ap (lookup k) base,
      )

  -- After a block that executes, the balance of every account is what it was, less what the
  -- transfers that it sends carry, plus what those that it receives carry; a transfer of an account
  -- to itself counts on both sides.
  pub balance-execute :
      (s : State) (ts : List (PreparedTransfer D)) (cs : Changeset) (k : AccountKey)
      → IsState s
      → All IsTransfer ts
      → execute s ts ≡ some cs
      → balance_in (written_over s cs) k + sent k ts ≡ balance_in (new_overlay s) k + received k ts
  balance-execute s ts cs k v q e =
      let (o, run, same) = execute-some s ts cs e in
      rw (get-written_over s ts cs k o v q run same)
        (balance-execute_from (new_overlay s) o ts k run)

-- Sums over a set of accounts.
abbrev pub sum_over : (AccountKey → ℕ) → List AccountKey → ℕ
sum_over f [] = 0
sum_over f (k ∷ ks) = f k + sum_over f ks

sum_over-add :
    (f g : AccountKey → ℕ) (ks : List AccountKey)
    → sum_over (λ k. f k + g k) ks ≡ sum_over f ks + sum_over g ks
sum_over-add f g [] = refl
sum_over-add f g (k ∷ ks) = omega (arith, sum_over-add f g ks)

sum_over-zero : (ks : List AccountKey) → sum_over (λ _. 0) ks ≡ 0
sum_over-zero [] = refl
sum_over-zero (k ∷ ks) = omega (arith, sum_over-zero ks)

sum_over-congr :
    (f g : AccountKey → ℕ)
    → ((k : AccountKey) → f k ≡ g k)
    → (ks : List AccountKey) → sum_over f ks ≡ sum_over g ks
sum_over-congr f g h [] = refl
sum_over-congr f g h (k ∷ ks) = omega (arith, h k, sum_over-congr f g h ks)

sum_over-absent :
    (j : AccountKey) (v : ℕ) (ks : List AccountKey)
    → elem j ks ≡ false
    → sum_over (λ k. when (k == j) v) ks ≡ 0
sum_over-absent j v [] h = refl
sum_over-absent j v (k ∷ ks) h =
    ground (arith, sum_over-absent j v ks, key_beq_iff j k, key_beq_iff k j)

-- A value at one account of the set is counted once.
sum_over-one :
    (j : AccountKey) (v : ℕ) (ks : List AccountKey)
    → IsDistinct ks
    → elem j ks ≡ true
    → sum_over (λ k. when (k == j) v) ks ≡ v
sum_over-one j v [] d h = absurd (ground arith)
sum_over-one j v (k ∷ ks) d h =
    ground
      (arith, sum_over-one j v ks d.1, sum_over-absent j v ks, key_beq_iff j k, key_beq_iff k j)

module _ {D : Type 0} where
  abbrev total_value : List (PreparedTransfer D) → ℕ
  total_value [] = 0
  total_value (t ∷ ts) = t.value + total_value ts

  -- Sender and recipient of every transfer are in the set.
  abbrev pub IsAmong : List AccountKey → List (PreparedTransfer D) → Type 0
  IsAmong ks = All (λ t. (elem t.sender ks ≡ true) × (elem t.recipient ks ≡ true))

  sum_over-sent :
      (ks : List AccountKey) (ts : List (PreparedTransfer D))
      → IsDistinct ks
      → IsAmong ks ts
      → sum_over (λ k. sent k ts) ks ≡ total_value ts
  sum_over-sent ks [] d h = sum_over-zero ks
  sum_over-sent ks (t ∷ ts) d h = omega (
    arith,
    sum_over-add (λ k. when (k == t.sender) t.value) (λ k. sent k ts) ks,
    sum_over-one t.sender t.value ks d h.0.0,
    sum_over-sent ks ts d h.1,
  )

  sum_over-received :
      (ks : List AccountKey) (ts : List (PreparedTransfer D))
      → IsDistinct ks
      → IsAmong ks ts
      → sum_over (λ k. received k ts) ks ≡ total_value ts
  sum_over-received ks [] d h = sum_over-zero ks
  sum_over-received ks (t ∷ ts) d h = omega (
    arith,
    sum_over-add (λ k. when (k == t.recipient) t.value) (λ k. received k ts) ks,
    sum_over-one t.recipient t.value ks d h.0.1,
    sum_over-received ks ts d h.1,
  )

  -- A block that executes leaves the sum of the balances of any set of accounts that holds all
  -- senders and recipients as it was.
  pub execute_conserves :
      (s : State) (ts : List (PreparedTransfer D)) (cs : Changeset) (ks : List AccountKey)
      → IsState s
      → All IsTransfer ts
      → IsDistinct ks
      → IsAmong ks ts
      → execute s ts ≡ some cs
      → sum_over (balance_in (written_over s cs)) ks ≡ sum_over (balance_in (new_overlay s)) ks
  execute_conserves s ts cs ks v q d h e = omega (
    arith,
    sum_over-congr (λ k. balance_in (written_over s cs) k + sent k ts)
        (λ k. balance_in (new_overlay s) k + received k ts) (λ k. balance-execute s ts cs k v q e)
        ks,
    sum_over-add (balance_in (written_over s cs)) (λ k. sent k ts) ks,
    sum_over-add (balance_in (new_overlay s)) (λ k. received k ts) ks,
    sum_over-sent ks ts d h,
    sum_over-received ks ts d h,
  )
