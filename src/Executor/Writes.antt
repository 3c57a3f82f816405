-- ===== src/Executor/Writes.antt =====
-- What an execution writes: accounts that stay well formed, of the accounts that were loaded, each
-- once, in the order of the keys.
use constantinople.Base.{
  ◌+◌, ◌-◌, ◌^◌, ◌<◌, ◌≡◌, ◌≢◌, refl, ◌∙◌, inl, inr, none, some, List, [], ◌∷◌, arith, Bool-cases,
  Option-cases, All, ◌==◌, ap, All-true,
}
use constantinople.Base.Dict.{
  lookup, HasDistinctKeys, insert-HasDistinctKeys, lookup-insert, lookup-All, All-of_lookup,
}
use constantinople.Base.Sort.{
  sort_by_key, IsAscending, sort_by_key-IsAscending, IsAscending-HasDistinctKeys,
  lookup-sort_by_key,
}
use constantinople.Account.{AccountKey, Account, key_eq, key_ord, key_beq_iff}
use constantinople.Account.Nonce.{Nonce}
use constantinople.Account.Nonce.Consume.{IsNonce, consume-refines_set}
use constantinople.Executor.{
  State, Changeset, PreparedTransfer, Overlay, new_overlay, apply_transfer, execute_from, execute,
  into_changeset, set, get,
}
use constantinople.Executor.Step.{
  refused, to_self, to_other, Debits, Credits, apply_transfer-Applied, get-set, other_paid,
  base-apply_transfer,
}

-- The fields of an account are `u64`s, and its nonce state is valid.
pub record IsAccount (a : Account) : Type 0 where
  pub balance_fits : a.balance < 2 ^ 64
  pub nonce_valid : IsNonce a.nonce

-- The `u64` fields of a transfer.
pub record IsTransfer {D : Type 0} (t : PreparedTransfer D) : Type 0 where
  pub value_fits : t.value < 2 ^ 64
  pub nonce_fits : t.nonce < 2 ^ 64

abbrev pub IsState : State → Type 0
IsState = All (λ (e : AccountKey × Account). IsAccount e.1)

pub record IsSound (o : Overlay) : Type 0 where
  pub distinct : HasDistinctKeys o.writes
  pub accounts : (k : AccountKey) (a : Account) → get o k ≡ some a → IsAccount a
  pub loaded : (k : AccountKey) → lookup k o.base ≡ none → lookup k o.writes ≡ none

pub new_overlay-IsSound : (s : State) → IsState s → IsSound (new_overlay s)
new_overlay-IsSound s h = record {
  distinct = tt;
  accounts = λ k a. lookup-All (λ _ b. IsAccount b) s k a h;
  loaded = λ k e. refl;
}

pub set-IsSound :
    (o : Overlay) (k : AccountKey) (old a : Account)
    → get o k ≡ some old
    → IsAccount a
    → IsSound o
    → IsSound (set o k a)
set-IsSound o k old a e v h = record {
  distinct = insert-HasDistinctKeys k a o.writes h.distinct;
  accounts = λ j b p. elim (Bool-cases (j == k)) [
    | inl same ↦ (let q : b ≡ a = ground (arith, get-set o j k a) in rw q v)
    | inr other ↦ h.accounts j b (ground (arith, get-set o j k a))
  ];
  loaded =
      λ j p. ground (arith, h.loaded j, h.loaded k, lookup-insert j k a o.writes, key_beq_iff j k);
}

module _ {D : Type 0} where
  pub Debits-IsNonce :
      (o : Overlay) (t : PreparedTransfer D) (s : Account) (n : Nonce)
      → IsSound o
      → IsTransfer t
      → Debits o t s n
      → IsNonce n
  Debits-IsNonce o t s n h v d =
      let valid = h.accounts t.sender s d.loaded in
      let (_, next, _, _) = consume-refines_set s.nonce t.nonce 0 valid.nonce_valid v.nonce_fits in
      rw d.consumed at next

  other_paid-IsSound :
      (o : Overlay) (t : PreparedTransfer D) (s : Account) (n : Nonce) (r : Account)
      → IsTransfer t
      → IsSound o
      → Debits o t s n
      → Credits o t r
      → IsSound (other_paid o t s n r)
  other_paid-IsSound o t s n r v h d c =
      let paid : Account = record { balance = s.balance - t.value; nonce = n } in
      let first =
        set-IsSound o t.sender s paid d.loaded
          (record {
            balance_fits = omega (arith, (h.accounts t.sender s d.loaded).balance_fits);
            nonce_valid = Debits-IsNonce o t s n h v d;
          })
          h in
      let found : get (set o t.sender paid) t.recipient ≡ some r = ground (
        arith,
        get-set o t.recipient t.sender paid,
        c.loaded,
        c.apart,
        key_beq_iff t.sender t.recipient,
        key_beq_iff t.recipient t.sender,
      ) in
      set-IsSound (set o t.sender paid) t.recipient r (record r { balance = r.balance + t.value })
        found
        (record {
          balance_fits = c.fits;
          nonce_valid = (h.accounts t.recipient r c.loaded).nonce_valid;
        })
        first

  pub apply_transfer-IsSound :
      (o : Overlay) (t : PreparedTransfer D)
      → IsTransfer t
      → IsSound o
      → IsSound (apply_transfer o t).0
  apply_transfer-IsSound o t v h = elim (apply_transfer-Applied o t) [
    | refused e ↦ rw e h
    | to_self s n d same e ↦ rw e (
        set-IsSound o t.sender s (record s { nonce = n }) d.loaded
          (record {
            balance_fits = (h.accounts t.sender s d.loaded).balance_fits;
            nonce_valid = Debits-IsNonce o t s n h v d;
          })
          h)
    | to_other s n r d c e ↦ rw e (other_paid-IsSound o t s n r v h d c)
  ]

  -- An invariant of `apply_transfer` is one of the loop of `execute`.
  pub execute_from-inv {ℓ} :
      (P : Overlay → Type ℓ) (Q : PreparedTransfer D → Type 0)
      → ((o : Overlay) (t : PreparedTransfer D) → Q t → P o → P (apply_transfer o t).0)
      → (o o' : Overlay) (ts : List (PreparedTransfer D)) → All Q ts
      → P o
      → execute_from o ts ≡ some o'
      → P o'
  unfolding execute_from
  execute_from-inv P Q step o o' [] q p e = (let same : o' ≡ o = cc in rw same p)
  execute_from-inv P Q step o o' (t ∷ ts) q p e =
      execute_from-inv P Q step (apply_transfer o t).0 o' ts q.1 (step o t q.0 p) (ground arith)

  pub execute_from-IsSound :
      (o o' : Overlay) (ts : List (PreparedTransfer D))
      → All IsTransfer ts
      → IsSound o
      → execute_from o ts ≡ some o'
      → IsSound o'
  execute_from-IsSound = execute_from-inv IsSound IsTransfer apply_transfer-IsSound

  -- What `execute` returns is the sorted list of the writes of the loop.
  pub execute-some :
      (s : State) (ts : List (PreparedTransfer D)) (cs : Changeset)
      → execute s ts ≡ some cs
      → (o : Overlay) × (execute_from (new_overlay s) ts ≡ some o) × (cs ≡ sort_by_key o.writes)
  unfolding execute into_changeset
  execute-some s ts cs e = elim (Option-cases (execute_from (new_overlay s) ts)) [
    | inl bad ↦ absurd (ground arith)
    | inr (o, good) ↦ (o, good, ground arith)
  ]

  pub execute_from-base :
      (o o' : Overlay) (ts : List (PreparedTransfer D))
      → execute_from o ts ≡ some o'
      → o'.base ≡ o.base
  execute_from-base o o' ts =
      execute_from-inv (λ x. x.base ≡ o.base) (λ _. Unit) (λ x t _ h. base-apply_transfer x t ∙ h) o
        o' ts (All-true ts) refl

  -- From a well-formed state, a changeset names each account once, in ascending order of the keys;
  -- the accounts that it holds are well formed; and it names loaded accounts only.
  pub execute_changeset :
      (s : State) (ts : List (PreparedTransfer D)) (cs : Changeset)
      → IsState s
      → All IsTransfer ts
      → execute s ts ≡ some cs
      → IsAscending cs × IsState cs × All (λ (e : AccountKey × Account). lookup e.0 s ≢ none) cs
  execute_changeset s ts cs v q e =
      let (o, run, same) = execute-some s ts cs e in
      let sound = execute_from-IsSound (new_overlay s) o ts q (new_overlay-IsSound s v) run in
      let ascending = sort_by_key-IsAscending o.writes sound.distinct in
      let distinct = IsAscending-HasDistinctKeys (sort_by_key o.writes) ascending in
      let values = λ (k : AccountKey). lookup-sort_by_key k o.writes sound.distinct in
      let base = execute_from-base (new_overlay s) o ts run in
      rw same (
        ascending,
        All-of_lookup (λ _ a. IsAccount a) (sort_by_key o.writes) distinct
            (λ k a p. sound.accounts k a (ground (arith, values k))),
        All-of_lookup (λ k _. lookup k s ≢ none) (sort_by_key o.writes) distinct
            (λ k a p u. ground (arith, values k, sound.loaded k (ap (lookup k) base ∙ u))),
      )
