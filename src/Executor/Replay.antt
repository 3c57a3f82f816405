-- ===== src/Executor/Replay.antt =====
-- No transfer takes effect twice: a nonce that is consumed stays consumed.
use constantinople.Base.{
  ℕ, ◌+◌, ◌-◌, ◌≡◌, ◌∙◌, inl, inr, Bool, true, false, ◌&&◌, ◌||◌, Option, none, some, List, [], ◌∷◌,
  arith, eqb, Bool-cases, All, ◌==◌, ap, ◌++◌, All-middle,
}
use constantinople.Base.Bits.{test_bit-beyond}
use constantinople.Base.Dict.{lookup}
use constantinople.Account.{AccountKey, Account, key_eq, key_ord, key_beq_iff}
use constantinople.Account.Nonce.{Nonce}
use constantinople.Account.Nonce.Consume.{IsNonce, is_used, used_after, consume-refines_set}
use constantinople.Executor.{
  State, Changeset, PreparedTransfer, Overlay, new_overlay, apply_transfer, execute_from, execute,
  set, get,
}
use constantinople.Executor.Step.{
  refused, to_self, to_other, Debits, Credits, apply_transfer-Applied, get-set, self_paid,
  other_paid,
}
use constantinople.Executor.Writes.{
  IsState, IsTransfer, IsSound, new_overlay-IsSound, apply_transfer-IsSound, execute-some,
}
use constantinople.Executor.Conservation.{written_over, get-written_over}

-- Whether an account has consumed a nonce; one that is not loaded has consumed none.
abbrev pub has_spent : Option Account → ℕ → Bool
has_spent none nonce = false
has_spent (some a) nonce = is_used a.nonce nonce

-- Consuming a nonce keeps what was consumed before, and adds the nonce.
used_after-grows :
    (n : Nonce) (nonce k : ℕ)
    → IsNonce n
    → (is_used n k || eqb k nonce) ≡ true
    → used_after n nonce k ≡ true
used_after-grows n nonce k v h =
    ground (arith, test_bit-beyond 64 (k - n.base - 1) n.bitmap v.bitmap_fits)

module _ {D : Type 0} where
  -- The debited account has consumed the nonce, which was fresh, and all that it had consumed.
  Debits-spends :
      (o : Overlay) (t : PreparedTransfer D) (s : Account) (n : Nonce) (k : ℕ)
      → IsSound o
      → IsTransfer t
      → Debits o t s n
      → (is_used s.nonce k || eqb k t.nonce) ≡ true
      → is_used n k ≡ true
  Debits-spends o t s n k h v d u =
      let valid = (h.accounts t.sender s d.loaded).nonce_valid in
      let (_, _, after, _) = consume-refines_set s.nonce t.nonce k valid v.nonce_fits in
      let grows = used_after-grows s.nonce t.nonce k valid u in ground (arith, d.consumed)

  Debits-fresh :
      (o : Overlay) (t : PreparedTransfer D) (s : Account) (n : Nonce)
      → IsSound o
      → IsTransfer t
      → Debits o t s n
      → is_used s.nonce t.nonce ≡ false
  Debits-fresh o t s n h v d =
      let valid = (h.accounts t.sender s d.loaded).nonce_valid in
      let (fresh, _, _, _) = consume-refines_set s.nonce t.nonce 0 valid v.nonce_fits in
      ground (arith, d.consumed)

  -- A spent nonce is refused.
  pub spent-refused :
      (o : Overlay) (t : PreparedTransfer D)
      → IsSound o
      → IsTransfer t
      → has_spent (get o t.sender) t.nonce ≡ true
      → (apply_transfer o t).1 ≡ false
  spent-refused o t h v u = elim (apply_transfer-Applied o t) [
    | refused e ↦ rw e
    | to_self s n d same e ↦ absurd (ground (arith, Debits-fresh o t s n h v d, d.loaded))
    | to_other s n r d c e ↦ absurd (ground (arith, Debits-fresh o t s n h v d, d.loaded))
  ]

  spends_self :
      (o : Overlay) (t : PreparedTransfer D) (s : Account) (n : Nonce) (j : AccountKey) (k : ℕ)
      → IsSound o
      → IsTransfer t
      → Debits o t s n
      → (has_spent (get o j) k || (j == t.sender && eqb k t.nonce)) ≡ true
      → has_spent (get (self_paid o t s n) j) k ≡ true
  spends_self o t s n j k h v d u = ground (
    arith,
    get-set o j t.sender (record s { nonce = n }),
    Debits-spends o t s n k h v d,
    d.loaded,
    key_beq_iff j t.sender,
  )

  spends_other :
      (o : Overlay) (t : PreparedTransfer D) (s : Account) (n : Nonce) (r : Account)
      (j : AccountKey) (k : ℕ)
      → IsSound o
      → IsTransfer t
      → Debits o t s n
      → Credits o t r
      → (has_spent (get o j) k || (j == t.sender && eqb k t.nonce)) ≡ true
      → has_spent (get (other_paid o t s n r) j) k ≡ true
  spends_other o t s n r j k h v d c u =
      let paid : Account = record { balance = s.balance - t.value; nonce = n } in
      ground (
        arith,
        get-set (set o t.sender paid) j t.recipient (record r { balance = r.balance + t.value }),
        get-set o j t.sender paid,
        Debits-spends o t s n k h v d,
        d.loaded,
        c.loaded,
        c.apart,
        key_beq_iff j t.sender,
        key_beq_iff j t.recipient,
        key_beq_iff t.sender t.recipient,
      )

  -- An applied transfer spends its nonce, and no transfer gives one back.
  pub apply_transfer-spends :
      (o : Overlay) (t : PreparedTransfer D) (j : AccountKey) (k : ℕ)
      → IsSound o
      → IsTransfer t
      → (has_spent (get o j) k || ((apply_transfer o t).1 && (j == t.sender && eqb k t.nonce)))
        ≡ true
      → has_spent (get (apply_transfer o t).0 j) k ≡ true
  apply_transfer-spends o t j k h v u = elim (apply_transfer-Applied o t) [
    | refused e ↦ rw e (ground arith)
    | to_self s n d same e ↦ rw e (spends_self o t s n j k h v d (ground arith))
    | to_other s n r d c e ↦ rw e (spends_other o t s n r j k h v d c (ground arith))
  ]

  execute_from-spends :
      (o o' : Overlay) (ts : List (PreparedTransfer D)) (j : AccountKey) (k : ℕ)
      → IsSound o
      → All IsTransfer ts
      → execute_from o ts ≡ some o'
      → has_spent (get o j) k ≡ true
      → has_spent (get o' j) k ≡ true
  unfolding execute_from
  execute_from-spends o o' [] j k h v e u = ground arith
  execute_from-spends o o' (t ∷ ts) j k h v e u =
      let o1 = (apply_transfer o t).0 in
      execute_from-spends o1 o' ts j k (apply_transfer-IsSound o t v.0 h) v.1 (ground arith)
        (apply_transfer-spends o t j k h v.0 (ground arith))

  -- `t` uses the nonce `k` of the account `j`.
  abbrev pub is_ticket : AccountKey → ℕ → PreparedTransfer D → Bool
  is_ticket j k t = t.sender == j && eqb t.nonce k

  -- No two transfers use one nonce of one account.
  abbrev pub HasNoReplay : List (PreparedTransfer D) → Type 0
  HasNoReplay [] = Unit
  HasNoReplay (t ∷ ts) = All (λ u. is_ticket t.sender t.nonce u ≡ false) ts × HasNoReplay ts

  -- Every nonce that the transfers use is consumed.
  abbrev pub AreSpent : Overlay → List (PreparedTransfer D) → Type 0
  AreSpent o = All (λ t. has_spent (get o t.sender) t.nonce ≡ true)

  AreSpent-eq :
      (o o' : Overlay) (ts : List (PreparedTransfer D))
      → ((k : AccountKey) → get o' k ≡ get o k)
      → AreSpent o ts
      → AreSpent o' ts
  AreSpent-eq o o' [] h a = tt
  AreSpent-eq o o' (t ∷ ts) h a =
      (ap (λ x. has_spent x t.nonce) (h t.sender) ∙ a.0, AreSpent-eq o o' ts h a.1)

  head_applied :
      (o o' : Overlay) (t : PreparedTransfer D) (ts : List (PreparedTransfer D))
      → execute_from o (t ∷ ts) ≡ some o'
      → ((apply_transfer o t).1 ≡ true) × (execute_from (apply_transfer o t).0 ts ≡ some o')
  unfolding execute_from
  head_applied o o' t ts e = ground arith

  fresh_tickets :
      (o o' : Overlay) (ts : List (PreparedTransfer D)) (j : AccountKey) (k : ℕ)
      → IsSound o
      → All IsTransfer ts
      → execute_from o ts ≡ some o'
      → has_spent (get o j) k ≡ true
      → All (λ u. is_ticket j k u ≡ false) ts
  fresh_tickets o o' [] j k h v e u = tt
  fresh_tickets o o' (t ∷ ts) j k h v e u =
      let (applied, rest) = head_applied o o' t ts e in
      (
        ground (arith, spent-refused o t h v.0, key_beq_iff t.sender j),
        fresh_tickets (apply_transfer o t).0 o' ts j k (apply_transfer-IsSound o t v.0 h) v.1 rest
            (apply_transfer-spends o t j k h v.0 (ground arith)),
      )

  execute_from_replay :
      (o o' : Overlay) (ts : List (PreparedTransfer D))
      → IsSound o
      → All IsTransfer ts
      → execute_from o ts ≡ some o'
      → HasNoReplay ts × AreSpent o' ts
  execute_from_replay o o' [] h v e = (tt, tt)
  execute_from_replay o o' (t ∷ ts) h v e =
      let (applied, rest) = head_applied o o' t ts e in
      let o1 = (apply_transfer o t).0 in
      let sound = apply_transfer-IsSound o t v.0 h in
      let spent : has_spent (get o1 t.sender) t.nonce ≡ true =
        apply_transfer-spends o t t.sender t.nonce h v.0
          (ground (arith, key_beq_iff t.sender t.sender)) in
      let (no_replay, are_spent) = execute_from_replay o1 o' ts sound v.1 rest in
      (
        (fresh_tickets o1 o' ts t.sender t.nonce sound v.1 rest spent, no_replay),
        (execute_from-spends o1 o' ts t.sender t.nonce sound v.1 rest spent, are_spent),
      )

  -- A block that executes from a well-formed state uses no nonce of an account twice, and in the
  -- state that it leaves every nonce that it used is consumed.
  pub execute_no_replay :
      (s : State) (ts : List (PreparedTransfer D)) (cs : Changeset)
      → IsState s
      → All IsTransfer ts
      → execute s ts ≡ some cs
      → HasNoReplay ts × AreSpent (written_over s cs) ts
  execute_no_replay s ts cs v q e =
      let (o, run, same) = execute-some s ts cs e in
      let (no_replay, spent) =
        execute_from_replay (new_overlay s) o ts (new_overlay-IsSound s v) q run in
      (
        no_replay,
        AreSpent-eq o (written_over s cs) ts (λ k. get-written_over s ts cs k o v q run same) spent,
      )

  spent_execute_from :
      (o : Overlay) (ts us : List (PreparedTransfer D)) (t : PreparedTransfer D)
      → IsSound o
      → All IsTransfer ts
      → IsTransfer t
      → has_spent (get o t.sender) t.nonce ≡ true
      → execute_from o (ts ++ t ∷ us) ≡ none
  unfolding execute_from
  spent_execute_from o [] us t h v q u = rw (spent-refused o t h q u)
  spent_execute_from o (x ∷ ts) us t h v q u = elim (Bool-cases (apply_transfer o x).1) [
    | inr bad ↦ rw bad
    | inl good ↦ rw good (
        spent_execute_from (apply_transfer o x).0 ts us t (apply_transfer-IsSound o x v.0 h) v.1 q
          (apply_transfer-spends o x t.sender t.nonce h v.0 (ground arith)))
  ]

  -- A transfer that has executed in one block makes any later block invalid that names it, or any
  -- other transfer with its sender and nonce: `s'` is the well-formed state that the later block
  -- loads, in which the sender's account is what the first block left.
  pub execute_replay_rejected :
      (s s' : State) (before after later later' : List (PreparedTransfer D))
      (t u : PreparedTransfer D) (cs : Changeset)
      → IsState s
      → IsState s'
      → All IsTransfer (before ++ t ∷ after)
      → All IsTransfer later
      → IsTransfer u
      → execute s (before ++ t ∷ after) ≡ some cs
      → lookup t.sender s' ≡ get (written_over s cs) t.sender
      → is_ticket t.sender t.nonce u ≡ true
      → execute s' (later ++ u ∷ later') ≡ none
  unfolding execute
  execute_replay_rejected s s' before after later later' t u cs v v' q q' w e same ticket =
      let (_, spent) = execute_no_replay s (before ++ t ∷ after) cs v q e in
      let here =
        All-middle
          (λ (x : PreparedTransfer D). has_spent (get (written_over s cs) x.sender) x.nonce ≡ true)
          before t after spent in
      let at_u : has_spent (get (new_overlay s') u.sender) u.nonce ≡ true =
        ground (arith, same, here, key_beq_iff u.sender t.sender) in
      rw (
        spent_execute_from (new_overlay s') later later' u (new_overlay-IsSound s' v') q' w at_u,
        execute,
      )
