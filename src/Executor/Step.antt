-- ===== src/Executor/Step.antt =====
-- `apply_transfer` by cases: a transfer is refused and leaves the overlay alone, or it is one of the
-- two kinds of transfer below.
use constantinople.Base.{
  ◌+◌, ◌-◌, ◌^◌, ◌≤◌, ◌<◌, ◌≡◌, inl, inr, true, false, some, arith, ltb, if◌then◌else◌, ◌==◌,
  Bool-cases, Option-cases,
}
use constantinople.Base.Dict.{Dict, lookup, lookup-insert}
use constantinople.Account.{AccountKey, Account, key_eq, key_ord}
use constantinople.Account.Nonce.{Nonce, consume}
use constantinople.Executor.{State, PreparedTransfer, Overlay, get, set, apply_transfer}

pub get-set :
    (o : Overlay) (j k : AccountKey) (a : Account)
    → get (set o k a) j ≡ (if j == k then some a else get o j)
get-set o j k a = ground (arith, lookup-insert j k a o.writes)

module _ {D : Type 0} where
  -- What holds of every transfer that is applied: the sender has the funds and the nonce is fresh.
  pub record Debits (o : Overlay) (t : PreparedTransfer D) (s : Account) (n : Nonce) : Type 0 where
    pub loaded : get o t.sender ≡ some s
    pub funded : t.value ≤ s.balance
    pub consumed : consume s.nonce t.nonce ≡ (n, true)

  -- To another account the balance moves; it does not overflow there.
  pub record Credits (o : Overlay) (t : PreparedTransfer D) (r : Account) : Type 0 where
    pub apart : (t.sender == t.recipient) ≡ false
    pub loaded : get o t.recipient ≡ some r
    pub fits : r.balance + t.value < 2 ^ 64

  abbrev pub self_paid : Overlay → PreparedTransfer D → Account → Nonce → Overlay
  self_paid o t s n = set o t.sender (record s { nonce = n })

  abbrev pub other_paid : Overlay → PreparedTransfer D → Account → Nonce → Account → Overlay
  other_paid o t s n r =
      set (set o t.sender (record { balance = s.balance - t.value; nonce = n })) t.recipient
        (record r { balance = r.balance + t.value })

  pub data Applied (o : Overlay) (t : PreparedTransfer D) : Type 0 where
    refused : apply_transfer o t ≡ (o, false) → Applied o t
    to_self :
        (s : Account) (n : Nonce)
        → Debits o t s n
        → (t.sender == t.recipient) ≡ true
        → apply_transfer o t ≡ (self_paid o t s n, true)
        → Applied o t
    to_other :
        (s : Account) (n : Nonce) (r : Account)
        → Debits o t s n
        → Credits o t r
        → apply_transfer o t ≡ (other_paid o t s n r, true)
        → Applied o t

  debited :
      (o : Overlay) (t : PreparedTransfer D) (s : Account)
      → get o t.sender ≡ some s
      → ltb s.balance t.value ≡ false
      → (consume s.nonce t.nonce).1 ≡ true
      → Applied o t
  unfolding apply_transfer
  debited o t s p q c =
      let n = (consume s.nonce t.nonce).0 in
      let debits : Debits o t s n = record {
        loaded = p;
        funded = ground arith;
        consumed = ground arith;
      } in
      elim (Bool-cases (t.sender == t.recipient)) [
        | inl same ↦ to_self s n debits same (ground arith)
        | inr apart ↦ elim (Option-cases (get o t.recipient)) [
          | inl unknown ↦ refused (ground arith)
          | inr (r, k) ↦ elim (Bool-cases (ltb (r.balance + t.value) (2 ^ 64))) [
            | inr overflow ↦ refused (ground arith)
            | inl fits ↦
                to_other s n r debits (record { apart = apart; loaded = k; fits = ground arith })
                  (ground arith)
          ]
        ]
      ]

  pub apply_transfer-Applied : (o : Overlay) (t : PreparedTransfer D) → Applied o t
  unfolding apply_transfer
  apply_transfer-Applied o t = elim (Option-cases (get o t.sender)) [
    | inl unknown ↦ refused (ground arith)
    | inr (s, p) ↦ elim (Bool-cases (ltb s.balance t.value)) [
      | inl short ↦ refused (ground arith)
      | inr q ↦ elim (Bool-cases (consume s.nonce t.nonce).1) [
        | inr stale ↦ refused (ground arith)
        | inl c ↦ debited o t s p q c
      ]
    ]
  ]

  -- The overlay's base is never written.
  pub base-apply_transfer :
      (o : Overlay) (t : PreparedTransfer D) → (apply_transfer o t).0.base ≡ o.base
  base-apply_transfer o t = elim (apply_transfer-Applied o t) [
    | refused e ↦ rw e
    | to_self s n d same e ↦ rw e
    | to_other s n r d c e ↦ rw e
  ]

  -- A refused transfer changes nothing.
  pub apply_transfer-refused :
      (o : Overlay) (t : PreparedTransfer D)
      → (apply_transfer o t).1 ≡ false
      → (apply_transfer o t).0 ≡ o
  apply_transfer-refused o t h = elim (apply_transfer-Applied o t) [
    | refused e ↦ rw e
    | to_self s n d same e ↦ cc
    | to_other s n r d c e ↦ cc
  ]

  -- Two loaded states that agree on both accounts of a transfer treat it alike.
  pub apply_transfer-eq_of_lookup :
      (s s' : State) (w : Dict AccountKey Account) (t : PreparedTransfer D)
      → lookup t.sender s ≡ lookup t.sender s'
      → lookup t.recipient s ≡ lookup t.recipient s'
      → let (o, applied) = apply_transfer (record { base = s; writes = w }) t in
        apply_transfer (record { base = s'; writes = w }) t
        ≡ (record { base = s'; writes = o.writes }, applied)
  unfolding apply_transfer
  apply_transfer-eq_of_lookup s s' w t p q = ground arith
