-- ===== src/Executor/Agreement.antt =====
-- A proposal and its verification agree: the transfers that the proposer kept execute from the
-- same state with the same changeset, and only the accounts that they name matter.
use constantinople.Base.{
  ◌≡◌, refl, inl, inr, true, Option, none, some, List, [], ◌∷◌, ◌++◌, arith, Bool-cases,
  Option-cases, All,
}
use constantinople.Base.Dict.{Dict, lookup}
use constantinople.Account.{AccountKey, Account, key_eq}
use constantinople.Executor.{
  State, PreparedTransfer, Overlay, new_overlay, apply_transfer, execute_from, execute,
  into_changeset,
}
use constantinople.Executor.Step.{
  apply_transfer-refused, apply_transfer-eq_of_lookup, base-apply_transfer,
}
use constantinople.Executor.Proposal.{
  PreparedTransaction, ProposalInput, Filtering, try_candidate, filter_from, propose_prepared,
}

abbrev over_base : State → Option Overlay → Option Overlay
over_base s none = none
over_base s (some o) = some (record { base = s; writes = o.writes })

module _ {D : Type 0} where
  execute_from-append :
      (o o' : Overlay) (ts : List (PreparedTransfer D)) (t : PreparedTransfer D)
      → execute_from o ts ≡ some o'
      → (apply_transfer o' t).1 ≡ true
      → execute_from o (ts ++ t ∷ []) ≡ some (apply_transfer o' t).0
  unfolding execute_from
  execute_from-append o o' [] t p q = ground arith
  execute_from-append o o' (u ∷ us) t p q =
      ground (arith, execute_from-append (apply_transfer o u).0 o' us t)

  -- Both states hold the same account for every key that the transfers name.
  abbrev pub AgreeOn : State → State → List (PreparedTransfer D) → Type 0
  AgreeOn s s' = All (λ t.
      (lookup t.sender s ≡ lookup t.sender s') × (lookup t.recipient s ≡ lookup t.recipient s'))

  execute_from-eq_of_lookup :
      (s s' : State) (w : Dict AccountKey Account) (ts : List (PreparedTransfer D))
      → AgreeOn s s' ts
      → execute_from (record { base = s'; writes = w }) ts
        ≡ over_base s' (execute_from (record { base = s; writes = w }) ts)
  unfolding execute_from
  execute_from-eq_of_lookup s s' w [] h = refl
  execute_from-eq_of_lookup s s' w (t ∷ ts) h =
      let alike = apply_transfer-eq_of_lookup s s' w t h.0.0 h.0.1 in
      let kept = base-apply_transfer (record { base = s; writes = w }) t in
      let w' = (apply_transfer (record { base = s; writes = w }) t).0.writes in
      let same : (apply_transfer (record { base = s; writes = w }) t).0
          ≡ record { base = s; writes = w' } =
        λ i. record { base = kept i; writes = w' } in
      elim (Bool-cases (apply_transfer (record { base = s; writes = w }) t).1) [
        | inl applied ↦ rw (alike, applied, same) (execute_from-eq_of_lookup s s' w' ts h.1)
        | inr refused ↦ rw (alike, refused)
      ]

module _ {L D S : Type 0} where
  try_candidate-executes :
      (o : Overlay) (f : Filtering L D S) (c : PreparedTransaction L D S)
      → execute_from o f.transfers ≡ some f.overlay
      → let g = try_candidate f c in execute_from o g.transfers ≡ some g.overlay
  unfolding try_candidate
  try_candidate-executes o f c h = ground (
    arith,
    execute_from-append o f.overlay f.transfers c.transfer h,
    apply_transfer-refused f.overlay c.transfer,
  )

  filter_from-executes :
      (o : Overlay) (f : Filtering L D S) (cs : List (PreparedTransaction L D S))
      → execute_from o f.transfers ≡ some f.overlay
      → let g = filter_from f cs in execute_from o g.transfers ≡ some g.overlay
  unfolding filter_from
  filter_from-executes o f [] h = h
  filter_from-executes o f (c ∷ cs) h =
      filter_from-executes o (try_candidate f c) cs (try_candidate-executes o f c h)

  pub execute-propose_prepared :
      (state : State) (input : ProposalInput L D S)
      → let out = propose_prepared state input in execute state out.transfers ≡ some out.changeset
  unfolding propose_prepared execute execute_from
  execute-propose_prepared state input =
      let start : Filtering L D S = record {
        overlay = new_overlay state;
        valid = [];
        transfers = [];
        invalid = input.invalid;
      } in
      rw (filter_from-executes (new_overlay state) start input.candidates refl, execute)

module _ {D : Type 0} where
  pub execute-eq_of_lookup :
      (s s' : State) (ts : List (PreparedTransfer D))
      → AgreeOn s s' ts
      → execute s' ts ≡ execute s ts
  unfolding execute into_changeset
  execute-eq_of_lookup s s' ts h =
      rw (execute_from-eq_of_lookup s s' [] ts h, execute)
        (ground (arith, Option-cases (execute_from (new_overlay s) ts)))
