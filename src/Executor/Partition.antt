-- ===== src/Executor/Partition.antt =====
-- The proposer loses and invents no transaction, and keeps the metadata of what it keeps.
use mathlib.Core.List.{Perm, perm_middle, perm_append_comm, map-append}
use mathlib.Core.List.Perm
use constantinople.Base.{
  ◌≡◌, refl, inl, inr, Option, some, List, [], ◌∷◌, ◌++◌, arith, Bool-cases, Option-cases, All,
  All-append, append_assoc, append-nil, ◌∙◌, collect, ℕ, map,
}
use constantinople.Transaction.{SignedTransaction}
use constantinople.Executor.{State, new_overlay, apply_transfer, execute}
use constantinople.Executor.Agreement.{AgreeOn, execute-eq_of_lookup, execute-propose_prepared}
use constantinople.Executor.Proposal.{
  PreparedTransaction, ProposalInput, Filtering, prepare_transfer, prepare_from, prepare_proposal,
  sort_out, try_candidate, filter_from, propose,
}

collect-append :
    {A B : Type 0} (f : A → Option B) (xs : List A) (ys : List B) (x : A) (y : B)
    → collect f xs ≡ some ys
    → f x ≡ some y
    → collect f (xs ++ x ∷ []) ≡ some (ys ++ y ∷ [])
collect-append f [] ys x y p q = ground arith
collect-append f (z ∷ zs) [] x y p q = ground arith
collect-append f (z ∷ zs) (w ∷ ws) x y p q = ground (arith, collect-append f zs ws x y)

module _ {A : Type 0} (x : A) (kept dropped rest : List A) where
  keep_perm : Perm (((kept ++ x ∷ []) ++ dropped) ++ rest) ((kept ++ dropped) ++ x ∷ rest)
  keep_perm = simp append_assoc (Perm.append_left kept (Perm.symm (perm_middle dropped rest)))

  drop_perm : Perm ((kept ++ (dropped ++ x ∷ [])) ++ rest) ((kept ++ dropped) ++ x ∷ rest)
  drop_perm = simp append_assoc (Perm.refl _)

-- Transactions that a loop still accounts for.
module _ {L D S : Type 0} where
  abbrev transactions_of : List (PreparedTransaction L D S) → List (SignedTransaction L D S)
  transactions_of = map (λ c. c.transaction)

  abbrev accounted :
      Filtering L D S → List (PreparedTransaction L D S) → List (SignedTransaction L D S)
  accounted f cs = (f.valid ++ f.invalid) ++ transactions_of cs

  try_candidate-perm :
      (f : Filtering L D S) (c : PreparedTransaction L D S) (cs : List (PreparedTransaction L D S))
      → Perm (accounted (try_candidate f c) cs) (accounted f (c ∷ cs))
  unfolding try_candidate
  try_candidate-perm f c cs = elim (Bool-cases (apply_transfer f.overlay c.transfer).1) [
    | inl applied ↦ rw applied (keep_perm c.transaction f.valid f.invalid (transactions_of cs))
    | inr refused ↦ rw refused (drop_perm c.transaction f.valid f.invalid (transactions_of cs))
  ]

  filter_from-perm :
      (f : Filtering L D S) (cs : List (PreparedTransaction L D S))
      → let g = filter_from f cs in Perm (g.valid ++ g.invalid) (accounted f cs)
  unfolding filter_from
  filter_from-perm f [] = rw (append-nil (f.valid ++ f.invalid)) (Perm.refl _)
  filter_from-perm f (c ∷ cs) =
      Perm.trans (filter_from-perm (try_candidate f c) cs) (try_candidate-perm f c cs)

module _ {L D S : Type 0} (write_sender : L → List ℕ) (sha256 : List ℕ → List ℕ) where
  -- Every candidate carries the transfer that its transaction prepares.
  abbrev IsPrepared : PreparedTransaction L D S → Type 0
  IsPrepared c = prepare_transfer write_sender sha256 c.transaction ≡ some c.transfer

  abbrev Prepares : Filtering L D S → Type 0
  Prepares f = collect (prepare_transfer write_sender sha256) f.valid ≡ some f.transfers

  try_candidate-Prepares :
      (f : Filtering L D S) (c : PreparedTransaction L D S)
      → IsPrepared c
      → Prepares f
      → Prepares (try_candidate f c)
  unfolding try_candidate
  try_candidate-Prepares f c p h = elim (Bool-cases (apply_transfer f.overlay c.transfer).1) [
    | inl applied ↦ rw applied (
        collect-append (prepare_transfer write_sender sha256) f.valid f.transfers c.transaction
          c.transfer h p)
    | inr refused ↦ rw refused h
  ]

  filter_from-Prepares :
      (f : Filtering L D S) (cs : List (PreparedTransaction L D S))
      → All IsPrepared cs
      → Prepares f
      → Prepares (filter_from f cs)
  unfolding filter_from
  filter_from-Prepares f [] p h = h
  filter_from-Prepares f (c ∷ cs) p h =
      filter_from-Prepares (try_candidate f c) cs p.1 (try_candidate-Prepares f c p.0 h)

  abbrev sorted_out :
      ProposalInput L D S → List (SignedTransaction L D S) → List (SignedTransaction L D S)
  sorted_out acc txs = (transactions_of acc.candidates ++ acc.invalid) ++ txs

  sort_out-perm :
      (acc : ProposalInput L D S) (tx : SignedTransaction L D S)
      (txs : List (SignedTransaction L D S))
      → Perm (sorted_out (sort_out write_sender sha256 acc tx) txs) (sorted_out acc (tx ∷ txs))
  unfolding sort_out
  sort_out-perm acc tx txs = elim (Option-cases (prepare_transfer write_sender sha256 tx)) [
    | inl bad ↦ rw (bad, sort_out) (drop_perm tx (transactions_of acc.candidates) acc.invalid txs)
    | inr (t, good) ↦
        rw (good, sort_out)
          (rw map-append (keep_perm tx (transactions_of acc.candidates) acc.invalid txs))
  ]

  prepare_from-perm :
      (acc : ProposalInput L D S) (txs : List (SignedTransaction L D S))
      → let input = prepare_from write_sender sha256 acc txs in
        Perm (transactions_of input.candidates ++ input.invalid) (sorted_out acc txs)
  unfolding prepare_from
  prepare_from-perm acc [] =
      rw (append-nil (transactions_of acc.candidates ++ acc.invalid)) (Perm.refl _)
  prepare_from-perm acc (tx ∷ txs) =
      Perm.trans (prepare_from-perm (sort_out write_sender sha256 acc tx) txs)
        (sort_out-perm acc tx txs)

  sort_out-IsPrepared :
      (acc : ProposalInput L D S) (tx : SignedTransaction L D S)
      → All IsPrepared acc.candidates
      → All IsPrepared (sort_out write_sender sha256 acc tx).candidates
  unfolding sort_out
  sort_out-IsPrepared acc tx h = elim (Option-cases (prepare_transfer write_sender sha256 tx)) [
    | inl bad ↦ rw (bad, sort_out) h
    | inr (t, good) ↦ rw (good, sort_out) (All-append IsPrepared acc.candidates _ h (good, tt))
  ]

  prepare_from-IsPrepared :
      (acc : ProposalInput L D S) (txs : List (SignedTransaction L D S))
      → All IsPrepared acc.candidates
      → All IsPrepared (prepare_from write_sender sha256 acc txs).candidates
  unfolding prepare_from
  prepare_from-IsPrepared acc [] h = h
  prepare_from-IsPrepared acc (tx ∷ txs) h =
      prepare_from-IsPrepared (sort_out write_sender sha256 acc tx) txs
        (sort_out-IsPrepared acc tx h)

  -- Whatever the state, the kept and the refused transactions of a proposal together are the
  -- submitted ones, each as often as it was submitted.
  pub propose-perm :
      (state : State) (txs : List (SignedTransaction L D S))
      → let out = propose write_sender sha256 state txs in Perm (out.valid ++ out.invalid) txs
  unfolding propose
  propose-perm state txs =
      let empty : ProposalInput L D S = record { candidates = []; invalid = [] } in
      let input = prepare_from write_sender sha256 empty txs in
      let start : Filtering L D S = record {
        overlay = new_overlay state;
        valid = [];
        transfers = [];
        invalid = input.invalid;
      } in
      Perm.trans (filter_from-perm start input.candidates) (
        Perm.trans (perm_append_comm input.invalid (transactions_of input.candidates))
          (prepare_from-perm empty txs))

  pub prepare_transfer-propose :
      (state : State) (txs : List (SignedTransaction L D S))
      → let out = propose write_sender sha256 state txs in
        collect (prepare_transfer write_sender sha256) out.valid ≡ some out.transfers
  unfolding propose
  prepare_transfer-propose state txs =
      let empty : ProposalInput L D S = record { candidates = []; invalid = [] } in
      let input = prepare_from write_sender sha256 empty txs in
      let start : Filtering L D S = record {
        overlay = new_overlay state;
        valid = [];
        transfers = [];
        invalid = input.invalid;
      } in
      filter_from-Prepares start input.candidates (prepare_from-IsPrepared empty txs tt) refl

  -- A verifier that prepares the kept transactions gets the transfers that the proposer applied, and
  -- executes them with the proposer's changeset, from any state that agrees with the proposer's on
  -- the accounts that they name.
  pub propose_executes :
      (state state' : State) (txs : List (SignedTransaction L D S))
      → AgreeOn state state' (propose write_sender sha256 state txs).transfers
      → let out = propose write_sender sha256 state txs in
        (collect (prepare_transfer write_sender sha256) out.valid ≡ some out.transfers)
        × (execute state' out.transfers ≡ some out.changeset)
  unfolding propose
  propose_executes state state' txs h = (
    prepare_transfer-propose state txs,
    execute-eq_of_lookup state state' (propose write_sender sha256 state txs).transfers h
        ∙ execute-propose_prepared state (prepare_proposal write_sender sha256 txs),
  )
