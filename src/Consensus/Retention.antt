-- ===== src/Consensus/Retention.antt =====
-- Which blocks keep their state: pruning over a chain.
use native.Mathlib.Nat.{suc-mod, mod-lt, mod_self, mod-eq_of_lt}
use constantinople.Base.{
  ℕ, zero, suc, ◌-◌, ◌%◌, ◌<◌, ◌≡◌, ◌⊎◌, refl, ap, ◌∙◌, min, inl, inr, true, false, none, some,
  if◌then◌else◌, eqb, ltb, arith, Bool-cases,
}
use constantinople.Consensus.Glue.{Pruning, should_prune_after_finalize, finalized}

suc-mod-cases :
    (c n : ℕ) → 0 < c → ((suc n % c ≡ 0) × (suc (n % c) ≡ c)) ⊎ (suc n % c ≡ suc (n % c))
suc-mod-cases c n h = elim (Bool-cases (ltb (suc (n % c)) c)) [
  | inl below ↦ inr (suc-mod n c ∙ mod-eq_of_lt (ground arith))
  | inr full ↦
      (let top : suc (n % c) ≡ c = ground (arith, mod-lt n h) in
        inl (suc-mod n c ∙ ap (λ k. k % c) top ∙ mod_self c, top))
]

-- A chain: the end of the state range of the block at each height, and the sync boundary of the
-- state database when the block is finalized.
module _ (cadence : ℕ) (state_end sync_boundary : ℕ → ℕ) where
  -- The state of pruning after the blocks up to a height.
  abbrev pub after : ℕ → Pruning
  after zero = record {
    prune_cadence_blocks = cadence;
    previous_prune_cadence_state_end = state_end 0;
  }
  after (suc n) = (finalized (after n) (suc n) (state_end (suc n)) (sync_boundary (suc n))).0

  cadence-after : (n : ℕ) → (after n).prune_cadence_blocks ≡ cadence
  unfolding finalized
  cadence-after zero = refl
  cadence-after (suc n) = ground (arith, cadence-after n)

  prunes-after : (n : ℕ) → should_prune_after_finalize (after n) (suc n) ≡ eqb (suc n % cadence) 0
  prunes-after n = rw (cadence-after n, should_prune_after_finalize) (ground arith)

  previous-after :
      (n : ℕ)
      → 0 < cadence
      → (after n).previous_prune_cadence_state_end ≡ state_end (n - n % cadence)
  unfolding finalized
  previous-after zero h = ap state_end (omega arith)
  previous-after (suc n) h = elim (suc-mod-cases cadence n h) [
    | inl (hit, top) ↦
        (let prunes : should_prune_after_finalize (after n) (suc n) ≡ true =
            prunes-after n ∙ ap (λ k. eqb k 0) hit in
          rw (prunes, after, finalized) (ap state_end (omega arith)))
    | inr miss ↦
        (let keeps : should_prune_after_finalize (after n) (suc n) ≡ false =
            prunes-after n ∙ ap (λ k. eqb k 0) miss ∙ ground arith in
          rw (keeps, after, finalized) (previous-after n h ∙ ap state_end (omega arith)))
  ]

  -- A chain that is finalized height by height prunes at each multiple of the cadence and at no other
  -- height: the blocks below the height one cadence back, and the state up to the end of the range of
  -- the block at that height, or up to the sync boundary if that is lower. The cadence is positive.
  pub finalized-keeps_cadence :
      (n : ℕ)
      → 0 < cadence
      → (finalized (after n) (suc n) (state_end (suc n)) (sync_boundary (suc n))).1 ≡ (
          if eqb (suc n % cadence) 0
          then some (record {
            prune_height = suc n - cadence;
            prune_to = min (state_end (suc n - cadence)) (sync_boundary (suc n));
          })
          else none)
  unfolding finalized
  finalized-keeps_cadence n h = elim (suc-mod-cases cadence n h) [
    | inl (hit, top) ↦
        (let prunes : should_prune_after_finalize (after n) (suc n) ≡ true =
            prunes-after n ∙ ap (λ k. eqb k 0) hit in
          let back : n - n % cadence ≡ suc n - cadence = omega arith in
          rw (prunes, finalized, cadence-after n, previous-after n h, back, hit) refl)
    | inr miss ↦
        (let keeps : should_prune_after_finalize (after n) (suc n) ≡ false =
            prunes-after n ∙ ap (λ k. eqb k 0) miss ∙ ground arith in
          rw (keeps, finalized, miss) (ground arith))
  ]
