-- ===== src/Base/Sort.antt =====
-- `sort_unstable_by` on the entries of a map by their keys. Keys of a map are distinct, so that the
-- sorted list is the same for every order of iteration.
use Prim.Native.Nat.Ordering.{lt, gt}
use constantinople.Base.{
  ◌≡◌, refl, sym, ◌∙◌, none, some, [], ◌∷◌, arith, Eq, ◌==◌, Ord, beq_refl, if◌then◌else◌, ap,
}
use constantinople.Base.Dict.{Dict, lookup, HasDistinctKeys}

module _ {ℓ κ} {K : Type ℓ} {V : Type κ} ⦃o : Ord K⦄ where
  place : K × V → Dict K V → Dict K V
  place x [] = x ∷ []
  place x (y ∷ d) = elim (o.cmp x.0 y.0) [ gt ↦ y ∷ place x d | _ ↦ x ∷ y ∷ d ]

  unfoldable pub sort_by_key : Dict K V → Dict K V
  unfolding place
  sort_by_key [] = []
  sort_by_key (x ∷ d) = place x (sort_by_key d)

  -- Every key of `d` is above `k`.
  abbrev pub IsBelow : K → Dict K V → Type 0
  IsBelow k [] = Unit
  IsBelow k ((j, w) ∷ d) = (o.cmp k j ≡ lt) × IsBelow k d

  -- Keys ascend strictly.
  abbrev pub IsAscending : Dict K V → Type 0
  IsAscending [] = Unit
  IsAscending ((k, v) ∷ d) = IsBelow k d × IsAscending d

  IsBelow-trans : (k j : K) (d : Dict K V) → o.cmp k j ≡ lt → IsBelow j d → IsBelow k d
  IsBelow-trans k j [] h b = tt
  IsBelow-trans k j ((i, w) ∷ d) h b = (o.lt_trans k j i h b.0, IsBelow-trans k j d h b.1)

  IsBelow-place :
      (k j : K) (w : V) (d : Dict K V) → o.cmp k j ≡ lt → IsBelow k d → IsBelow k (place (j, w) d)
  unfolding place
  IsBelow-place k j w [] h b = (h, tt)
  IsBelow-place k j w ((i, v) ∷ d) h b = ground (arith, IsBelow-place k j w d h b.1)

module _ {ℓ κ} {K : Type ℓ} {V : Type κ} ⦃e : Eq K⦄ ⦃o : Ord K⦄ where
  lookup-IsBelow : (k : K) (d : Dict K V) → IsBelow k d → lookup k d ≡ none
  lookup-IsBelow k [] b = refl
  lookup-IsBelow k ((j, w) ∷ d) b =
      ground (arith, lookup-IsBelow k d b.1, e.beq_iff k j, o.cmp_refl k, o.cmp_refl j)

  pub IsAscending-HasDistinctKeys : (d : Dict K V) → IsAscending d → HasDistinctKeys d
  IsAscending-HasDistinctKeys [] s = tt
  IsAscending-HasDistinctKeys ((k, v) ∷ d) s =
      (lookup-IsBelow k d s.0, IsAscending-HasDistinctKeys d s.1)

  place-IsAscending :
      (k : K) (v : V) (d : Dict K V)
      → lookup k d ≡ none
      → IsAscending d
      → IsAscending (place (k, v) d)
  unfolding place
  place-IsAscending k v [] h s = (tt, tt)
  place-IsAscending k v ((j, w) ∷ d) h s = ground (
    arith,
    place-IsAscending k v d,
    IsBelow-place j k v d,
    IsBelow-trans k j d,
    o.eq_of_cmp k j,
    o.lt_of_gt k j,
    e.beq_iff k j,
  )

  lookup-place :
      (q k : K) (v : V) (d : Dict K V)
      → lookup k d ≡ none
      → lookup q (place (k, v) d) ≡ (if q == k then some v else lookup q d)
  unfolding place
  lookup-place q k v [] h = refl
  lookup-place q k v ((j, w) ∷ d) h =
      ground (arith, lookup-place q k v d, e.beq_iff q k, e.beq_iff q j, e.beq_iff k j)

  -- Sorting a map changes no value of it.
  pub lookup-sort_by_key :
      (q : K) (d : Dict K V) → HasDistinctKeys d → lookup q (sort_by_key d) ≡ lookup q d
  unfolding sort_by_key
  lookup-sort_by_key q [] h = refl
  lookup-sort_by_key q ((k, v) ∷ d) h =
      lookup-place q k v (sort_by_key d) (lookup-sort_by_key k d h.1 ∙ h.0)
      ∙ ap (λ t. if q == k then some v else t) (lookup-sort_by_key q d h.1)

  pub sort_by_key-IsAscending : (d : Dict K V) → HasDistinctKeys d → IsAscending (sort_by_key d)
  unfolding sort_by_key
  sort_by_key-IsAscending [] h = tt
  sort_by_key-IsAscending ((k, v) ∷ d) h =
      place-IsAscending k v (sort_by_key d) (lookup-sort_by_key k d h.1 ∙ h.0)
        (sort_by_key-IsAscending d h.1)

  tails_agree :
      (k : K) (v : V) (d c : Dict K V)
      → IsBelow k d
      → IsBelow k c
      → ((q : K) → lookup q ((k, v) ∷ d) ≡ lookup q ((k, v) ∷ c))
      → (q : K) → lookup q d ≡ lookup q c
  tails_agree k v d c b b' h q =
      ground (arith, h q, e.beq_iff q k, lookup-IsBelow k d b, lookup-IsBelow k c b')

  heads_agree :
      (k j : K) (v w : V) (d c : Dict K V)
      → IsAscending ((k, v) ∷ d)
      → IsAscending ((j, w) ∷ c)
      → ((q : K) → lookup q ((k, v) ∷ d) ≡ lookup q ((j, w) ∷ c))
      → (k ≡ j) × (v ≡ w)
  heads_agree k j v w d c s t h = ground (
    arith,
    h k,
    h j,
    beq_refl k,
    beq_refl j,
    e.beq_iff k j,
    e.beq_iff j k,
    o.eq_of_cmp k j,
    o.lt_of_gt k j,
    lookup-IsBelow k c,
    lookup-IsBelow j d,
    IsBelow-trans k j c,
    IsBelow-trans j k d,
  )

  -- An ascending list is determined by its values.
  pub IsAscending-eq_of_lookup :
      (d c : Dict K V) → IsAscending d → IsAscending c → ((q : K) → lookup q d ≡ lookup q c) → d ≡ c
  IsAscending-eq_of_lookup [] [] s t h = refl
  IsAscending-eq_of_lookup [] ((j, w) ∷ c) s t h = ground (arith, h j, beq_refl j)
  IsAscending-eq_of_lookup ((k, v) ∷ d) [] s t h = ground (arith, h k, beq_refl k)
  IsAscending-eq_of_lookup ((k, v) ∷ d) ((j, w) ∷ c) s t h =
      let (same_key, same_value) = heads_agree k j v w d c s t h in
      let h' : (q : K) → lookup q ((k, v) ∷ d) ≡ lookup q ((k, v) ∷ c) =
        rw (← same_key, ← same_value) at h in
      let below : IsBelow k c = rw (← same_key) at (t.0) in
      let rest : d ≡ c = IsAscending-eq_of_lookup d c s.1 t.1 (tails_agree k v d c s.0 below h') in
      cc

  -- Two orders of iteration over one map give one sorted list.
  pub sort_by_key-eq_of_lookup :
      (d c : Dict K V)
      → HasDistinctKeys d
      → HasDistinctKeys c
      → ((q : K) → lookup q d ≡ lookup q c)
      → sort_by_key d ≡ sort_by_key c
  sort_by_key-eq_of_lookup d c hd hc h =
      IsAscending-eq_of_lookup (sort_by_key d) (sort_by_key c) (sort_by_key-IsAscending d hd)
        (sort_by_key-IsAscending c hc)
        (λ q. lookup-sort_by_key q d hd ∙ h q ∙ sym (lookup-sort_by_key q c hc))
