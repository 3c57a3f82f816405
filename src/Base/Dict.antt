-- ===== src/Base/Dict.antt =====
-- `HashMap` as an association list in insertion order. A hash map fixes no order of iteration: what
-- the program computes from one by iterating is stated for every order (`Base/Sort.antt`).
use constantinople.Base.{
  All, Bool-cases, inl, inr, ◌≡◌, ◌≢◌, refl, Bool, false, Option, none, some, List, [], ◌∷◌, ◌++◌,
  arith, Eq, ◌==◌, beq_refl, if◌then◌else◌, ◌||◌,
}

abbrev pub Dict {ℓ κ} : Type ℓ → Type κ → Type (ℓ ⊔ κ)
Dict K V = List (K × V)

module _ {ℓ κ} {K : Type ℓ} {V : Type κ} ⦃e : Eq K⦄ where
  -- `map.get(&k)`
  abbrev pub lookup : K → Dict K V → Option V
  lookup k [] = none
  lookup k ((j, v) ∷ d) = if k == j then some v else lookup k d

  -- `map.insert(k, v)`
  abbrev pub insert : K → V → Dict K V → Dict K V
  insert k v [] = (k, v) ∷ []
  insert k v ((j, w) ∷ d) = if k == j then (j, v) ∷ d else (j, w) ∷ insert k v d

  -- `map.remove(&k)`
  abbrev pub remove : K → Dict K V → Dict K V
  remove k [] = []
  remove k ((j, w) ∷ d) = if k == j then d else (j, w) ∷ remove k d

  -- No key occurs twice.
  abbrev pub HasDistinctKeys : Dict K V → Type κ
  HasDistinctKeys [] = Unit
  HasDistinctKeys ((k, v) ∷ d) = (lookup k d ≡ none) × HasDistinctKeys d

  pub lookup-insert :
      (j k : K) (v : V) (d : Dict K V)
      → lookup j (insert k v d) ≡ (if j == k then some v else lookup j d)
  lookup-insert j k v [] = refl
  lookup-insert j k v ((i, w) ∷ d) =
      ground (arith, lookup-insert j k v d, e.beq_iff j k, e.beq_iff k i, e.beq_iff j i)

  pub lookup-insert_self : (k : K) (v : V) (d : Dict K V) → lookup k (insert k v d) ≡ some v
  lookup-insert_self k v d = ground (arith, lookup-insert k k v d, beq_refl k)

  pub insert-HasDistinctKeys :
      (k : K) (v : V) (d : Dict K V) → HasDistinctKeys d → HasDistinctKeys (insert k v d)
  insert-HasDistinctKeys k v [] h = (refl, tt)
  insert-HasDistinctKeys k v ((j, w) ∷ d) h =
      ground (
        arith,
        insert-HasDistinctKeys k v d h.1,
        lookup-insert j k v d,
        e.beq_iff k j,
        e.beq_iff j k,
      )

  -- A new key goes to the end.
  pub insert_new :
      (k : K) (v : V) (d : Dict K V) → lookup k d ≡ none → insert k v d ≡ d ++ (k, v) ∷ []
  insert_new k v [] h = refl
  insert_new k v ((j, w) ∷ d) h = ground (arith, insert_new k v d)

  pub lookup-remove_ne : (j k : K) (d : Dict K V) → j ≢ k → lookup j (remove k d) ≡ lookup j d
  lookup-remove_ne j k [] n = refl
  lookup-remove_ne j k ((i, w) ∷ d) n =
      ground (arith, lookup-remove_ne j k d n, e.beq_iff k i, e.beq_iff j i)

  pub lookup-remove_self : (k : K) (d : Dict K V) → HasDistinctKeys d → lookup k (remove k d) ≡ none
  lookup-remove_self k [] h = refl
  lookup-remove_self k ((i, w) ∷ d) h = ground (arith, lookup-remove_self k d h.1, e.beq_iff k i)

  pub remove-HasDistinctKeys :
      (k : K) (d : Dict K V) → HasDistinctKeys d → HasDistinctKeys (remove k d)
  remove-HasDistinctKeys k [] h = tt
  remove-HasDistinctKeys k ((i, w) ∷ d) h =
      ground (arith, remove-HasDistinctKeys k d h.1, lookup-remove_ne i k d, e.beq_iff k i)

-- What holds of every entry holds of what is found, and the other way round.
module _ {ℓ κ μ} {K : Type ℓ} {V : Type κ} ⦃e : Eq K⦄ (P : K → V → Type μ) where
  pub lookup-All :
      (d : Dict K V) (k : K) (v : V) → All (λ x. P x.0 x.1) d → lookup k d ≡ some v → P k v
  lookup-All [] k v h p = absurd (ground arith)
  lookup-All ((j, w) ∷ d) k v h p = elim (Bool-cases (k == j)) [
    | inl same ↦
        (let at_key : k ≡ j = (e.beq_iff k j).0 same in
          let at_value : v ≡ w = ground arith in rw (at_key, at_value) h.0)
    | inr other ↦ lookup-All d k v h.1 (ground arith)
  ]

  pub All-of_lookup :
      (d : Dict K V)
      → HasDistinctKeys d
      → ((k : K) (v : V) → lookup k d ≡ some v → P k v)
      → All (λ x. P x.0 x.1) d
  All-of_lookup [] h f = tt
  All-of_lookup ((j, w) ∷ d) h f = (
    f j w (ground (arith, beq_refl j)),
    All-of_lookup d h.1 (λ k v p. f k v (ground (arith, e.beq_iff k j))),
  )

-- `HashSet` as a list without repetitions.
module _ {ℓ} {K : Type ℓ} ⦃e : Eq K⦄ where
  -- `set.contains(&k)`
  abbrev pub elem : K → List K → Bool
  elem k [] = false
  elem k (x ∷ xs) = k == x || elem k xs

  -- `set.insert(k)`
  abbrev pub add : K → List K → List K
  add k xs = if elem k xs then xs else xs ++ k ∷ []

  -- A set filled from a list.
  abbrev pub add_all : List K → List K → List K
  add_all [] s = s
  add_all (k ∷ ks) s = add_all ks (add k s)

  abbrev pub IsDistinct : List K → Type 0
  IsDistinct [] = Unit
  IsDistinct (x ∷ xs) = (elem x xs ≡ false) × IsDistinct xs

  pub elem-append : (k : K) (xs ys : List K) → elem k (xs ++ ys) ≡ (elem k xs || elem k ys)
  elem-append k [] ys = refl
  elem-append k (x ∷ xs) ys = ground (arith, elem-append k xs ys)

  pub elem-add : (j k : K) (s : List K) → elem j (add k s) ≡ (elem j s || j == k)
  elem-add j k s = ground (arith, elem-append j s (k ∷ []), e.beq_iff j k)

  pub elem-add_all : (j : K) (ks s : List K) → elem j (add_all ks s) ≡ (elem j s || elem j ks)
  elem-add_all j [] s = ground arith
  elem-add_all j (k ∷ ks) s = ground (arith, elem-add_all j ks (add k s), elem-add j k s)
