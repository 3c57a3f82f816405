-- ===== src/Signed/Tests.antt =====
-- Strategies that split a body, and instances of the theorems on the parallel passes.
use constantinople.Base.{ℕ, ◌≡◌, refl, Option, none, some, List, [], ◌∷◌, map, replicate}
use constantinople.Transaction.{SignedTransaction}
use constantinople.Signed.{Strategy, materialize_transaction_chunks}
use constantinople.Signed.Chunks.{IsStrategy, Split, part, both, foldl, flatten, reduce}

-- Two workers: the first element, and the others.
abbrev fold_halves : {A R : Type 0} → List A → R → (R → A → R) → (R → R → R) → R
fold_halves [] init step combine = init
fold_halves (x ∷ xs) init step combine = combine (step init x) (foldl step init xs)

abbrev pair : Strategy
pair = record { parallelism_hint = 2; map_collect_vec = map; fold = fold_halves }

pair_folds :
    {A R : Type 0} (xs : List A) (init : R) (step : R → A → R) (combine : R → R → R)
    → (split : Split A) × (flatten split ≡ xs)
      × (fold_halves xs init step combine ≡ reduce init step combine split)
pair_folds [] init step combine = (part [], refl, refl)
pair_folds (x ∷ xs) init step combine = (both (part (x ∷ [])) (part xs), refl, refl)

pair-IsStrategy : IsStrategy pair
pair-IsStrategy = record { maps = λ f xs. refl; folds = pair_folds }

abbrev tx : ℕ → Option (SignedTransaction ℕ ℕ ℕ)
tx d = some (record {
  inner = record {
    inner = record { sender = 1; to = record { bytes = replicate 32 3 }; value = 5; nonce = d };
    seal = d;
  };
  signature = 12;
})

abbrev body : List (Option (SignedTransaction ℕ ℕ ℕ))
body = tx 12 ∷ tx 12 ∷ tx 12 ∷ []

both_paths :
    materialize_transaction_chunks (λ t. t) pair (tx 12 ∷ none ∷ tx 12 ∷ [])
    ≡ materialize_transaction_chunks (λ t. t) pair (tx 12 ∷ none ∷ [])
unfolding materialize_transaction_chunks
both_paths = refl
