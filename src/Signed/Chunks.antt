-- ===== src/Signed/Chunks.antt =====
-- The parallel passes over the transactions of a body give what one pass over them gives.
use constantinople.Base.{
  ◌≡◌, refl, ap, ◌∙◌, inl, inr, Bool, true, false, ◌&&◌, Option, none, some, List, [], ◌∷◌, ◌++◌,
  map, collect, arith, Bool-cases, Option-cases, if◌then◌else◌, ◌>>=◌,
}
use constantinople.Transaction.{SignedTransaction, value, message_digest}
use constantinople.Signed.{
  Strategy, Verifier, runs_inline, all, then_some, materialize_transaction_chunks,
  signature_inputs_decode, preload_transaction_chunks, add_transactions, verify_transaction_batch,
  verify_transaction_chunks, collect_verified,
}

-- How a list was split for the workers, and their results joined.
pub data Split (A : Type 0) : Type 0 where
  part : (xs : List A) → Split A
  both : (left right : Split A) → Split A

abbrev pub foldl : {A R : Type 0} → (R → A → R) → R → List A → R
foldl step r [] = r
foldl step r (x ∷ xs) = foldl step (step r x) xs

module _ {A : Type 0} where
  abbrev pub flatten : Split A → List A
  flatten (part xs) = xs
  flatten (both left right) = flatten left ++ flatten right

  abbrev pub reduce : {R : Type 0} → R → (R → A → R) → (R → R → R) → Split A → R
  reduce init step combine (part xs) = foldl step init xs
  reduce init step combine (both left right) =
      combine (reduce init step combine left) (reduce init step combine right)

-- `map_collect_vec` keeps the order, and `fold` folds the parts of some split and combines them.
pub record IsStrategy (s : Strategy) : Type 1 where
  pub maps : {A B : Type 0} (f : A → B) (xs : List A) → s.map_collect_vec f xs ≡ map f xs
  pub folds :
      {A R : Type 0} (xs : List A) (init : R) (step : R → A → R) (combine : R → R → R)
      → (split : Split A) × (flatten split ≡ xs)
        × (s.fold xs init step combine ≡ reduce init step combine split)

module _ {A : Type 0} (p : A → Bool) where
  pub all-append : (xs ys : List A) → all p (xs ++ ys) ≡ (all p xs && all p ys)
  all-append [] ys = refl
  all-append (x ∷ xs) ys = ground (arith, all-append xs ys)

  foldl-all : (b : Bool) (xs : List A) → foldl (λ d x. d && p x) b xs ≡ (b && all p xs)
  foldl-all b [] = ground arith
  foldl-all b (x ∷ xs) = ground (arith, foldl-all (b && p x) xs)

  reduce-all :
      (split : Split A)
      → reduce true (λ d x. d && p x) (λ l r. l && r) split ≡ all p (flatten split)
  reduce-all (part xs) = foldl-all true xs
  reduce-all (both left right) =
      ground (arith, reduce-all left, reduce-all right, all-append (flatten left) (flatten right))

  pub fold-all :
      (s : Strategy) (xs : List A)
      → IsStrategy s
      → s.fold xs true (λ d x. d && p x) (λ l r. l && r) ≡ all p xs
  fold-all s xs h =
      let (split, flat, folded) = h.folds xs true (λ d x. d && p x) (λ l r. l && r) in
      folded ∙ reduce-all split ∙ ap (all p) flat

collect-map :
    {A B : Type 0} (f : A → Option B) (xs : List A) → collect (λ b. b) (map f xs) ≡ collect f xs
collect-map f [] = refl
collect-map f (x ∷ xs) = elim (Option-cases (f x)) [
  | inl missing ↦ rw (missing, collect) refl
  | inr (y, found) ↦ rw (found, collect, collect-map f xs) refl
]

then_some-true :
    {A B : Type 0} (a : A) (b : Bool) (c : B) (f : A → Option B)
    → (then_some a b >>= f) ≡ some c
    → b ≡ true
then_some-true a true c f h = refl
then_some-true a false c f h = absurd (ground arith)

module _ {L D S : Type 0} where
  -- The sequential path is what the parallel one gives.
  pub materialize-eq-collect :
      {A : Type 0} (get : A → Option (SignedTransaction L D S)) (s : Strategy) (lazies : List A)
      → IsStrategy s
      → materialize_transaction_chunks get s lazies ≡ collect get lazies
  unfolding materialize_transaction_chunks
  materialize-eq-collect get s [] h = refl
  materialize-eq-collect get s (lazy ∷ rest) h = elim (Bool-cases (runs_inline s (lazy ∷ rest))) [
    | inl inline ↦ rw (inline, materialize_transaction_chunks) refl
    | inr parallel ↦
        rw (parallel, materialize_transaction_chunks)
          (ap (collect (λ tx. tx)) (h.maps get (lazy ∷ rest)) ∙ collect-map get (lazy ∷ rest))
  ]

  collect_verified-if :
      (b : Bool) (txs : List (Option (SignedTransaction L D S)))
      → collect_verified b txs ≡ (if b then collect (λ tx. tx) txs else none)
  collect_verified-if true txs = refl
  collect_verified-if false txs = refl

  module _ {PK : Type 0} (decode : L → Option PK) where
    pub preload-eq-all :
        (s : Strategy) (txs : List (Option (SignedTransaction L D S)))
        → IsStrategy s
        → preload_transaction_chunks decode s txs
          ≡ then_some txs (all (signature_inputs_decode decode) txs)
    unfolding preload_transaction_chunks
    preload-eq-all s [] h = refl
    preload-eq-all s (lazy ∷ rest) h = elim (Bool-cases (runs_inline s (lazy ∷ rest))) [
      | inl inline ↦ rw (inline, preload_transaction_chunks) refl
      | inr parallel ↦
          rw (parallel, preload_transaction_chunks)
            (ap (then_some (lazy ∷ rest))
              (fold-all (signature_inputs_decode decode) s (lazy ∷ rest) h))
    ]

    all-collect :
        (txs : List (Option (SignedTransaction L D S)))
        → all (signature_inputs_decode decode) txs ≡ true
        → (decoded : List (SignedTransaction L D S)) × (collect (λ tx. tx) txs ≡ some decoded)
    all-collect [] h = ([], refl)
    all-collect (none ∷ rest) h = absurd (ground arith)
    all-collect (some tx ∷ rest) h =
        let (decoded, e) = all-collect rest (ground arith) in (tx ∷ decoded, rw (e, collect) refl)

    -- What passes the preloading decodes.
    pub preloaded-collect :
        {B : Type 0} (s : Strategy) (txs : List (Option (SignedTransaction L D S)))
        (f : List (Option (SignedTransaction L D S)) → Option B) (b : B)
        → IsStrategy s
        → (preload_transaction_chunks decode s txs >>= f) ≡ some b
        → (decoded : List (SignedTransaction L D S)) × (collect (λ tx. tx) txs ≡ some decoded)
    preloaded-collect s txs f b h p =
        let checked = all (signature_inputs_decode decode) txs in
        all-collect txs (then_some-true txs checked b f (rw (preload-eq-all s txs h) at p))

    module _ (v : Verifier D PK S) where
      -- Only transactions whose inputs decode enter a batch.
      add_transactions-decode :
          (batch last : v.Batch) (txs : List (Option (SignedTransaction L D S)))
          → add_transactions decode v batch txs ≡ some last
          → all (signature_inputs_decode decode) txs ≡ true
      add_transactions-decode batch last [] h = refl
      add_transactions-decode batch last (none ∷ rest) h = absurd (ground arith)
      add_transactions-decode batch last (some tx ∷ rest) h =
          elim (Option-cases (decode (value tx).sender)) [
            | inl bad ↦ absurd (ground (arith, rw (bad, add_transactions) at h))
            | inr (pk, good) ↦
                elim (Option-cases (v.add batch (message_digest tx) pk tx.signature)) [
                  | inl refused ↦ absurd (ground (arith, rw (good, add_transactions, refused) at h))
                  | inr (next, added) ↦
                      rw (good, signature_inputs_decode)
                        (add_transactions-decode next last rest
                          (rw (good, add_transactions, added) at h))
                ]
          ]

      verified-decode :
          (s : Strategy) (txs : List (Option (SignedTransaction L D S)))
          → verify_transaction_batch decode v s txs ≡ true
          → all (signature_inputs_decode decode) txs ≡ true
      verified-decode s txs h = elim (Option-cases (add_transactions decode v v.new txs)) [
        | inl refused ↦ absurd (ground (arith, rw (refused, verify_transaction_batch) at h))
        | inr (last, added) ↦ add_transactions-decode v.new last txs added
      ]

      -- A body passes if the batch verifier accepts it, whatever the preloading.
      pub verify_chunks-eq-batch :
          (signatures hashes : Strategy) (lazy : Option (SignedTransaction L D S))
          (rest : List (Option (SignedTransaction L D S)))
          → IsStrategy hashes
          → verify_transaction_chunks decode v signatures hashes (lazy ∷ rest) ≡ (
              if verify_transaction_batch decode v signatures (lazy ∷ rest)
              then collect (λ tx. tx) (lazy ∷ rest)
              else none)
      unfolding verify_transaction_chunks
      verify_chunks-eq-batch signatures hashes lazy rest h =
          let txs = lazy ∷ rest in
          let preloads = preload-eq-all hashes txs h in
          elim (Bool-cases (verify_transaction_batch decode v signatures txs)) [
            | inl accepted ↦
                (let decoded = verified-decode signatures txs accepted in
                  rw (preloads, verify_transaction_chunks, decoded, then_some)
                    (collect_verified-if (verify_transaction_batch decode v signatures txs) txs))
            | inr refused ↦ elim (Bool-cases (all (signature_inputs_decode decode) txs)) [
              | inl decoded ↦
                  rw (preloads, verify_transaction_chunks, decoded, then_some)
                    (collect_verified-if (verify_transaction_batch decode v signatures txs) txs)
              | inr undecoded ↦
                  rw (preloads, verify_transaction_chunks, undecoded, then_some, refused) refl
            ]
          ]
