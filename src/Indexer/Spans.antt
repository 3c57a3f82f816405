-- ===== src/Indexer/Spans.antt =====
-- crates/indexer/src/publisher/qmdb.rs: the spans of the uploads that wait, through the moves of the
-- committer, and the split of the completions.
use mathlib.Core.List.{map-append}
use constantinople.Base.{
  ℕ, ◌≡◌, inl, inr, sym, ap, ◌∙◌, true, Option, List, [], ◌∷◌, ◌++◌, map, All, append_assoc,
  Bool-cases,
}
use constantinople.Indexer.Commit.{PendingUploadCompletion, split_published, is_published}
use constantinople.Indexer.Side.{Span}

pub All-weaken {ℓ κ} :
    {A : Type 0} {P : A → Type ℓ} {Q : A → Type κ} (xs : List A)
    → ((a : A) → P a → Q a)
    → All P xs
    → All Q xs
All-weaken [] f h = tt
All-weaken (x ∷ xs) f h = (f x h.0, All-weaken xs f h.1)

module _ {A B : Type 0} (f : A → B) (P : B → Type 0) where
  pub All-of_map : (xs : List A) → All P (map f xs) → All (λ x. P (f x)) xs
  All-of_map [] h = tt
  All-of_map (x ∷ xs) h = (h.0, All-of_map xs h.1)

  pub All-to_map : (xs : List A) → All (λ x. P (f x)) xs → All P (map f xs)
  All-to_map [] h = tt
  All-to_map (x ∷ xs) h = (h.0, All-to_map xs h.1)

module _ {B U : Type 0} (f : B → Span) (g : U → Span) where
  -- An upload that is staged moves from the front of the channel to the end of the batches.
  pub staged_spans :
      (commits : List B) (b : B) (u : U) (rest queue : List U)
      → queue ≡ u ∷ rest
      → f b ≡ g u
      → map f commits ++ map g queue ≡ map f (commits ++ b ∷ []) ++ map g rest
  staged_spans commits b u rest queue front same =
      ap (λ us. map f commits ++ map g us) front
      ∙ ap (λ x. map f commits ++ x ∷ map g rest) (sym same)
      ∙ sym (append_assoc (map f commits) (f b ∷ []) (map g rest))
      ∙ ap (λ xs. xs ++ map g rest) (sym (map-append f commits (b ∷ [])))

  pub arrived_spans :
      (commits : List B) (u : U) (queue : List U)
      → map f commits ++ map g (queue ++ u ∷ []) ≡ (map f commits ++ map g queue) ++ g u ∷ []
  arrived_spans commits u queue =
      ap (λ xs. map f commits ++ xs) (map-append g queue (u ∷ []))
      ∙ sym (append_assoc (map f commits) (map g queue) (g u ∷ []))

  pub joined_spans :
      (before : List B) (b : B) (after commits : List B) (queue : List U)
      → commits ≡ before ++ b ∷ after
      → map f commits ++ map g queue ≡ map f before ++ f b ∷ (map f after ++ map g queue)
  joined_spans before b after commits queue split =
      ap (λ xs. map f xs ++ map g queue) split
      ∙ ap (λ xs. xs ++ map g queue) (map-append f before (b ∷ after))
      ∙ append_assoc (map f before) (f b ∷ map f after) (map g queue)

  pub left_spans :
      (before after : List B) (queue : List U)
      → map f before ++ (map f after ++ map g queue) ≡ map f (before ++ after) ++ map g queue
  left_spans before after queue =
      sym (append_assoc (map f before) (map f after) (map g queue))
      ∙ ap (λ xs. xs ++ map g queue) (sym (map-append f before after))

-- What is completed was pending and is published in both logs; what is retained was pending.
pub split_published-parts :
    (P : PendingUploadCompletion → Type 0) (s t : Option ℕ) (ps : List PendingUploadCompletion)
    → All P ps
    → All
        (λ (p : PendingUploadCompletion).
          (is_published s p.state_latest ≡ true) × (is_published t p.transaction_latest ≡ true))
        (split_published s t ps).0
      × All P (split_published s t ps).1
unfolding split_published
split_published-parts P s t [] h = (tt, tt)
split_published-parts P s t (p ∷ ps) h =
    let (done, kept) = split_published-parts P s t ps h.1 in
    elim (Bool-cases (is_published s p.state_latest)) [
      | inl left ↦ elim (Bool-cases (is_published t p.transaction_latest)) [
        | inl right ↦ rw (left, right) (((left, right), done), kept)
        | inr right ↦ rw (left, right) (done, (h.0, kept))
      ]
      | inr left ↦ rw left (done, (h.0, kept))
    ]
