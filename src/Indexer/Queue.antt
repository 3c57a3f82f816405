-- ===== src/Indexer/Queue.antt =====
-- crates/indexer/src/publisher/qmdb.rs: the uploads that `enqueue_queued_finalized` sends on extend
-- the two logs without a gap.
use constantinople.Base.{
  ℕ, ◌≡◌, ◌≤◌, ◌<◌, All, refl, sym, ap, subst, ◌∙◌, inl, inr, true, false, Bool, ◌&&◌, not, Option,
  none, some, List, [], ◌∷◌, ◌++◌, arith, eqb, leb, Option-cases, Result, if◌then◌else◌, ◌>>=◌,
}
use constantinople.Indexer.Upload.{
  PublishError, QueuedFinalizedUpload, Publisher, UploadCompletion, state_end, transaction_end,
  enqueue_queued_finalized, transaction_upload_end,
}

-- What happens to a publisher: an upload is offered, or its preparer stops.
pub data Event (C D P L S : Type 0) : Type 0 where
  offer : QueuedFinalizedUpload C D P L S → Event C D P L S
  stop : Event C D P L S

-- A property of the second part of a conditional, from both branches.
second_of_if :
    {A B : Type 0} (Q : B → Type 0) (test : Bool) (x y : A × B)
    → (test ≡ true → Q x.1)
    → (test ≡ false → Q y.1)
    → Q (if test then x else y).1
second_of_if Q true x y yes_case no_case = yes_case refl
second_of_if Q false x y yes_case no_case = no_case refl

abbrev or_some : {A : Type 0} → A → Option A → A
or_some a none = a
or_some a (some b) = b

abbrev or_pair : {A B : Type 0} → A × B → Option (A × B) → A × B
or_pair p none = p
or_pair p (some q) = q

eqb_of_not : (a b : ℕ) → not (eqb a b) ≡ false → b ≡ a
eqb_of_not a b h = ground arith

module _ {C D P L S : Type 0} where
  -- Uploads, each of which starts in both logs where the one before it ends.
  abbrev pub Follows : ℕ → ℕ → List (QueuedFinalizedUpload C D P L S) → ℕ → ℕ → Type 0
  Follows state tx [] state' tx' = (state ≡ state') × (tx ≡ tx')
  Follows state tx (u ∷ us) state' tx' =
      (u.state_start ≡ state)
      × (u.transaction_start ≡ tx)
      × (u.state_start ≤ state_end u)
      × ((end : ℕ) × (transaction_end u ≡ some end)
          × (u.transaction_start < end)
          × Follows (state_end u) end us state' tx')

  transaction_end-after :
      (u : QueuedFinalizedUpload C D P L S) (end : ℕ)
      → transaction_end u ≡ some end
      → u.transaction_start < end
  unfolding transaction_upload_end
  transaction_end-after u end h = ground arith

  Follows-append :
      (state tx : ℕ) (us : List (QueuedFinalizedUpload C D P L S)) (mid mid' : ℕ)
      (u : QueuedFinalizedUpload C D P L S) (end : ℕ)
      → Follows state tx us mid mid'
      → u.state_start ≡ mid
      → u.transaction_start ≡ mid'
      → u.state_start ≤ state_end u
      → transaction_end u ≡ some end
      → Follows state tx (us ++ u ∷ []) (state_end u) end
  Follows-append state tx [] mid mid' u end h p q o e =
      (p ∙ sym h.0, q ∙ sym h.1, o, (end, e, transaction_end-after u end e, (refl, refl)))
  Follows-append state tx (v ∷ us) mid mid' u end (a, b, r, (e', f, g, rest)) p q o e =
      (a, b, r, (e', f, g, Follows-append (state_end v) e' us mid mid' u end rest p q o e))

  -- A publisher after an event; `none` is a panic.
  unfoldable pub act : Event C D P L S → Publisher C D P L S → Option (Publisher C D P L S)
  act (offer upload) p = do (answer, after) ← enqueue_queued_finalized upload p; some after
  act stop p = some (record p { receiving = false })

  unfoldable pub act_all :
      List (Event C D P L S) → Publisher C D P L S → Option (Publisher C D P L S)
  act_all [] p = some p
  act_all (e ∷ es) p = elim (act e p) [ none ↦ none | some after ↦ act_all es after ]

  -- The state range of an upload that is offered does not end before it starts, as
  -- `validate_writer_range` sees to where an upload is built.
  abbrev pub IsOrdered : Event C D P L S → Type 0
  IsOrdered (offer upload) = upload.state_start ≤ state_end upload
  IsOrdered stop = Unit

  -- The uploads that were sent lead from the start to the next locations.
  abbrev pub IsContiguous : ℕ → ℕ → Publisher C D P L S → Type 0
  IsContiguous state tx p = Follows state tx p.sent p.state_next p.transaction_next

  enqueue-IsContiguous :
      (state tx : ℕ) (upload : QueuedFinalizedUpload C D P L S) (p q : Publisher C D P L S)
      (answer : Result PublishError UploadCompletion)
      → upload.state_start ≤ state_end upload
      → enqueue_queued_finalized upload p ≡ some (answer, q)
      → IsContiguous state tx p
      → IsContiguous state tx q
  unfolding enqueue_queued_finalized
  enqueue-IsContiguous state tx upload p q answer o h keep =
      elim (Option-cases (transaction_end upload)) [
        | inl panics ↦ absurd (ground (arith, rw (panics, enqueue_queued_finalized, ◌>>=◌) at h))
        | inr (end, found) ↦
            (let made =
                ap (λ o. (or_pair (answer, q) o).1)
                  (rw (found, enqueue_queued_finalized, ◌>>=◌) at h) in
              subst (IsContiguous state tx) made (
                second_of_if (IsContiguous state tx)
                  (leb (state_end upload) p.state_next && leb end p.transaction_next) _ _
                  (λ _. keep)
                  λ _.
                    second_of_if (IsContiguous state tx) (not (eqb p.state_next upload.state_start))
                      _ _ (λ _. keep)
                      λ at_state.
                        second_of_if (IsContiguous state tx)
                          (not (eqb p.transaction_next upload.transaction_start)) _ _ (λ _. keep)
                          λ at_tx.
                            second_of_if (IsContiguous state tx) (not p.receiving) _ _ (λ _. keep)
                              λ _.
                                Follows-append state tx p.sent p.state_next p.transaction_next
                                  upload end keep
                                  (eqb_of_not p.state_next upload.state_start at_state)
                                  (eqb_of_not p.transaction_next upload.transaction_start at_tx) o
                                  found))
      ]

  act-IsContiguous :
      (state tx : ℕ) (e : Event C D P L S) (p q : Publisher C D P L S)
      → IsOrdered e
      → act e p ≡ some q
      → IsContiguous state tx p
      → IsContiguous state tx q
  unfolding act
  act-IsContiguous state tx stop p q o h keep =
      subst (IsContiguous state tx) (ap (or_some q) h) keep
  act-IsContiguous state tx (offer upload) p q o h keep =
      elim (Option-cases (enqueue_queued_finalized upload p)) [
        | inl panics ↦ absurd (ground (arith, rw (panics, act, ◌>>=◌) at h))
        | inr ((answer, after), made) ↦
            subst (IsContiguous state tx) (ap (or_some q) (rw (made, act, ◌>>=◌) at h))
              (enqueue-IsContiguous state tx upload p after answer o made keep)
      ]

  -- Whatever uploads are offered to a publisher, in any order and whenever its preparer stops: if
  -- the uploads that it has sent lead without a gap or an overlap from two start locations to its
  -- next locations of both logs, as they do where it has sent none, then they still do so after all
  -- the offers that do not panic. No range of an upload ends before it starts: that is asked of the
  -- state ranges that are offered, and it holds of the transactions.
  pub act_all-IsContiguous :
      (state tx : ℕ) (es : List (Event C D P L S)) (p q : Publisher C D P L S)
      → All IsOrdered es
      → act_all es p ≡ some q
      → Follows state tx p.sent p.state_next p.transaction_next
      → Follows state tx q.sent q.state_next q.transaction_next
  unfolding act_all
  act_all-IsContiguous state tx [] p q o h keep =
      subst (IsContiguous state tx) (ap (or_some q) h) keep
  act_all-IsContiguous state tx (e ∷ es) p q o h keep = elim (Option-cases (act e p)) [
    | inl panics ↦ absurd (ground (arith, rw (panics, act_all) at h))
    | inr (after, made) ↦
        act_all-IsContiguous state tx es after q o.1 (rw (made, act_all) at h)
          (act-IsContiguous state tx e p after o.0 made keep)
  ]
