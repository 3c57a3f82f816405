-- ===== src/Indexer/Side.antt =====
-- crates/indexer/src/publisher/qmdb.rs: the bookkeeping of the committer about one of its writers: which
-- locations wait, which are stored, and which completions depend on them.
use constantinople.Base.{
  ℕ, ◌+◌, ◌≤◌, ◌<◌, ◌≡◌, ◌↔◌, ◌⊎◌, inl, inr, sym, subst, ◌∙◌, List, [], ◌∷◌, ◌++◌, All, All-append,
  arith, some,
}
use native.Mathlib.Decide.{dec_lt}
use native.Mathlib.Nat.{le_trans}
use constantinople.Indexer.Writer.{QmdbWriter, IsWriter}

-- The locations from a first to a last.
abbrev pub Span : Type 0
Span = ℕ × ℕ

-- A location lies in one of the spans.
abbrev pub Covered : ℕ → List Span → Type 0
Covered l [] = ⊥
Covered l (s ∷ ss) = ((s.0 ≤ l) × (l ≤ s.1)) ⊎ Covered l ss

pub Covered-append_left : (l : ℕ) (xs ys : List Span) → Covered l xs → Covered l (xs ++ ys)
Covered-append_left l [] ys h = absurd h
Covered-append_left l (x ∷ xs) ys (inl h) = inl h
Covered-append_left l (x ∷ xs) ys (inr h) = inr (Covered-append_left l xs ys h)

pub Covered-append_right : (l : ℕ) (xs ys : List Span) → Covered l ys → Covered l (xs ++ ys)
Covered-append_right l [] ys h = h
Covered-append_right l (x ∷ xs) ys h = inr (Covered-append_right l xs ys h)

-- A location that is covered is covered by a given span, or without it.
pub Covered-middle :
    (l : ℕ) (xs : List Span) (s : Span) (ys : List Span)
    → Covered l (xs ++ s ∷ ys)
    → ((s.0 ≤ l) × (l ≤ s.1)) ⊎ Covered l (xs ++ ys)
Covered-middle l [] s ys h = h
Covered-middle l (x ∷ xs) s ys (inl h) = inr (inl h)
Covered-middle l (x ∷ xs) s ys (inr h) = elim (Covered-middle l xs s ys h) [
  | inl here ↦ inl here
  | inr there ↦ inr (inr there)
]

All-weaken {ℓ κ} :
    {A : Type 0} {P : A → Type ℓ} {Q : A → Type κ} (xs : List A)
    → ((a : A) → P a → Q a)
    → All P xs
    → All Q xs
All-weaken [] f h = tt
All-weaken (x ∷ xs) f h = (f x h.0, All-weaken xs f h.1)

All-without {ℓ} :
    {A : Type 0} (P : A → Type ℓ) (xs : List A) (y : A) (ys : List A)
    → All P (xs ++ y ∷ ys)
    → P y × All P (xs ++ ys)
All-without P [] y ys h = h
All-without P (x ∷ xs) y ys h = let (one, rest) = All-without P xs y ys h.1 in (one, (h.0, rest))

module _ {Row : Type 0} (w : QmdbWriter Row) (laws : IsWriter w) where
  open laws use {Persisted, first_location, next}

  -- Neither the next location nor what is persisted changes.
  abbrev pub SameLog : w.State → w.State → Type 0
  SameLog s s' = (next s' ≡ next s) × ((l : ℕ) → Persisted s' l ↔ Persisted s l)

  pub SameLog-trans : (a b c : w.State) → SameLog a b → SameLog b c → SameLog a c
  SameLog-trans a b c h k =
      (k.0 ∙ h.0, (λ l. ((λ p. (h.1 l).0 ((k.1 l).0 p)), (λ p. (k.1 l).1 ((h.1 l).1 p)))))

  abbrev pub span : w.Upload → Span
  span u = (first_location u, w.latest_location u)

  -- A location that was persisted at the start, or lies in a stored span.
  abbrev pub IsStored : w.State → List Span → ℕ → Type 0
  IsStored s0 stored l = Persisted s0 l ⊎ Covered l stored

  -- From the state `s0` the writer came to `s`: the spans in `waiting` are to be stored, those in
  -- `stored` are; the latest locations in `pend` wait for a watermark, and those in `done` had one.
  pub record IsSide (s0 s : w.State) (waiting stored : List Span) (pend done : List ℕ)
      : Type 0 where
    pub tracked : (l : ℕ) → Persisted s l → IsStored s0 stored l
    pub ready : (l : ℕ) → l < next s → Persisted s l ⊎ Covered l waiting
    pub waits : All (λ (x : Span). x.1 < next s) waiting
    pub pends : All (λ p. p < next s) pend
    pub safe : All (λ p. (l : ℕ) → l ≤ p → IsStored s0 stored l) done

  pub IsSide-start :
      (s0 : w.State) → ((l : ℕ) → l < next s0 → Persisted s0 l) → IsSide s0 s0 [] [] [] []
  IsSide-start s0 h = record {
    tracked = λ l p. inl p;
    ready = λ l p. inl (h l p);
    waits = tt;
    pends = tt;
    safe = tt;
  }

  module _ (s0 s s' : w.State) (waiting stored : List Span) (pend done : List ℕ)
      (side : IsSide s0 s waiting stored pend done) where
    pub IsSide-same : SameLog s s' → IsSide s0 s' waiting stored pend done
    IsSide-same h = record {
      tracked = λ l p. side.tracked l ((h.1 l).0 p);
      ready = λ l p. elim (side.ready l (rw (sym h.0) p)) [
        | inl now ↦ inl ((h.1 l).1 now)
        | inr later ↦ inr later
      ];
      waits = rw h.0 side.waits;
      pends = rw h.0 side.pends;
      safe = side.safe;
    }

    -- An upload takes the next locations.
    pub IsSide-arrive :
        (u : w.Upload)
        → first_location u ≡ next s
        → first_location u ≤ w.latest_location u
        → w.latest_location u < next s'
        → next s' ≤ w.latest_location u + 1
        → ((l : ℕ) → Persisted s' l ↔ Persisted s l)
        → IsSide s0 s' (waiting ++ span u ∷ []) stored pend done
    IsSide-arrive u first holds below above same = record {
      tracked = λ l p. side.tracked l ((same l).0 p);
      ready = λ l p. elim (dec_lt l (next s)) [
        | yes before ↦ elim (side.ready l before) [
          | inl now ↦ inl ((same l).1 now)
          | inr later ↦ inr (Covered-append_left l waiting (span u ∷ []) later)
        ]
        | no after ↦
            inr (Covered-append_right l waiting (span u ∷ []) (inl (omega arith, omega arith)))
      ];
      waits =
          All-append (λ (x : Span). x.1 < next s') waiting (span u ∷ [])
            (All-weaken waiting (λ x h. omega arith) side.waits) (below, tt);
      pends = All-weaken pend (λ p h. omega arith) side.pends;
      safe = side.safe;
    }

    -- A stored upload is marked: it no longer waits, and its completion does.
    pub IsSide-join :
        (u : w.Upload) (xs ys : List Span)
        → waiting ≡ xs ++ span u ∷ ys
        → next s' ≡ next s
        → ((l : ℕ)
            → Persisted s' l
              ↔ (Persisted s l ⊎ ((first_location u ≤ l) × (l ≤ w.latest_location u))))
        → IsSide s0 s' (xs ++ ys) (stored ++ span u ∷ []) (pend ++ w.latest_location u ∷ []) done
    IsSide-join u xs ys split same marks =
        let waits = subst (All (λ (x : Span). x.1 < next s)) split side.waits in
        let (latest, others) = All-without (λ (x : Span). x.1 < next s) xs (span u) ys waits in
        record {
          tracked = λ l p. elim ((marks l).0 p) [
            | inl before ↦ IsStored-grow stored l (side.tracked l before)
            | inr within ↦ inr (Covered-append_right l stored (span u ∷ []) (inl within))
          ];
          ready = λ l p. elim (side.ready l (subst (λ n. l < n) same p)) [
            | inl now ↦ inl ((marks l).1 (inl now))
            | inr later ↦ elim (Covered-middle l xs (span u) ys (subst (Covered l) split later)) [
              | inl here ↦ inl ((marks l).1 (inr here))
              | inr there ↦ inr there
            ]
          ];
          waits = subst (λ n. All (λ (x : Span). x.1 < n) (xs ++ ys)) (sym same) others;
          pends =
              subst (λ n. All (λ p. p < n) (pend ++ w.latest_location u ∷ [])) (sym same)
                (All-append (λ p. p < next s) pend (w.latest_location u ∷ []) side.pends
                  (latest, tt));
          safe = All-weaken done (λ p h l below. IsStored-grow stored l (h l below)) side.safe;
        }
      where
        IsStored-grow :
            (ss : List Span) (l : ℕ) → IsStored s0 ss l → IsStored s0 (ss ++ span u ∷ []) l
        IsStored-grow ss l (inl early) = inl early
        IsStored-grow ss l (inr stored) = inr (Covered-append_left l ss (span u ∷ []) stored)

    -- A completion whose latest location is published is safe.
    pub published-IsStored :
        (mark p : ℕ)
        → w.latest_published_watermark s ≡ some mark
        → p ≤ mark
        → (l : ℕ) → l ≤ p
        → IsStored s0 stored l
    published-IsStored mark p h below l under =
        side.tracked l (laws.published s mark l h (le_trans under below))
