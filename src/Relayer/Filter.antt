-- ===== src/Relayer/Filter.antt =====
-- bin/validator/src/relayer.rs: filters over digests, and lemmas on them.
use mathlib.Core.List.{Perm, perm_middle}
use mathlib.Core.List.Perm
use constantinople.Base.{
  ℕ, ◌≡◌, inl, inr, refl, sym, subst, Bool, true, false, not, List, [], ◌∷◌, ◌++◌, All, arith,
  Bool-cases, ◌==◌, bytes_eq,
}
use constantinople.Base.Dict.{elem}
use constantinople.Relayer.{filter, is_empty}

pub elem-All :
    (P : List ℕ → Type 0) (d : List ℕ) (xs : List (List ℕ)) → All P xs → elem d xs ≡ true → P d
elem-All P d [] h k = absurd (ground arith)
elem-All P d (x ∷ xs) h k = elim (Bool-cases (d == x)) [
  | inl same ↦ subst P (sym ((bytes_eq.beq_iff d x).0 same)) h.0
  | inr other ↦ elem-All P d xs h.1 (rw other at k)
]

pub elem-filter :
    (p : List ℕ → Bool) (d : List ℕ) (xs : List (List ℕ))
    → elem d xs ≡ true
    → p d ≡ true
    → elem d (filter p xs) ≡ true
elem-filter p d [] h k = absurd (ground arith)
elem-filter p d (x ∷ xs) h k = elim (Bool-cases (d == x)) [
  | inl same ↦
      (let e = (bytes_eq.beq_iff d x).0 same in
        rw (subst (λ y. p y ≡ true) e k, filter) (rw same refl))
  | inr other ↦
      (let later = elem-filter p d xs (rw other at h) k in
        elim (Bool-cases (p x)) [
          | inl in_ ↦ rw (in_, filter) (rw other later)
          | inr out ↦ rw (out, filter) later
        ])
]

pub filter-perm :
    {A : Type 0} (p : A → Bool) (xs : List A) → Perm (filter p xs ++ filter (λ x. not (p x)) xs) xs
filter-perm p [] = Perm.refl []
filter-perm p (x ∷ xs) = elim (Bool-cases (p x)) [
  | inl in_ ↦ rw (in_, filter) (Perm.append_left (x ∷ []) (filter-perm p xs))
  | inr out ↦
      rw (out, filter)
        (Perm.trans (perm_middle (filter p xs) (filter (λ x. not (p x)) xs))
          (Perm.append_left (x ∷ []) (filter-perm p xs)))
]

pub filter-none :
    {A : Type 0} (p : A → Bool) (xs : List A)
    → is_empty (filter p xs) ≡ true
    → All (λ x. p x ≡ false) xs
filter-none p [] h = tt
filter-none p (x ∷ xs) h = elim (Bool-cases (p x)) [
  | inl in_ ↦ absurd (ground (arith, rw (in_, filter) at h))
  | inr out ↦ (out, filter-none p xs (rw (out, filter) at h))
]

pub filter-All :
    {A : Type 0} (P : A → Type 0) (p : A → Bool)
    → ((x : A) → p x ≡ true → P x)
    → (xs : List A) → All P (filter p xs)
filter-All P p h [] = tt
filter-All P p h (x ∷ xs) = elim (Bool-cases (p x)) [
  | inl in_ ↦ rw (in_, filter) (h x in_, filter-All P p h xs)
  | inr out ↦ rw (out, filter) (filter-All P p h xs)
]

pub All-imp :
    {A : Type 0} (P Q : A → Type 0) → ((x : A) → P x → Q x) → (xs : List A) → All P xs → All Q xs
All-imp P Q f [] h = tt
All-imp P Q f (x ∷ xs) h = (f x h.0, All-imp P Q f xs h.1)

pub not-false : (b : Bool) → not b ≡ false → b ≡ true
not-false true h = refl
not-false false h = absurd (ground arith)
