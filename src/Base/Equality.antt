-- ===== src/Base/Equality.antt =====
-- The bounds `Eq` and `Ord` of keys, with the laws that the traits ask for.
use Prim.Native.Nat.{ℕ, compare, Ordering}
use Prim.Native.Nat.Ordering.{lt, eq, gt}
use mathlib.Core.Path.{◌≡◌, refl}
use mathlib.Core.Logic.{◌↔◌}
use mathlib.Core.Bool.{Bool, true, false, ◌&&◌}
use mathlib.Core.List.{List, [], ◌∷◌}
use native.Mathlib.Omega.{arith}
use constantinople.Base.Tests.{eqb, eqb_iff}

-- `Eq`: a decidable test that agrees with equality.
pub record Eq {ℓ} (Key : Type ℓ) : Type ℓ where
  pub beq : Key → Key → Bool
  pub beq_iff : (left right : Key) → (beq left right ≡ true) ↔ (left ≡ right)

instance abbrev pub nat_eq : Eq ℕ
nat_eq = record { beq = eqb; beq_iff = eqb_iff }

-- `Vec<u8> == Vec<u8>`
abbrev pub bytes_beq : List ℕ → List ℕ → Bool
bytes_beq [] [] = true
bytes_beq [] (y ∷ ys) = false
bytes_beq (x ∷ xs) [] = false
bytes_beq (x ∷ xs) (y ∷ ys) = eqb x y && bytes_beq xs ys

pub bytes_beq_iff : (xs ys : List ℕ) → (bytes_beq xs ys ≡ true) ↔ (xs ≡ ys)
bytes_beq_iff [] [] = ground arith
bytes_beq_iff [] (y ∷ ys) = ground arith
bytes_beq_iff (x ∷ xs) [] = ground arith
bytes_beq_iff (x ∷ xs) (y ∷ ys) = ground (arith, bytes_beq_iff xs ys, eqb_iff x y)

pub beq_refl {ℓ} : {Key : Type ℓ} ⦃laws : Eq Key⦄ → (key : Key) → laws.beq key key ≡ true
beq_refl ⦃laws⦄ key = (laws.beq_iff key key).1 refl

infix 50 ◌==◌
abbrev pub ◌==◌ {ℓ} : {Key : Type ℓ} ⦃laws : Eq Key⦄ → Key → Key → Bool
◌==◌ ⦃laws⦄ left right = laws.beq left right

instance abbrev pub bytes_eq : Eq (List ℕ)
bytes_eq = record { beq = bytes_beq; beq_iff = bytes_beq_iff }

-- What `sort_unstable_by(|l, r| l.cmp(r))` asks of `cmp`.
pub record Ord {ℓ} (A : Type ℓ) : Type ℓ where
  pub cmp : A → A → Ordering
  pub eq_of_cmp : (a b : A) → cmp a b ≡ eq → a ≡ b
  pub cmp_refl : (a : A) → cmp a a ≡ eq
  pub lt_of_gt : (a b : A) → cmp a b ≡ gt → cmp b a ≡ lt
  pub gt_of_lt : (a b : A) → cmp a b ≡ lt → cmp b a ≡ gt
  pub lt_trans : (a b c : A) → cmp a b ≡ lt → cmp b c ≡ lt → cmp a c ≡ lt

-- Byte strings compare lexicographically.
abbrev pub bytes_cmp : List ℕ → List ℕ → Ordering
bytes_cmp [] [] = eq
bytes_cmp [] (y ∷ ys) = lt
bytes_cmp (x ∷ xs) [] = gt
bytes_cmp (x ∷ xs) (y ∷ ys) = elim (compare x y) [ lt ↦ lt | gt ↦ gt | eq ↦ bytes_cmp xs ys ]

pub bytes_cmp-eq : (a b : List ℕ) → bytes_cmp a b ≡ eq → a ≡ b
bytes_cmp-eq [] [] h = refl
bytes_cmp-eq [] (y ∷ ys) h = ground arith
bytes_cmp-eq (x ∷ xs) [] h = ground arith
bytes_cmp-eq (x ∷ xs) (y ∷ ys) h = ground (arith, bytes_cmp-eq xs ys)

pub bytes_cmp_refl : (a : List ℕ) → bytes_cmp a a ≡ eq
bytes_cmp_refl [] = refl
bytes_cmp_refl (x ∷ xs) = ground (arith, bytes_cmp_refl xs)

pub bytes_cmp-gt : (a b : List ℕ) → bytes_cmp a b ≡ gt → bytes_cmp b a ≡ lt
bytes_cmp-gt [] [] h = ground arith
bytes_cmp-gt [] (y ∷ ys) h = ground arith
bytes_cmp-gt (x ∷ xs) [] h = refl
bytes_cmp-gt (x ∷ xs) (y ∷ ys) h = ground (arith, bytes_cmp-gt xs ys)

pub bytes_cmp-lt : (a b : List ℕ) → bytes_cmp a b ≡ lt → bytes_cmp b a ≡ gt
bytes_cmp-lt [] [] h = ground arith
bytes_cmp-lt [] (y ∷ ys) h = refl
bytes_cmp-lt (x ∷ xs) [] h = ground arith
bytes_cmp-lt (x ∷ xs) (y ∷ ys) h = ground (arith, bytes_cmp-lt xs ys)

pub bytes_cmp-lt_trans :
    (a b c : List ℕ) → bytes_cmp a b ≡ lt → bytes_cmp b c ≡ lt → bytes_cmp a c ≡ lt
bytes_cmp-lt_trans [] [] c p q = ground arith
bytes_cmp-lt_trans [] (y ∷ ys) [] p q = ground arith
bytes_cmp-lt_trans [] (y ∷ ys) (z ∷ zs) p q = refl
bytes_cmp-lt_trans (x ∷ xs) [] c p q = ground arith
bytes_cmp-lt_trans (x ∷ xs) (y ∷ ys) [] p q = ground arith
bytes_cmp-lt_trans (x ∷ xs) (y ∷ ys) (z ∷ zs) p q = ground (arith, bytes_cmp-lt_trans xs ys zs)

instance abbrev pub bytes_ord : Ord (List ℕ)
bytes_ord = record {
  cmp = bytes_cmp;
  eq_of_cmp = bytes_cmp-eq;
  cmp_refl = bytes_cmp_refl;
  lt_of_gt = bytes_cmp-gt;
  gt_of_lt = bytes_cmp-lt;
  lt_trans = bytes_cmp-lt_trans;
}
