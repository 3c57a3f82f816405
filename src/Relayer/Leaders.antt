-- ===== src/Relayer/Leaders.antt =====
-- bin/validator/src/relayer.rs: which leaders the relayer hands a batch on to as the view advances.
use native.Mathlib.Nat.{mod-lt, mod-eq_of_lt, add-mul-mod_self_left, add-mod_right, div-add-mod}
use native.Mathlib.Decide.{dec_lt}
use constantinople.Base.{
  ℕ, zero, suc, ◌+◌, ◌-◌, ◌*◌, ◌/◌, ◌%◌, ◌^◌, ◌≤◌, ◌<◌, ◌≡◌, refl, ap, ◌∙◌, Bool, true, false, some,
  List, [], ◌∷◌, length, arith, eqb, ◌>>=◌, if◌then◌else◌,
}
use constantinople.Relayer.{Leader, at, next_two_leaders}
use constantinople.Relayer.Targets.{at-some}

-- A number up to which one counts from `m` to meet a residue.
residue-met : (m n i : ℕ) → i < n → (k : ℕ) × (k < n) × ((m + k) % n ≡ i)
residue-met m n i h =
    let r = m % n in
    let q = m / n in
    let whole : n * q + r ≡ m = div-add-mod m n in
    let small : r < n = mod-lt m (omega arith) in
    elim (dec_lt i r) [
      | yes above ↦ (
        n + i - r,
        omega arith,
        ap (λ a. a % n) (let e : m + (n + i - r) ≡ (i + n) + n * q = omega arith in e)
            ∙ (add-mul-mod_self_left (i + n) n q ∙ (add-mod_right i n ∙ mod-eq_of_lt h)),
      )
      | no below ↦ (
        i - r,
        omega arith,
        ap (λ a. a % n) (let e : m + (i - r) ≡ i + n * q = omega arith in e)
            ∙ (add-mul-mod_self_left i n q ∙ mod-eq_of_lt h),
      )
    ]

at-below : {A : Type 0} (i : ℕ) (xs : List A) (a : A) → at i xs ≡ some a → i < length xs
at-below i [] a h = absurd (ground arith)
at-below zero (x ∷ xs) a h = omega arith
at-below (suc i) (x ∷ xs) a h = omega (arith, at-below i xs a h)

first_target :
    (one two : Leader) (same : Bool) → at 0 (if same then one ∷ [] else one ∷ two ∷ []) ≡ some one
first_target one two true = refl
first_target one two false = refl

-- Of the views that follow one another from any view on, as many as there are leaders, each leader
-- is the first target of one. The views stay below 2 ^ 64.
pub next_two_leaders-cover :
    (leaders : List Leader) (view i : ℕ) (leader : Leader)
    → at i leaders ≡ some leader
    → view + length leaders < 2 ^ 64
    → (later : ℕ) × (view ≤ later)
      × (later < view + length leaders)
      × (targets : List Leader) × (next_two_leaders leaders later ≡ some targets)
      × (at 0 targets ≡ some leader)
unfolding next_two_leaders
next_two_leaders-cover [] view i leader h bound = absurd (ground arith)
next_two_leaders-cover (l ∷ ls) view i leader h bound =
    let size = length (l ∷ ls) in
    let (k, less, met) = residue-met (view + 1) size i (at-below i (l ∷ ls) leader h) in
    let later = view + k in
    let fits : (later + 1) % 2 ^ 64 ≡ later + 1 = mod-eq_of_lt (omega arith) in
    let first : at ((later + 1) % 2 ^ 64 % size) (l ∷ ls) ≡ some leader =
      ap (λ j. at j (l ∷ ls))
        (ap (λ a. a % size) (fits ∙ (let e : later + 1 ≡ view + 1 + k = omega arith in e)) ∙ met)
      ∙ h in
    let (two, second) =
      at-some ((later + 2) % 2 ^ 64 % size) (l ∷ ls)
        (mod-lt ((later + 2) % 2 ^ 64) (omega arith)) in
    (
      later,
      omega arith,
      omega arith,
      (if eqb ((later + 1) % 2 ^ 64 % size) ((later + 2) % 2 ^ 64 % size)
          then leader ∷ []
          else leader ∷ two ∷ []),
      rw (first, ◌>>=◌, second) refl,
      first_target leader two (eqb ((later + 1) % 2 ^ 64 % size) ((later + 2) % 2 ^ 64 % size)),
    )
