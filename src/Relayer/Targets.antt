-- ===== src/Relayer/Targets.antt =====
-- bin/validator/src/relayer.rs: there are leaders to hand on to, and what they refuse with.

use native.Mathlib.Nat.{mod-lt}
use constantinople.Base.{
  ℕ, zero, suc, ◌+◌, ◌%◌, ◌^◌, ◌<◌, length, ◌≡◌, ◌⊎◌, inl, inr, refl, true, ◌||◌, Option, none,
  some, List, [], ◌∷◌, ◌++◌, All, arith, Bool-cases, eqb, bytes_eq, ◌>>=◌, if◌then◌else◌,
}
use constantinople.Relayer.{
  Leader, ForwardResult, Response, ForwardSummary, summary_from, at, next_two_leaders,
}
use constantinople.Relayer.Submit.{
  Externals, forward_result, acknowledged, acknowledged_with, forward_all, forward_to_targets,
  ingest_path,
}

pub at-some : {A : Type 0} (i : ℕ) (xs : List A) → i < length xs → (a : A) × (at i xs ≡ some a)
at-some i [] h = absurd (omega arith)
at-some zero (x ∷ xs) h = (x, refl)
at-some (suc i) (x ∷ xs) h = at-some i xs (omega arith)

pub next_two_leaders-some :
    (leaders : List Leader) (view : ℕ)
    → (targets : List Leader) × (next_two_leaders leaders view ≡ some targets)
unfolding next_two_leaders
next_two_leaders-some [] view = ([], refl)
next_two_leaders-some (l ∷ ls) view =
    let size = length (l ∷ ls) in
    let (one, e) =
      at-some ((view + 1) % 2 ^ 64 % size) (l ∷ ls) (mod-lt ((view + 1) % 2 ^ 64) (omega arith)) in
    let (two, f) =
      at-some ((view + 2) % 2 ^ 64 % size) (l ∷ ls) (mod-lt ((view + 2) % 2 ^ 64) (omega arith)) in
    (
      (if eqb ((view + 1) % 2 ^ 64 % size) ((view + 2) % 2 ^ 64 % size)
          then one ∷ []
          else one ∷ two ∷ []),
      rw (e, ◌>>=◌, f) refl,
    )

-- A refusal that a leader sends on is one of these.
abbrev pub IsRefusal : ForwardResult → Type 0
IsRefusal (ForwardResult.accepted leader) = Unit
IsRefusal (ForwardResult.deterministic status) = (status ≡ 400) ⊎ (status ≡ 413)
IsRefusal (ForwardResult.transient leader) = Unit

abbrev pub IsRefusedWith : Option ℕ → Type 0
IsRefusedWith none = Unit
IsRefusedWith (some status) = (status ≡ 400) ⊎ (status ≡ 413)

summary_from-IsRefusedWith :
    (s : ForwardSummary) (rs : List ForwardResult)
    → IsRefusedWith s.deterministic
    → All IsRefusal rs
    → IsRefusedWith (summary_from s rs).deterministic
summary_from-IsRefusedWith s [] h k = h
summary_from-IsRefusedWith s (ForwardResult.accepted leader ∷ rs) h k =
    summary_from-IsRefusedWith (record s { accepted = true }) rs h k.1
summary_from-IsRefusedWith s (ForwardResult.deterministic status ∷ rs) h k =
    summary_from-IsRefusedWith (record s { deterministic = some status }) rs k.0 k.1
summary_from-IsRefusedWith s (ForwardResult.transient leader ∷ rs) h k =
    summary_from-IsRefusedWith s rs h k.1

acknowledged_with-IsRefusal :
    (leader : Leader) (digests : Option (List (List ℕ)))
    → IsRefusal (acknowledged_with leader digests)
acknowledged_with-IsRefusal leader none = tt
acknowledged_with-IsRefusal leader (some []) = tt
acknowledged_with-IsRefusal leader (some (d ∷ ds)) = tt

refused_status :
    (status : ℕ) → (eqb status 400 || eqb status 413) ≡ true → (status ≡ 400) ⊎ (status ≡ 413)
refused_status status h = elim (Bool-cases (eqb status 400)) [
  | inl e ↦ inl (ground arith)
  | inr e ↦ inr (ground arith)
]

module _ {W L D S : Type 0} (x : Externals W L D S) where
  acknowledged-IsRefusal :
      (leader : Leader) (body : Option (List ℕ)) → IsRefusal (acknowledged x leader body)
  acknowledged-IsRefusal leader none = tt
  acknowledged-IsRefusal leader (some bytes) =
      acknowledged_with-IsRefusal leader (x.ingest_digests bytes)

  forward_result-IsRefusal :
      (leader : Leader) (answer : Option Response) → IsRefusal (forward_result x leader answer)
  unfolding forward_result
  forward_result-IsRefusal leader none = tt
  forward_result-IsRefusal leader (some response) = elim (Bool-cases (eqb response.status 202)) [
    | inl ok_ ↦ rw (ok_, forward_result) (acknowledged-IsRefusal leader response.body)
    | inr other ↦ elim (Bool-cases (eqb response.status 400 || eqb response.status 413)) [
      | inl bad ↦ rw (other, bad, forward_result) (refused_status response.status bad)
      | inr fine ↦ rw (other, fine, forward_result) tt
    ]
  ]

  forward_all-IsRefusal :
      (leaders : List Leader) (body : List ℕ) (w : W)
      → All IsRefusal (forward_all x leaders body w).0
  forward_all-IsRefusal [] body w = tt
  forward_all-IsRefusal (leader ∷ leaders) body w =
      let (answer, w1) = x.http.post (leader.url ++ ingest_path) body w in
      (forward_result-IsRefusal leader answer, forward_all-IsRefusal leaders body w1)

  pub forward_to_targets-IsRefusedWith :
      (targets : List Leader) (body : List ℕ) (w : W)
      → IsRefusedWith (forward_to_targets x targets body w).0.deterministic
  unfolding forward_to_targets
  forward_to_targets-IsRefusedWith targets body w =
      summary_from-IsRefusedWith _ _ tt (forward_all-IsRefusal targets body w)
