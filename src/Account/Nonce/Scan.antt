-- ===== src/Account/Nonce/Scan.antt =====
-- The loop of `consume_current_nonce` stops at the first clear bit, within its 64 rounds.
use constantinople.Base.{
  ℕ, zero, suc, ◌+◌, ◌-◌, ◌^◌, ◌≤◌, ◌<◌, ◌≡◌, inl, inr, true, false, arith, eqb, leb, bit_and,
  Bool-cases,
}
use constantinople.Base.Bits.{test_bit, bit_and-clear, bit_and-set}
use constantinople.Account.Nonce.{count_advance}

abbrev RunBelow : ℕ → ℕ → Type 0
RunBelow bitmap a = (i : ℕ) → i < a - 1 → test_bit bitmap i ≡ true

-- What the loop has found: the bits below `a - 1` are set, and the loop ended by its test.
pub record Found (bitmap a : ℕ) : Type 0 where
  pub positive : 1 ≤ a
  pub bounded : a ≤ 65
  pub run : (i : ℕ) → i < a - 1 → test_bit bitmap i ≡ true
  pub stopped : a ≤ 64 → test_bit bitmap (a - 1) ≡ false

run-suc :
    (bitmap a : ℕ)
    → 1 ≤ a
    → RunBelow bitmap a
    → test_bit bitmap (a - 1) ≡ true
    → RunBelow bitmap (a + 1)
run-suc bitmap a p r h i lt = elim (Bool-cases (eqb i (a - 1))) [
  | inl same ↦ (let e : i ≡ a - 1 = ground arith in rw e h)
  | inr other ↦ r i (ground arith)
]

pub count_advance-Found :
    (rounds bitmap a : ℕ)
    → rounds + a ≡ 65
    → 1 ≤ a
    → RunBelow bitmap a
    → Found bitmap (count_advance rounds bitmap a)
unfolding count_advance
count_advance-Found zero bitmap a e p r = record {
  positive = p;
  bounded = omega arith;
  run = r;
  stopped = λ h. absurd (omega arith);
}
count_advance-Found (suc rounds) bitmap a e p r = elim (Bool-cases (test_bit bitmap (a - 1))) [
  | inl set ↦
      (let more =
          count_advance-Found rounds bitmap (a + 1) (omega arith) (omega arith)
            (run-suc bitmap a p r set) in
        let open_test : leb a 64 ≡ true = ground arith in
        let here : eqb (bit_and bitmap (2 ^ (a - 1))) 0 ≡ false =
          ground (arith, bit_and-set (a - 1) bitmap set) in
        rw (open_test, here) more)
  | inr clear ↦
      (let open_test : leb a 64 ≡ true = ground arith in
        let here : eqb (bit_and bitmap (2 ^ (a - 1))) 0 ≡ true =
          ground (arith, bit_and-clear (a - 1) bitmap clear) in
        rw (open_test, here)
          (record { positive = p; bounded = omega arith; run = r; stopped = λ h. clear }))
]
