-- ===== src/Account/Nonce/Consume.antt =====
-- `Nonce::consume` against the set of consumed nonces that a nonce state stands for.
use constantinople.Base.{
  ℕ, ◌+◌, ◌-◌, ◌/◌, ◌^◌, ◌≤◌, ◌<◌, ◌≡◌, ◌⊎◌, inl, inr, Bool, true, false, not, ◌&&◌, ◌||◌, arith,
  eqb, leb, ltb, bit_or, Bool-cases, if◌then◌else◌, refl, some, none, lt→ltb,
}
use constantinople.Base.Bits.{
  test_bit, bit_and-clear, bit_and-set, test_bit-bit_or, bit_or-lt, test_bit-zero, test_bit-beyond,
  test_bit-shr,
}
use constantinople.Account.Nonce.{
  Nonce, count_advance, consume_current_nonce, next_nonce_state, consume,
}
use constantinople.Account.Nonce.Scan.{Found, count_advance-Found}

-- Whether `k` is consumed in the state `n`.
abbrev pub is_used : Nonce → ℕ → Bool
is_used n k = ltb k n.base || (ltb n.base k && test_bit n.bitmap (k - n.base - 1))

-- Both fields are `u64`, and the largest nonce, which can never be consumed, is not marked.
pub record IsNonce (n : Nonce) : Type 0 where
  pub base_fits : n.base < 2 ^ 64
  pub bitmap_fits : n.bitmap < 2 ^ 64
  pub top_free : (k : ℕ) → is_used n k ≡ true → k < 2 ^ 64 - 1

-- The set after `nonce` is consumed: a jump beyond the window gives up all that it passes.
abbrev pub used_after : Nonce → ℕ → ℕ → Bool
used_after n nonce k = if ltb (n.base + 64) nonce then leb k nonce else is_used n k || eqb k nonce

abbrev advanced : Nonce → ℕ → Nonce
advanced n a = record { base = n.base + a; bitmap = if leb 64 a then 0 else n.bitmap / 2 ^ a }

module _ (n : Nonce) (a : ℕ) (f : Found n.bitmap a) where
  below_run : (k : ℕ) → n.base < k → k < n.base + a → test_bit n.bitmap (k - n.base - 1) ≡ true
  below_run k p q = f.run (k - n.base - 1) (omega (arith, f.positive))

  at_stop : n.bitmap < 2 ^ 64 → test_bit n.bitmap (a - 1) ≡ false
  at_stop h = elim (Bool-cases (leb a 64)) [
    | inl inside ↦ f.stopped (ground arith)
    | inr outside ↦ test_bit-beyond 64 (a - 1) n.bitmap h (ground arith)
  ]

  above_run :
      (k : ℕ)
      → n.bitmap < 2 ^ 64
      → n.base + a < k
      → test_bit (advanced n a).bitmap (k - (n.base + a) - 1) ≡ test_bit n.bitmap (k - n.base - 1)
  above_run k h p = elim (Bool-cases (leb 64 a)) [
    | inl far ↦
        (let rest = test_bit-beyond 64 (k - n.base - 1) n.bitmap h (ground arith) in
          rw (far, rest) (test_bit-zero (k - (n.base + a) - 1)))
    | inr near ↦
        (let place : a + (k - (n.base + a) - 1) ≡ k - n.base - 1 = omega arith in
          rw near (rw place at (test_bit-shr a (k - (n.base + a) - 1) n.bitmap)))
  ]

  -- Consuming the base adds the base to the set, and nothing else.
  is_used-advanced :
      (k : ℕ) → n.bitmap < 2 ^ 64 → is_used (advanced n a) k ≡ (is_used n k || eqb k n.base)
  is_used-advanced k h = elim (Bool-cases (leb k n.base)) [
    | inl low ↦ ground (arith, f.positive)
    | inr high ↦ elim (Bool-cases (ltb k (n.base + a))) [
      | inl inside ↦ ground (arith, below_run k)
      | inr outside ↦ elim (Bool-cases (eqb k (n.base + a))) [
        | inl stop ↦
            (let place : k - n.base - 1 ≡ a - 1 = ground arith in
              ground (arith, rw (← place) at (at_stop h)))
        | inr beyond ↦ ground (arith, above_run k h)
      ]
    ]
  ]

  advanced_fits : IsNonce n → n.base + 1 < 2 ^ 64 → n.base + a < 2 ^ 64
  advanced_fits v h = elim (Bool-cases (leb a 1)) [
    | inl one ↦ ground (arith, f.positive)
    | inr more ↦
        (let last : is_used n (n.base + a - 1) ≡ true =
            ground (arith, below_run (n.base + a - 1)) in
          omega (arith, v.top_free (n.base + a - 1) last))
  ]

  advanced-IsNonce : IsNonce n → n.base + 1 < 2 ^ 64 → IsNonce (advanced n a)
  advanced-IsNonce v h = record {
    base_fits = advanced_fits v h;
    bitmap_fits = ground (arith, v.bitmap_fits);
    top_free = λ k u. ground (arith, v.top_free k, is_used-advanced k v.bitmap_fits);
  }

-- What the four branches of `next_nonce_state` have in common.
pub record Accepts (n : Nonce) (nonce : ℕ) (next : Nonce) : Type 0 where
  pub fresh : is_used n nonce ≡ false
  pub below_top : nonce < 2 ^ 64 - 1
  pub valid : IsNonce next
  pub uses : (k : ℕ) → is_used next k ≡ used_after n nonce k

current_lem :
    (n : Nonce)
    → IsNonce n
    → n.base + 1 < 2 ^ 64
    → (next : Nonce) × (consume_current_nonce n.base n.bitmap ≡ some next) × Accepts n n.base next
unfolding consume_current_nonce
current_lem n v h =
    let a = count_advance 64 n.bitmap 1 in
    let f : Found n.bitmap a =
      count_advance-Found 64 n.bitmap 1 (omega arith) (omega arith) (λ i p. absurd (omega arith)) in
    (
      advanced n a,
      rw (lt→ltb _ _ (advanced_fits n a f v h)),
      record {
        fresh = ground arith;
        below_top = omega arith;
        valid = advanced-IsNonce n a f v h;
        uses = λ k. ground (arith, is_used-advanced n a f k v.bitmap_fits);
      },
    )

jump_lem :
    (n : Nonce) (nonce : ℕ)
    → IsNonce n
    → nonce + 1 < 2 ^ 64
    → n.base + 64 < nonce
    → Accepts n nonce (record { base = nonce + 1; bitmap = 0 })
jump_lem n nonce v h p = record {
  fresh = ground (arith, test_bit-beyond 64 (nonce - n.base - 1) n.bitmap v.bitmap_fits);
  below_top = omega arith;
  valid = record {
    base_fits = h;
    bitmap_fits = omega arith;
    top_free = λ k u. ground (arith, test_bit-zero (k - (nonce + 1) - 1));
  };
  uses = λ k. ground (arith, test_bit-zero (k - (nonce + 1) - 1));
}

abbrev marked : Nonce → ℕ → Nonce
marked n nonce = record { base = n.base; bitmap = bit_or n.bitmap (2 ^ (nonce - n.base - 1)) }

is_used-marked :
    (n : Nonce) (nonce k : ℕ)
    → n.base < nonce
    → is_used (marked n nonce) k ≡ (is_used n k || eqb k nonce)
is_used-marked n nonce k p =
    ground (arith, test_bit-bit_or (nonce - n.base - 1) (k - n.base - 1) n.bitmap)

window_lem :
    (n : Nonce) (nonce : ℕ)
    → IsNonce n
    → nonce + 1 < 2 ^ 64
    → n.base < nonce
    → nonce ≤ n.base + 64
    → test_bit n.bitmap (nonce - n.base - 1) ≡ false
    → Accepts n nonce (marked n nonce)
window_lem n nonce v h p q clear = record {
  fresh = ground arith;
  below_top = omega arith;
  valid = record {
    base_fits = v.base_fits;
    bitmap_fits = bit_or-lt 64 (nonce - n.base - 1) n.bitmap (omega arith) v.bitmap_fits;
    top_free = λ k u. ground (arith, v.top_free k, is_used-marked n nonce k p);
  };
  uses = λ k. ground (arith, is_used-marked n nonce k p);
}

-- What `next_nonce_state` returns: nothing, for a nonce that is used or is the largest, or a state.
pub data Outcome (n : Nonce) (nonce : ℕ) : Type 0 where
  refuses :
      next_nonce_state n.base n.bitmap nonce ≡ none
      → (is_used n nonce ≡ true) ⊎ (nonce ≡ 2 ^ 64 - 1)
      → Outcome n nonce
  accepts :
      (next : Nonce)
      → next_nonce_state n.base n.bitmap nonce ≡ some next
      → Accepts n nonce next
      → Outcome n nonce

next_nonce_state_low :
    (n : Nonce) (nonce : ℕ) → IsNonce n → nonce + 1 < 2 ^ 64 → nonce ≤ n.base → Outcome n nonce
unfolding next_nonce_state
next_nonce_state_low n nonce v h p = elim (Bool-cases (eqb nonce n.base)) [
  | inl same ↦
      (let e : nonce ≡ n.base = ground arith in
        let (next, q, acc) = current_lem n v (rw e at h) in
        rw e (Outcome.accepts next (ground arith) acc))
  | inr other ↦ Outcome.refuses (ground arith) (inl (ground arith))
]

next_nonce_state_window :
    (n : Nonce) (nonce : ℕ)
    → IsNonce n
    → nonce + 1 < 2 ^ 64
    → n.base < nonce
    → nonce ≤ n.base + 64
    → Outcome n nonce
unfolding next_nonce_state
next_nonce_state_window n nonce v h p q =
    elim (Bool-cases (test_bit n.bitmap (nonce - n.base - 1))) [
      | inl set ↦
          Outcome.refuses (ground (arith, bit_and-set (nonce - n.base - 1) n.bitmap))
            (inl (ground arith))
      | inr clear ↦
          Outcome.accepts (marked n nonce)
            (ground (arith, bit_and-clear (nonce - n.base - 1) n.bitmap))
            (window_lem n nonce v h p q clear)
    ]

pub next_nonce_state-Outcome :
    (n : Nonce) (nonce : ℕ) → IsNonce n → nonce < 2 ^ 64 → Outcome n nonce
unfolding next_nonce_state
next_nonce_state-Outcome n nonce v h = elim (Bool-cases (ltb (nonce + 1) (2 ^ 64))) [
  | inr top ↦ Outcome.refuses (rw top) (inr (ground arith))
  | inl fits ↦ elim (Bool-cases (leb nonce n.base)) [
    | inl low ↦ next_nonce_state_low n nonce v (ground arith) (ground arith)
    | inr high ↦ elim (Bool-cases (leb nonce (n.base + 64))) [
      | inl window ↦ next_nonce_state_window n nonce v (ground arith) (ground arith) (ground arith)
      | inr jump ↦
          Outcome.accepts (record { base = nonce + 1; bitmap = 0 }) (ground arith)
            (jump_lem n nonce v (ground arith) (ground arith))
    ]
  ]
]

-- In a valid state, `consume` accepts a `u64` nonce exactly when it is not yet consumed and is not
-- the largest one, and the state stays valid. An accepted nonce inside the window is added to the
-- set of consumed nonces, one beyond it leaves exactly the nonces up to it consumed, and a refused
-- nonce leaves the state as it was.
pub consume-refines_set :
    (n : Nonce) (nonce k : ℕ)
    → IsNonce n
    → nonce < 2 ^ 64
    → let (next, accepted) = consume n nonce in
      (accepted ≡ (not (is_used n nonce) && ltb nonce (2 ^ 64 - 1)))
      × IsNonce next
      × (is_used next k ≡ (if accepted then used_after n nonce k else is_used n k))
      × (next ≡ (if accepted then next else n))
unfolding consume
consume-refines_set n nonce k v h = elim (next_nonce_state-Outcome n nonce v h) [
  | Outcome.refuses q why ↦ rw (q, consume) (ground arith, v, refl, refl)
  | Outcome.accepts next q acc ↦
      rw (q, consume) (ground (arith, acc.fresh, acc.below_top), acc.valid, acc.uses k, refl)
]

-- `Nonce::default()` is valid: nothing is consumed.
pub default-IsNonce : IsNonce (record { base = 0; bitmap = 0 })
default-IsNonce = record {
  base_fits = omega arith;
  bitmap_fits = omega arith;
  top_free = λ k u. absurd (ground (arith, test_bit-zero (k - 0 - 1)));
}
