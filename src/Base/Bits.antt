-- ===== src/Base/Bits.antt =====
-- Single bits of a word: `x & (1 << k) != 0`, `x | (1 << k)` and `x >> k`, through one test.
use Prim.Native.Nat.{digits, bitwise, bit_and-bitwise, bit_or-bitwise}
use native.Mathlib.Nat.{pow-suc, div-div-eq-div-mul}
use constantinople.Base.{
  ℕ, zero, suc, ◌+◌, ◌*◌, ◌-◌, ◌/◌, ◌%◌, ◌^◌, ◌≤◌, ◌<◌, min, max, bit_and, bit_or, ◌≡◌, refl, Bool,
  true, false, ◌||◌, arith, eqb, sym,
}

-- Bit `k` of `m`.
abbrev pub test_bit : ℕ → ℕ → Bool
test_bit m zero = eqb (m % 2) 1
test_bit m (suc k) = test_bit (m / 2) k

-- The recursion behind the native operations takes fuel: one unit more changes nothing.
spare_digit :
    (unit : ℕ → ℕ) (op : ℕ → ℕ → ℕ) (fuel a b : ℕ)
    → a ≤ fuel
    → digits unit op (suc fuel) a b ≡ digits unit op fuel a b
spare_digit unit op zero zero b h = refl
spare_digit unit op (suc fuel) zero b h = refl
spare_digit unit op zero (suc a) b h = absurd (omega arith)
spare_digit unit op (suc fuel) (suc a) b h =
    rw (spare_digit unit op fuel (suc a / 2) (b / 2) (omega arith))

spare_digits :
    (unit : ℕ → ℕ) (op : ℕ → ℕ → ℕ) (spare a b : ℕ)
    → digits unit op (spare + a) a b ≡ digits unit op a a b
spare_digits unit op zero a b = let none : 0 + a ≡ a = omega arith in rw none
spare_digits unit op (suc spare) a b =
    let one_more : suc spare + a ≡ suc (spare + a) = omega arith in
    rw (one_more, spare_digit unit op (spare + a) a b (omega arith))
      (spare_digits unit op spare a b)

lowest_bit :
    (unit : ℕ → ℕ) (op : ℕ → ℕ → ℕ) (a b : ℕ)
    → bitwise unit op (suc a) b ≡ op (suc a % 2) (b % 2) + 2 * bitwise unit op (suc a / 2) (b / 2)
lowest_bit unit op a b =
    let fuel : (a - suc a / 2) + suc a / 2 ≡ a = omega arith in
    let enough = rw fuel at (spare_digits unit op (a - suc a / 2) (suc a / 2) (b / 2)) in
    omega (arith, enough)

bit_and_halves : (a b : ℕ) → bit_and a b ≡ bit_and (a / 2) (b / 2) * 2 + min (a % 2) (b % 2)
bit_and_halves zero b = simp bit_and-bitwise (omega arith)
bit_and_halves (suc a) b = simp bit_and-bitwise (omega (arith, lowest_bit (λ y. 0) min a b))

bit_or_halves : (a b : ℕ) → bit_or a b ≡ bit_or (a / 2) (b / 2) * 2 + max (a % 2) (b % 2)
bit_or_halves zero b = simp bit_or-bitwise (omega arith)
bit_or_halves (suc a) b = simp bit_or-bitwise (omega (arith, lowest_bit (λ y. y) max a b))

bit_or-zero_below : (n a : ℕ) → a ≤ n → bit_or a 0 ≡ a
bit_or-zero_below n zero h = refl
bit_or-zero_below zero (suc a) h = absurd (omega arith)
bit_or-zero_below (suc n) (suc a) h =
    omega (arith, bit_or_halves (suc a) 0, bit_or-zero_below n (suc a / 2) (omega arith))

bit_and-zero_below : (n a : ℕ) → a ≤ n → bit_and a 0 ≡ 0
bit_and-zero_below n zero h = refl
bit_and-zero_below zero (suc a) h = absurd (omega arith)
bit_and-zero_below (suc n) (suc a) h =
    omega (arith, bit_and_halves (suc a) 0, bit_and-zero_below n (suc a / 2) (omega arith))

-- `m & (1 << k)` is zero exactly where bit `k` is clear.
pub bit_and-clear : (k m : ℕ) → test_bit m k ≡ false → bit_and m (2 ^ k) ≡ 0
bit_and-clear zero m h = ground (arith, bit_and_halves m 1, bit_and-zero_below (m / 2) (m / 2))
bit_and-clear (suc k) m h =
    ground (arith, bit_and_halves m (2 ^ suc k), pow-suc 2 k, bit_and-clear k (m / 2) h)

pub bit_and-set : (k m : ℕ) → test_bit m k ≡ true → 0 < bit_and m (2 ^ k)
bit_and-set zero m h = ground (arith, bit_and_halves m 1, bit_and-zero_below (m / 2) (m / 2))
bit_and-set (suc k) m h =
    ground (arith, bit_and_halves m (2 ^ suc k), pow-suc 2 k, bit_and-set k (m / 2) h)

bit_or_pow_halved : (k m : ℕ) → bit_or m (2 ^ suc k) / 2 ≡ bit_or (m / 2) (2 ^ k)
bit_or_pow_halved k m =
    let half : 2 ^ suc k / 2 ≡ 2 ^ k = omega (arith, pow-suc 2 k) in
    let unit : 2 ^ suc k % 2 ≡ 0 = omega (arith, pow-suc 2 k) in
    let step : bit_or m (2 ^ suc k) ≡ bit_or (m / 2) (2 ^ k) * 2 + max (m % 2) 0 =
      rw (half, unit) at (bit_or_halves m (2 ^ suc k)) in
    omega arith

-- `m | (1 << k)` sets bit `k` and no other.
pub test_bit-bit_or : (k j m : ℕ) → test_bit (bit_or m (2 ^ k)) j ≡ (test_bit m j || eqb j k)
test_bit-bit_or zero zero m = ground (arith, bit_or_halves m 1)
test_bit-bit_or zero (suc j) m =
    let halved : bit_or m 1 / 2 ≡ m / 2 =
      omega (arith, bit_or_halves m 1, bit_or-zero_below (m / 2) (m / 2) (omega arith)) in
    rw halved (ground arith)
test_bit-bit_or (suc k) zero m = ground (arith, bit_or_halves m (2 ^ suc k), pow-suc 2 k)
test_bit-bit_or (suc k) (suc j) m =
    rw (bit_or_pow_halved k m) (ground (arith, test_bit-bit_or k j (m / 2)))

pub bit_or-lt : (w k m : ℕ) → k < w → m < 2 ^ w → bit_or m (2 ^ k) < 2 ^ w
bit_or-lt zero k m h p = absurd (omega arith)
bit_or-lt (suc w) zero m h p =
    omega (arith, pow-suc 2 w, bit_or_halves m 1, bit_or-zero_below (m / 2) (m / 2) (omega arith))
bit_or-lt (suc w) (suc k) m h p = omega (
  arith,
  pow-suc 2 w,
  bit_or_pow_halved k m,
  bit_or-lt w k (m / 2) (omega arith) (omega (arith, pow-suc 2 w)),
)

pub test_bit-zero : (j : ℕ) → test_bit 0 j ≡ false
test_bit-zero zero = refl
test_bit-zero (suc j) = test_bit-zero j

-- A word of `w` bits has none at `w` or above.
pub test_bit-beyond : (w j m : ℕ) → m < 2 ^ w → w ≤ j → test_bit m j ≡ false
test_bit-beyond zero j zero p h = test_bit-zero j
test_bit-beyond zero j (suc m) p h = absurd (omega arith)
test_bit-beyond (suc w) zero m p h = absurd (omega arith)
test_bit-beyond (suc w) (suc j) m p h =
    test_bit-beyond w j (m / 2) (omega (arith, pow-suc 2 w)) (omega arith)

div_pow-suc : (a m : ℕ) → m / 2 ^ suc a ≡ m / 2 / 2 ^ a
div_pow-suc a m =
    let doubled : 2 ^ suc a ≡ 2 * 2 ^ a = omega (arith, pow-suc 2 a) in
    rw doubled (sym (div-div-eq-div-mul m 2 (2 ^ a)))

-- `m >> a` moves bit `a + j` to bit `j`.
pub test_bit-shr : (a j m : ℕ) → test_bit (m / 2 ^ a) j ≡ test_bit m (a + j)
test_bit-shr zero j m =
    let whole : m / 1 ≡ m = omega arith in let place : 0 + j ≡ j = omega arith in rw (whole, place)
test_bit-shr (suc a) j m =
    let place : suc a + j ≡ suc (a + j) = omega arith in
    rw (div_pow-suc a m, place) (test_bit-shr a j (m / 2))
