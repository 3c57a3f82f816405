-- ===== src/Base/Codec.antt =====
-- The codec traits `Write` and `Read` of commonware_codec as an interface, and reading in sequence.
use constantinople.Base.{
  ℕ, ◌≤◌, ◌<◌, ◌≡◌, refl, ap, List, [], ◌∷◌, ◌++◌, Result, CodecError, length, take, drop, arith,
  zero, suc, ◌^◌, All, map,
}
use constantinople.Base.Result.{ok, err}

-- `write` appends the encoding of a value, and `read` consumes it from the front of a buffer. Every
-- valid value reads back, and what reads is valid and was written in the one canonical way.
pub record Codec {A : Type 0} (Valid : A → Type 0) : Type 0 where
  pub write : A → List ℕ
  pub read : List ℕ → Result CodecError (A × List ℕ)
  pub read_write : (a : A) (rest : List ℕ) → Valid a → read (write a ++ rest) ≡ ok (a, rest)
  pub read_inv :
      (buf : List ℕ) (a : A) (rest : List ℕ)
      → read buf ≡ ok (a, rest)
      → (buf ≡ write a ++ rest) × Valid a

module _ {A B : Type 0} where
  -- The operator `?`.
  infixl 5 ◌>>=◌
  abbrev pub ◌>>=◌ : Result CodecError A → (A → Result CodecError B) → Result CodecError B
  ok a >>= f = f a
  err e >>= f = err e

  pub bind-ok :
      (r : Result CodecError A) (f : A → Result CodecError B) (b : B)
      → (r >>= f) ≡ ok b
      → (a : A) × (r ≡ ok a) × (f a ≡ ok b)
  bind-ok (ok a) f b h = (a, refl, h)
  bind-ok (err e) f b h = absurd (ground arith)

-- What `ok` holds.
abbrev pub from_ok : {A : Type 0} → A → Result CodecError A → A
from_ok a (ok b) = b
from_ok a (err e) = a

module _ {A : Type 0} where
  pub take-drop : (n : ℕ) (xs : List A) → take n xs ++ drop n xs ≡ xs
  take-drop zero xs = refl
  take-drop (suc n) [] = refl
  take-drop (suc n) (x ∷ xs) = ap (◌∷◌ x) (take-drop n xs)

  pub length-take : (n : ℕ) (xs : List A) → n ≤ length xs → length (take n xs) ≡ n
  length-take zero xs h = refl
  length-take (suc n) [] h = absurd (omega arith)
  length-take (suc n) (x ∷ xs) h = ap suc (length-take n xs (omega arith))

-- `u64`
abbrev pub IsWord : ℕ → Type 0
IsWord n = n < 2 ^ 64

-- `usize` under a `RangeCfg` of commonware_codec: a length is read within bounds.
pub record Lengths : Type 0 where
  pub write : ℕ → List ℕ
  pub read : (low high : ℕ) → List ℕ → Result CodecError (ℕ × List ℕ)
  pub read_write :
      (low high n : ℕ) (rest : List ℕ)
      → low ≤ n
      → n ≤ high
      → read low high (write n ++ rest) ≡ ok (n, rest)
  pub read_inv :
      (low high : ℕ) (buf : List ℕ) (n : ℕ) (rest : List ℕ)
      → read low high buf ≡ ok (n, rest)
      → (buf ≡ write n ++ rest) × (low ≤ n) × (n ≤ high)

-- `Vec<T>` of commonware_codec, with a bound on the number of items. What is written reads back
-- item by item: the items of `xs` are written as `item` gives them and read back as `f` does.
pub record Vectors : Type 1 where
  pub write_vec : {A : Type 0} → (A → List ℕ) → List A → List ℕ
  pub read_vec :
      {A : Type 0}
      → ℕ
      → ℕ
      → (List ℕ → Result CodecError (A × List ℕ))
      → List ℕ
      → Result CodecError (List A × List ℕ)
  pub read_write_vec :
      {T A B : Type 0} (write : A → List ℕ) (read : List ℕ → Result CodecError (B × List ℕ))
      (item : T → A) (f : T → B) (low high : ℕ) (xs : List T) (rest : List ℕ)
      → All (λ x. (after : List ℕ) → read (write (item x) ++ after) ≡ ok (f x, after)) xs
      → low ≤ length xs
      → length xs ≤ high
      → read_vec low high read (write_vec write (map item xs) ++ rest) ≡ ok (map f xs, rest)
