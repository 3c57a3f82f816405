-- ===== src/Base/Cells.antt =====
-- Codecs that keep a number in one cell: instances of the codec interfaces, for tests.
use constantinople.Base.{
  ℕ, zero, suc, ◌≤◌, ◌≡◌, refl, ap, subst, inl, inr, true, false, List, [], ◌∷◌, ◌++◌, map, ◌^◌,
  Result, CodecError, arith, ltb, leb, Bool-cases, lt→ltb, ltb→lt, length, length-map, All,
  append_assoc, ◌&&◌, replicate, eqb, eqb_iff, sym, ◌∙◌,
}
use constantinople.Base.Result.{ok, err}
use constantinople.Base.Codec.{Codec, IsWord, Lengths, Vectors, from_ok, ◌>>=◌, bind-ok}

abbrev pub read_cell : List ℕ → Result CodecError (ℕ × List ℕ)
read_cell [] = err CodecError.end_of_buffer
read_cell (x ∷ xs) = elim (ltb x (2 ^ 64)) [
  | true ↦ ok (x, xs)
  | false ↦ err (CodecError.invalid "u64" "out of range")
]

pub read-write_cell : (n : ℕ) (rest : List ℕ) → IsWord n → read_cell (n ∷ rest) ≡ ok (n, rest)
read-write_cell n rest h = rw (lt→ltb n (2 ^ 64) h, read_cell) refl

pub read_cell-inv :
    (buf : List ℕ) (n : ℕ) (rest : List ℕ)
    → read_cell buf ≡ ok (n, rest)
    → (buf ≡ n ∷ rest) × IsWord n
read_cell-inv [] n rest h = absurd (ground arith)
read_cell-inv (x ∷ xs) n rest h = elim (Bool-cases (ltb x (2 ^ 64))) [
  | inl fits ↦
      (let made = ap (from_ok {A = ℕ × List ℕ} (n, rest)) (rw (fits, read_cell) at h) in
        (
          ap (λ (p : ℕ × List ℕ). p.0 ∷ p.1) made,
          subst IsWord (ap (λ (p : ℕ × List ℕ). p.0) made) (ltb→lt x (2 ^ 64) fits),
        ))
  | inr over ↦ absurd (ground (arith, rw (over, read_cell) at h))
]

abbrev pub cell : Codec IsWord
cell = record {
  write = λ n. n ∷ [];
  read = read_cell;
  read_write = read-write_cell;
  read_inv = read_cell-inv;
}

abbrev pub within : ℕ → ℕ → ℕ → List ℕ → Result CodecError (ℕ × List ℕ)
within low high n rest = elim (leb low n && leb n high) [
  | true ↦ ok (n, rest)
  | false ↦ err (CodecError.other "length")
]

abbrev pub read_length : ℕ → ℕ → List ℕ → Result CodecError (ℕ × List ℕ)
read_length low high [] = err CodecError.end_of_buffer
read_length low high (n ∷ rest) = within low high n rest

pub within_bounds :
    (low high n : ℕ) (rest : List ℕ) → low ≤ n → n ≤ high → within low high n rest ≡ ok (n, rest)
within_bounds low high n rest p q =
    let fits : (leb low n && leb n high) ≡ true = ground arith in rw (fits, within) refl

within-inv :
    (low high m : ℕ) (more : List ℕ) (n : ℕ) (rest : List ℕ)
    → within low high m more ≡ ok (n, rest)
    → (m ∷ more ≡ n ∷ rest) × (low ≤ n) × (n ≤ high)
within-inv low high m more n rest h = elim (Bool-cases (leb low m && leb m high)) [
  | inl fits ↦
      (let same = ap (from_ok {A = ℕ × List ℕ} (n, rest)) (rw (fits, within) at h) in
        let number : m ≡ n = ap (λ (p : ℕ × List ℕ). p.0) same in
        (ap (λ (p : ℕ × List ℕ). p.0 ∷ p.1) same, ground arith, ground arith))
  | inr over ↦ absurd (ground (arith, rw (over, within) at h))
]

pub read_length-inv :
    (low high : ℕ) (buf : List ℕ) (n : ℕ) (rest : List ℕ)
    → read_length low high buf ≡ ok (n, rest)
    → (buf ≡ n ∷ rest) × (low ≤ n) × (n ≤ high)
read_length-inv low high [] n rest h = absurd (ground arith)
read_length-inv low high (m ∷ more) n rest h = within-inv low high m more n rest h

abbrev pub cell_length : Lengths
cell_length = record {
  write = λ n. n ∷ [];
  read = read_length;
  read_write = within_bounds;
  read_inv = read_length-inv;
}

module _ {A : Type 0} where
  abbrev pub write_items : (A → List ℕ) → List A → List ℕ
  write_items write [] = []
  write_items write (x ∷ xs) = write x ++ write_items write xs

  abbrev pub read_items :
      (List ℕ → Result CodecError (A × List ℕ)) → ℕ → List ℕ → Result CodecError (List A × List ℕ)
  read_items read zero buf = ok ([], buf)
  read_items read (suc n) buf = do
    (x, buf1) ← read buf
    (xs, buf2) ← read_items read n buf1
    ok (x ∷ xs, buf2)

  abbrev pub read_vector :
      ℕ
      → ℕ
      → (List ℕ → Result CodecError (A × List ℕ))
      → List ℕ
      → Result CodecError (List A × List ℕ)
  read_vector low high read buf = do (n, rest) ← read_length low high buf; read_items read n rest

read_items-write_items :
    {T A B : Type 0} (write : A → List ℕ) (read : List ℕ → Result CodecError (B × List ℕ))
    (item : T → A) (f : T → B) (xs : List T) (rest : List ℕ)
    → All (λ x. (after : List ℕ) → read (write (item x) ++ after) ≡ ok (f x, after)) xs
    → read_items read (length xs) (write_items write (map item xs) ++ rest) ≡ ok (map f xs, rest)
read_items-write_items write read item f [] rest h = refl
read_items-write_items write read item f (x ∷ xs) rest h =
    rw
      (
        append_assoc (write (item x)) (write_items write (map item xs)) rest,
        h.0 (write_items write (map item xs) ++ rest),
        read_items-write_items write read item f xs rest h.1,
      )
      refl

pub counted-reads :
    {T A B : Type 0} (write : A → List ℕ) (read : List ℕ → Result CodecError (B × List ℕ))
    (item : T → A) (f : T → B) (low high : ℕ) (xs : List T) (rest : List ℕ)
    → All (λ x. (after : List ℕ) → read (write (item x) ++ after) ≡ ok (f x, after)) xs
    → low ≤ length xs
    → length xs ≤ high
    → read_vector low high read (length (map item xs) ∷ (write_items write (map item xs) ++ rest))
      ≡ ok (map f xs, rest)
counted-reads write read item f low high xs rest h p q =
    rw
      (
        length-map xs item,
        within_bounds low high (length xs) (write_items write (map item xs) ++ rest) p q,
      )
      (read_items-write_items write read item f xs rest h)

abbrev pub counted : Vectors
counted = record {
  write_vec = λ write xs. length xs ∷ write_items write xs;
  read_vec = read_vector;
  read_write_vec = λ write read item f low high xs rest h p q.
      counted-reads write read item f low high xs rest h p q;
}

-- A number after a run of zeros.
abbrev pub strip : ℕ → List ℕ → Result CodecError (List ℕ)
strip zero buf = ok buf
strip (suc k) [] = err CodecError.end_of_buffer
strip (suc k) (b ∷ buf) = elim (eqb b 0) [
  | true ↦ strip k buf
  | false ↦ err (CodecError.other "padding")
]

pub strip-replicate : (k : ℕ) (rest : List ℕ) → strip k (replicate k 0 ++ rest) ≡ ok rest
strip-replicate zero rest = refl
strip-replicate (suc k) rest = strip-replicate k rest

pub strip-inv : (k : ℕ) (buf rest : List ℕ) → strip k buf ≡ ok rest → buf ≡ replicate k 0 ++ rest
strip-inv zero buf rest h = ap (from_ok rest) h
strip-inv (suc k) [] rest h = absurd (ground arith)
strip-inv (suc k) (b ∷ buf) rest h = elim (Bool-cases (eqb b 0)) [
  | inl same ↦
      (let zero_b : b ≡ 0 = (eqb_iff b 0).0 same in
        let inner = strip-inv k buf rest (rw (same, strip) at h) in
        ap (λ x. x ∷ buf) zero_b ∙ ap (λ xs. 0 ∷ xs) inner)
  | inr other ↦ absurd (ground (arith, rw (other, strip) at h))
]

abbrev pub read_padded : ℕ → List ℕ → Result CodecError (ℕ × List ℕ)
read_padded k buf = do rest ← strip k buf; read_cell rest

pub read-write_padded :
    (k n : ℕ) (rest : List ℕ)
    → IsWord n
    → read_padded k ((replicate k 0 ++ n ∷ []) ++ rest) ≡ ok (n, rest)
read-write_padded k n rest h =
    rw (append_assoc (replicate k 0) (n ∷ []) rest, strip-replicate k (n ∷ rest))
      (read-write_cell n rest h)

pub read_padded-inv :
    (k : ℕ) (buf : List ℕ) (n : ℕ) (rest : List ℕ)
    → read_padded k buf ≡ ok (n, rest)
    → (buf ≡ (replicate k 0 ++ n ∷ []) ++ rest) × IsWord n
read_padded-inv k buf n rest h =
    let (mid, stripped, h1) = bind-ok (strip k buf) _ (n, rest) h in
    let (e, fits) = read_cell-inv mid n rest h1 in
    (
      strip-inv k buf mid stripped
          ∙ ap (λ xs. replicate k 0 ++ xs) e
          ∙ sym (append_assoc (replicate k 0) (n ∷ []) rest),
      fits,
    )

abbrev pub padded : ℕ → Codec IsWord
padded k = record {
  write = λ n. replicate k 0 ++ n ∷ [];
  read = read_padded k;
  read_write = read-write_padded k;
  read_inv = read_padded-inv k;
}
