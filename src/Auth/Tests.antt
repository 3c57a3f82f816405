-- ===== src/Auth/Tests.antt =====
-- Keys of a fixed length, and an instance of the round trip.
use constantinople.Base.{
  ℕ, ◌+◌, ◌≡◌, refl, inl, inr, true, false, List, [], ◌∷◌, ◌++◌, Result, CodecError, length, drop,
  eqb, arith, replicate, Bool-cases,
}
use constantinople.Base.Result.{ok, err}
use constantinople.Base.Codec.{Codec}
use constantinople.Account.{AccountKey}
use constantinople.Account.Codec.{
  key_codec, IsKey, write_key, read_key, read-write_key, read_key-inv,
}
use constantinople.Auth.Key.{KeysWork, public_key-round_trip}

-- Account keys stand for the keys of both schemes here, with a first byte for secp256r1.
abbrev ed_key : AccountKey
ed_key = record { bytes = replicate 32 4 }

abbrev read_marked : List ℕ → Result CodecError (AccountKey × List ℕ)
read_marked [] = err CodecError.end_of_buffer
read_marked (mark ∷ buf) = elim (eqb mark 2) [
  | true ↦ read_key buf
  | false ↦ err (CodecError.invalid "PublicKey" "mark")
]

read_marked-inv :
    (buf : List ℕ) (key : AccountKey) (rest : List ℕ)
    → read_marked buf ≡ ok (key, rest)
    → (buf ≡ 2 ∷ write_key key ++ rest) × IsKey key
read_marked-inv [] key rest h = absurd (ground arith)
read_marked-inv (mark ∷ buf) key rest h = elim (Bool-cases (eqb mark 2)) [
  | inl marked ↦
      (let (bytes, valid) = read_key-inv buf key rest (rw (marked, read_marked) at h) in
        let two : mark ≡ 2 = ground arith in (rw (two, bytes) refl, valid))
  | inr other ↦ absurd (ground (arith, rw (other, read_marked) at h))
]

abbrev marked_codec : Codec IsKey
marked_codec = record {
  write = λ key. 2 ∷ write_key key;
  read = read_marked;
  read_write = λ key rest h. read-write_key key rest h;
  read_inv = read_marked-inv;
}

abbrev last_bytes : List ℕ → List ℕ
last_bytes bytes = drop 2 bytes

ed_size : length (key_codec.write ed_key) ≡ 32
unfolding write_key
ed_size = refl

p_size : length (marked_codec.write ed_key) + 1 ≡ 34
unfolding write_key
p_size = refl

public_key-round_trip_example : KeysWork key_codec marked_codec last_bytes (9 ∷ []) ed_key ed_key
public_key-round_trip_example =
    public_key-round_trip key_codec marked_codec last_bytes (9 ∷ []) ed_key ed_key refl ed_size refl
      p_size
