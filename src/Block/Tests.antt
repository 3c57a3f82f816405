-- ===== src/Block/Tests.antt =====
-- Codecs over cells, and instances of the round trips of cells, headers and blocks.
use constantinople.Base.{
  ℕ, ◌+◌, ◌≤◌, ◌≡◌, ◌↔◌, refl, ap, Option, some, none, List, [], ◌∷◌, ◌++◌, Result, CodecError,
  arith, replicate, length, All,
}
use constantinople.Base.Result.{ok, err}
use constantinople.Base.Codec.{Codec, IsWord, from_ok}
use constantinople.Transaction.{SignedTransaction, seal}
use constantinople.Base.Cells.{cell, cell_length, counted, padded}
use constantinople.Block.{Context, Header, new_block}
use constantinople.Block.Codec.{
  HeaderCodecs, IsHeader, write_header, read_header, LazyBlock, loaded, write_block, read_block,
  new_lazy_block, BlockCfg,
}
use constantinople.Block.Wire.{header-round_trip}
use constantinople.Block.RoundTrip.{sealed_block-round_trip}
use constantinople.Account.Codec.{write_key}
use constantinople.Transaction.Codec.{write_transaction, write_signed, read_signed, IsSealed}
use constantinople.Signed.Lazy.{LazySignedTransaction, SignatureSizes, read_lazy}

abbrev sizes : SignatureSizes
sizes = record { min_size = 1; max_size = 4 }

-- Lengths over one byte are refused before the bytes are taken.
short_is_refused :
    read_lazy {L = ℕ} {D = ℕ} {S = ℕ} cell_length sizes (82 ∷ replicate 90 0)
    ≡ err CodecError.end_of_buffer
unfolding read_lazy
short_is_refused = refl

abbrev write_context : Context ℕ ℕ → List ℕ
write_context c = c.round.epoch ∷ c.round.view ∷ c.leader ∷ c.parent.0 ∷ c.parent.1 ∷ []

abbrev read_context : List ℕ → Result CodecError (Context ℕ ℕ × List ℕ)
read_context (epoch ∷ view ∷ leader ∷ height ∷ parent ∷ rest) = ok (
  record {
    round = record { epoch = epoch; view = view };
    leader = leader;
    parent = (height, parent);
  },
  rest,
)
read_context other = err CodecError.end_of_buffer

read_context-inv :
    (buf : List ℕ) (c : Context ℕ ℕ) (rest : List ℕ)
    → read_context buf ≡ ok (c, rest)
    → (buf ≡ write_context c ++ rest) × Unit {0}
read_context-inv [] c rest h = absurd (ground arith)
read_context-inv (a ∷ []) c rest h = absurd (ground arith)
read_context-inv (a ∷ b ∷ []) c rest h = absurd (ground arith)
read_context-inv (a ∷ b ∷ d ∷ []) c rest h = absurd (ground arith)
read_context-inv (a ∷ b ∷ d ∷ f ∷ []) c rest h = absurd (ground arith)
read_context-inv (a ∷ b ∷ d ∷ f ∷ g ∷ more) c rest h = (
  ap (λ (p : Context ℕ ℕ × List ℕ). write_context p.0 ++ p.1)
      (ap (from_ok {A = Context ℕ ℕ × List ℕ} (c, rest)) h),
  tt,
)

abbrev context_cells : Codec {A = Context ℕ ℕ} (λ _. Unit {0})
context_cells = record {
  write = write_context;
  read = read_context;
  read_write = λ c rest h. refl;
  read_inv = read_context-inv;
}

abbrev read_pair : List ℕ → Result CodecError ((ℕ × ℕ) × List ℕ)
read_pair (a ∷ b ∷ rest) = ok ((a, b), rest)
read_pair other = err CodecError.end_of_buffer

read_pair-inv :
    (buf : List ℕ) (p : ℕ × ℕ) (rest : List ℕ)
    → read_pair buf ≡ ok (p, rest)
    → (buf ≡ p.0 ∷ p.1 ∷ rest) × Unit {0}
read_pair-inv [] p rest h = absurd (ground arith)
read_pair-inv (a ∷ []) p rest h = absurd (ground arith)
read_pair-inv (a ∷ b ∷ more) p rest h = (
  ap (λ (q : (ℕ × ℕ) × List ℕ). q.0.0 ∷ q.0.1 ∷ q.1)
      (ap (from_ok {A = (ℕ × ℕ) × List ℕ} (p, rest)) h),
  tt,
)

abbrev pair_cells : Codec {A = ℕ × ℕ} (λ _. Unit {0})
pair_cells = record {
  write = λ p. p.0 ∷ p.1 ∷ [];
  read = read_pair;
  read_write = λ p rest h. refl;
  read_inv = read_pair-inv;
}

abbrev codecs : HeaderCodecs ℕ ℕ ℕ
codecs = record {
  IsContext = λ _. Unit {0};
  IsDigest = IsWord;
  IsRange = λ _. Unit {0};
  context_codec = context_cells;
  digest_codec = cell;
  u64 = cell;
  range_codec = pair_cells;
}

abbrev header : Header ℕ ℕ ℕ
header = record {
  context = record { round = record { epoch = 0; view = 4 }; leader = 7; parent = (2, 21) };
  parent = 21;
  height = 3;
  timestamp = 1000;
  state_root = 31;
  state_range = (5, 9);
  transactions_root = 32;
  transactions_range = (6, 8);
}

header-IsHeader : IsHeader codecs header
header-IsHeader = record {
  context_valid = tt;
  parent_valid = omega arith;
  height_fits = omega arith;
  timestamp_fits = omega arith;
  state_root_valid = omega arith;
  state_range_valid = tt;
  transactions_root_valid = omega arith;
  transactions_range_valid = tt;
}

abbrev header_bytes : List ℕ
header_bytes = 0 ∷ 4 ∷ 7 ∷ 2 ∷ 21 ∷ 21 ∷ 3 ∷ 1000 ∷ 31 ∷ 5 ∷ 9 ∷ 32 ∷ 6 ∷ 8 ∷ []

header-round_trip_example :
    (read_header codecs (header_bytes ++ 1 ∷ []) ≡ ok (header, 1 ∷ []))
    ↔ ((header_bytes ++ 1 ∷ [] ≡ write_header codecs header ++ 1 ∷ []) × IsHeader codecs header)
header-round_trip_example = header-round_trip codecs (header_bytes ++ 1 ∷ []) header (1 ∷ [])

abbrev cfg : BlockCfg
cfg = record { at_least = 0; at_most = 2 }

-- The same with words of eight bytes, as transactions have them.
abbrev wide : HeaderCodecs ℕ ℕ ℕ
wide = record codecs { u64 = padded 7 }

wide-IsHeader : IsHeader wide header
wide-IsHeader = record {
  context_valid = tt;
  parent_valid = omega arith;
  height_fits = omega arith;
  timestamp_fits = omega arith;
  state_root_valid = omega arith;
  state_range_valid = tt;
  transactions_root_valid = omega arith;
  transactions_range_valid = tt;
}

abbrev sum : List ℕ → ℕ
sum [] = 0
sum (b ∷ bs) = b + sum bs

abbrev signed : ℕ → SignedTransaction ℕ ℕ ℕ
signed nonce = record {
  inner = record {
    inner = record { sender = 5; to = record { bytes = replicate 32 1 }; value = 3; nonce = nonce };
    seal = 40 + nonce;
  };
  signature = 6;
}

signed-IsSealed : (n : ℕ) → n ≤ 9 → IsSealed (padded 7) (padded 33) cell sum (signed n)
unfolding seal write_transaction write_key
signed-IsSealed n h = record {
  encodable = record {
    sender_valid = omega arith;
    to_valid = refl;
    value_fits = omega arith;
    value_positive = omega arith;
    nonce_fits = omega arith;
  };
  signature_valid = omega arith;
  sealed = ap (λ (d : ℕ). record { inner = (signed n).inner.inner; seal = d }) (omega arith);
}

-- A transaction that is read with nothing left.
abbrev whole :
    Result CodecError (SignedTransaction ℕ ℕ ℕ × List ℕ) → Option (SignedTransaction ℕ ℕ ℕ)
whole (ok (tx, [])) = some tx
whole (ok (tx, b ∷ bytes)) = none
whole (err e) = none

abbrev decode : List ℕ → Option (SignedTransaction ℕ ℕ ℕ)
decode buf = whole (read_signed (padded 7) (padded 33) cell sum buf)

word_size : (n : ℕ) → IsWord n → length ((padded 7).write n) ≡ 8
word_size n h = refl

pk_size : (sender : ℕ) → IsWord sender → length ((padded 33).write sender) ≡ 34
pk_size sender h = refl

signature_sizes : (s : ℕ) → IsWord s → (1 ≤ length (cell.write s)) × (length (cell.write s) ≤ 4)
signature_sizes s h = (omega arith, omega arith)

sealed_block-round_trip_example :
    (bytes : List ℕ) × (block : LazyBlock ℕ ℕ ℕ ℕ ℕ) × (write_block wide counted cell_length decode
        (write_signed (padded 7) (padded 33) cell sum)
        (λ s. length (cell.write s))
        (new_lazy_block header (signed 6 ∷ signed 7 ∷ []))
      ≡ some bytes)
    × (read_block wide counted cell_length sizes cfg (bytes ++ 1 ∷ []) ≡ ok (block, 1 ∷ []))
    × (All (λ (cell : LazySignedTransaction ℕ ℕ ℕ). cell.value ≡ none) block.body)
    × (loaded decode block ≡ new_block header (signed 6 ∷ signed 7 ∷ []))
    × (write_block wide counted cell_length decode
          (write_signed (padded 7) (padded 33) cell sum)
          (λ s. length (cell.write s))
          block
        ≡ some bytes)
sealed_block-round_trip_example =
    sealed_block-round_trip wide counted cell_length (padded 33) cell sum decode sizes
      (λ buf tx h. ap whole h) word_size pk_size signature_sizes cfg header
      (signed 6 ∷ signed 7 ∷ []) (1 ∷ []) wide-IsHeader
      (signed-IsSealed 6 (omega arith), (signed-IsSealed 7 (omega arith), tt)) (omega arith)
      (omega arith)
