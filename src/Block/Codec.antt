-- ===== src/Block/Codec.antt =====
-- crates/primitives/src/block.rs: the codecs of headers and of blocks. The codecs of contexts,
-- digests, words and ranges are parameters, and so is that of vectors. A block is decoded with the
-- cells of its transactions, and `loaded` is the block that `get` then shows.
use mathlib.Core.Option
use constantinople.Base.{ℕ, Option, List, ◌++◌, map, collect, Result, CodecError}
use constantinople.Base.Result.{ok}
use constantinople.Base.Codec.{Codec, IsWord, Lengths, Vectors, ◌>>=◌}
use constantinople.Transaction.{SignedTransaction}
use constantinople.Block.{Context, Header, Block}
use constantinople.Signed.Lazy.{
  LazySignedTransaction, SignatureSizes, new_lazy, get_expect, read_lazy, write_lazy,
}

-- The codecs that `Header` is made of.
pub record HeaderCodecs (C D P : Type 0) : Type 1 where
  pub IsContext : Context C P → Type 0
  pub IsDigest : D → Type 0
  pub IsRange : ℕ × ℕ → Type 0
  pub context_codec : Codec IsContext
  pub digest_codec : Codec IsDigest
  pub u64 : Codec IsWord
  pub range_codec : Codec IsRange

module _ {C D P : Type 0} (c : HeaderCodecs C D P) where
  open c use {IsContext, IsDigest, IsRange, context_codec, digest_codec, u64, range_codec}

  -- `<Header as Write>::write`
  unfoldable pub write_header : Header C D P → List ℕ
  write_header h =
      context_codec.write h.context
      ++ (digest_codec.write h.parent
          ++ (u64.write h.height
              ++ (u64.write h.timestamp
                  ++ (digest_codec.write h.state_root
                      ++ (range_codec.write h.state_range
                          ++ (digest_codec.write h.transactions_root
                              ++ range_codec.write h.transactions_range))))))

  -- The last four fields of `<Header as Read>::read_cfg`
  unfoldable pub read_commitments :
      Context C P → D → ℕ → ℕ → List ℕ → Result CodecError (Header C D P × List ℕ)
  read_commitments context parent height timestamp buf4 = do
    (state_root, buf5) ← digest_codec.read buf4
    (state_range, buf6) ← range_codec.read buf5
    (transactions_root, buf7) ← digest_codec.read buf6
    (transactions_range, buf8) ← range_codec.read buf7
    ok (
      record {
        context = context;
        parent = parent;
        height = height;
        timestamp = timestamp;
        state_root = state_root;
        state_range = state_range;
        transactions_root = transactions_root;
        transactions_range = transactions_range;
      },
      buf8,
    )

  -- `<Header as Read>::read_cfg`
  unfoldable pub read_header : List ℕ → Result CodecError (Header C D P × List ℕ)
  read_header buf = do
    (context, buf1) ← context_codec.read buf
    (parent, buf2) ← digest_codec.read buf1
    (height, buf3) ← u64.read buf2
    (timestamp, buf4) ← u64.read buf3
    read_commitments context parent height timestamp buf4

  -- What a header must be to be written and read.
  pub record IsHeader (h : Header C D P) : Type 0 where
    pub context_valid : IsContext h.context
    pub parent_valid : IsDigest h.parent
    pub height_fits : IsWord h.height
    pub timestamp_fits : IsWord h.timestamp
    pub state_root_valid : IsDigest h.state_root
    pub state_range_valid : IsRange h.state_range
    pub transactions_root_valid : IsDigest h.transactions_root
    pub transactions_range_valid : IsRange h.transactions_range

-- A `Block` with the cells of its transactions.
pub record LazyBlock (C D P L S : Type 0) : Type 0 where
  pub header : Header C D P
  pub body : List (LazySignedTransaction L D S)

-- `Block::new`, with the cells
abbrev pub new_lazy_block :
    {C D P L S : Type 0} → Header C D P → List (SignedTransaction L D S) → LazyBlock C D P L S
new_lazy_block header txs = record { header = header; body = map new_lazy txs }

-- The block that `get` shows.
abbrev pub loaded :
    {C D P L S : Type 0}
    → (List ℕ → Option (SignedTransaction L D S))
    → LazyBlock C D P L S
    → Block C D P L S
loaded decode block = record { header = block.header; body = map (get_expect decode) block.body }

-- `BlockCfg`: the bounds on the number of transactions
pub record BlockCfg : Type 0 where
  pub at_least : ℕ
  pub at_most : ℕ

module _ {C D P L S : Type 0} (c : HeaderCodecs C D P) (v : Vectors) (len : Lengths) where
  module _ (decode : List ℕ → Option (SignedTransaction L D S)) where
    -- `<Block as Write>::write`; `none` is the panic of a cell
    unfoldable pub write_block :
        (SignedTransaction L D S → List ℕ) → (S → ℕ) → LazyBlock C D P L S → Option (List ℕ)
    write_block write signature_size block =
        Option.map
          (λ items. write_header c block.header ++ v.write_vec (λ (bytes : List ℕ). bytes) items)
          (collect (write_lazy decode write len signature_size) block.body)

  -- `<Block as Read>::read_cfg`
  unfoldable pub read_block :
      SignatureSizes → BlockCfg → List ℕ → Result CodecError (LazyBlock C D P L S × List ℕ)
  read_block sizes cfg buf = do
    (header, buf1) ← read_header c buf
    (body, buf2) ← v.read_vec cfg.at_least cfg.at_most (read_lazy len sizes) buf1
    ok (record { header = header; body = body }, buf2)
