-- ===== src/Block/Wire.antt =====
-- crates/primitives/src/block.rs: headers and blocks read back from what they write.
use mathlib.Core.Option
use constantinople.Base.{
  ℕ, ◌≤◌, ◌≡◌, ◌↔◌, refl, sym, ap, subst, ◌∙◌, Option, some, none, List, [], ◌∷◌, ◌++◌, map,
  collect, length, All, append_assoc,
}
use constantinople.Base.Result.{ok}
use constantinople.Base.Codec.{IsWord, Lengths, Vectors, bind-ok, from_ok}
use constantinople.Transaction.{SignedTransaction}
use constantinople.Block.{Context, Header, new_block}
use constantinople.Block.Codec.{
  HeaderCodecs, IsHeader, write_header, read_header, read_commitments, LazyBlock, loaded, BlockCfg,
  write_block, read_block, new_lazy_block,
}
use constantinople.Signed.Lazy.{
  LazySignedTransaction, SignatureSizes, new_lazy, deferred, get_lazy, get_expect, read_lazy,
  write_lazy,
}
use constantinople.Signed.Cell.{IsLazy, wire, read_lazy-wire, lazy-round_trip}

-- What follows a prefix may be replaced by what it is equal to.
after :
    {buf rest more : List ℕ} (first : List ℕ)
    → buf ≡ first ++ rest
    → rest ≡ more
    → buf ≡ first ++ more
after first h e = h ∙ ap (λ b. first ++ b) e

module _ {C D P : Type 0} (c : HeaderCodecs C D P) where
  open c use {IsContext, IsDigest, IsRange, context_codec, digest_codec, u64, range_codec}

  write_header-append :
      (h : Header C D P) (rest : List ℕ)
      → write_header c h ++ rest
        ≡ context_codec.write h.context
          ++ (digest_codec.write h.parent
              ++ (u64.write h.height
                  ++ (u64.write h.timestamp
                      ++ (digest_codec.write h.state_root
                          ++ (range_codec.write h.state_range
                              ++ (digest_codec.write h.transactions_root
                                  ++ (range_codec.write h.transactions_range ++ rest)))))))
  unfolding write_header
  write_header-append h rest = simp append_assoc

  pub read-write_header :
      (h : Header C D P) (rest : List ℕ)
      → IsHeader c h
      → read_header c (write_header c h ++ rest) ≡ ok (h, rest)
  unfolding read_header read_commitments
  read-write_header h rest v =
      rw
        (
          write_header-append h rest,
          context_codec.read_write h.context _ v.context_valid,
          digest_codec.read_write h.parent _ v.parent_valid,
          u64.read_write h.height _ v.height_fits,
          u64.read_write h.timestamp _ v.timestamp_fits,
          digest_codec.read_write h.state_root _ v.state_root_valid,
          range_codec.read_write h.state_range _ v.state_range_valid,
          digest_codec.read_write h.transactions_root _ v.transactions_root_valid,
          range_codec.read_write h.transactions_range rest v.transactions_range_valid,
        )
        refl

  -- The bytes of the last four fields, and their validity.
  abbrev HoldsCommitments : List ℕ → Header C D P → List ℕ → Type 0
  HoldsCommitments buf h rest =
      (buf
        ≡ digest_codec.write h.state_root
          ++ (range_codec.write h.state_range
              ++ (digest_codec.write h.transactions_root
                  ++ (range_codec.write h.transactions_range ++ rest))))
      × IsDigest h.state_root
      × IsRange h.state_range
      × IsDigest h.transactions_root
      × IsRange h.transactions_range

  -- The first four fields.
  abbrev IsOf : Context C P → D → ℕ → ℕ → Header C D P → Type 0
  IsOf context parent height timestamp h =
      (context ≡ h.context) × (parent ≡ h.parent) × (height ≡ h.height) × (timestamp ≡ h.timestamp)

  read_commitments-inv :
      (context : Context C P) (parent : D) (height timestamp : ℕ) (buf : List ℕ) (h : Header C D P)
      (rest : List ℕ)
      → read_commitments c context parent height timestamp buf ≡ ok (h, rest)
      → IsOf context parent height timestamp h × HoldsCommitments buf h rest
  unfolding read_commitments
  read_commitments-inv context parent height timestamp buf h rest e =
      let ((state_root, b5), r5, e5) = bind-ok (digest_codec.read buf) _ (h, rest) e in
      let ((state_range, b6), r6, e6) = bind-ok (range_codec.read b5) _ (h, rest) e5 in
      let ((tx_root, b7), r7, e7) = bind-ok (digest_codec.read b6) _ (h, rest) e6 in
      let ((tx_range, b8), r8, e8) = bind-ok (range_codec.read b7) _ (h, rest) e7 in
      let (w5, v5) = digest_codec.read_inv buf state_root b5 r5 in
      let (w6, v6) = range_codec.read_inv b5 state_range b6 r6 in
      let (w7, v7) = digest_codec.read_inv b6 tx_root b7 r7 in
      let (w8, v8) = range_codec.read_inv b7 tx_range b8 r8 in
      let made : Header C D P = record {
        context = context;
        parent = parent;
        height = height;
        timestamp = timestamp;
        state_root = state_root;
        state_range = state_range;
        transactions_root = tx_root;
        transactions_range = tx_range;
      } in
      subst
        (λ (p : Header C D P × List ℕ).
          IsOf context parent height timestamp p.0 × HoldsCommitments buf p.0 p.1)
        (ap (from_ok (made, b8)) e8)
        (
          (refl, refl, refl, refl),
          (
            after (digest_codec.write state_root) w5 (
                after (range_codec.write state_range) w6
                  (after (digest_codec.write tx_root) w7 w8)),
            v5,
            v6,
            v7,
            v8,
          ),
        )

  pub read_header-inv :
      (buf : List ℕ) (h : Header C D P) (rest : List ℕ)
      → read_header c buf ≡ ok (h, rest)
      → (buf ≡ write_header c h ++ rest) × IsHeader c h
  unfolding read_header
  read_header-inv buf h rest e =
      let ((context, b1), r1, e1) = bind-ok (context_codec.read buf) _ (h, rest) e in
      let ((parent, b2), r2, e2) = bind-ok (digest_codec.read b1) _ (h, rest) e1 in
      let ((height, b3), r3, e3) = bind-ok (u64.read b2) _ (h, rest) e2 in
      let ((timestamp, b4), r4, e4) = bind-ok (u64.read b3) _ (h, rest) e3 in
      let (w1, v1) = context_codec.read_inv buf context b1 r1 in
      let (w2, v2) = digest_codec.read_inv b1 parent b2 r2 in
      let (w3, v3) = u64.read_inv b2 height b3 r3 in
      let (w4, v4) = u64.read_inv b3 timestamp b4 r4 in
      let ((p1, p2, p3, p4), (w5, v5, v6, v7, v8)) =
        read_commitments-inv context parent height timestamp b4 h rest e4 in
      (
        after (context_codec.write h.context) (w1 ∙ ap (λ x. context_codec.write x ++ b1) p1) (
              after (digest_codec.write h.parent) (w2 ∙ ap (λ x. digest_codec.write x ++ b2) p2) (
                after (u64.write h.height) (w3 ∙ ap (λ x. u64.write x ++ b3) p3)
                  (after (u64.write h.timestamp) (w4 ∙ ap (λ x. u64.write x ++ b4) p4) w5)))
            ∙ sym (write_header-append h rest),
        record {
          context_valid = subst IsContext p1 v1;
          parent_valid = subst IsDigest p2 v2;
          height_fits = subst IsWord p3 v3;
          timestamp_fits = subst IsWord p4 v4;
          state_root_valid = v5;
          state_range_valid = v6;
          transactions_root_valid = v7;
          transactions_range_valid = v8;
        },
      )

  -- A buffer reads as a header exactly if it starts with what that header writes and the fields of
  -- the header can be encoded.
  pub header-round_trip :
      (buf : List ℕ) (h : Header C D P) (rest : List ℕ)
      → (read_header c buf ≡ ok (h, rest)) ↔ ((buf ≡ write_header c h ++ rest) × IsHeader c h)
  header-round_trip buf h rest =
      (read_header-inv buf h rest, (λ p. ap (read_header c) p.0 ∙ read-write_header h rest p.1))

-- Where every image is found, all are collected.
collect-map :
    {T A B : Type 0} (f : A → Option B) (g : T → A) (k : T → B) (xs : List T)
    → All (λ x. f (g x) ≡ some (k x)) xs
    → collect f (map g xs) ≡ some (map k xs)
collect-map f g k [] h = refl
collect-map f g k (x ∷ xs) h = rw (h.0, collect, collect-map f g k xs h.1) refl

module _ {C D P L S : Type 0} (c : HeaderCodecs C D P) (v : Vectors) (len : Lengths)
    (decode : List ℕ → Option (SignedTransaction L D S)) (write : SignedTransaction L D S → List ℕ)
    (signature_size : S → ℕ) (sizes : SignatureSizes) where
  -- The cell that a transaction is read back as.
  abbrev read_back : SignedTransaction L D S → LazySignedTransaction L D S
  read_back tx = deferred (write tx)

  -- What a cell of the transaction is written as.
  abbrev item : SignedTransaction L D S → List ℕ
  item tx = wire write signature_size len tx

  write_new_lazy :
      (txs : List (SignedTransaction L D S))
      → All (IsLazy decode write signature_size sizes) txs
      → All (λ tx. write_lazy decode write len signature_size (new_lazy tx) ≡ some (item tx)) txs
  write_new_lazy [] h = tt
  write_new_lazy (tx ∷ txs) h =
      ((lazy-round_trip decode write signature_size sizes len tx h.0 []).0, write_new_lazy txs h.1)

  read_items :
      (txs : List (SignedTransaction L D S))
      → All (IsLazy decode write signature_size sizes) txs
      → All
          (λ tx.
            (rest : List ℕ)
            → read_lazy {L = L} {D = D} {S = S} len sizes (item tx ++ rest)
              ≡ ok (read_back tx, rest))
          txs
  read_items [] h = tt
  read_items (tx ∷ txs) h =
      (read_lazy-wire decode write signature_size sizes len tx h.0, read_items txs h.1)

  get_read_back :
      (txs : List (SignedTransaction L D S))
      → All (IsLazy decode write signature_size sizes) txs
      → map (get_expect decode) (map read_back txs) ≡ map some txs
  unfolding get_lazy
  get_read_back [] h = refl
  get_read_back (tx ∷ txs) h =
      ap (λ o. o ∷ map (get_expect decode) (map read_back txs)) (h.0).decodes
      ∙ ap (λ os. some tx ∷ os) (get_read_back txs h.1)

  write_read_back :
      (txs : List (SignedTransaction L D S))
      → All (IsLazy decode write signature_size sizes) txs
      → All (λ tx. write_lazy decode write len signature_size (read_back tx) ≡ some (item tx)) txs
  write_read_back [] h = tt
  write_read_back (tx ∷ txs) h =
      ((lazy-round_trip decode write signature_size sizes len tx h.0 []).4, write_read_back txs h.1)

  -- What `Block.RoundTrip` shows of the program's codecs, on any that a cell can hold.
  pub block-round_trip :
      (cfg : BlockCfg) (header : Header C D P) (txs : List (SignedTransaction L D S))
      (rest : List ℕ)
      → IsHeader c header
      → All (IsLazy decode write signature_size sizes) txs
      → cfg.at_least ≤ length txs
      → length txs ≤ cfg.at_most
      → (bytes : List ℕ) × (block : LazyBlock C D P L S) × (write_block c v len decode write
            signature_size
            (new_lazy_block header txs)
          ≡ some bytes)
        × (read_block c v len sizes cfg (bytes ++ rest) ≡ ok (block, rest))
        × (All (λ (cell : LazySignedTransaction L D S). cell.value ≡ none) block.body)
        × (loaded decode block ≡ new_block header txs)
        × (write_block c v len decode write signature_size block ≡ some bytes)
  unfolding write_block read_block
  block-round_trip cfg header txs rest valid lazy enough few =
      let items = v.write_vec (λ (bytes : List ℕ). bytes) (map item txs) in
      let block : LazyBlock C D P L S = record { header = header; body = map read_back txs } in
      let collected =
        collect-map (write_lazy decode write len signature_size) new_lazy item txs
          (write_new_lazy txs lazy) in
      let read_body =
        v.read_write_vec (λ bytes. bytes) (read_lazy len sizes) item read_back cfg.at_least
          cfg.at_most txs rest (read_items txs lazy) enough few in
      (
        write_header c header ++ items,
        block,
        ap (Option.map (λ xs. write_header c header ++ v.write_vec (λ bytes. bytes) xs)) collected,
        rw
            (
              append_assoc (write_header c header) items rest,
              read-write_header c header (items ++ rest) valid,
              read_body,
            )
            refl,
        undecoded txs,
        ap (λ body. record { header = header; body = body }) (get_read_back txs lazy),
        ap (Option.map (λ xs. write_header c header ++ v.write_vec (λ bytes. bytes) xs)) (
            collect-map (write_lazy decode write len signature_size) read_back item txs
              (write_read_back txs lazy)),
      )
    where
      undecoded :
          (ts : List (SignedTransaction L D S))
          → All (λ (cell : LazySignedTransaction L D S). cell.value ≡ none) (map read_back ts)
      undecoded [] = tt
      undecoded (t ∷ ts) = (refl, undecoded ts)
