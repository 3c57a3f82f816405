-- ===== src/Lib.antt =====
-- The Constantinople blockchain: accounts with a run-ahead nonce window, signed transactions and
-- their codecs, the executor that proposers and verifiers share, the consensus application that
-- loads, executes and commits blocks, the mempool that feeds it, the relayer that hands batches
-- on to the leaders, and the publisher that sends finalized blocks to the indexer's store.
--
-- The parts and their files. Account.antt models crates/primitives/src/account.rs: `AccountKey`,
-- `Account` and, in Account/Nonce.antt, `Nonce` with `consume`, `next_nonce_state` and
-- `consume_current_nonce`; Account/Nonce/Scan.antt and Consume.antt prove what they do, and
-- Account/Codec.antt models the byte codecs. Transaction.antt models the data of
-- crates/primitives/src/transaction.rs and sealed.rs, Transaction/Codec.antt their codecs,
-- Block.antt the data of block.rs and Block/Codec.antt their codecs, Auth.antt the public keys of
-- auth.rs with their codec, Auth/Signature.antt the signatures with theirs, Auth/Batch.antt its
-- batch verifier with the check of WebAuthn assertions, of which Auth/Mixed.antt and
-- Challenge.antt prove what is accepted and Key.antt and Wire.antt that the codecs read back,
-- Signed.antt the passes of signed.rs over the transactions of a body and Signed/Lazy.antt the
-- cell that holds a transaction's bytes, its decoded value, or both. Block/Wire.antt,
-- Block/RoundTrip.antt and Signed/Cell.antt prove about the codecs, and Auth/Bodies.antt about
-- the verification of a body. Executor.antt models crates/application/src/executor.rs: `Overlay`,
-- `apply_transfer`, `execute` and `execute_unique`; Executor/Proposal.antt models its proposal
-- side, `prepare_proposal`, `propose_prepared` and `propose`. The children of Executor prove:
-- Step the cases of one transfer, Agreement and Partition what a proposal keeps, Unique the fast
-- path, Writes the changeset, Conservation the balances, Replay the nonces.
--
-- Consensus.antt models time.rs and history.rs of crates/application/src/consensus,
-- Consensus/Load.antt the loading of accounts of execution.rs with the helpers of db.rs,
-- Consensus/Execution.antt the rest of execution.rs, and Consensus/Lifecycle.antt
-- `propose_child`, `verify_child` and `apply_certified` of lifecycle.rs with `verify_signatures`
-- of body.rs. Consensus/Glue.antt models genesis.rs, the sync targets and the pruning of glue.rs.
-- Consensus/Reads.antt, Honest.antt, Inversion.antt and Certified.antt prove about loading, about
-- an honest proposal, about what a verified block went through and about a certified block, and
-- Retention.antt about what pruning keeps. Mempool.antt models the data of
-- crates/mempool/src/webserver/actor.rs and mailbox.rs, and its children the operations: Status
-- the table of statuses, Watch the batches that wait for digests, Actor the submission of a
-- batch, Messages the other messages and the loop. Mempool/Reachable.antt is the relation of the
-- states that the actor reaches; Bytes, Fifo, Counts, Known, Remembered and Outcome prove about
-- them. Indexer.antt models crates/indexer/src/publisher/sql.rs, Indexer/Rows.antt models
-- block.rs beside it, and Indexer/Upload.antt, Commit.antt and Committer.antt model qmdb.rs: what
-- is built, queued and expanded of a block, the batch of one upload, and the loop that commits
-- batches; Indexer/Writer.antt states what the writers of the Store document.
-- Indexer/Described.antt says which rows the transactions of a block have, and Indexed.antt,
-- Expand.antt, Queue.antt and Delta.antt prove about the rows, the expansion, the queue and the
-- account rows; Side, Persisted, Spans and Books carry the invariant of the committer that
-- Completed uses, and Flush, Drain, InFlight and Ends what Stops uses.
--
-- Relayer.antt and Relayer/Submit.antt model bin/validator/src/relayer.rs; Relayer/Truthful.antt
-- and Leaders.antt, on the lemmas of Filter, Targets and Clock, prove about its answers and about
-- the leaders that it picks.
--
-- Base and its children hold shared names, maps, sorting, bits, words and the codec interface.
--
-- How the parts interact. The mempool hands a list of signed transactions to `propose_child`,
-- which prepares and filters them with the executor; `verify_child` and `apply_certified` run the
-- executor on the decoded body; the finalized block goes back to the mempool as the message
-- `report_block`, and to the publisher, which captures its operations, queues them and commits
-- them to the Store. The relayer hands batches on to the mempools of the next leaders and asks
-- them for their status.
--
-- How state and operations correspond. A `u64` is a native number, with `checked_add` written out
-- and ranges stated in the predicates `IsNonce`, `IsAccount`, `IsTransfer` and `IsWord`. A byte
-- string is a list of numbers, and a `String` is its bytes. A `HashMap` is an association list in
-- insertion order; where the program iterates over a map it sorts the entries by key, and
-- Base/Sort.antt shows that the sorted list does not depend on the order; where it iterates over
-- a `HashSet` the order is the parameter `iteration`. A method on `&mut self` returns the new
-- state and its result; a message handler returns the new state and what it sends. The panic of
-- an `expect` is `none` or `panicked`. The databases of commonware_storage are the record
-- `Databases`, and what the theorems need of them are the hypotheses `Reads` and `KeepsFloor`;
-- the parallel strategies are the record `Strategy` with the laws `IsStrategy`.
-- `Lazy<TransactionPublicKey>`, digests, signatures, SHA-256, the clock and the hash of a header
-- are parameters, as code of other packages. A transaction of a body is what
-- `LazySignedTransaction::get` returns of it. Where signed.rs calls the batch verifier of
-- crates/primitives/src/auth.rs it is the record `Verifier`, and Auth/Batch.antt models it, and
-- the codecs of lazily decoded keys and of signatures are `Codec` interfaces. The tasks of the
-- publisher are steps of one relation: an upload arrives prepared, the channel closes, the loop
-- does one round of its `while`, receives, joins a commit that has finished, or flushes; which
-- commit finishes next is free. The assertion of a commit's task, that its batch has a row, is
-- raised where the loop joins it. The writers of exoware_qmdb and exoware_sql are the records
-- `QmdbWriter` and `SqlWriter` with the hypotheses `IsWriter` and `FlushesSafely`. What the
-- relayer calls is the record `Externals`: its HTTP client acts on a world in which each request
-- ends, in an answer or in a failure, and the views that it is to see are a list, at whose end it
-- waits for ever, which is `none`. `PhantomData`, capacities of collections, durations, metrics
-- and logs are left out.
--
-- Bounds and fuel. The `while` loop of `consume_current_nonce` is `count_advance`, which takes
-- the number of rounds left; 64 rounds from `advance = 1` are enough, because the loop's own test
-- fails at 65, and the lemma `count_advance-Found` says that the loop ended by its test. The loop
-- of the committer is unbounded; `rounds` counts the steps it has left once its senders are gone.
-- All other loops are recursions on lists. Sums of sizes in the mempool are those of values held
-- in memory, so they are not reduced modulo 2 ^ 64.
--
-- Not modelled: storage, networking, the servers of the indexer, telemetry, HTTP servers and the
-- command-line programs.
pub mod Base
pub mod Account
pub mod Transaction
pub mod Auth
pub mod Signed
pub mod Block
pub mod Executor
pub mod Mempool
pub mod Consensus
pub mod Indexer
pub mod Relayer
