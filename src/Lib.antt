-- ===== src/Lib.antt =====
-- Verification of Clairveil's wallet reservations and of its note commitment tree.
--
-- Clairveil is a Cosmos SDK module for private payments. Two of its parts keep the state on which
-- safety against double spending rests; this library models them, the messages of the keeper that
-- spend, and the amounts that they move.
--
-- Reservation stands for x/privacy/client/sdk/reservation. A wallet that prepares several
-- transactions at once reserves each note before it is spent. status.go's two state machines are in
-- Reservation.Status, the records of types.go and the sentinels of errors.go in Reservation.Types.
-- `MemoryStore` of memory_store.go is in Reservation.Store (state, `storeReservationLocked`, the
-- index), Reservation.Create (`CreateReservation`, `CreateReservationBatch`, `CreateOperation`),
-- Reservation.Transition (the compare-and-set methods, reads, `UpdateReservation`,
-- `UpdateOperation`), Reservation.Lease (acquiring, renewing and clearing leases),
-- Reservation.Links and Reservation.Marks (`MarkReservationsProofReady`,
-- `MarkReservationsSubmitted` and `MarkReservationsBroadcastUnknown`). service.go and lease.go are
-- in Reservation.Service and Reservation.Service.Leases, the check of audit_v2.go in
-- Reservation.Audit. Reservation.Calls has the calls that change a store and runs of them.
-- Reservation.Invariant says when a store is valid: its index is exactly that of the active
-- reservations; Reservation.Keeps is about the methods and valid stores.
--
-- reconcile.go is in Reservation.Identity (its comparison of texts), Reservation.Evidence (the
-- evidence, matched with an operation) and Reservation.Reconcile (`Reconcile`, as the branch that
-- it takes and the change that it makes, with no other call of the store between its own).
--
-- Reservation.Batch stands for batch_types.go and batch_memory_store.go, in which one proof spends
-- several reserved notes. Its Types and Texts have the records and how texts and evidence are
-- compared, Store the four maps beside the memory store with what the methods share, Create
-- `CreateBatchOperation` with the checks of the graph, Lease the shared lease, Transition
-- `CompareAndSetBatchOperationStatus`, Signing `SaveBatchProofArtifacts`, `SaveBatchSignedTx` and
-- `PrepareBatchOperationResign`, Broadcast `RecordBatchBroadcast`, and Settle, Items and Reconcile
-- `ReconcileBatchOperation`. Calls has runs of batch methods and ordinary ones over one store. The
-- writes of a method to reservations are a trail of steps (Trail), which Trails, Loops, Rides,
-- Advances and Ends give for each method; the other children are about what the methods promise,
-- and Samples and Tests run them. Folding of letter case is an argument, as a function on code
-- points, and `%d` has 10 digits as fuel, enough for a code of 32 bits.
--
-- Amount stands for x/privacy/amount/amount.go: an amount is two 64-bit limbs, and the carries and
-- borrows of math/bits are written out. Amount.Decimal has `Parse` and `String`, on the text's
-- bytes, Amount.Bytes the forms of 16 and 32 bytes, Amount.Shielded the checks of
-- x/privacy/types/amount.go on big integers.
--
-- Tree stands for x/privacy/keeper/tree.go, with the snapshot that an append stores
-- (`setMerkleRootSnapshot` of x/privacy/keeper/path_snapshot.go), the strict check of
-- field_bytes.go and the empty roots of x/privacy/types/note_v1.go. Tree.Shape has the dimensions,
-- Tree.Store the key-value store's part and single reads and writes, Tree.Append `appendCommitment`
-- and `ensureIncrementalTreeState`, Tree.Path `GetPath` and `RecalculateRoot`. Tree.Spec has the
-- tree that is meant: node i of a level is the hash of nodes 2i and 2i + 1 below, over leaves that
-- are zero behind the last. Tree.Invariant says when a store stands for a tree.
--
-- Keeper stands for the messages of x/privacy/keeper. Keeper.State has the store and what the
-- handlers call, Keeper.Checks the checks that they share, Keeper.Reserve reserve.go, Keeper.Events
-- `emitIndexedPrivacyEvent` of event_index.go with `RecordCurrentMerkleRootSnapshotV1`.
-- Keeper.Withdraw, Keeper.Transfer and Keeper.Deposit have all that a message checks before its
-- first write, Keeper.Handlers its writes, over the tree of Tree: `Withdraw`, `Transfer` with
-- `executeShieldedTransfer`, and `Deposit` and `DepositWithFunder` with
-- `depositWithValidatedFunder`. Keeper.Spending delivers messages in a row.
--
-- How the program is read: a method is a function of the state that returns its result beside the
-- new state, also on an error (Prelude.Exec). The store's mutex is held from start to end of a
-- method, so interleaved clients are sequences of calls. A time is its nanoseconds since the zero
-- time; an error is its sentinel; a string that is no status constant is `other n`. Values are
-- immutable, so the defensive copies are left out. A store comes from `NewMemoryStore`, so none of
-- its maps is nil. A map is an association list with each key once. A node of the tree is the
-- number of which the store holds the 32 canonical bytes; the note tree's MiMC hash is
-- gnark-crypto's and so a parameter, of which the proofs use that its values are canonical. The
-- key-value store does not fail. The random token of a lease is an argument, and so is
-- `unicode.ToLower`, as a function on code points. What the keeper calls is a record of functions:
-- the bank and the SDK's parsers, the proof system without its gas, the digests and asset ids, the
-- scan index, and `ValidateBasic` of transfers and deposits. BaseApp drops what a failed message
-- wrote. That the bank moves the coin that it is told to, between the module and an account that is
-- not the module's, and does not pay the module's own account, which app/app.go blocks, is the hypothesis
-- `IsBank`. That the module's account, which has no key, signs no `MsgDeposit` is the hypothesis `IsSigned`.
--
-- All loops run over lists, levels or counts that they are given, but for `String`, which runs on
-- the 39 places of its array as fuel; 39 digits are enough for 2^128 - 1. The tree has 32 levels
-- and at most 2^32 leaves, and a root is recomputed for at most 2^20.
--
-- Not modelled: the file and SQL stores with their check of stored batch graphs, stale releases,
-- historical paths, batch transfers, the keeper's queries and its audit records, which stand apart
-- from these parts; and, since they are I/O or calls of libraries that are not in the repository,
-- circuits, cryptography, generated code, RPC clients and command lines.
pub mod Prelude
pub mod Amount
pub mod Reservation
pub mod Tree
pub mod Keeper
