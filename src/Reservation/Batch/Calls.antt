-- ===== src/Reservation/Batch/Calls.antt =====
-- memory_store.go and batch_memory_store.go: the calls that change a store, and runs of calls. All the
-- methods hold one mutex throughout, so any interleaving of clients is such a run.
use clairveil.Prelude.{ℕ, String, List, [], ◌∷◌}
use clairveil.Reservation.Status.{OperationStatus}
use clairveil.Reservation.Types.{NoteReservation}
use clairveil.Reservation.Calls.{Call, call}
use clairveil.Reservation.Batch.Types.{
  BatchOperationGraph, BatchProofArtifactUpdate, BatchSignedTxUpdate, BatchBroadcastUpdate,
  BatchReconcileUpdate,
}
use clairveil.Reservation.Batch.Store.{BatchStore}
use clairveil.Reservation.Batch.Create
use clairveil.Reservation.Batch.Lease
use clairveil.Reservation.Batch.Transition
use clairveil.Reservation.Batch.Signing
use clairveil.Reservation.Batch.Broadcast
use clairveil.Reservation.Batch.Reconcile

pub data BatchCall : Type 0 where
  ordinary : Call → BatchCall
  create_batch : List NoteReservation → BatchOperationGraph → BatchCall
  acquire : String → String → String → ℕ → ℕ → BatchCall
  heartbeat : String → String → ℕ → ℕ → BatchCall
  release : String → String → ℕ → BatchCall
  compare_and_set : String → String → OperationStatus → OperationStatus → ℕ → BatchCall
  prepare_resign : String → String → String → ℕ → ℕ → BatchCall
  save_proof : String → String → BatchProofArtifactUpdate → ℕ → BatchCall
  save_signed_tx : String → String → BatchSignedTxUpdate → ℕ → BatchCall
  record_broadcast : String → String → BatchBroadcastUpdate → ℕ → BatchCall
  reconcile : String → BatchReconcileUpdate → ℕ → BatchCall

module _ (fold : ℕ → ℕ) where
  -- The store after a call, whether it returned an error or not.
  unfoldable pub batch_call : BatchCall → BatchStore → BatchStore
  batch_call (BatchCall.ordinary c) b = record b { base = call c b.base }
  batch_call (BatchCall.create_batch rs graph) b = (Create.create_batch_operation rs graph b).1
  batch_call (BatchCall.acquire id owner token until now) b =
      (Lease.acquire_batch_lease id owner token until now b).1
  batch_call (BatchCall.heartbeat id token until now) b =
      (Lease.heartbeat_batch_lease id token until now b).1
  batch_call (BatchCall.release id token now) b = (Lease.release_batch_lease id token now b).1
  batch_call (BatchCall.compare_and_set id token from to now) b =
      (Transition.compare_and_set_batch id token from to now b).1
  batch_call (BatchCall.prepare_resign id token tx_hash failure_code now) b =
      (Signing.prepare_resign fold id token tx_hash failure_code now b).1
  batch_call (BatchCall.save_proof id token u now) b = (Signing.save_proof fold id token u now b).1
  batch_call (BatchCall.save_signed_tx id token u now) b =
      (Signing.save_signed_tx fold id token u now b).1
  batch_call (BatchCall.record_broadcast id token u now) b =
      (Broadcast.record_broadcast fold id token u now b).1
  batch_call (BatchCall.reconcile id u now) b = (Reconcile.reconcile_batch fold id u now b).1

  unfoldable pub run_batch : List BatchCall → BatchStore → BatchStore
  unfolding batch_call
  run_batch [] b = b
  run_batch (c ∷ cs) b = run_batch cs (batch_call c b)
