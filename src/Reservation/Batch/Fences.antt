-- ===== src/Reservation/Batch/Fences.antt =====
-- batch_memory_store.go: methods on a batch with a token that does not hold its lease.
use clairveil.Prelude.{ℕ, String, ◌≡◌, ◌≢◌, ◌≤◌, ◌⊎◌, refl, some, arith, str_eq_iff, inl, inr}
use clairveil.Prelude.Result.{err}
use clairveil.Prelude.Dict.{lookup}
use clairveil.Reservation.Types.{Error}
use clairveil.Reservation.Status.{OperationStatus}
use clairveil.Reservation.Batch.Types.{
  BatchOperation, BatchProofArtifactUpdate, BatchSignedTxUpdate, BatchBroadcastUpdate,
}
use clairveil.Reservation.Batch.Store.{BatchStore, Method, find_batch, require_batch_lease}
use clairveil.Reservation.Batch.Lease.{batch_renewable, heartbeat_batch_lease, release_batch_lease}
use clairveil.Reservation.Batch.Transition.{settable, compare_and_set_batch}
use clairveil.Reservation.Batch.Signing.{
  resignable, prepare_resign, provable, save_proof, signable, save_signed_tx,
}
use clairveil.Reservation.Batch.Broadcast.{recordable, record_broadcast}

-- The token is not the stored one, or the lease has ended.
abbrev pub IsOutside : BatchOperation → String → ℕ → Type 0
IsOutside op token now = (op.lease_token ≢ token) ⊎ (op.lease_until ≤ now)

-- A method that fails with ErrLeaseMismatch, and changes nothing.
abbrev pub IsRefused : {A : Type 0} → BatchStore → Method A → Type 0
IsRefused b m = m b ≡ (err Error.lease_mismatch, b)

module _ (fold : ℕ → ℕ) (id token : String) (now : ℕ) (b : BatchStore) (op : BatchOperation) where
  refused :
      lookup id b.batch_operations ≡ some op
      → IsOutside op token now
      → require_batch_lease id token now b ≡ err Error.lease_mismatch
  unfolding require_batch_lease find_batch
  refused known (inl other) = ground (arith, str_eq_iff op.lease_token token)
  refused known (inr over) = ground arith

  -- If a stored batch operation's lease has another token than the given one, or has ended, then with
  -- that token renewing and releasing the lease, changing the status, preparing a new signature and
  -- saving a proof, a signed transaction or a broadcast all fail with ErrLeaseMismatch and change
  -- nothing.
  pub batch_lease_fences :
      (until code : ℕ) (from to : OperationStatus) (tx_hash : String)
      (proof : BatchProofArtifactUpdate) (tx : BatchSignedTxUpdate) (sent : BatchBroadcastUpdate)
      → lookup id b.batch_operations ≡ some op
      → IsOutside op token now
      → IsRefused b (heartbeat_batch_lease id token until now)
        × IsRefused b (release_batch_lease id token now)
        × IsRefused b (compare_and_set_batch id token from to now)
        × IsRefused b (prepare_resign fold id token tx_hash code now)
        × IsRefused b (save_proof fold id token proof now)
        × IsRefused b (save_signed_tx fold id token tx now)
        × IsRefused b (record_broadcast fold id token sent now)
  unfolding heartbeat_batch_lease batch_renewable release_batch_lease compare_and_set_batch settable
      prepare_resign resignable save_proof provable save_signed_tx signable record_broadcast
      recordable
  batch_lease_fences until code from to tx_hash proof tx sent known outside =
      let e = refused known outside in
      (rw e refl, rw e refl, rw e refl, rw e refl, rw e refl, rw e refl, rw e refl)
