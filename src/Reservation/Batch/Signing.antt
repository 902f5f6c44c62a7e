-- ===== src/Reservation/Batch/Signing.antt =====
-- batch_memory_store.go: the methods that store a proof or a signed transaction of a batch, and the one
-- that allows another signature.
use Prim.Native.String.{◌++◌}
use clairveil.Prelude.{ℕ, String, Bool, true, false, not, ◌&&◌, ◌||◌, ◌==◌, str_eq, if◌then◌else◌}
use clairveil.Prelude.Result.{Result, ok, err, guard, ◌>>=◌, ◌>>◌}
use clairveil.Prelude.Exec.{continue}
use clairveil.Reservation.Status.{ReservationStatus, OperationStatus}
use clairveil.Reservation.Types.{Error}
use clairveil.Reservation.Store.{MemoryStore}
use clairveil.Reservation.Evidence.{operation_status_eq}
use clairveil.Reservation.Links.{is_blank, is_nil}
use clairveil.Reservation.Batch.Types.{
  BatchOperation, BatchProofArtifactUpdate, BatchSignedTxUpdate,
}
use clairveil.Reservation.Batch.Texts.{equal_normalized, decimal_text}
use clairveil.Reservation.Batch.Store.{BatchStore, Method, require_batch_lease, transition_inputs}
use clairveil.Reservation.Batch.Transition.{finish, keep}

-- The text that `PrepareBatchOperationResign` stores.
unfoldable pub resign_text : ℕ → String
unfolding decimal_text
resign_text failure_code =
    "confirmed batch transaction failed with code "
    ++ (decimal_text 10 failure_code ++ "; explicit re-sign authorized")

-- `SaveBatchSignedTx` on the operation.
unfoldable pub signed : BatchSignedTxUpdate → ℕ → BatchOperation → BatchOperation
signed u now op = record op {
  signed_tx_bytes_ciphertext = u.signed_tx_bytes_ciphertext;
  tx_bytes_hash = u.tx_bytes_hash;
  sign_doc_hash = u.sign_doc_hash;
  tx_hash = u.tx_hash;
  account_sequence = u.account_sequence;
  updated_at = now;
}

unfoldable pub is_signable : OperationStatus → Bool
is_signable OperationStatus.proof_ready = true
is_signable OperationStatus.submitted = true
is_signable OperationStatus.unknown = true
is_signable _ = false

unfoldable pub is_broadcast : OperationStatus → Bool
is_broadcast OperationStatus.submitted = true
is_broadcast OperationStatus.unknown = true
is_broadcast _ = false

module _ (fold : ℕ → ℕ) where
  -- The checks of `PrepareBatchOperationResign`, and the reservations after the transition, if it
  -- makes one.
  unfoldable pub resignable :
      String → String → String → ℕ → ℕ → BatchStore → Result Error (BatchOperation × MemoryStore)
  unfolding equal_normalized is_broadcast operation_status_eq
  resignable id token failed_tx_hash failure_code now b = do
    op ← require_batch_lease id token now b
    guard
        (not (
          failure_code == 0
          || is_blank failed_tx_hash
          || not (equal_normalized fold op.tx_hash failed_tx_hash)))
        Error.invalid_reservation
    guard (is_broadcast op.status) Error.compare_and_set_failed
    s ←
        (if operation_status_eq op.status OperationStatus.submitted
          then transition_inputs id ReservationStatus.submitted ReservationStatus.unknown token now
              b
          else ok b.base)
    ok (op, s)

  -- `PrepareBatchOperationResign`.
  unfoldable pub prepare_resign : String → String → String → ℕ → ℕ → Method BatchOperation
  unfolding resignable keep resign_text
  prepare_resign id token failed_tx_hash failure_code now b =
      continue (resignable id token failed_tx_hash failure_code now b)
        (λ (op, s) t.
          keep id
            (record op {
              status = OperationStatus.unknown;
              last_broadcast_error = resign_text failure_code;
              updated_at = now;
            })
            s t)
        b

  -- The prepared payload that `SaveBatchProofArtifacts` keeps or replaces.
  unfoldable pub payload_after :
      BatchOperation → BatchProofArtifactUpdate → Result Error BatchOperation
  unfolding equal_normalized
  payload_after op u =
      if not (is_nil u.prepared_payload_ciphertext) || not (is_blank u.prepared_payload_hash)
      then (if is_nil u.prepared_payload_ciphertext
            || not (equal_normalized fold op.prepared_payload_hash u.prepared_payload_hash)
          then err Error.invalid_reservation
          else ok (record op { prepared_payload_ciphertext = u.prepared_payload_ciphertext }))
      else ok op

  -- The checks of `SaveBatchProofArtifacts`, and the reservations after the transition.
  unfoldable pub provable :
      String
      → String
      → BatchProofArtifactUpdate
      → ℕ
      → BatchStore
      → Result Error (BatchOperation × MemoryStore)
  unfolding payload_after operation_status_eq
  provable id token u now b = do
    op ← require_batch_lease id token now b
    guard (operation_status_eq op.status OperationStatus.proving) Error.compare_and_set_failed
    guard (not (is_nil u.proof_ciphertext || is_blank u.proof_hash)) Error.invalid_reservation
    paid ← payload_after op u
    s ← transition_inputs id ReservationStatus.proving ReservationStatus.proof_ready token now b
    ok (
      record paid {
        proof_ciphertext = u.proof_ciphertext;
        proof_hash = u.proof_hash;
        status = OperationStatus.proof_ready;
        updated_at = now;
      },
      s,
    )

  -- `SaveBatchProofArtifacts`.
  unfoldable pub save_proof : String → String → BatchProofArtifactUpdate → ℕ → Method BatchOperation
  unfolding provable finish
  save_proof id token u now b =
      continue (provable id token u now b) (λ (op, s) t. finish id now op s t) b

  -- The checks of `SaveBatchSignedTx`.
  unfoldable pub signable :
      String → String → BatchSignedTxUpdate → ℕ → BatchStore → Result Error BatchOperation
  unfolding equal_normalized is_signable operation_status_eq
  signable id token u now b = do
    op ← require_batch_lease id token now b
    guard (is_signable op.status) Error.compare_and_set_failed
    guard
        (not
          (is_nil u.signed_tx_bytes_ciphertext || is_blank u.tx_bytes_hash || is_blank u.tx_hash))
        Error.invalid_reservation
    guard
        (not (
          not (str_eq op.tx_bytes_hash "")
          && not (equal_normalized fold op.tx_bytes_hash u.tx_bytes_hash)
          && not (operation_status_eq op.status OperationStatus.unknown)))
        Error.invalid_reservation
    ok op

  -- `SaveBatchSignedTx`.
  unfoldable pub save_signed_tx : String → String → BatchSignedTxUpdate → ℕ → Method BatchOperation
  unfolding signable signed keep
  save_signed_tx id token u now b =
      continue (signable id token u now b) (λ op t. keep id (signed u now op) t.base t) b
