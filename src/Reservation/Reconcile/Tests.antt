-- ===== src/Reservation/Reconcile/Tests.antt =====
-- Reconciliations on concrete inputs.
use clairveil.Prelude.{true, false, ◌≡◌, refl, none, some, List, [], ◌∷◌}
use clairveil.Prelude.Int.{pos}
use clairveil.Prelude.Result.{After}
use clairveil.Prelude.Dict.{lookup, insert, contains}
use clairveil.Reservation.Status.{
  ReservationStatus, OperationStatus, is_active, is_terminal_operation,
}
use clairveil.Reservation.Types.{NoteReservation, PayrollOperation}
use clairveil.Reservation.Store.{MemoryStore, new_store, put_reservation, put_operation}
use clairveil.Reservation.Create.{
  create_operation, create_reservation, create_reservation_batch, put_reservations, put_operations,
  validate_batch, validate_reservations, validate_reservation_create, validate_operations,
}
use clairveil.Reservation.Calls.{Call, call, run}
use clairveil.Reservation.Calls.Validity.{run-IsValid}
use clairveil.Reservation.Invariant.{IsValid, new_store-IsValid}
use clairveil.Reservation.Evidence.{OperationEvidence}
use clairveil.Reservation.Reconcile.{reconcile}
use clairveil.Reservation.Reconcile.Outcome.{Settles, reconcile-Settles}
use clairveil.Reservation.Reconcile.Operations.{IsKept, reconcile-IsKept}

abbrev submitted_note : NoteReservation
submitted_note = record {
  reservation_id = "r1";
  company_id = "c";
  payroll_id = "p";
  batch_id = "b";
  chunk_id = "k";
  item_id = "i";
  note_id = "n";
  owner_key_id = "owner";
  encrypted_nullifier = [];
  nullifier_lookup_key = "nullifier";
  nullifier_lookup_key_id = "key";
  status = ReservationStatus.submitted;
  expires_at = 0;
  lease_owner = "";
  lease_token = "";
  lease_until = 0;
  last_heartbeat_at = 0;
  operation_id = "o1";
  sign_doc_hash = "";
  tx_bytes_hash = "";
  tx_hash = "";
  account_sequence = 0;
  broadcast_attempt_count = 0;
  last_broadcast_at = 0;
  last_broadcast_error = "";
  audit = none;
  created_at = 1;
  updated_at = 1;
}

abbrev operation : OperationStatus → PayrollOperation
operation status = record {
  operation_id = "o1";
  company_id = "x";
  payroll_id = "x";
  batch_id = "x";
  chunk_id = "x";
  item_id = "x";
  reservation_id = "r1";
  expected_output_commitment = "x";
  expected_disclosure_digest = "x";
  expected_user_disclosure_digest = "x";
  expected_audit_disclosure_digest = "x";
  expected_self_view_disclosure_digest = "x";
  expected_recipient_hash = "x";
  encrypted_expected_recipient = [];
  encrypted_expected_amount = [];
  expected_amount_hash = "x";
  expected_denom = "x";
  batch_item_index = pos 0;
  batch_item_index_known = false;
  sign_doc_hash = "x";
  tx_bytes_hash = "x";
  tx_hash = "tx";
  status = status;
  created_at = 1;
  updated_at = 1;
}

abbrev failed_tx : OperationEvidence
failed_tx = record {
  tx_hash = "tx";
  sign_doc_hash = "x";
  tx_bytes_hash = "x";
  output_commitment = "x";
  disclosure_digest = "x";
  user_disclosure_digest = "x";
  audit_disclosure_digest = "x";
  self_view_disclosure_digest = "x";
  recipient_hash = "x";
  amount_hash = "x";
  denom = "x";
  batch_item_index = pos 0;
  batch_item_index_known = false;
  nullifier_spent = false;
  tx_succeeded = false;
  tx_failed = true;
  tx_known = true;
}

abbrev calls : OperationStatus → List Call
calls status =
    Call.create_operation (operation status) ∷ Call.create_reservation submitted_note ∷ []

abbrev store_at : OperationStatus → MemoryStore
store_at status = run (calls status) new_store

store_at-IsValid : (status : OperationStatus) → IsValid (store_at status)
store_at-IsValid status = run-IsValid (calls status) new_store new_store-IsValid

reconcile-Settles_example :
    let (result, t) = reconcile (λ c. c) "r1" failed_tx 9 (store_at OperationStatus.submitted) in
    After result
      (Settles (λ c. c) "r1" failed_tx (store_at OperationStatus.submitted) t)
      (λ x. t ≡ store_at OperationStatus.submitted)
reconcile-Settles_example =
    reconcile-Settles (λ c. c) "r1" failed_tx 9 (store_at OperationStatus.submitted)
      (store_at-IsValid OperationStatus.submitted)

ended_at :
    lookup "o1" (store_at OperationStatus.succeeded).operations
    ≡ some (operation OperationStatus.succeeded)
unfolding run call create_operation create_reservation create_reservation_batch validate_batch
    validate_reservations validate_reservation_create validate_operations put_reservations
    put_operations put_reservation put_operation lookup insert contains is_active
ended_at = refl

reconcile-IsKept_example :
    IsKept "o1"
      (operation OperationStatus.succeeded)
      (reconcile (λ c. c) "r1" failed_tx 9 (store_at OperationStatus.succeeded)).1
unfolding is_terminal_operation
reconcile-IsKept_example =
    reconcile-IsKept (λ c. c) "r1" failed_tx 9 (store_at OperationStatus.succeeded) "o1"
      (operation OperationStatus.succeeded) (store_at-IsValid OperationStatus.succeeded) ended_at
      refl
