-- ===== src/Reservation/Batch/Samples.antt =====
-- Sample batches, for the tests.
use clairveil.Prelude.{ℕ, true, false, [], ◌∷◌}
use clairveil.Prelude.Int.{pos}
use clairveil.Reservation.Status.{ReservationStatus, OperationStatus}
use clairveil.Reservation.Types.{NoteReservation}
use clairveil.Reservation.Tests.{note, store_with}
use clairveil.Reservation.Batch.Types.{
  schema_version_v1, BatchOutputRole, BatchItemEvidenceStatus, UserDisclosureMode, BatchOperation,
  OperationInputReservation, PayrollItemOutput, ExpectedOutputEvidence, BatchOperationGraph,
  BatchProofArtifactUpdate, BatchSignedTxUpdate, BatchBroadcastUpdate, BatchReconcileUpdate,
}
use clairveil.Reservation.Batch.Store.{BatchStore, new_batch_store}
use clairveil.Reservation.Batch.Calls.{BatchCall, run_batch}

abbrev pub input_note : NoteReservation
input_note = record (note "r1" ReservationStatus.reserved "" 0) { operation_id = "op" }

abbrev pub planned_operation : BatchOperation
planned_operation = record {
  version = schema_version_v1;
  operation_id = "op";
  company_id = "c";
  payroll_id = "p";
  batch_id = "b";
  owner_key_id = "owner";
  asset_id = "asset";
  denom = "denom";
  input_count = pos 1;
  output_count = pos 1;
  status = OperationStatus.planned;
  lease_owner = "";
  lease_token = "";
  lease_until = 0;
  last_heartbeat_at = 0;
  prepared_payload_ciphertext = 1 ∷ [];
  prepared_payload_hash = "hash";
  proof_ciphertext = [];
  proof_hash = "";
  signed_tx_bytes_ciphertext = [];
  tx_bytes_hash = "";
  sign_doc_hash = "";
  tx_hash = "";
  account_sequence = 0;
  broadcast_attempt_count = 0;
  last_broadcast_at = 0;
  last_broadcast_error = "";
  broadcast_history = [];
  created_at = 1;
  updated_at = 1;
}

abbrev pub input : OperationInputReservation
input = record {
  version = schema_version_v1;
  operation_id = "op";
  reservation_id = "r1";
  input_index = pos 0;
  commitment = "0000000000000000000000000000000000000000000000000000000000000001";
  encrypted_amount = [];
  created_at = 1;
}

abbrev pub item : PayrollItemOutput
item = record {
  version = schema_version_v1;
  operation_id = "op";
  item_id = "item";
  employee_id = "e";
  output_index = pos 0;
  role = BatchOutputRole.payment;
  evidence_status = BatchItemEvidenceStatus.pending;
  manual_review_reason = "";
  created_at = 1;
  updated_at = 1;
}

abbrev pub expected : ExpectedOutputEvidence
expected = record {
  version = schema_version_v1;
  operation_id = "op";
  output_index = pos 0;
  commitment = "c0";
  user_privacy_policy = 0;
  user_disclosure_mode = UserDisclosureMode.undisclosed;
  user_disclosure_digest = "";
  full_disclosure_digest = "d0";
  recipient_hash = "";
  encrypted_recipient = [];
  encrypted_amount = [];
  amount_hash = "";
  denom = "denom";
  asset_id = "asset";
  role = BatchOutputRole.payment;
  audit_key_id = "";
  audit_key_epoch = 0;
  observed_commitment = "";
  observed_user_digest = "";
  observed_full_digest = "";
  observed_recipient_hash = "";
  audit_delivery_failed = false;
  self_view_delivery_failed = false;
  created_at = 1;
  updated_at = 1;
}

abbrev pub graph : BatchOperationGraph
graph = record {
  operation = planned_operation;
  inputs = input ∷ [];
  items = item ∷ [];
  evidence = expected ∷ [];
}

abbrev pub same : ℕ → ℕ
same c = c

abbrev pub creation : BatchCall
creation = BatchCall.create_batch (input_note ∷ []) graph

abbrev pub created_store : BatchStore
created_store = run_batch same (creation ∷ []) new_batch_store

-- A store with the operation and its one input.
abbrev pub batch_with : BatchOperation → NoteReservation → BatchStore
batch_with op r = record {
  base = store_with r;
  batch_operations = ("op", op) ∷ [];
  batch_inputs = ("op", input ∷ []) ∷ [];
  batch_items = ("op", item ∷ []) ∷ [];
  batch_evidence = ("op", expected ∷ []) ∷ [];
}

abbrev pub free_batch : BatchStore
free_batch = batch_with planned_operation input_note

abbrev pub leased_as : OperationStatus → BatchOperation
leased_as status = record planned_operation {
  status = status;
  lease_owner = "w";
  lease_token = "token";
  lease_until = 20;
  signed_tx_bytes_ciphertext = 7 ∷ [];
  tx_bytes_hash = "bytes";
  tx_hash = "tx";
}

-- The operation with the status and its input with the other, under one lease.
abbrev pub leased_batch : OperationStatus → ReservationStatus → BatchStore
leased_batch status input_status = batch_with (leased_as status) (note "r1" input_status "token" 20)

abbrev pub verdict : BatchReconcileUpdate
verdict = record {
  tx_hash = "tx";
  tx_succeeded = true;
  tx_failed = false;
  spent_reservation_ids = "r1" ∷ [];
  observed_outputs =
      record {
        output_index = pos 0;
        commitment = "0xc0";
        user_disclosure_digest = "";
        full_disclosure_digest = "d0";
        recipient_hash = "";
        audit_delivery_failed = false;
        self_view_delivery_failed = false;
      }
      ∷ [];
  failure_reason = "";
}

abbrev pub proving_batch : BatchStore
proving_batch = leased_batch OperationStatus.proving ReservationStatus.proving

abbrev pub proving_note : NoteReservation
proving_note = note "r1" ReservationStatus.proving "token" 20

abbrev pub proof : BatchProofArtifactUpdate
proof = record {
  prepared_payload_ciphertext = [];
  prepared_payload_hash = "";
  proof_ciphertext = 9 ∷ [];
  proof_hash = "proof";
}

abbrev pub ready_batch : BatchStore
ready_batch = leased_batch OperationStatus.proof_ready ReservationStatus.proof_ready

abbrev pub broadcast : BatchBroadcastUpdate
broadcast = record {
  signed_tx_bytes_ciphertext = 7 ∷ [];
  tx_bytes_hash = "bytes";
  sign_doc_hash = "";
  tx_hash = "tx";
  account_sequence = 3;
  last_broadcast_error = "";
  is_unknown = false;
}

abbrev pub signed_tx : BatchSignedTxUpdate
signed_tx = record {
  signed_tx_bytes_ciphertext = 7 ∷ [];
  tx_bytes_hash = "bytes";
  sign_doc_hash = "";
  tx_hash = "tx";
  account_sequence = 3;
}
