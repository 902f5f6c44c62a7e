-- ===== src/Reservation/Batch/Types.antt =====
-- batch_types.go: the records of a batch operation. Its times and byte slices are read as in types.go;
-- an index or a count is Go's `int`, as the integer that it stands for.
use clairveil.Prelude.{ℕ, String, Bool, List}
use clairveil.Prelude.Int.{ℤ}
use clairveil.Reservation.Status.{OperationStatus}

-- `BatchOperationSchemaVersionV1`.
abbrev pub schema_version_v1 : String
schema_version_v1 = "privacy-payroll-batch-v1"

-- The strings of `BatchOutputRole`; `other s` is one that is no constant.
pub data BatchOutputRole : Type 0 where
  payment change padding : BatchOutputRole
  other : String → BatchOutputRole

pub data BatchItemEvidenceStatus : Type 0 where
  pending succeeded manual_review failed : BatchItemEvidenceStatus
  other : String → BatchItemEvidenceStatus

-- The numbers of `UserDisclosureMode`; `other n` is one that is no constant.
pub data UserDisclosureMode : Type 0 where
  undisclosed public_disclosure recipient_encrypted : UserDisclosureMode
  other : ℕ → UserDisclosureMode

pub record BatchBroadcastAttempt : Type 0 where
  pub signed_tx_bytes_ciphertext : List ℕ
  pub tx_bytes_hash : String
  pub sign_doc_hash : String
  pub tx_hash : String
  pub account_sequence : ℕ
  pub broadcast_at : ℕ
  pub broadcast_error : String
  pub is_unknown : Bool

pub record BatchOperation : Type 0 where
  pub version : String
  pub operation_id : String
  pub company_id : String
  pub payroll_id : String
  pub batch_id : String
  pub owner_key_id : String
  pub asset_id : String
  pub denom : String
  pub input_count : ℤ
  pub output_count : ℤ
  pub status : OperationStatus
  pub lease_owner : String
  pub lease_token : String
  pub lease_until : ℕ
  pub last_heartbeat_at : ℕ
  pub prepared_payload_ciphertext : List ℕ
  pub prepared_payload_hash : String
  pub proof_ciphertext : List ℕ
  pub proof_hash : String
  pub signed_tx_bytes_ciphertext : List ℕ
  pub tx_bytes_hash : String
  pub sign_doc_hash : String
  pub tx_hash : String
  pub account_sequence : ℕ
  -- Go's `int`, as its 64-bit pattern.
  pub broadcast_attempt_count : ℕ
  pub last_broadcast_at : ℕ
  pub last_broadcast_error : String
  pub broadcast_history : List BatchBroadcastAttempt
  pub created_at : ℕ
  pub updated_at : ℕ

pub record OperationInputReservation : Type 0 where
  pub version : String
  pub operation_id : String
  pub reservation_id : String
  pub input_index : ℤ
  pub commitment : String
  pub encrypted_amount : List ℕ
  pub created_at : ℕ

pub record PayrollItemOutput : Type 0 where
  pub version : String
  pub operation_id : String
  pub item_id : String
  pub employee_id : String
  pub output_index : ℤ
  pub role : BatchOutputRole
  pub evidence_status : BatchItemEvidenceStatus
  pub manual_review_reason : String
  pub created_at : ℕ
  pub updated_at : ℕ

pub record ExpectedOutputEvidence : Type 0 where
  pub version : String
  pub operation_id : String
  pub output_index : ℤ
  pub commitment : String
  pub user_privacy_policy : ℕ
  pub user_disclosure_mode : UserDisclosureMode
  pub user_disclosure_digest : String
  pub full_disclosure_digest : String
  pub recipient_hash : String
  pub encrypted_recipient : List ℕ
  pub encrypted_amount : List ℕ
  pub amount_hash : String
  pub denom : String
  pub asset_id : String
  pub role : BatchOutputRole
  pub audit_key_id : String
  pub audit_key_epoch : ℕ
  pub observed_commitment : String
  pub observed_user_digest : String
  pub observed_full_digest : String
  pub observed_recipient_hash : String
  pub audit_delivery_failed : Bool
  pub self_view_delivery_failed : Bool
  pub created_at : ℕ
  pub updated_at : ℕ

pub record BatchOperationGraph : Type 0 where
  pub operation : BatchOperation
  pub inputs : List OperationInputReservation
  pub items : List PayrollItemOutput
  pub evidence : List ExpectedOutputEvidence

pub record BatchProofArtifactUpdate : Type 0 where
  pub prepared_payload_ciphertext : List ℕ
  pub prepared_payload_hash : String
  pub proof_ciphertext : List ℕ
  pub proof_hash : String

pub record BatchSignedTxUpdate : Type 0 where
  pub signed_tx_bytes_ciphertext : List ℕ
  pub tx_bytes_hash : String
  pub sign_doc_hash : String
  pub tx_hash : String
  pub account_sequence : ℕ

pub record BatchBroadcastUpdate : Type 0 where
  pub signed_tx_bytes_ciphertext : List ℕ
  pub tx_bytes_hash : String
  pub sign_doc_hash : String
  pub tx_hash : String
  pub account_sequence : ℕ
  pub last_broadcast_error : String
  pub is_unknown : Bool

pub record ObservedOutputEvidence : Type 0 where
  pub output_index : ℤ
  pub commitment : String
  pub user_disclosure_digest : String
  pub full_disclosure_digest : String
  pub recipient_hash : String
  pub audit_delivery_failed : Bool
  pub self_view_delivery_failed : Bool

pub record BatchReconcileUpdate : Type 0 where
  pub tx_hash : String
  pub tx_succeeded : Bool
  pub tx_failed : Bool
  pub spent_reservation_ids : List String
  pub observed_outputs : List ObservedOutputEvidence
  pub failure_reason : String
