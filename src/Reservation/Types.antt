-- ===== src/Reservation/Types.antt =====
-- types.go and errors.go: the records that a store keeps. A `time.Time` is the number of its
-- nanoseconds since the zero time, so `IsZero` is `== 0`; a byte slice is a list of bytes.
use Prim.Native.String.{◌++◌}
use clairveil.Prelude.{ℕ, String, Bool, Option, List}
use clairveil.Prelude.Int.{ℤ}
use clairveil.Reservation.Status.{ReservationStatus, OperationStatus}

-- The sentinels of errors.go, and the errors that wrap none of them.
pub data Error : Type 0 where
  invalid_reservation reservation_not_found operation_not_found active_reservation_exists : Error
  invalid_transition compare_and_set_failed lease_unavailable lease_mismatch : Error
  manual_review_required : Error
  operation_id_required operation_exists store_required owner_required ttl_not_positive : Error
  token_unavailable invalid_snapshot : Error

pub record AuditBinding : Type 0 where
  pub network_id : String
  pub key_id : String
  pub epoch : ℕ
  pub artifact_hash : String
  pub expires_at_unix : ℤ

pub record NoteReservation : Type 0 where
  pub reservation_id : String
  pub company_id : String
  pub payroll_id : String
  pub batch_id : String
  pub chunk_id : String
  pub item_id : String
  pub note_id : String
  pub owner_key_id : String
  pub encrypted_nullifier : List ℕ
  pub nullifier_lookup_key : String
  pub nullifier_lookup_key_id : String
  pub status : ReservationStatus
  pub expires_at : ℕ
  pub lease_owner : String
  pub lease_token : String
  pub lease_until : ℕ
  pub last_heartbeat_at : ℕ
  pub operation_id : String
  pub sign_doc_hash : String
  pub tx_bytes_hash : String
  pub tx_hash : String
  pub account_sequence : ℕ
  -- Go's `int`, as its 64-bit pattern.
  pub broadcast_attempt_count : ℕ
  pub last_broadcast_at : ℕ
  pub last_broadcast_error : String
  pub audit : Option AuditBinding
  pub created_at : ℕ
  pub updated_at : ℕ

pub record PayrollOperation : Type 0 where
  pub operation_id : String
  pub company_id : String
  pub payroll_id : String
  pub batch_id : String
  pub chunk_id : String
  pub item_id : String
  pub reservation_id : String
  pub expected_output_commitment : String
  pub expected_disclosure_digest : String
  pub expected_user_disclosure_digest : String
  pub expected_audit_disclosure_digest : String
  pub expected_self_view_disclosure_digest : String
  pub expected_recipient_hash : String
  pub encrypted_expected_recipient : List ℕ
  pub encrypted_expected_amount : List ℕ
  pub expected_amount_hash : String
  pub expected_denom : String
  pub batch_item_index : ℤ
  pub batch_item_index_known : Bool
  pub sign_doc_hash : String
  pub tx_bytes_hash : String
  pub tx_hash : String
  pub status : OperationStatus
  pub created_at : ℕ
  pub updated_at : ℕ

pub record Lease : Type 0 where
  pub owner : String
  pub token : String
  pub until : ℕ

pub record SubmittedReservationUpdate : Type 0 where
  pub tx_hash : String
  pub tx_bytes_hash : String
  pub sign_doc_hash : String
  pub account_sequence : ℕ

pub record BroadcastAttemptUpdate : Type 0 where
  pub tx_hash : String
  pub tx_bytes_hash : String
  pub sign_doc_hash : String
  pub account_sequence : ℕ
  pub last_broadcast_error : String

pub record SubmittedReservationRef : Type 0 where
  pub reservation_id : String
  pub lease_token : String

pub record ProofReadyOperationUpdate : Type 0 where
  pub operation_id : String
  pub expected_output_commitment : String
  pub expected_disclosure_digest : String
  pub expected_user_disclosure_digest : String
  pub expected_audit_disclosure_digest : String
  pub expected_self_view_disclosure_digest : String

pub record ReservationFilter : Type 0 where
  pub statuses : List ReservationStatus
  pub limit : ℤ

-- `ActiveKey`.
unfoldable pub active_key : NoteReservation → String
active_key r = r.owner_key_id ++ "\0" ++ r.nullifier_lookup_key
