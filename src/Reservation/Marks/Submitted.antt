-- ===== src/Reservation/Marks/Submitted.antt =====
-- memory_store.go: a reservation and an operation before and after they were marked as submitted.
use clairveil.Prelude.{ℕ, ◌+◌, ◌%◌, ◌^◌, ◌≡◌, refl, List, [], ◌∷◌, map, All}
use clairveil.Reservation.Status.{ReservationStatus, OperationStatus}
use clairveil.Reservation.Types.{NoteReservation, PayrollOperation, SubmittedReservationUpdate}
use clairveil.Reservation.Marks.{submitted, submitted_operation}

-- The reservation after it was submitted, from the one before: with the transaction's identity, the account
-- sequence and one more attempt, at this time and without a lease, and nothing else changed.
pub record IsSubmitted (u : SubmittedReservationUpdate) (now : ℕ) (old new : NoteReservation)
    : Type 0 where
  pub status : new.status ≡ ReservationStatus.submitted
  pub tx_hash : new.tx_hash ≡ u.tx_hash
  pub tx_bytes_hash : new.tx_bytes_hash ≡ u.tx_bytes_hash
  pub sign_doc_hash : new.sign_doc_hash ≡ u.sign_doc_hash
  pub account_sequence : new.account_sequence ≡ u.account_sequence
  pub attempts : new.broadcast_attempt_count ≡ (old.broadcast_attempt_count + 1) % 2 ^ 64
  pub last_broadcast_at : new.last_broadcast_at ≡ now
  pub updated_at : new.updated_at ≡ now
  pub no_owner : new.lease_owner ≡ ""
  pub no_token : new.lease_token ≡ ""
  pub no_end : new.lease_until ≡ 0
  pub no_heartbeat : new.last_heartbeat_at ≡ 0
  pub same_id : new.reservation_id ≡ old.reservation_id
  pub same_operation : new.operation_id ≡ old.operation_id
  pub same_owner_key : new.owner_key_id ≡ old.owner_key_id
  pub same_lookup_key : new.nullifier_lookup_key ≡ old.nullifier_lookup_key
  pub same_audit : new.audit ≡ old.audit
  pub same_creation : new.created_at ≡ old.created_at
  pub same_company : new.company_id ≡ old.company_id
  pub same_payroll : new.payroll_id ≡ old.payroll_id
  pub same_batch : new.batch_id ≡ old.batch_id
  pub same_chunk : new.chunk_id ≡ old.chunk_id
  pub same_item : new.item_id ≡ old.item_id
  pub same_note : new.note_id ≡ old.note_id
  pub same_nullifier : new.encrypted_nullifier ≡ old.encrypted_nullifier
  pub same_lookup_key_id : new.nullifier_lookup_key_id ≡ old.nullifier_lookup_key_id
  pub same_expiry : new.expires_at ≡ old.expires_at
  pub same_error : new.last_broadcast_error ≡ old.last_broadcast_error

pub submitted-IsSubmitted :
    (u : SubmittedReservationUpdate) (now : ℕ) (r : NoteReservation)
    → IsSubmitted u now r (submitted u now r)
unfolding submitted
submitted-IsSubmitted u now r = record {
  status = refl;
  tx_hash = refl;
  tx_bytes_hash = refl;
  sign_doc_hash = refl;
  account_sequence = refl;
  attempts = refl;
  last_broadcast_at = refl;
  updated_at = refl;
  no_owner = refl;
  no_token = refl;
  no_end = refl;
  no_heartbeat = refl;
  same_id = refl;
  same_operation = refl;
  same_owner_key = refl;
  same_lookup_key = refl;
  same_audit = refl;
  same_creation = refl;
  same_company = refl;
  same_payroll = refl;
  same_batch = refl;
  same_chunk = refl;
  same_item = refl;
  same_note = refl;
  same_nullifier = refl;
  same_lookup_key_id = refl;
  same_expiry = refl;
  same_error = refl;
}

-- The operation as it is after it was submitted.
pub record IsSubmittedOperation (u : SubmittedReservationUpdate) (now : ℕ) (o : PayrollOperation)
    : Type 0 where
  pub status : o.status ≡ OperationStatus.submitted
  pub tx_hash : o.tx_hash ≡ u.tx_hash
  pub tx_bytes_hash : o.tx_bytes_hash ≡ u.tx_bytes_hash
  pub sign_doc_hash : o.sign_doc_hash ≡ u.sign_doc_hash
  pub updated_at : o.updated_at ≡ now

pub submitted_operations :
    (u : SubmittedReservationUpdate) (now : ℕ) (os : List PayrollOperation)
    → All (IsSubmittedOperation u now) (map (submitted_operation u now) os)
unfolding submitted_operation
submitted_operations u now [] = tt
submitted_operations u now (o ∷ os) = (
  record {
    status = refl;
    tx_hash = refl;
    tx_bytes_hash = refl;
    sign_doc_hash = refl;
    updated_at = refl;
  },
  submitted_operations u now os,
)
