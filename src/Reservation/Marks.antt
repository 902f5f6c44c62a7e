-- ===== src/Reservation/Marks.antt =====
-- memory_store.go: the methods that move a whole operation's leased reservations at once.
pub mod Written
pub mod Submitted
pub mod Effects
use clairveil.Prelude.{
  ℕ, ◌+◌, ◌%◌, ◌^◌, String, Bool, true, false, not, ◌&&◌, ◌||◌, Option, none, some, List, [], ◌∷◌,
  map, str_eq, if◌then◌else◌,
}
use clairveil.Prelude.Result.{Result, ok, err, guard, or_fail, ◌>>=◌, ◌>>◌}
use clairveil.Prelude.Exec.{Exec, continue}
use clairveil.Prelude.Dict.{StringSet, set_of, lookup}
use clairveil.Reservation.Status.{ReservationStatus, OperationStatus}
use clairveil.Reservation.Types.{
  Error, NoteReservation, PayrollOperation, SubmittedReservationRef, SubmittedReservationUpdate,
  BroadcastAttemptUpdate, ProofReadyOperationUpdate,
}
use clairveil.Reservation.Links.{
  is_blank, is_nil, has_operation_id, operation_ids_for, non_empty, all_unlinked, validate_leased,
  load_linked_operations, validate_links,
}
use clairveil.Reservation.Store.{MemoryStore, Method, clear_lease_fields}
use clairveil.Reservation.Create.{put_reservations, put_operations}
use clairveil.Reservation.Transition.{put_operation_if}

-- `reservation.BroadcastAttemptCount++`.
abbrev pub next_attempt : ℕ → ℕ
next_attempt n = (n + 1) % 2 ^ 64

-- The writes of `MarkReservationsSubmitted` to one reservation and to one operation.
unfoldable pub submitted : SubmittedReservationUpdate → ℕ → NoteReservation → NoteReservation
submitted u now r = record r {
  status = ReservationStatus.submitted;
  tx_hash = u.tx_hash;
  tx_bytes_hash = u.tx_bytes_hash;
  sign_doc_hash = u.sign_doc_hash;
  account_sequence = u.account_sequence;
  broadcast_attempt_count = next_attempt r.broadcast_attempt_count;
  last_broadcast_at = now;
  lease_owner = "";
  lease_token = "";
  lease_until = 0;
  last_heartbeat_at = 0;
  updated_at = now;
}

unfoldable pub submitted_operation :
    SubmittedReservationUpdate → ℕ → PayrollOperation → PayrollOperation
submitted_operation u now o = record o {
  status = OperationStatus.submitted;
  tx_hash = u.tx_hash;
  tx_bytes_hash = u.tx_bytes_hash;
  sign_doc_hash = u.sign_doc_hash;
  updated_at = now;
}

-- The writes of `MarkReservationsBroadcastUnknown`.
unfoldable pub broadcast_unknown : BroadcastAttemptUpdate → ℕ → NoteReservation → NoteReservation
broadcast_unknown u now r = record r {
  status = ReservationStatus.unknown;
  tx_hash = u.tx_hash;
  tx_bytes_hash = u.tx_bytes_hash;
  sign_doc_hash = u.sign_doc_hash;
  account_sequence = u.account_sequence;
  broadcast_attempt_count = next_attempt r.broadcast_attempt_count;
  last_broadcast_at = now;
  last_broadcast_error = u.last_broadcast_error;
  lease_owner = "";
  lease_token = "";
  lease_until = 0;
  last_heartbeat_at = 0;
  updated_at = now;
}

unfoldable pub broadcast_unknown_operation :
    BroadcastAttemptUpdate → ℕ → PayrollOperation → PayrollOperation
broadcast_unknown_operation u now o = record o {
  status = OperationStatus.unknown;
  tx_hash = u.tx_hash;
  tx_bytes_hash = u.tx_bytes_hash;
  sign_doc_hash = u.sign_doc_hash;
  updated_at = now;
}

-- `submittedUpdateHasTxIdentity` and `broadcastAttemptHasTxIdentity`.
unfoldable pub has_tx_identity : String → String → String → Bool
has_tx_identity tx_hash tx_bytes_hash sign_doc_hash =
    not (is_blank tx_hash) || not (is_blank tx_bytes_hash) || not (is_blank sign_doc_hash)

-- The checks of the two methods after those on their arguments: the reservations and operations.
unfoldable pub load_marked :
    List SubmittedReservationRef
    → List String
    → ℕ
    → MemoryStore
    → Result Error (List NoteReservation × List PayrollOperation)
load_marked refs ids now s = do
  rs ← validate_leased refs ReservationStatus.proof_ready now [] s
  os ← load_linked_operations (operation_ids_for rs ids) [] s
  validate_links rs (set_of (non_empty (operation_ids_for rs ids))) s
  ok (rs, os)

-- What the two methods write and return, from the reservations and operations that were loaded.
unfoldable pub write_marked :
    (NoteReservation → NoteReservation)
    → (PayrollOperation → PayrollOperation)
    → List NoteReservation × List PayrollOperation
    → Method (List NoteReservation × List PayrollOperation)
write_marked f g (rs, os) s =
    (ok (map f rs, map g os), put_operations (map g os) (put_reservations (map f rs) s))

-- The common body of `MarkReservationsSubmitted` and `MarkReservationsBroadcastUnknown`.
unfoldable pub mark_broadcast :
    (NoteReservation → NoteReservation)
    → (PayrollOperation → PayrollOperation)
    → Bool
    → List SubmittedReservationRef
    → List String
    → ℕ
    → Method (List NoteReservation × List PayrollOperation)
unfolding write_marked
mark_broadcast f g identified [] ids now s =
    (if has_operation_id ids then err Error.invalid_reservation else ok ([], []), s)
mark_broadcast f g identified (ref ∷ refs) ids now s =
    continue (guard identified Error.invalid_reservation >> load_marked (ref ∷ refs) ids now s)
      (write_marked f g) s

-- `MarkReservationsSubmitted`.
unfoldable pub mark_submitted :
    List SubmittedReservationRef
    → List String
    → SubmittedReservationUpdate
    → ℕ
    → Method (List NoteReservation × List PayrollOperation)
unfolding mark_broadcast
mark_submitted refs ids u now =
    mark_broadcast (submitted u now) (submitted_operation u now)
      (has_tx_identity u.tx_hash u.tx_bytes_hash u.sign_doc_hash) refs ids now

-- `MarkReservationsBroadcastUnknown`.
unfoldable pub mark_broadcast_unknown :
    List SubmittedReservationRef
    → List String
    → BroadcastAttemptUpdate
    → ℕ
    → Method (List NoteReservation × List PayrollOperation)
unfolding mark_broadcast
mark_broadcast_unknown refs ids u now =
    mark_broadcast (broadcast_unknown u now) (broadcast_unknown_operation u now)
      (has_tx_identity u.tx_hash u.tx_bytes_hash u.sign_doc_hash) refs ids now

-- `mergeExpectedProofReadyValue`.
unfoldable pub merge_expected : String → String → Result Error String
merge_expected existing incoming =
    if str_eq incoming ""
    then ok existing
    else if str_eq existing ""
    then ok incoming
    else if not (str_eq existing incoming)
    then err Error.invalid_reservation
    else ok existing

-- The operation that `MarkReservationsProofReady` writes.
unfoldable pub proof_ready_operation :
    ProofReadyOperationUpdate → ℕ → PayrollOperation → Result Error PayrollOperation
unfolding merge_expected
proof_ready_operation u now o = do
  output ← merge_expected o.expected_output_commitment u.expected_output_commitment
  disclosure ← merge_expected o.expected_disclosure_digest u.expected_disclosure_digest
  user ← merge_expected o.expected_user_disclosure_digest u.expected_user_disclosure_digest
  audit ← merge_expected o.expected_audit_disclosure_digest u.expected_audit_disclosure_digest
  self_view ←
      merge_expected o.expected_self_view_disclosure_digest u.expected_self_view_disclosure_digest
  ok (record o {
    expected_output_commitment = output;
    expected_disclosure_digest = disclosure;
    expected_user_disclosure_digest = user;
    expected_audit_disclosure_digest = audit;
    expected_self_view_disclosure_digest = self_view;
    status = OperationStatus.proof_ready;
    updated_at = now;
  })

-- `MarkReservationsProofReady`, the operation that it writes: none if the update names none.
unfoldable pub proof_ready_link :
    List NoteReservation
    → ProofReadyOperationUpdate
    → ℕ
    → MemoryStore
    → Result Error (Option PayrollOperation)
proof_ready_link rs u now s =
    if str_eq u.operation_id ""
    then guard (all_unlinked rs) Error.invalid_reservation >> ok none
    else (do
      existing ← or_fail (lookup u.operation_id s.operations) Error.operation_not_found
      validate_links rs (set_of (u.operation_id ∷ [])) s
      o ← proof_ready_operation u now existing
      ok (some o))

unfoldable pub proof_ready : ℕ → NoteReservation → NoteReservation
proof_ready now r = record r { status = ReservationStatus.proof_ready; updated_at = now }

-- All the checks of `MarkReservationsProofReady`.
unfoldable pub load_proof_ready :
    List SubmittedReservationRef
    → ProofReadyOperationUpdate
    → ℕ
    → MemoryStore
    → Result Error (List NoteReservation × Option PayrollOperation)
load_proof_ready refs u now s = do
  guard (not (is_nil refs && not (str_eq u.operation_id ""))) Error.invalid_reservation
  rs ← validate_leased refs ReservationStatus.proving now [] s
  o ← proof_ready_link rs u now s
  ok (rs, o)

unfoldable pub write_proof_ready :
    ℕ
    → List NoteReservation × Option PayrollOperation
    → Method (List NoteReservation × Option PayrollOperation)
unfolding put_operation_if
write_proof_ready now (rs, o) s = (
  ok (map (proof_ready now) rs, o),
  put_operation_if o (put_reservations (map (proof_ready now) rs) s),
)

-- `MarkReservationsProofReady`.
unfoldable pub mark_proof_ready :
    List SubmittedReservationRef
    → ProofReadyOperationUpdate
    → ℕ
    → Method (List NoteReservation × Option PayrollOperation)
unfolding write_proof_ready
mark_proof_ready refs u now s = continue (load_proof_ready refs u now s) (write_proof_ready now) s

abbrev pub first_marked :
    Result Error (List NoteReservation × List PayrollOperation) → Result Error NoteReservation
first_marked (ok (r ∷ rs, os)) = ok r
first_marked (ok ([], os)) = err Error.invalid_reservation
first_marked (err e) = err e

-- `MarkReservationSubmitted`.
unfoldable pub mark_reservation_submitted :
    String → String → SubmittedReservationUpdate → ℕ → Method NoteReservation
unfolding mark_submitted
mark_reservation_submitted id token u now s =
    let (marked, t) =
      mark_submitted (record { reservation_id = id; lease_token = token } ∷ []) [] u now s in
    (first_marked marked, t)
