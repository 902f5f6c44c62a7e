-- ===== src/Reservation/Batch/Settle.antt =====
-- batch_memory_store.go: what `ReconcileBatchOperation` makes of the status and of the inputs.
use clairveil.Prelude.{
  ℕ, String, Bool, not, ◌&&◌, ◌||◌, ◌==◌, ltb, Option, none, some, List, [], ◌∷◌, if◌then◌else◌,
}
use clairveil.Prelude.Dict.{StringSet, lookup, contains}
use clairveil.Reservation.Status.{
  ReservationStatus, OperationStatus, is_active, is_terminal_operation,
}
use clairveil.Reservation.Types.{NoteReservation}
use clairveil.Reservation.Store.{MemoryStore, put_reservation}
use clairveil.Reservation.Transition.{transitioned}
use clairveil.Reservation.Evidence.{operation_status_eq}
use clairveil.Reservation.Batch.Types.{OperationInputReservation}

abbrev pub conflict_reason : String
conflict_reason = "terminal batch reconciliation contradicts the prior terminal outcome"

-- What the transaction and the inputs prove, for `spent` of `count` inputs.
unfoldable pub proven_status : Bool → Bool → ℕ → ℕ → OperationStatus
proven_status succeeded failed spent count =
    if succeeded && spent == count
    then OperationStatus.succeeded
    else if failed && spent == 0
    then OperationStatus.failed
    else OperationStatus.manual_review

unfoldable pub is_conflict : OperationStatus → OperationStatus → Bool
unfolding operation_status_eq
is_conflict now proven = is_terminal_operation now && not (operation_status_eq proven now)

-- The status that is stored.
unfoldable pub target_status : OperationStatus → OperationStatus → ℕ → OperationStatus
unfolding is_conflict operation_status_eq
target_status now proven spent =
    if is_conflict now proven
    then (if operation_status_eq now OperationStatus.conflict_spent
          || (operation_status_eq now OperationStatus.failed && ltb 0 spent)
        then OperationStatus.conflict_spent
        else OperationStatus.manual_review)
    else proven

-- The zero `NoteReservation`, which a missing key of a map gives.
abbrev zero_reservation : NoteReservation
zero_reservation = record {
  reservation_id = "";
  company_id = "";
  payroll_id = "";
  batch_id = "";
  chunk_id = "";
  item_id = "";
  note_id = "";
  owner_key_id = "";
  encrypted_nullifier = [];
  nullifier_lookup_key = "";
  nullifier_lookup_key_id = "";
  status = ReservationStatus.unset;
  expires_at = 0;
  lease_owner = "";
  lease_token = "";
  lease_until = 0;
  last_heartbeat_at = 0;
  operation_id = "";
  sign_doc_hash = "";
  tx_bytes_hash = "";
  tx_hash = "";
  account_sequence = 0;
  broadcast_attempt_count = 0;
  last_broadcast_at = 0;
  last_broadcast_error = "";
  audit = none;
  created_at = 0;
  updated_at = 0;
}

unfoldable pub found_or_zero : Option NoteReservation → NoteReservation
found_or_zero none = zero_reservation
found_or_zero (some r) = r

-- One input of the loop, as it was found.
unfoldable pub settle_found : Bool → Bool → ℕ → NoteReservation → MemoryStore → MemoryStore
settle_found is_spent replan now r s =
    if is_spent
    then put_reservation (transitioned ReservationStatus.confirmed_spent now r) s
    else if replan && is_active r.status
    then put_reservation (transitioned ReservationStatus.replan_required now r) s
    else s

-- The loop on the inputs.
unfoldable pub settle_inputs :
    StringSet → Bool → ℕ → List OperationInputReservation → MemoryStore → MemoryStore
unfolding settle_found found_or_zero
settle_inputs spent replan now [] s = s
settle_inputs spent replan now (i ∷ is) s = settle_inputs spent replan now is (
    settle_found (contains i.reservation_id spent) replan now
      (found_or_zero (lookup i.reservation_id s.reservations)) s)
