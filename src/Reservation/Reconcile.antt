-- ===== src/Reservation/Reconcile.antt =====
-- reconcile.go: what evidence from the chain makes of a reservation and of its operation.
pub mod Agreement
pub mod Verdict
pub mod Linked
pub mod Outcome
pub mod Operations
pub mod Tests
use clairveil.Prelude.{
  ℕ, ◌+◌, String, Bool, true, false, not, ◌&&◌, ◌||◌, ◌==◌, Option, none, some, List, [], ◌∷◌,
  str_eq, if◌then◌else◌,
}
use clairveil.Prelude.Int.{ℤ, leb_ℤ}
use clairveil.Prelude.Result.{Result, ok, err, or_fail, ◌>>=◌, ◌>>◌}
use clairveil.Prelude.Exec.{Exec, continue}
use clairveil.Prelude.Dict.{lookup}
use clairveil.Reservation.Status.{
  ReservationStatus, OperationStatus, status_eq, is_terminal, is_terminal_operation,
  requires_lease_token,
}
use clairveil.Reservation.Types.{Error, NoteReservation, PayrollOperation}
use clairveil.Reservation.Store.{MemoryStore, Method}
use clairveil.Reservation.Transition.{compare_and_set_with_operation, find_reservation}
use clairveil.Reservation.Identity.{
  trim, first_non_empty, match_required, normalized, identity_matches,
}
use clairveil.Reservation.Links.{is_nil}
use clairveil.Reservation.Audit.{list_eq}
use clairveil.Reservation.Evidence.{
  OperationEvidence, Reason, ReconcileResult, operation_status_eq, current_status, failed_target,
  terminal_review, reconciled, review, evidence_matches_tx, operation_matches,
}

-- The operation that `reconcileReservationOperation` hands to the store, and the status that it returns
-- where it hands none.
unfoldable pub operation_update :
    Option PayrollOperation → OperationStatus → ℕ → Option PayrollOperation × OperationStatus
unfolding operation_status_eq
operation_update none to now = (none, to)
operation_update (some o) to now =
    if is_terminal_operation o.status && not (operation_status_eq o.status to)
    then (none, o.status)
    else (some (record o { status = to; updated_at = now }), to)

abbrev pub returned_status : Option PayrollOperation → OperationStatus → OperationStatus
returned_status none next = next
returned_status (some o) next = o.status

-- `reconcileReservationOperation`.
unfoldable pub reconcile_operation :
    NoteReservation
    → Option PayrollOperation
    → ReservationStatus
    → OperationStatus
    → ℕ
    → Method (NoteReservation × OperationStatus)
unfolding operation_update
reconcile_operation r o to operation_to now s =
    if requires_lease_token r.status to
    then (err Error.lease_mismatch, s)
    else (let (result, t) =
          compare_and_set_with_operation r.reservation_id r.status to
            (operation_update o operation_to now).0 now s in
        continue result
          (λ p t. (ok (p.0, returned_status p.1 (operation_update o operation_to now).1), t)) t)

-- Every branch of `Reconcile` ends in a result, in one call of `reconcileReservationOperation` and a
-- result made of what it returns, or in an error.
pub data Plan : Type 0 where
  answer : ReconcileResult → Plan
  move :
      ReservationStatus
      → OperationStatus
      → (ReservationStatus → OperationStatus → ReconcileResult)
      → Plan
  refuse : Plan

-- `Reconcile`, where neither the transaction nor the nullifier is known.
unfoldable pub silent_plan : NoteReservation → Option PayrollOperation → Plan
unfolding reconciled current_status
silent_plan r o =
    if status_eq r.status ReservationStatus.manual_review
    then Plan.answer (review r.status (current_status o) Reason.requires_manual_review)
    else if status_eq r.status ReservationStatus.unknown
    then Plan.answer (
        reconciled ReservationStatus.unknown (current_status o) OperationStatus.unknown
          Reason.state_unknown)
    else Plan.move ReservationStatus.unknown OperationStatus.unknown
        (λ q p. reconciled q p OperationStatus.unknown Reason.state_unknown)

-- `Reconcile`, where the transaction failed and the nullifier is unspent.
unfoldable pub failed_plan : NoteReservation → Option PayrollOperation → Bool → Plan
unfolding reconciled current_status failed_target
failed_plan r o false =
    Plan.move ReservationStatus.manual_review OperationStatus.manual_review
      (λ q p. review q p Reason.failed_unmatched)
failed_plan r o true =
    if status_eq r.status (failed_target o).0
    then Plan.answer
        (reconciled r.status (current_status o) (failed_target o).1 Reason.failed_unspent)
    else Plan.move (failed_target o).0 (failed_target o).1
        (λ q p. reconciled q p (failed_target o).1 Reason.failed_unspent)

-- `Reconcile`, where the transaction succeeded or the nullifier is spent.
unfoldable pub spent_plan : Bool → Plan
unfolding reconciled
spent_plan false =
    Plan.move ReservationStatus.confirmed_spent OperationStatus.conflict_spent
      (λ q p. review q p Reason.spent_unmatched)
spent_plan true =
    Plan.move ReservationStatus.confirmed_spent OperationStatus.succeeded
      (λ q p. reconciled q p OperationStatus.succeeded Reason.evidence_matched)

-- `Reconcile` on a terminal reservation.
unfoldable pub terminal_plan : NoteReservation → Option PayrollOperation → Plan
unfolding current_status terminal_review
terminal_plan r o = Plan.answer record {
  reservation_status = r.status;
  operation_status = current_status o;
  requires_review = (terminal_review r.status (current_status o)).0;
  reason = (terminal_review r.status (current_status o)).1;
}

unfoldable pub is_silent : OperationEvidence → Bool
is_silent e = not (e.tx_known || e.tx_succeeded || e.tx_failed) && not e.nullifier_spent

unfoldable pub is_failed : OperationEvidence → Bool
is_failed e = e.tx_failed && not e.nullifier_spent

unfoldable pub is_spent : OperationEvidence → Bool
is_spent e = e.tx_succeeded || e.nullifier_spent

module _ (lower : ℕ → ℕ) where
  -- The branches of `Reconcile`, after its two reads.
  unfoldable pub plan : NoteReservation → Option PayrollOperation → OperationEvidence → Plan
  unfolding terminal_plan silent_plan failed_plan spent_plan is_silent is_failed is_spent
      evidence_matches_tx operation_matches
  plan r o e =
      if is_terminal r.status
      then terminal_plan r o
      else if is_silent e
      then silent_plan r o
      else if is_failed e
      then failed_plan r o (evidence_matches_tx lower o e)
      else if is_spent e
      then spent_plan (operation_matches lower o e)
      else Plan.refuse

unfoldable pub act : NoteReservation → Option PayrollOperation → ℕ → Plan → Method ReconcileResult
unfolding reconcile_operation
act r o now (Plan.answer result) s = (ok result, s)
act r o now (Plan.move to operation_to finish) s =
    let (moved, t) = reconcile_operation r o to operation_to now s in
    continue moved (λ p t. (ok (finish p.0.status p.1), t)) t
act r o now Plan.refuse s = (err Error.manual_review_required, s)

-- The two reads of `Reconcile`.
unfoldable pub find_operation :
    NoteReservation → MemoryStore → Result Error (Option PayrollOperation)
find_operation r s =
    if str_eq r.operation_id ""
    then ok none
    else or_fail (lookup r.operation_id s.operations) Error.operation_not_found >>= λ o. ok (some o)

unfoldable pub reads_of :
    String → MemoryStore → Result Error (NoteReservation × Option PayrollOperation)
unfolding find_reservation find_operation
reads_of id s = do r ← find_reservation id s; o ← find_operation r s; ok (r, o)

module _ (lower : ℕ → ℕ) where
  -- `Reconcile`, with no other call of the store between its own.
  unfoldable pub reconcile : String → OperationEvidence → ℕ → Method ReconcileResult
  unfolding reads_of plan act
  reconcile id e now s =
      continue (reads_of id s) (λ p t. act p.0 p.1 now (plan lower p.0 p.1 e) t) s
