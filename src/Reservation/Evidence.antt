-- ===== src/Reservation/Evidence.antt =====
-- reconcile.go: the evidence, and its comparison with a reservation and with an operation.
pub mod Laws
use clairveil.Prelude.{
  ℕ, ◌+◌, String, Bool, true, false, not, ◌&&◌, ◌||◌, ◌==◌, Option, none, some, List, [], ◌∷◌,
  str_eq, if◌then◌else◌,
}
use clairveil.Prelude.Int.{ℤ, leb_ℤ}
use clairveil.Reservation.Status.{
  ReservationStatus, OperationStatus, status_eq, is_terminal_operation,
}
use clairveil.Reservation.Types.{PayrollOperation}
use clairveil.Reservation.Identity.{
  trim, first_non_empty, match_required, normalized, identity_matches,
}
use clairveil.Reservation.Links.{is_nil}
use clairveil.Reservation.Audit.{list_eq}

pub record OperationEvidence : Type 0 where
  pub tx_hash : String
  pub sign_doc_hash : String
  pub tx_bytes_hash : String
  pub output_commitment : String
  pub disclosure_digest : String
  pub user_disclosure_digest : String
  pub audit_disclosure_digest : String
  pub self_view_disclosure_digest : String
  pub recipient_hash : String
  pub amount_hash : String
  pub denom : String
  pub batch_item_index : ℤ
  pub batch_item_index_known : Bool
  pub nullifier_spent : Bool
  pub tx_succeeded : Bool
  pub tx_failed : Bool
  pub tx_known : Bool

-- The texts of `ReconcileResult.Reason`.
pub data Reason : Type 0 where
  already_terminal terminal_operation_requires_review spent_without_success failed_with_success :
      Reason
  requires_manual_review state_unknown failed_unmatched failed_unspent spent_unmatched : Reason
  evidence_matched operation_already_terminal : Reason

pub record ReconcileResult : Type 0 where
  pub reservation_status : ReservationStatus
  pub operation_status : OperationStatus
  pub requires_review : Bool
  pub reason : Reason

abbrev pub operation_code : OperationStatus → ℕ
operation_code OperationStatus.planned = 0
operation_code OperationStatus.proving = 1
operation_code OperationStatus.proof_ready = 2
operation_code OperationStatus.submitted = 3
operation_code OperationStatus.succeeded = 4
operation_code OperationStatus.failed = 5
operation_code OperationStatus.replan_required = 6
operation_code OperationStatus.unknown = 7
operation_code OperationStatus.manual_review = 8
operation_code OperationStatus.conflict_spent = 9
operation_code OperationStatus.unset = 10
operation_code (OperationStatus.other n) = 11 + n

-- `a == b` on statuses of operations.
unfoldable pub operation_status_eq : OperationStatus → OperationStatus → Bool
operation_status_eq a b = operation_code a == operation_code b

-- `currentOperationStatus`.
unfoldable pub current_status : Option PayrollOperation → OperationStatus
current_status none = OperationStatus.unknown
current_status (some o) = o.status

-- `operationStatusRequiresReview`.
unfoldable pub status_requires_review : OperationStatus → Bool
status_requires_review OperationStatus.conflict_spent = true
status_requires_review OperationStatus.manual_review = true
status_requires_review _ = false

-- `failedTxReconcileTarget`.
unfoldable pub failed_target : Option PayrollOperation → ReservationStatus × OperationStatus
unfolding operation_status_eq
failed_target none = (ReservationStatus.failed, OperationStatus.failed)
failed_target (some o) =
    if is_terminal_operation o.status && not (operation_status_eq o.status OperationStatus.failed)
    then (ReservationStatus.manual_review, OperationStatus.manual_review)
    else (ReservationStatus.failed, OperationStatus.failed)

-- `terminalReservationReview`.
unfoldable pub terminal_review : ReservationStatus → OperationStatus → Bool × Reason
unfolding status_requires_review operation_status_eq
terminal_review r o =
    if status_requires_review o
    then (true, Reason.terminal_operation_requires_review)
    else if status_eq r ReservationStatus.confirmed_spent
        && not (operation_status_eq o OperationStatus.succeeded)
    then (true, Reason.spent_without_success)
    else if status_eq r ReservationStatus.failed && operation_status_eq o OperationStatus.succeeded
    then (true, Reason.failed_with_success)
    else (false, Reason.already_terminal)

-- `reconciledResult`.
unfoldable pub reconciled :
    ReservationStatus → OperationStatus → OperationStatus → Reason → ReconcileResult
unfolding operation_status_eq
reconciled r o requested reason =
    let preserved = not (operation_status_eq o requested) && is_terminal_operation o in
    record {
      reservation_status = r;
      operation_status = o;
      requires_review = preserved;
      reason = if preserved then Reason.operation_already_terminal else reason;
    }

abbrev pub review : ReservationStatus → OperationStatus → Reason → ReconcileResult
review r o reason = record {
  reservation_status = r;
  operation_status = o;
  requires_review = true;
  reason = reason;
}

module _ (lower : ℕ → ℕ) where
  -- The end of `txEvidenceMatchesOperation`, on the normalised hashes of the sign document.
  unfoldable pub sign_doc_matches : List ℕ → List ℕ → Bool → Bool
  sign_doc_matches expected actual matched =
      if is_nil expected
      then matched
      else if list_eq actual expected
      then true
      else is_nil actual && matched

  -- `txEvidenceMatchesOperation`, on an operation that is not nil.
  unfoldable pub tx_matches : PayrollOperation → OperationEvidence → Bool
  unfolding sign_doc_matches
  tx_matches o e =
      elim (identity_matches lower
        (normalized lower o.tx_hash ∷ normalized lower o.tx_bytes_hash ∷ [])
        (normalized lower e.tx_hash ∷ normalized lower e.tx_bytes_hash ∷ [])) [
          | none ↦ false
          | some matched ↦
              sign_doc_matches (normalized lower o.sign_doc_hash) (normalized lower e.sign_doc_hash)
                matched
        ]

  unfoldable pub evidence_matches_tx : Option PayrollOperation → OperationEvidence → Bool
  evidence_matches_tx none e = false
  evidence_matches_tx (some o) e = tx_matches o e

  -- `operationMatchesEvidence`.
  unfoldable pub operation_matches : Option PayrollOperation → OperationEvidence → Bool
  operation_matches none e = false
  operation_matches (some o) e =
      tx_matches o e
      && match_required (trim o.expected_output_commitment) (trim e.output_commitment)
      && match_required
          (first_non_empty (o.expected_audit_disclosure_digest ∷ o.expected_disclosure_digest ∷ []))
          (first_non_empty (e.audit_disclosure_digest ∷ e.disclosure_digest ∷ []))
      && (str_eq o.expected_user_disclosure_digest ""
          || match_required (trim o.expected_user_disclosure_digest)
              (trim e.user_disclosure_digest))
      && (str_eq o.expected_self_view_disclosure_digest ""
          || match_required (trim o.expected_self_view_disclosure_digest)
              (trim e.self_view_disclosure_digest))
      && match_required (trim o.expected_recipient_hash) (trim e.recipient_hash)
      && match_required (trim o.expected_amount_hash) (trim e.amount_hash)
      && match_required (trim o.expected_denom) (trim e.denom)
      && (not o.batch_item_index_known
          || (e.batch_item_index_known
              && leb_ℤ o.batch_item_index e.batch_item_index
              && leb_ℤ e.batch_item_index o.batch_item_index))
