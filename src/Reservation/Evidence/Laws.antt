-- ===== src/Reservation/Evidence/Laws.antt =====
-- status.go: operation statuses are told apart by their comparison.
use clairveil.Prelude.{
  ℕ, ◌-◌, ◌≡◌, ◌≢◌, ◌==◌, true, false, refl, sym, ap, ◌∙◌, arith, ==_iff, if◌then◌else◌,
}
use clairveil.Reservation.Status.{OperationStatus}
use clairveil.Reservation.Evidence.{operation_code, operation_status_eq}

-- The status with the given code.
abbrev decode_operation : ℕ → OperationStatus
decode_operation n =
    if n == 0
    then OperationStatus.planned
    else if n == 1
    then OperationStatus.proving
    else if n == 2
    then OperationStatus.proof_ready
    else if n == 3
    then OperationStatus.submitted
    else if n == 4
    then OperationStatus.succeeded
    else if n == 5
    then OperationStatus.failed
    else if n == 6
    then OperationStatus.replan_required
    else if n == 7
    then OperationStatus.unknown
    else if n == 8
    then OperationStatus.manual_review
    else if n == 9
    then OperationStatus.conflict_spent
    else if n == 10
    then OperationStatus.unset
    else OperationStatus.other (n - 11)

decode-operation_code : (s : OperationStatus) → decode_operation (operation_code s) ≡ s
decode-operation_code (OperationStatus.other n) = ground arith
decode-operation_code _ = refl

pub operation_status_eq-false : (a b : OperationStatus) → operation_status_eq a b ≡ false → a ≢ b
unfolding operation_status_eq
operation_status_eq-false a b h e =
    absurd (cc (h, (==_iff (operation_code a) (operation_code b)).1 (ap operation_code e)))

pub operation_status_eq-true : (a b : OperationStatus) → operation_status_eq a b ≡ true → a ≡ b
unfolding operation_status_eq
operation_status_eq-true a b h =
    sym (decode-operation_code a)
    ∙ ap decode_operation ((==_iff (operation_code a) (operation_code b)).0 h)
    ∙ decode-operation_code b
